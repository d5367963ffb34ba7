-- ===== src/Ntfs/Tests.antt =====
-- The theorems on NTFS at concrete inputs, and concrete runs.
mod Volume
mod Metadata
mod Record
use forensis.Prelude.{
  All-append, All-replicate, IsByte, List, [], arith, false, map, none, ok, panic, plumbing, refl,
  replicate, some, ℕ, ◌*◌, ◌++◌, ◌<◌, ◌^◌, ◌↔◌, ◌∷◌, ◌≡◌,
}
use forensis.Prelude.Int.{pos}
use forensis.Bytes.{AreBytes, read_le, byte_at, slice}
use forensis.Source.{image-IsTotal, ImageReader, readable_image, read_image}
use forensis.Ntfs.Attribute
use forensis.Ntfs.Attribute.{from_raw}
use forensis.Ntfs.Attribute.RoundTrip
use forensis.Ntfs.Attribute.RoundTrip.{parse_attribute-encode}
use forensis.Ntfs.RunReader.{DataRunReader, lcn_offset, read_lcn, read_run, read_runs}
use forensis.Ntfs.RunReader.Content.{run_contents, read_runs-contents}
use forensis.Ntfs.RunReader.Safety.{IsFar, read_run_panics}
use forensis.Ntfs.Record.{MftRecord, fix_sector, fixup_loop, apply_usa_fixup, new_record}
use forensis.Ntfs.Record.Restore.{IsRestored, new_record-IsRestored}
use forensis.Ntfs.DataRun.{DataRun, or_bytes, sign_extend, parse_lcn, parse_run, parse_runs, parse}
use forensis.Ntfs.DataRun.Encode.{Extent, sparse, physical, encode, to_run}
use forensis.Ntfs.DataRun.RoundTrip.{parse-encode}
use forensis.Ntfs.DataRun.Sound.{parse_wide_count}

-- A run at cluster 100, a hole, and a run that steps back to cluster 50.
abbrev extents : List Extent
extents = physical 1 4 1 100 ∷ sparse 1 2 ∷ physical 1 3 2 50 ∷ []

abbrev run_list : List ℕ
run_list = 0x11 ∷ 4 ∷ 100 ∷ 0x01 ∷ 2 ∷ 0x21 ∷ 3 ∷ 0xce ∷ 0xff ∷ 0 ∷ []

parses_run_list : parse run_list ≡ ok (map to_run extents)
unfolding parse parse_runs parse_run parse_lcn or_bytes sign_extend plumbing
parses_run_list = refl

parse-encode_example : parse (encode 0 extents ++ (7 ∷ [])) ≡ ok (map to_run extents)
parse-encode_example = parse-encode extents (7 ∷ []) (omega arith)

parse_wide_count_example : parse (0x09 ∷ 1 ∷ 0 ∷ 0 ∷ 0 ∷ 0 ∷ 0 ∷ 0 ∷ 0 ∷ 0 ∷ 0 ∷ []) ≡ panic
parse_wide_count_example =
    parse_wide_count 9 (1 ∷ 0 ∷ 0 ∷ 0 ∷ 0 ∷ 0 ∷ 0 ∷ 0 ∷ 0 ∷ 0 ∷ []) (omega arith) (omega arith)
      (omega arith)

-- An image of sixteen bytes, clusters of four, and a run of one cluster before a hole.
abbrev image : ImageReader
image = record {
  file = 0 ∷ 1 ∷ 2 ∷ 3 ∷ 4 ∷ 5 ∷ 6 ∷ 7 ∷ 8 ∷ 9 ∷ 10 ∷ 11 ∷ 12 ∷ 13 ∷ 14 ∷ 15 ∷ [];
  image_size = 16;
}

abbrev runs : DataRunReader
runs = record { partition_offset = 4; bytes_per_cluster = 4 }

abbrev listed : List DataRun
listed =
    record { lcn = some (pos 1); cluster_count = 1 } ∷ record { lcn = none; cluster_count = 1 } ∷ []

abbrev whole : List ℕ
whole = 8 ∷ 9 ∷ 10 ∷ 11 ∷ 0 ∷ 0 ∷ 0 ∷ 0 ∷ []

runs_read : run_contents runs (readable_image image) listed ≡ ok whole
unfolding run_contents read_run read_lcn lcn_offset readable_image read_image plumbing
runs_read = refl

read_runs-contents_example :
    read_runs runs (readable_image image) listed 6 ≡ ok (8 ∷ 9 ∷ 10 ∷ 11 ∷ 0 ∷ 0 ∷ [])
read_runs-contents_example = read_runs-contents runs (readable_image image) listed 6 whole runs_read

-- A run at a cluster behind 2 ^ 64 bytes.
abbrev far_run : DataRun
far_run = record { lcn = some (pos 0x4000_0000_0000_0000); cluster_count = 1 }

read_run_panics_example :
    (read_run runs (readable_image image) far_run ≡ panic)
    ↔ ((1 * runs.bytes_per_cluster < 2 ^ 64) × IsFar runs far_run.lcn)
read_run_panics_example =
    read_run_panics runs (readable_image image) far_run (image-IsTotal image (omega arith))

-- A record of one sector, its update sequence array behind the eight bytes of its front.
abbrev record_front : List ℕ
record_front = 0x46 ∷ 0x49 ∷ 0x4c ∷ 0x45 ∷ 8 ∷ 0 ∷ 2 ∷ 0 ∷ 1 ∷ 0 ∷ 7 ∷ 9 ∷ []

abbrev stored : List ℕ
stored = record_front ++ (replicate 498 0 ++ (1 ∷ 0 ∷ []))

abbrev made : MftRecord
made = record {
  index = 5;
  header = none;
  content = record_front ++ (replicate 498 0 ++ (7 ∷ 9 ∷ []));
}

stored-AreBytes : AreBytes stored
stored-AreBytes = All-append IsByte record_front (replicate 498 0 ++ (1 ∷ 0 ∷ [])) (omega arith) (
    All-append IsByte (replicate 498 0) (1 ∷ 0 ∷ []) (All-replicate IsByte 498 0 (omega arith))
      (omega arith))

record_made : new_record 5 stored ≡ ok made
unfolding new_record apply_usa_fixup fixup_loop fix_sector read_le byte_at slice plumbing
record_made = refl

new_record-IsRestored_example : IsRestored stored made.content
new_record-IsRestored_example = new_record-IsRestored 5 stored made (omega arith) record_made

-- A resident attribute with a value of two bytes.
abbrev attribute : List ℕ
attribute =
    0x10 ∷ 0 ∷ 0 ∷ 0 ∷ 26 ∷ 0 ∷ 0 ∷ 0 ∷ 0 ∷ 0 ∷ 24 ∷ 0 ∷ 0 ∷ 0 ∷ 3 ∷ 0 ∷ 2 ∷ 0 ∷ 0 ∷ 0 ∷ 24 ∷ 0 ∷ 0
    ∷ 0 ∷ 0xaa ∷ 0xbb ∷ []

parse_attribute-encode_example :
    Attribute.parse (Attribute.RoundTrip.encode 0x10 3 (0xaa ∷ 0xbb ∷ []) (7 ∷ []))
    ≡ ok (record {
      attribute_type = from_raw 0x10;
      size = 26;
      non_resident = false;
      id = 3;
      content = 0xaa ∷ 0xbb ∷ [];
    })
parse_attribute-encode_example =
    parse_attribute-encode 0x10 3 (0xaa ∷ 0xbb ∷ []) (7 ∷ []) (omega arith) (omega arith)
      (omega arith) (unfold from_raw in refl) (unfold from_raw in refl)
