-- ===== src/Ntfs/Tests/Volume.antt =====
-- The theorems on whole records, directories and volumes at concrete inputs, and concrete runs.
use forensis.Prelude.{
  All-append, All-replicate, IsByte, List, String, [], arith, false, none, ok, plumbing, refl,
  replicate, some, true, ℕ, ◌++◌, ◌∷◌, ◌≡◌,
}
use forensis.Prelude.Int.{pos}
use forensis.Bytes.{AreBytes}
use forensis.Text.{Text}
use forensis.Source.{ImageReader, readable_image, read_image}
use forensis.Forensic.Model.{
  ForensicEntry, ForensicPhysicalRegion, file, normal, ntfs, physical, sparse,
}
use forensis.Recovery.Engine.{recover, recovered_result}
use forensis.Ntfs.IndexEntry.{IndexEntry, raw}
use forensis.Ntfs.IndexEntry
use forensis.Ntfs.IndexEntry.RoundTrip.{parse-raw}
use forensis.Ntfs.RunReader.{DataRunReader, read_run, read_lcn, lcn_offset, runs_loop, read_runs}
use forensis.Ntfs.Investigation.{resolve_path}
use forensis.Ntfs.Investigation.Path.{resolve_path-ends}
use forensis.Ntfs.Investigation.Chain.{IsChain, at_root, below, resolve_path-chain}
use forensis.Ntfs.InvestigationEntry.{
  InvestigationEntry, to_forensic_entry, cluster_count, sum_clusters, physical_location,
  physical_regions, physical_region_for_run, region_from, content_layout, sized_layout,
  content_segments, run_segment,
}
use forensis.Ntfs.InvestigationEntry.Recovery.{recover-read_runs}

-- An entry with four bytes behind its key.
abbrev padded : IndexEntry
padded = record {
  file_reference = 5;
  entry_length = 24;
  key_length = 4;
  flags = 0;
  key = 1 ∷ 2 ∷ 3 ∷ 4 ∷ [];
}

parse-raw_example : IndexEntry.parse (raw padded ++ (9 ∷ 9 ∷ 9 ∷ 9 ∷ [])) ≡ ok padded
parse-raw_example = parse-raw padded (9 ∷ 9 ∷ 9 ∷ 9 ∷ []) (record {
  reference = omega arith;
  size = omega arith;
  flags = omega arith;
  key_size = refl;
  inside = omega arith;
  bytes = omega arith;
})

-- A block of one sector whose index has one entry.
abbrev block_front : List ℕ
block_front = 0x49 ∷ 0x4e ∷ 0x44 ∷ 0x58 ∷ 40 ∷ 0 ∷ 2 ∷ 0 ∷ replicate 16 0

abbrev block_index : List ℕ
block_index =
    24 ∷ 0 ∷ 0 ∷ 0 ∷ 24 ∷ 0 ∷ 0 ∷ 0 ∷ 0 ∷ 0 ∷ 0 ∷ 0 ∷ 0 ∷ 0 ∷ 0 ∷ 0 ∷ 1 ∷ 0 ∷ 7 ∷ 9 ∷ 0 ∷ 0 ∷ 0 ∷ 0
    ∷ 5 ∷ 0 ∷ 0 ∷ 0 ∷ 0 ∷ 0 ∷ 0 ∷ 0 ∷ 24 ∷ 0 ∷ 4 ∷ 0 ∷ 0 ∷ 0 ∷ 0 ∷ 0 ∷ 1 ∷ 2 ∷ 3 ∷ 4 ∷ 0 ∷ 0 ∷ 0 ∷ 0
    ∷ []

abbrev block : List ℕ
block = block_front ++ (block_index ++ (replicate 438 0 ++ (1 ∷ 0 ∷ [])))

block-AreBytes : AreBytes block
block-AreBytes =
    All-append IsByte block_front (block_index ++ (replicate 438 0 ++ (1 ∷ 0 ∷ []))) (omega arith) (
      All-append IsByte block_index (replicate 438 0 ++ (1 ∷ 0 ∷ [])) (omega arith) (
        All-append IsByte (replicate 438 0) (1 ∷ 0 ∷ []) (All-replicate IsByte 438 0 (omega arith))
          (omega arith)))

abbrev entry_of : ℕ → ℕ → Text → InvestigationEntry
entry_of mft_record parent name = record {
  mft_record = mft_record;
  parent_mft_record = parent;
  name = name;
  allocated_size = 1024;
  real_size = 5;
  flags = 0;
  mft_flags = 1;
  is_directory = false;
  data_runs =
      record { lcn = some (pos 1); cluster_count = 1 }
      ∷ record { lcn = none; cluster_count = 1 }
      ∷ [];
  resident_data = none;
}

-- Two entries that are each other's parents.
abbrev cycle : List InvestigationEntry
cycle = entry_of 6 7 (0x61 ∷ []) ∷ entry_of 7 6 (0x62 ∷ []) ∷ []

resolve_path-ends_example :
    (path : Text) × (resolve_path cycle (entry_of 6 7 (0x61 ∷ [])) ≡ some (0x2f ∷ path))
resolve_path-ends_example = resolve_path-ends cycle (entry_of 6 7 (0x61 ∷ []))

-- A file in a directory of the root.
abbrev root_entry : InvestigationEntry
root_entry = entry_of 5 5 (0x2e ∷ [])

abbrev directory_entry : InvestigationEntry
directory_entry = entry_of 6 5 (0x61 ∷ [])

abbrev file_entry : InvestigationEntry
file_entry = entry_of 7 6 (0x62 ∷ [])

abbrev tree_entries : List InvestigationEntry
tree_entries = root_entry ∷ directory_entry ∷ file_entry ∷ []

file_entry-IsChain : IsChain tree_entries 7 ((0x61 ∷ []) ∷ (0x62 ∷ []) ∷ [])
file_entry-IsChain =
    below 7 file_entry ((0x61 ∷ []) ∷ []) refl (omega arith)
      (below 6 directory_entry [] refl (omega arith) (at_root 5 root_entry refl refl))

resolve_path-chain_example :
    resolve_path tree_entries file_entry ≡ some (0x2f ∷ 0x61 ∷ 0x2f ∷ 0x62 ∷ [])
resolve_path-chain_example =
    resolve_path-chain tree_entries file_entry ((0x61 ∷ []) ∷ (0x62 ∷ []) ∷ []) (omega arith)
      file_entry-IsChain

-- A boot sector of 512-byte sectors, clusters of eight, and records of 1024 bytes.
abbrev boot_bytes : List ℕ
boot_bytes =
    0xeb
      ∷ 0x52
      ∷ 0x90
      ∷ 0x4e
      ∷ 0x54
      ∷ 0x46
      ∷ 0x53
      ∷ 0x20
      ∷ 0x20
      ∷ 0x20
      ∷ 0x20
      ∷ 0
      ∷ 2
      ∷ 8
      ∷ replicate 26 0
    ++ (0 ∷ 0 ∷ 1 ∷ replicate 5 0
        ++ (4 ∷ replicate 7 0 ++ (2 ∷ replicate 7 0 ++ (0xf6 ∷ 0 ∷ 0 ∷ 0 ∷ 1 ∷ replicate 443 0))))

abbrev boot_image : ImageReader
boot_image = record { file = boot_bytes; image_size = 512 }

boot_bytes-AreBytes : AreBytes boot_bytes
boot_bytes-AreBytes = omega arith

boot_read : (readable_image boot_image).read_at 0 512 ≡ ok boot_bytes
unfolding readable_image read_image
boot_read = refl

-- Clusters of one sector: the entry's first run is the second sector.
abbrev content_image : ImageReader
content_image = record {
  file = replicate 512 0 ++ (0x68 ∷ 0x65 ∷ 0x6c ∷ 0x6c ∷ 0x6f ∷ replicate 507 0);
  image_size = 1024;
}

abbrev digest : List ℕ → String
digest bytes = "digest"

abbrev region : ForensicPhysicalRegion
region = record {
  cluster_start = some 1;
  cluster_end = some 1;
  sector_start = some 1;
  sector_end = some 1;
  offset = none;
}

abbrev forensic_file : ForensicEntry (Unit {0})
forensic_file = record {
  identity = record { name = 0x62 ∷ []; path = []; kind = file; status = normal; object_id = 7 };
  hierarchy = record { parent_id = some 6 };
  metadata = record {
    real_size = some 5;
    allocated_size = some 1024;
    created_at = none;
    modified_at = none;
    accessed_at = none;
  };
  filesystem = record { filesystem = ntfs; filesystem_object_id = 7 };
  allocation = record { allocated = some true; cluster_count = some 2; bitmap_allocated = none };
  physical_location = record { regions = region ∷ [] };
  content_layout = record {
    bytes_per_cluster = 512;
    segments =
        record { logical_cluster_start = 0; cluster_count = 1; source = physical region }
        ∷ record { logical_cluster_start = 1; cluster_count = 1; source = sparse }
        ∷ [];
  };
}

abbrev five : List ℕ
five = 0x68 ∷ 0x65 ∷ 0x6c ∷ 0x6c ∷ 0x6f ∷ []

abbrev sector_runs : DataRunReader
sector_runs = record { partition_offset = 0; bytes_per_cluster = 512 }

file_converts : to_forensic_entry file_entry 1 ≡ ok forensic_file
unfolding to_forensic_entry cluster_count sum_clusters physical_location physical_regions
    physical_region_for_run region_from content_layout sized_layout content_segments run_segment
    plumbing
file_converts = refl

file_reads : read_runs sector_runs (readable_image content_image) file_entry.data_runs 5 ≡ ok five
unfolding read_runs runs_loop read_run read_lcn lcn_offset readable_image read_image plumbing
file_reads = refl

recover-read_runs_example :
    recover digest
      (record { partition_offset = 0; bytes_per_sector = 512 })
      (readable_image content_image)
      forensic_file
    ≡ ok (recovered_result digest forensic_file five forensic_file.physical_location)
recover-read_runs_example =
    recover-read_runs digest 0 1 (readable_image content_image) file_entry forensic_file five
      (unfold readable_image in omega arith) (omega arith) (omega arith) refl (omega arith)
      (omega arith) (unfold readable_image in (omega arith)) file_converts file_reads
