-- ===== src/Exfat/Tests/Walk.antt =====
-- The theorems on exFAT directories, chains as runs, and investigations at concrete inputs.
use forensis.Prelude.{
  All-append, All-replicate, Holds, IsByte, List, Option, [], arith, false, inl, inr, none, refl,
  replicate, some, true, ℕ, ◌++◌, ◌+◌, ◌^◌, ◌∷◌, ◌≡◌,
}
use forensis.Bytes.{AreBytes}
use forensis.Text.{Text}
use forensis.ClusterRuns.{physical_location, content_layout}
use forensis.ClusterRuns.Expansion.{regions_of, physical_location-content_layout}
use forensis.ClusterRuns.Clusters.{cluster_starts, content_layout-cluster_starts}
use forensis.Exfat.Directory.{
  ExfatDirectoryEntry, ExfatEntryKind, add_secondary, secondary_loop, admitted_units, build_record,
  record_name, parse_record, decode_timestamp, entry_at, entry_file,
}
use forensis.Exfat.Directory.Deleted.{clear_slots, entry_at-deleted}
use forensis.Exfat.InvestigationEntry.{ExfatInvestigationEntry}
use forensis.Exfat.Reader.{ExfatReader}
use forensis.Exfat.Reader.Chain.{IsReady}
use forensis.Exfat.Tests.{reader, reader-IsReady}
use forensis.Source.{readable_image, image-IsTotal}
use forensis.Exfat.Investigation.{investigate_filesystem}
use forensis.Exfat.Investigation.Model.{find_entry, resolve_path}
use forensis.Exfat.Investigation.Numbering.{IsHierarchy, HasDirectory}
use forensis.Exfat.Investigation.Ending.{investigate-IsHierarchy}
use forensis.Exfat.Investigation.Path.{IsChain, resolve_exfat_path-IsChain}
use forensis.Ntfs.Investigation.{join_path}

-- Stands for chrono's conversion: the year alone.
abbrev year : ℕ → ℕ → ℕ → ℕ → ℕ → ℕ → Option ℕ
year y month day hour minute second = some y

-- Clusters 5, 6 and 9 of two sectors each, behind 100 sectors.
content_layout-cluster_starts_example :
    cluster_starts 2 (content_layout 2 100 1024 (5 ∷ 6 ∷ 9 ∷ [])).segments
    ≡ some 106 ∷ some 108 ∷ some 114 ∷ []
content_layout-cluster_starts_example =
    content_layout-cluster_starts 2 100 (omega arith) (omega arith) (omega arith) 1024
      (5 ∷ 6 ∷ 9 ∷ []) (omega arith) (omega arith)

physical_location-content_layout_example :
    (physical_location 2 100 (5 ∷ 6 ∷ 9 ∷ [])).regions
    ≡ regions_of (content_layout 2 100 1024 (5 ∷ 6 ∷ 9 ∷ [])).segments
physical_location-content_layout_example =
    physical_location-content_layout 2 100 1024 (5 ∷ 6 ∷ 9 ∷ []) (omega arith) (omega arith)

-- The record of a file "ab" of nine bytes at cluster 5: a file entry, without its first byte, a
-- stream extension and a name.
abbrev file_slot : List ℕ
file_slot = 2 ∷ 0 ∷ 0 ∷ 0x20 ∷ replicate 27 0

abbrev stream_slot : List ℕ
stream_slot = 0xc0 ∷ 0 ∷ 0 ∷ 2 ∷ (replicate 16 0 ++ (5 ∷ 0 ∷ 0 ∷ 0 ∷ 9 ∷ replicate 7 0))

abbrev name_slot : List ℕ
name_slot = 0xc1 ∷ 0 ∷ 0x61 ∷ 0 ∷ 0x62 ∷ 0 ∷ replicate 26 0

abbrev record_bytes : List ℕ
record_bytes = file_slot ++ (stream_slot ++ name_slot)

abbrev record_slots : List ℕ
record_slots = entry_file ∷ record_bytes

abbrev found : ExfatDirectoryEntry ℕ
found = record {
  name = 0x61 ∷ 0x62 ∷ [];
  attributes = 0x20;
  cluster = 5;
  size = 9;
  deleted = false;
  kind = ExfatEntryKind.file;
  secondary_count = 2;
  created_at = none;
  modified_at = none;
  accessed_at = none;
}

found_alive : entry_at year (entry_file ∷ record_bytes) ≡ some found
unfolding entry_at parse_record build_record record_name admitted_units secondary_loop add_secondary
    decode_timestamp
found_alive = refl

entry_at-deleted_example :
    entry_at year (clear_slots 3 (entry_file ∷ record_bytes))
    ≡ some (record found { deleted = true })
entry_at-deleted_example =
    entry_at-deleted year record_bytes found (omega arith) (omega arith) found_alive (λ e. cc e)

abbrev entry : ℕ → ℕ → Text → ExfatEntryKind → ExfatInvestigationEntry ℕ
entry object_id parent_id name kind = record {
  object_id = object_id;
  parent_id = parent_id;
  name = name;
  kind = kind;
  is_deleted = false;
  real_size = 0;
  attributes = 0;
  cluster = 2;
  chain = [];
  created_at = none;
  modified_at = none;
  accessed_at = none;
}

abbrev leaf : ExfatInvestigationEntry ℕ
leaf = entry 3 2 (0x62 ∷ []) ExfatEntryKind.file

-- The root, a directory "a" and a file "b" in it.
abbrev listed : List (ExfatInvestigationEntry ℕ)
listed =
    entry 1 1 (0x2f ∷ []) ExfatEntryKind.directory
    ∷ entry 2 1 (0x61 ∷ []) ExfatEntryKind.directory
    ∷ leaf
    ∷ []

root_there : HasDirectory listed 1
unfolding find_entry
root_there = (entry 1 1 (0x2f ∷ []) ExfatEntryKind.directory, refl, refl, refl)

a_there : HasDirectory listed 2
unfolding find_entry
a_there = (entry 2 1 (0x61 ∷ []) ExfatEntryKind.directory, refl, refl, refl)

listed-IsHierarchy : IsHierarchy listed
listed-IsHierarchy = record {
  numbered = (refl, (refl, (refl, tt)));
  placed = (
    (root_there, omega arith, inr (refl, refl)),
    ((root_there, omega arith, inl (omega arith)), ((a_there, omega arith, inl (omega arith)), tt)),
  );
}

resolve_exfat_path-IsChain_example :
    (names : List Text) × IsChain listed 3 names
    × (resolve_path listed leaf ≡ some (join_path names))
resolve_exfat_path-IsChain_example =
    resolve_exfat_path-IsChain listed listed-IsHierarchy leaf (omega arith) (omega arith) refl

-- A volume whose root directory holds that file.
abbrev volume_bytes : List ℕ
volume_bytes =
    replicate 520 0
    ++ (0xff ∷ 0xff ∷ 0xff ∷ 0xff ∷ (replicate 1012 0 ++ (record_slots ++ replicate 416 0xff)))

volume_bytes-AreBytes : AreBytes volume_bytes
volume_bytes-AreBytes =
    All-append IsByte (replicate 520 0)
      (0xff ∷ 0xff ∷ 0xff ∷ 0xff ∷ (replicate 1012 0 ++ (record_slots ++ replicate 416 0xff)))
      (All-replicate IsByte 520 0 (omega arith))
      (All-append IsByte (0xff ∷ 0xff ∷ 0xff ∷ 0xff ∷ [])
        (replicate 1012 0 ++ (record_slots ++ replicate 416 0xff)) (omega arith)
        (All-append IsByte (replicate 1012 0) (record_slots ++ replicate 416 0xff)
          (All-replicate IsByte 1012 0 (omega arith))
          (All-append IsByte record_slots (replicate 416 0xff) (omega arith)
            (All-replicate IsByte 416 0xff (omega arith)))))

abbrev volume : ExfatReader
volume = record reader {
  source = readable_image (record { file = volume_bytes; image_size = 2048 });
}

volume-IsReady : IsReady volume
volume-IsReady = record {
  source_total = image-IsTotal _ volume_bytes-AreBytes;
  layout = reader-IsReady.layout;
}

investigate-IsHierarchy_example :
    Holds
      (λ investigation. IsHierarchy investigation.entries)
      (investigate_filesystem year volume (2 ^ 32 + 1))
investigate-IsHierarchy_example =
    investigate-IsHierarchy year volume volume-IsReady (2 ^ 32 + 1) (omega arith)
