-- ===== src/Recovery/Tests.antt =====
-- The theorems on recovery at concrete inputs.
use forensis.Prelude.{
  Holds, List, String, [], arith, false, none, ok, plumbing, refl, some, ℕ, ◌∷◌, ◌≡◌,
}
use forensis.Source.{ImageReader, readable_image, image-IsTotal, IsTotal-IsTotalWithin}
use forensis.Forensic.Model.{
  ForensicEntry, ForensicContentSegment, ForensicPhysicalRegion, file, deleted, ntfs, physical,
  sparse, sector_count, byte_count,
}
use forensis.Recovery.Engine.{
  PhysicalRecoveryEngine, conclude, recover, read_content_segment, read_source, segment_size,
  read_region, region_offset, region_size,
}
use forensis.Recovery.Engine.Bounds.{IsOutcome, recover-Holds}
use forensis.Recovery.Engine.Content.{recover-contents, contents}

abbrev digest : List ℕ → String
digest bytes = "digest"

-- Eight sectors of two bytes.
abbrev image : ImageReader
image = record {
  file = 0 ∷ 1 ∷ 2 ∷ 3 ∷ 4 ∷ 5 ∷ 6 ∷ 7 ∷ 8 ∷ 9 ∷ 10 ∷ 11 ∷ 12 ∷ 13 ∷ 14 ∷ 15 ∷ [];
  image_size = 16;
}

abbrev engine : PhysicalRecoveryEngine
engine = record { partition_offset = 4; bytes_per_sector = 2 }

abbrev region : ForensicPhysicalRegion
region = record {
  cluster_start = some 1;
  cluster_end = some 1;
  sector_start = some 2;
  sector_end = some 3;
  offset = none;
}

abbrev segments : List ForensicContentSegment
segments =
    record { logical_cluster_start = 0; cluster_count = 1; source = physical region }
    ∷ record { logical_cluster_start = 1; cluster_count = 1; source = sparse }
    ∷ []

-- A deleted file of six bytes: one cluster on disk and a hole. `ℕ` stands for the timestamps.
abbrev entry : ForensicEntry ℕ
entry = record {
  identity = record {
    name = 0x61 ∷ [];
    path = 0x2f ∷ 0x61 ∷ [];
    kind = file;
    status = deleted;
    object_id = 7;
  };
  hierarchy = record { parent_id = some 5 };
  metadata = record {
    real_size = some 6;
    allocated_size = some 8;
    created_at = none;
    modified_at = none;
    accessed_at = none;
  };
  filesystem = record { filesystem = ntfs; filesystem_object_id = 7 };
  allocation = record { allocated = some false; cluster_count = some 2; bitmap_allocated = none };
  physical_location = record { regions = region ∷ [] };
  content_layout = record { bytes_per_cluster = 4; segments = segments };
}

abbrev whole : List ℕ
whole = 8 ∷ 9 ∷ 10 ∷ 11 ∷ 0 ∷ 0 ∷ 0 ∷ 0 ∷ []

segments_read : contents engine (readable_image image) 4 segments ≡ ok whole
unfolding contents read_content_segment read_source segment_size read_region region_offset
    region_size sector_count byte_count readable_image plumbing
segments_read = refl

recover-Holds_example : Holds (IsOutcome entry) (recover digest engine (readable_image image) entry)
recover-Holds_example =
    recover-Holds digest engine (readable_image image)
      (IsTotal-IsTotalWithin (image-IsTotal image (omega arith))) entry (omega arith)

recover-contents_example :
    recover digest engine (readable_image image) entry
    ≡ ok (conclude digest entry 6 "Logical content" (8 ∷ 9 ∷ 10 ∷ 11 ∷ 0 ∷ 0 ∷ []))
recover-contents_example =
    recover-contents digest engine (readable_image image) entry whole (λ e. cc e)
      (λ e. ground arith) (λ e. cc e) segments_read
