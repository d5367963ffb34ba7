-- ===== src/Ntfs/Volume.antt =====
-- crates/forensis-core/src/filesystem/ntfs/boot_sector.rs and mft_reader.rs: the geometry of a
-- volume, and the records of its Master File Table. The boot sector's signed bytes are read as bytes.
pub mod Geometry
use forensis.Prelude.{
  List, Option, Result, String, [], add, checked_add, checked_mul, fail_if, if◌then◌else◌,
  invalid_format, ltb, mul, none, not, ok, ok_or, panic, some, suc, u64_mod, zero, ℕ, ◌&&◌, ◌*◌,
  ◌+◌, ◌-◌, ◌==◌, ◌>>=◌, ◌>>◌, ◌^◌, ◌||◌, ◌∷◌,
}
use forensis.Bytes.{read_le, byte_at, slice, bytes_eq}
use forensis.Source.{Readable}
use forensis.Ntfs.Record.{MftRecord, new_record}

pub record NtfsBootSector : Type 0 where
  pub bytes_per_sector : ℕ
  pub sectors_per_cluster : ℕ
  pub total_sectors : ℕ
  pub mft_cluster : ℕ
  pub mft_mirror_cluster : ℕ
  pub mft_record_size : ℕ
  pub index_record_size : ℕ

-- `NtfsBootSector::bytes_per_cluster`; a `u16` times a `u8` fits in a `u64`.
abbrev pub bytes_per_cluster : NtfsBootSector → ℕ
bytes_per_cluster sector = sector.bytes_per_sector * sector.sectors_per_cluster

pub record NtfsFileSystem : Type 0 where
  pub boot_sector : NtfsBootSector
  pub partition_offset : ℕ

-- `1u64.checked_shl(n)`
abbrev pub checked_power : ℕ → Option ℕ
checked_power n = if ltb n 64 then some (2 ^ n) else none

-- `-value` of an `i8` that is not positive, by its byte; the negation of -128 overflows.
unfoldable pub negated : ℕ → Result ℕ
negated byte = if byte == 0 then ok 0 else if byte == 128 then panic else ok (256 - byte)

-- The size of a record by its byte: a count of clusters, or the exponent of a power of two.
unfoldable pub record_size : ℕ → ℕ → String → String → Result ℕ
record_size cluster_size byte overflow invalid =
    let shifted = (do
      exponent ← negated byte
      ok_or (checked_power exponent) (invalid_format invalid)) in
    if ltb 0 byte && ltb byte 128
    then ok_or (checked_mul u64_mod cluster_size byte) (invalid_format overflow)
    else shifted

-- The part of `NtfsFileSystem::parse` behind the read.
unfoldable pub parse_sector : List ℕ → Result NtfsBootSector
parse_sector sector = do
  signature ← slice sector 3 7
  fail_if (not (bytes_eq signature (0x4e ∷ 0x54 ∷ 0x46 ∷ 0x53 ∷ [])))
      (invalid_format "Invalid NTFS boot sector signature")
  bytes_per_sector ← read_le 2 sector 11
  sectors_per_cluster ← byte_at sector 13
  fail_if (bytes_per_sector == 0 || sectors_per_cluster == 0)
      (invalid_format "Invalid NTFS sector or cluster geometry")
  total_sectors ← read_le 8 sector 40
  mft_cluster ← read_le 8 sector 48
  mft_mirror_cluster ← read_le 8 sector 56
  clusters_per_record ← byte_at sector 64
  let cluster_size = bytes_per_sector * sectors_per_cluster
  mft_record_size ←
      record_size cluster_size clusters_per_record "NTFS MFT record size overflow"
        "Invalid NTFS MFT record size"
  clusters_per_index_record ← byte_at sector 68
  index_record_size ←
      record_size cluster_size clusters_per_index_record "NTFS index record size overflow"
        "Invalid NTFS index record size"
  fail_if (total_sectors == 0 || mft_record_size == 0 || index_record_size == 0)
      (invalid_format "Invalid NTFS filesystem geometry")
  ok (record {
    bytes_per_sector = bytes_per_sector;
    sectors_per_cluster = sectors_per_cluster;
    total_sectors = total_sectors;
    mft_cluster = mft_cluster;
    mft_mirror_cluster = mft_mirror_cluster;
    mft_record_size = mft_record_size;
    index_record_size = index_record_size;
  })

-- `NtfsFileSystem::parse`
unfoldable pub parse : Readable → ℕ → Result NtfsFileSystem
parse reader partition_offset = do
  sector ← reader.read_at partition_offset 512
  boot_sector ← parse_sector sector
  ok (record { boot_sector = boot_sector; partition_offset = partition_offset })

pub record NtfsMftReader : Type 0 where
  pub partition_offset : ℕ
  pub bytes_per_sector : ℕ
  pub sectors_per_cluster : ℕ
  pub mft_cluster : ℕ
  pub mft_record_size : ℕ

-- In plain arithmetic.
unfoldable pub mft_offset : NtfsMftReader → Result ℕ
mft_offset mft = do
  sectors ← mul u64_mod mft.mft_cluster mft.sectors_per_cluster
  relative ← mul u64_mod sectors mft.bytes_per_sector
  add u64_mod mft.partition_offset relative

-- `NtfsMftReader::read_record`
unfoldable pub read_record : NtfsMftReader → Readable → ℕ → Result MftRecord
read_record mft reader index = do
  mft_start ← mft_offset mft
  relative ←
      ok_or (checked_mul u64_mod index mft.mft_record_size)
        (invalid_format "MFT record offset overflow")
  offset ← add u64_mod mft_start relative
  fail_if (mft.mft_record_size == 0) (invalid_format "Invalid MFT record size")
  buffer ← reader.read_at offset mft.mft_record_size
  new_record index buffer

-- The `for` loop of `read_records`, with the rounds that are left; what it pushes is the head of the
-- result.
unfoldable pub records_loop : NtfsMftReader → Readable → ℕ → ℕ → Result (List MftRecord)
records_loop mft reader zero index = ok []
records_loop mft reader (suc left) index = do
  record' ← read_record mft reader index
  others ← records_loop mft reader left (index + 1)
  ok (record' ∷ others)

-- `NtfsMftReader::read_records`
unfoldable pub read_records : NtfsMftReader → Readable → ℕ → ℕ → Result (List MftRecord)
read_records mft reader start_index count = do
  end ← ok_or (checked_add u64_mod start_index count) (invalid_format "MFT record range overflow")
  records_loop mft reader (end - start_index) start_index
