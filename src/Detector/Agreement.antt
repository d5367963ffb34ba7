-- ===== src/Detector/Agreement.antt =====
-- What the detector and the parsers agree on.
use forensis.Prelude.{
  >>=-eq-ok, List, [], arith, fail_if-eq-ok, not, ok, plumbing, refl, true, ℕ, ◌∷◌, ◌≡◌,
}
use forensis.Bytes.{slice, bytes_eq}
use forensis.Source.{Readable, IsTotal}
use forensis.Bytes.Laws.{slice-ok}
use forensis.Partition.{Partition}
use forensis.Ntfs.Volume.{NtfsFileSystem, NtfsBootSector, parse_sector}
use forensis.Ntfs.Volume
use forensis.Detector.{ntfs, detect_at, detect, open_ntfs, partition_offset}

-- A sector that the parser accepts has the signature.
accepted-signature :
    (sector : List ℕ) (boot : NtfsBootSector)
    → parse_sector sector ≡ ok boot
    → (oem : List ℕ) × (slice sector 3 7 ≡ ok oem)
      × (bytes_eq oem (0x4e ∷ 0x54 ∷ 0x46 ∷ 0x53 ∷ []) ≡ true)
unfolding parse_sector
accepted-signature sector boot e =
    let (oem, s, e') = >>=-eq-ok (slice sector 3 7) _ e in
    let (t, _) = fail_if-eq-ok (not (bytes_eq oem (0x4e ∷ 0x54 ∷ 0x46 ∷ 0x53 ∷ []))) _ _ e' in
    (oem, s, ground (arith, t))

-- Where a partition is opened as NTFS, from evidence that fills its buffers, the detector says NTFS.
pub detect-open_ntfs :
    (reader : Readable) (partition : Partition) (volume : NtfsFileSystem)
    → IsTotal reader
    → open_ntfs reader partition ≡ ok volume
    → detect reader partition ≡ ok ntfs
unfolding detect open_ntfs detect_at Volume.parse plumbing
detect-open_ntfs reader partition volume t e =
    let (offset, o, e') = >>=-eq-ok (partition_offset partition) _ e in
    let (sector, s, e2) = >>=-eq-ok (reader.read_at offset 512) _ e' in
    let (boot, b, _) = >>=-eq-ok (parse_sector sector) _ e2 in
    let (oem, found, same) = accepted-signature sector boot b in
    let filled = (t.fills offset 512).on_ok sector s in
    rw (o, s, found, slice-ok sector 3 11 (omega arith) (omega (arith, filled.1)), same) refl
