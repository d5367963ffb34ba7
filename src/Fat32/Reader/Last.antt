-- ===== src/Fat32/Reader/Last.antt =====
-- The range that `read_fat_entry` accepts, against the clusters that the volume has.
use forensis.Prelude.{arith, err, invalid_format, plumbing, some, ℕ, ◌+◌, ◌≡◌, ◌≤◌}
use forensis.Fat32.Boot.{sector_of_cluster}
use forensis.Fat32.Boot.Geometry.{IsGeometry, sector_of_cluster_inside}
use forensis.Fat32.Reader.{Fat32Reader, read_fat_entry}

-- On a volume with at least one cluster, the last cluster is numbered `total_clusters + 1` and its
-- sectors lie within the volume, but the table entry of that cluster is refused as out of range.
pub read_fat_entry_last :
    (reader : Fat32Reader)
    → IsGeometry reader.boot
    → 1 ≤ reader.boot.total_clusters
    → (read_fat_entry reader (reader.boot.total_clusters + 1)
        ≡ err (invalid_format "FAT32 cluster out of range"))
      × ((sector : ℕ) × (sector_of_cluster reader.boot (reader.boot.total_clusters + 1)
            ≡ some sector)
          × (sector + reader.boot.sectors_per_cluster ≤ reader.boot.total_sectors))
unfolding read_fat_entry plumbing
read_fat_entry_last reader g one =
    let (sector, eq, _, fits) =
      sector_of_cluster_inside reader.boot g (reader.boot.total_clusters + 1) (omega arith)
        (omega arith) in
    (ground arith, (sector, eq, fits))
