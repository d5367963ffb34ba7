-- ===== src/Lib.antt =====
-- Forensis: reading disks, partitions and filesystems for evidence, and recovering files from them.
--
-- The program's crates/forensis-core parses a disk from the outside in: an image is opened for
-- random access, a partition table is detected and read, a filesystem's boot sector gives its
-- geometry, and the filesystem's records are turned into forensic entries. The recovery engine
-- rebuilds the content of one such entry from the image. The other crates are front ends.
--
-- The files, and the code that each is about, in crates/forensis-core/src:
-- - Prelude: shared names; Prelude/Errors is error.rs and result.rs, Prelude/Words the checked
--   operations of Rust on unsigned integers, Prelude/Int its signed 64-bit ones.
-- - Bytes: little-endian fields of byte slices, as every parser reads them.
-- - Source: `Readable` of traits.rs and `ImageReader` of disk/image_reader.rs.
-- - Forensic/Model: forensic/model.rs, the records that recovery consumes.
-- - Recovery/Engine: recovery/engine.rs and recovery/result.rs. Bounds is about panics and sizes,
--   Content about the bytes that are recovered, Sectors about regions given by sectors.
-- - Ntfs/DataRun: filesystem/ntfs/data_run.rs. Encode writes run lists, RoundTrip reads them back,
--   Sound is about arbitrary bytes.
-- - Ntfs/RunReader: filesystem/ntfs/data_run_reader.rs, with Content on the bytes that are read and
--   Safety on panics.
-- - Ntfs/Record: filesystem/ntfs/mft_record.rs, with Fixup on panics and sizes and Restore on the
--   bytes that the update sequence restores.
-- - Ntfs/Attribute: filesystem/ntfs/mft_attribute.rs, with Bounds and RoundTrip.
-- - Text: texts as code points, with Text/Utf16 on the decoder of UTF-16.
-- - Ntfs/StandardInformation, Ntfs/FileName, Ntfs/DataAttribute: filesystem/ntfs/
--   standard_information.rs, file_name.rs and data_attribute.rs, with Bounds on panics and sizes.
-- - Ntfs/MftParser: filesystem/ntfs/mft_parser.rs and parsed_record.rs, with Reached on the
--   offsets of the attributes and Safety on panics.
-- - Ntfs/IndexEntry, Ntfs/IndexRoot, Ntfs/IndexAllocation: filesystem/ntfs/index_entry.rs,
--   index_root.rs and index_allocation.rs, with Bounds and IndexEntry/RoundTrip.
-- - Ntfs/Directory: filesystem/ntfs/directory.rs, directory_entry.rs, bitmap.rs, file_content.rs.
-- - Ntfs/Volume: filesystem/ntfs/boot_sector.rs and mft_reader.rs, with Geometry on the boot sector.
-- - Ntfs/InvestigationEntry: filesystem/ntfs/investigation_entry.rs, with Recovery on what the
--   recovery engine makes of an entry.
-- - Ntfs/Investigation: filesystem/ntfs/investigation.rs and the loop of boot_sector.rs, with Path
--   and Chain on the paths of entries.
-- - Ntfs/MetadataFiles: filesystem/ntfs/volume_information.rs, upcase.rs and attr_def.rs, with Fields
--   on what is read past the end and on names in capitals.
-- - Visited: vectors of visited keys, as the walks of paths and trees keep them.
-- - Forensic/Tree: forensic/tree.rs, with Building on when the tree is built and Cycle on when not.
-- - Detector: filesystem/detector.rs, with Agreement on the detector and the parsers.
-- - Fat32/Boot: filesystem/fat32/boot.rs, with Boot/Geometry on the regions of a volume.
-- - Fat32/Directory: filesystem/fat32/directory.rs, with Bounds on any bytes and Checksum on the
--   slots of long names.
-- - Fat32/Reader: filesystem/fat32/reader.rs, with Table on single entries, Chain on bounds and
--   termination of a walk, Walk on its course, Last on the range of clusters, Read on bytes.
-- - ClusterRuns: the runs of a chain of clusters, in the words that fat32/investigation_entry.rs and
--   exfat/investigation_entry.rs share. Clusters is about the clusters of the logical content,
--   Expansion about the two loops over the chain.
-- - Exfat/Boot, Exfat/Reader, Exfat/Directory: filesystem/exfat/boot.rs, reader.rs and directory.rs.
--   Boot/Layout is about the regions of a volume, Boot/Accepted about the boot sectors that are
--   accepted, Reader/Chain, Walk and Read about chains,
--   Directory/Bounds about any bytes and Directory/Deleted about deleted records.
-- - Exfat/InvestigationEntry, Exfat/Investigation: filesystem/exfat/investigation_entry.rs and
--   investigation.rs. Investigation/Model has paths and the forensic model; Numbering, Termination
--   and Ending are about what the walk keeps and why it ends, Path is about paths.
-- - Ext4: filesystem/ext4/superblock.rs and the block reads of reader.rs.
-- - Ext4/Extents: filesystem/ext4/extent.rs, extent_header.rs, extent_index.rs and extent_tree.rs,
--   with Sorting on the sort and Order on what is resolved.
-- - Text/Utf8: how bytes become text, bytes that are no UTF-8 included.
-- - Ext4/Directory: filesystem/ext4/directory.rs, with Bounds on any bytes.
-- - Ext4/Inode: filesystem/ext4/inode.rs and inode_locator.rs, with Place on where an inode lies.
-- - Ext4/Groups: filesystem/ext4/block_group_descriptor.rs, block_group_table.rs, block_bitmap.rs,
--   inode_bitmap.rs, inode_table.rs and the rest of reader.rs, with Tables on what is read.
-- - Ext4/Filesystem: filesystem/ext4/filesystem.rs, with Inodes on where an inode of a volume lies.
-- - Fat32/InvestigationEntry, Fat32/Investigation: filesystem/fat32/investigation_entry.rs and
--   investigation.rs. Investigation/Model has paths and the forensic model; Unique is about the
--   entries that are kept, Ending about why the walk ends, Path about paths.
-- - Partition: partition/types.rs, with Mbr, Gpt and Table for mbr.rs, gpt.rs, partition_table.rs.
--
-- A function of the model has the name of the function it stands for; a loop is a function of its
-- own whose arguments are the variables that change. Methods on `&mut self` return the new state.
--
-- Conventions. A byte slice is a list of numbers below 256. `usize` has 64 bits, and memory
-- suffices. The evidence does not change while it is read, so that a reader is a value: a function
-- from an offset and a length to the bytes or an error. Integer overflow of plain arithmetic, an
-- index out of range and a failed `unwrap` are the result `panic`, as in a build that checks
-- overflow. Messages keep their constant text; the values printed into them are left out, and so is
-- the operating system's part of an I/O error. Timestamps are a type parameter; the calendar of
-- chrono and the SHA-256 digest are function parameters, since they are other crates'.
--
-- Fuel. The run list parser has as much fuel as there are bytes, each record taking at least one.
-- The loops over the attributes of a record and over the entries of an index have at least as much
-- fuel as there are bytes, each round taking sixteen. The walk of a path has one more round than
-- there are entries, each round visiting another one, and so has the recursion of the forensic tree,
-- whose bound is an argument.
-- A directory of slots is parsed with one more round than there are bytes, each round taking 32.
-- The walk of a FAT chain has one more round than the limit on clusters, each round adding one.
-- The table of attribute definitions has one more round than bytes, each round taking 160.
-- A block of an ext4 directory is parsed with one more round than it has bytes, each taking eight.
-- The walks over an exFAT and a FAT32 volume have their fuel as an argument: each round takes a
-- directory out of the queue, which no cluster enters twice, and there are 2 ^ 32 cluster numbers.
-- The end of the fuel is a panic, or `none` where the function of the source cannot fail.
--
-- Not modelled: opening paths and devices, the front ends and the application layer, and the parts
-- of the filesystems that no file above names.
pub mod Prelude
pub mod Bytes
pub mod Text
pub mod Visited
pub mod Detector
pub mod ClusterRuns
pub mod Exfat
pub mod Ext4
pub mod Source
pub mod Forensic
pub mod Recovery
pub mod Ntfs
pub mod Fat32
pub mod Partition
