-- ===== src/Ntfs/Investigation.antt =====
-- crates/forensis-core/src/filesystem/ntfs/investigation.rs, and `NtfsFileSystem::investigate` of
-- boot_sector.rs: what an investigation of a volume gathers. The reports of progress are left out.
pub mod Path
pub mod Chain
use forensis.Prelude.{
  Bool, List, Option, Result, [], checked_add, checked_mul, err, fail_if, if◌then◌else◌,
  invalid_format, length, ltb, none, not, ok, ok_or, panic, some, suc, true, u64_mod, zero, ℕ, ◌%◌,
  ◌&&◌, ◌++◌, ◌+◌, ◌/◌, ◌==◌, ◌>>=◌, ◌>>◌, ◌∷◌,
}
use forensis.Bytes.{slice}
use forensis.Text.{Text}
use forensis.Visited.{contains}
use forensis.Source.{Readable}
use forensis.Forensic.Model.{ForensicEntry, ForensicModel, ntfs}
use forensis.Ntfs.Directory.{NtfsDirectory, from_index_root}
use forensis.Ntfs.FileName.{FileNameAttribute}
use forensis.Ntfs.IndexEntry.{IndexEntry}
use forensis.Ntfs.IndexEntry
use forensis.Ntfs.IndexRoot.{IndexRoot}
use forensis.Ntfs.InvestigationEntry.{
  InvestigationEntry, from_file_name, from_file_name_and_data, to_forensic_entry,
}
use forensis.Ntfs.MftParser
use forensis.Ntfs.MftParser.{ParsedMftRecord}
use forensis.Ntfs.Record.{MftRecord, new_record}
use forensis.Ntfs.RunReader.{DataRunReader, read_runs}
use forensis.Ntfs.Volume.{NtfsFileSystem, NtfsMftReader, bytes_per_cluster, read_record}

pub record Investigation : Type 0 where
  pub entries : List InvestigationEntry
  pub records : List ParsedMftRecord
  pub directories : List NtfsDirectory
  pub sectors_per_cluster : ℕ

abbrev pub new_investigation : ℕ → Investigation
new_investigation sectors_per_cluster = record {
  entries = [];
  records = [];
  directories = [];
  sectors_per_cluster = sectors_per_cluster;
}

abbrev pub add_directory : NtfsDirectory → Investigation → Investigation
add_directory directory investigation = record investigation {
  directories = investigation.directories ++ (directory ∷ []);
}

-- A round of `add_directory_entries`, before the entries of the rounds that follow.
unfoldable pub keep_entry :
    IndexEntry
    → Result FileNameAttribute
    → List InvestigationEntry
    → Result (List InvestigationEntry)
keep_entry entry (ok name) others = ok (from_file_name (IndexEntry.mft_record entry) name ∷ others)
keep_entry entry (err error) others = ok others
keep_entry entry panic others = panic

unfoldable pub directory_entries : List IndexEntry → Result (List InvestigationEntry)
directory_entries [] = ok []
directory_entries (entry ∷ entries) =
    directory_entries entries >>= keep_entry entry (IndexEntry.file_name entry)

unfoldable pub add_directory_entries : NtfsDirectory → Investigation → Result Investigation
add_directory_entries directory investigation = do
  added ← directory_entries directory.entries
  ok (record investigation { entries = investigation.entries ++ added })

-- The entries of the names of a record.
abbrev pub record_entries : ParsedMftRecord → List FileNameAttribute → List InvestigationEntry
record_entries parsed [] = []
record_entries parsed (name ∷ names) =
    from_file_name_and_data parsed.index name parsed.content parsed.mft_flags
    ∷ record_entries parsed names

abbrev pub add_mft_record : ParsedMftRecord → Investigation → Investigation
add_mft_record parsed investigation = record investigation {
  entries = investigation.entries ++ record_entries parsed parsed.file_names;
}

abbrev pub add_index : ParsedMftRecord → Option IndexRoot → Investigation → Investigation
add_index parsed none investigation = investigation
add_index parsed (some root) investigation =
    add_directory (from_index_root parsed.index root) investigation

-- `Investigation::process_mft_record`
unfoldable pub process_mft_record : MftRecord → Investigation → Result Investigation
process_mft_record record' investigation = do
  (parsed, _) ← MftParser.parse record'
  let indexed = add_index parsed parsed.directory_index (add_mft_record parsed investigation)
  ok (record indexed { records = indexed.records ++ (parsed ∷ []) })

-- `iter().find(|candidate| candidate.mft_record == current_record)`
abbrev pub find_record : ℕ → List InvestigationEntry → Option InvestigationEntry
find_record current_record [] = none
find_record current_record (candidate ∷ candidates) =
    if candidate.mft_record == current_record
    then some candidate
    else find_record current_record candidates

-- The `loop` of `resolve_path`. Both lists have what was pushed last first, so that the components
-- come out in the order that `components.reverse()` gives. `none` where the fuel is used up.
unfoldable pub path_loop : ℕ → List InvestigationEntry → ℕ → List ℕ → List Text → Option (List Text)
path_loop zero entries current_record visited components = none
path_loop (suc fuel) entries current_record visited components =
    let on = λ (current : InvestigationEntry).
      path_loop fuel entries current.parent_mft_record (current_record ∷ visited)
        (current.name ∷ components) in
    if contains current_record visited
    then some components
    else elim (find_record current_record entries) [
      | none ↦ some components
      | some current ↦
          if current.mft_record == current.parent_mft_record then some components else on current
    ]

-- `format!("/{}", components.join("/"))`, or "/" where there are none.
abbrev pub join : List Text → Text
join [] = []
join (component ∷ []) = component
join (component ∷ components) = component ++ (0x2f ∷ join components)

abbrev pub join_path : List Text → Text
join_path components = 0x2f ∷ join components

-- `resolve_path`, one more than the number of entries being the fuel.
unfoldable pub resolve_path : List InvestigationEntry → InvestigationEntry → Option Text
resolve_path entries entry =
    if entry.mft_record == entry.parent_mft_record
    then some (0x2f ∷ [])
    else elim (path_loop (suc (length entries)) entries entry.mft_record [] []) [
      | none ↦ none
      | some components ↦ some (join_path components)
    ]

abbrev pub children_of : ℕ → List InvestigationEntry → List InvestigationEntry
children_of parent [] = []
children_of parent (entry ∷ entries) =
    if entry.parent_mft_record == parent
    then entry ∷ children_of parent entries
    else children_of parent entries

module _ {T : Type 0} where
  -- A round of the `map` of `to_forensic_model`; a path that is not found in the fuel would be a
  -- loop without an end.
  unfoldable pub place_entry : Investigation → InvestigationEntry → Result (ForensicEntry T)
  place_entry investigation entry = do
    forensic ← to_forensic_entry entry investigation.sectors_per_cluster
    let placed = λ (path : Text).
        ok (record forensic { identity = record forensic.identity { path = path } })
    elim (resolve_path investigation.entries entry) [ none ↦ panic | some path ↦ placed path ]

  unfoldable pub place_entries :
      Investigation → List InvestigationEntry → Result (List (ForensicEntry T))
  place_entries investigation [] = ok []
  place_entries investigation (entry ∷ entries) = do
    forensic ← place_entry investigation entry
    others ← place_entries investigation entries
    ok (forensic ∷ others)

  -- `Investigation::to_forensic_model`
  unfoldable pub to_forensic_model : Option Text → Investigation → Result (ForensicModel T)
  to_forensic_model image investigation = do
    entries ← place_entries investigation investigation.entries
    ok (record {
      source = record { image = image; filesystem = ntfs };
      records_investigated = length investigation.records;
      entries = entries;
    })

-- `record_bytes.iter().all(|&byte| byte == 0)`
abbrev pub all_zero : List ℕ → Bool
all_zero [] = true
all_zero (byte ∷ bytes) = byte == 0 && all_zero bytes

-- A round of the loop over the slots of the Master File Table.
unfoldable pub process_slot : ℕ → List ℕ → ℕ → Investigation → Result Investigation
process_slot record_size mft_bytes index investigation = do
  offset ←
      ok_or (checked_mul u64_mod index record_size) (invalid_format "MFT record offset overflow")
  end ← ok_or (checked_add u64_mod offset record_size) (invalid_format "MFT record end overflow")
  fail_if (ltb (length mft_bytes) end) (invalid_format "MFT record exceeds reconstructed MFT data")
  record_bytes ← slice mft_bytes offset end
  let processed =
      new_record index record_bytes >>= λ record'. process_mft_record record' investigation
  if all_zero record_bytes then ok investigation else processed

-- The loop, with the rounds that are left.
unfoldable pub slots_loop : ℕ → List ℕ → ℕ → ℕ → Investigation → Result Investigation
slots_loop record_size mft_bytes zero index investigation = ok investigation
slots_loop record_size mft_bytes (suc left) index investigation =
    process_slot record_size mft_bytes index investigation
    >>= slots_loop record_size mft_bytes left (index + 1)

abbrev pub mft_reader : NtfsFileSystem → NtfsMftReader
mft_reader volume = record {
  partition_offset = volume.partition_offset;
  bytes_per_sector = volume.boot_sector.bytes_per_sector;
  sectors_per_cluster = volume.boot_sector.sectors_per_cluster;
  mft_cluster = volume.boot_sector.mft_cluster;
  mft_record_size = volume.boot_sector.mft_record_size;
}

abbrev pub run_reader : NtfsFileSystem → DataRunReader
run_reader volume = record {
  partition_offset = volume.partition_offset;
  bytes_per_cluster = bytes_per_cluster volume.boot_sector;
}

-- `NtfsFileSystem::investigate`; the first record is parsed twice.
unfoldable pub investigate : NtfsFileSystem → Readable → Result Investigation
investigate volume reader = do
  record_zero ← read_record (mft_reader volume) reader 0
  (_, parsed_once) ← MftParser.parse record_zero
  (parsed, _) ← MftParser.parse parsed_once
  content ← ok_or parsed.content (invalid_format "$MFT DATA attribute not found")
  fail_if (not content.non_resident) (invalid_format "$MFT DATA attribute is resident")
  fail_if (content.real_size == 0) (invalid_format "$MFT has zero logical size")
  let record_size = volume.boot_sector.mft_record_size
  fail_if (record_size == 0) (invalid_format "MFT record size is zero")
  fail_if (not (content.real_size % record_size == 0))
      (invalid_format "MFT logical size is not aligned to record size")
  mft_bytes ← read_runs (run_reader volume) reader content.data_runs content.real_size
  slots_loop record_size mft_bytes (content.real_size / record_size) 0
      (new_investigation volume.boot_sector.sectors_per_cluster)
