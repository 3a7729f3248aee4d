-- ===== src/StoreFile/Find/Scan.antt =====
-- source/mq_store_file.c: the data files that `find_handle_file` picks.
use ucmq.Prelude.{
  ℕ, ◌+◌, ◌<◌, ◌≡◌, Bool, true, false, ◌||◌, Bool_cases, ==_iff, inl, inr, some, List, [], ◌∷◌,
  arith, length, leb, ◌==◌, All,
}
use ucmq.Prelude.Run.{ret}
use mathlib.Core.List.{Mem}
use ucmq.Config.{UcmqConf}
use ucmq.Types.{QueueFile}
use ucmq.Os.{Os, Dirs, Dirent}
use ucmq.StoreFile.{gen_queue_path_by_qname}
use ucmq.StoreFile.Find.{last_piece, name_lt, Found, get_id_by_fname, found_files, find_handle_file}
use ucmq.StoreFile.Find.Least.{Chosen, db_names}
use ucmq.StoreFile.Find.Round.{Fits, scan-Chosen}

-- The least of the names of data files, and the greatest.
pub record Picked (ns : List (List ℕ)) (file : QueueFile) : Type 0 where
  pub least_there : Mem file.read_name ns
  pub least : All (λ x. name_lt x file.read_name ≡ false) ns
  pub greatest_there : Mem file.write_name ns
  pub greatest : All (λ x. name_lt file.write_name x ≡ false) ns

-- The numbers are those in the names, and the record file has that of the read file.
pub record Numbered (atoll : List ℕ → ℕ) (file : QueueFile) : Type 0 where
  pub read_id : get_id_by_fname atoll file.read_name ≡ ret file.read_fid
  pub write_id : get_id_by_fname atoll file.write_name ≡ ret file.write_fid
  pub same_id : file.rtag_fid ≡ file.read_fid

abbrev id_of : (List ℕ → ℕ) → List ℕ → ℕ
id_of atoll name = elim (last_piece [] [] name) [ [] ↦ 0 | d ∷ digits ↦ atoll (d ∷ digits) ]

short_id :
    (atoll : List ℕ → ℕ) (name : List ℕ)
    → length name < 64
    → get_id_by_fname atoll name ≡ ret (id_of atoll name)
unfolding get_id_by_fname
short_id atoll name l = ground (arith, l)

more : (i j n : ℕ) → (leb i 1 || leb j 1) ≡ false → i ≡ 1 + n → 0 < n
more i j n there count = ground arith

picked : (ns : List (List ℕ)) (f : Found) → Chosen ns f → 0 < length ns → Picked ns f.file
picked ns f c there = record {
  least_there = c.read_there there;
  least = c.read_least;
  greatest_there = c.write_there there;
  greatest = c.write_greatest;
}

module _ (os : Os) (dirs : Dirs os) (conf : UcmqConf) where
  found-Picked :
      (atoll : List ℕ → ℕ) (ns : List (List ℕ)) (f : Found) (s : os.Sys)
      → Chosen ns f
      → (file : QueueFile) × (ok : Bool) × (found_files os dirs conf atoll (s, f)
          ≡ ret (s, file, ok))
        × (0 < length ns → Picked ns file)
        × (ok ≡ true → (0 < length ns) × Numbered atoll file)
  unfolding found_files
  found-Picked atoll ns f s c = elim (Bool_cases (leb f.i 1 || leb f.j 1)) [
    | inl lacks ↦ (f.file, false, ground (arith, lacks), picked ns f c, λ h. absurd (ground arith))
    | inr there ↦
        let numbered : Found = record f {
          file = record (f.file) {
            rtag_fid = id_of atoll f.file.rtag_name;
            read_fid = id_of atoll f.file.read_name;
            write_fid = id_of atoll f.file.write_name;
          };
        } in
        (
          numbered.file,
          id_of atoll f.file.rtag_name == id_of atoll f.file.read_name,
          ground (
            arith,
            there,
            short_id atoll f.file.rtag_name c.rtag_short,
            short_id atoll f.file.read_name c.read_short,
            short_id atoll f.file.write_name c.write_short,
          ),
          (λ some_. record {
            least_there = c.read_there some_;
            least = c.read_least;
            greatest_there = c.write_there some_;
            greatest = c.write_greatest;
          }),
          λ h. (
            more f.i f.j (length ns) there c.count,
            record {
              read_id = short_id atoll f.file.read_name c.read_short;
              write_id = short_id atoll f.file.write_name c.write_short;
              same_id = (==_iff (id_of atoll f.file.rtag_name) (id_of atoll f.file.read_name)).0 h;
            },
          ),
        )
  ]

  -- Where the directory of a queue can be listed and no name in it is longer than 63 characters,
  -- the search ends without a fault; the read file is then the least of the names of data files in
  -- the listing and the write file the greatest, if there are any, and where the search succeeds
  -- there are some, the numbers are those in the names, and the record file has the number of the
  -- read file.
  pub find_handle_file-Picked :
      (atoll : List ℕ → ℕ) (file : QueueFile) (qname : List ℕ) (s : os.Sys) (ents : List Dirent)
      → dirs.read_dir s (gen_queue_path_by_qname conf qname) ≡ some ents
      → All Fits ents
      → length file.rtag_name < 64
      → length file.read_name < 64
      → length file.write_name < 64
      → (s' : os.Sys) × (file' : QueueFile) × (ok : Bool) × (find_handle_file os dirs conf atoll
            file qname s
          ≡ ret (s', file', ok))
        × (0 < length (db_names ents) → Picked (db_names ents) file')
        × (ok ≡ true → (0 < length (db_names ents)) × Numbered atoll file')
  unfolding find_handle_file
  find_handle_file-Picked atoll file qname s ents lists l short_rtag short_read short_write =
      let (s', f', scans, c) =
        scan-Chosen os dirs conf ents [] (record { i = 1; j = 1; file = file }) s l
          (record {
            count = omega arith;
            read_there = λ h. absurd (omega arith);
            read_least = tt;
            write_there = λ h. absurd (omega arith);
            write_greatest = tt;
            rtag_short = short_rtag;
            read_short = short_read;
            write_short = short_write;
          }) in
      let (file', ok, founds, names, ids) = found-Picked atoll (db_names ents) f' s' c in
      (s', file', ok, ground (arith, lists, scans, founds), names, ids)
