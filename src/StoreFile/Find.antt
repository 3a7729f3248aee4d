-- ===== src/StoreFile/Find.antt =====
-- source/mq_store_file.c: `touch_data_path`, `find_handle_file` and `get_id_by_fname`. A directory is
-- listed as it is when it is opened.
pub mod Order
pub mod Least
pub mod Round
pub mod Scan
use ucmq.Prelude.{
  ℕ, zero, suc, ◌+◌, Bool, true, false, ◌&&◌, ◌||◌, Option, none, some, List, [], ◌∷◌, ◌++◌, ltb,
  leb, ◌==◌, if◌then◌else◌, length,
}
use ucmq.Prelude.Run.{Run, ret, fault, ◌>>=◌}
use ucmq.Config.{UcmqConf}
use ucmq.Types.{QueueFile}
use ucmq.Os.{
  Os, Dirs, Dirent, FileType, dt_reg, dt_dir, dt_other, AccessRet, usable, eacces, enoent,
  other_errno, MkdirRet, made, exists, refused,
}
use ucmq.StoreFile.{gen_queue_path_by_qname}

-- strcmp(a, b) < 0
unfoldable pub name_lt : List ℕ → List ℕ → Bool
name_lt a [] = false
name_lt [] (d ∷ b) = true
name_lt (c ∷ a) (d ∷ b) =
    let rest = name_lt a b in if ltb c d then true else if c == d then rest else false

-- strncmp(name, pattern, strlen(pattern)) == 0
unfoldable pub starts_with : List ℕ → List ℕ → Bool
starts_with name [] = true
starts_with [] (d ∷ pattern) = false
starts_with (c ∷ name) (d ∷ pattern) =
    let rest = starts_with name pattern in if c == d then rest else false

abbrev pub db_file_pattern : List ℕ
db_file_pattern = b'd' ∷ b'b' ∷ b'_' ∷ []

abbrev pub rtag_file_pattern : List ℕ
rtag_file_pattern = b'r' ∷ b't' ∷ b'a' ∷ b'g' ∷ b'_' ∷ []

unfoldable pub is_hidden : List ℕ → Bool
unfolding starts_with
is_hidden d_name = starts_with d_name (b'.' ∷ [])

-- The last piece of strtok(…, "_"); `cur` is the piece read so far and `last` the one before it.
unfoldable pub last_piece : List ℕ → List ℕ → List ℕ → List ℕ
last_piece last [] [] = last
last_piece last (c ∷ cur) [] = c ∷ cur
last_piece last [] (d ∷ str) = elim (d == b'_') [
  | true ↦ last_piece last [] str
  | false ↦ last_piece last (d ∷ []) str
]
last_piece last (c ∷ cur) (d ∷ str) = elim (d == b'_') [
  | true ↦ last_piece (c ∷ cur) [] str
  | false ↦ last_piece last (c ∷ cur ++ d ∷ []) str
]

-- `atoll` gives the 64-bit pattern. The name is copied to 64 bytes, with its zero if there is room.
module _ (atoll : List ℕ → ℕ) where
  unfoldable pub get_id_by_fname : List ℕ → Run ℕ
  unfolding last_piece
  get_id_by_fname qname =
      if ltb (length qname) 64
      then ret (elim (last_piece [] [] qname) [ [] ↦ 0 | d ∷ digits ↦ atoll (d ∷ digits) ])
      else fault

-- The variables of the loop: `i` and `j`, and the names found.
pub record Found : Type 0 where
  pub i : ℕ
  pub j : ℕ
  pub file : QueueFile

-- A name that starts with "db_".
unfoldable pub take_db : List ℕ → Found → Found
unfolding name_lt
take_db d_name f =
    if f.i == 1
    then record f {
      file = record (f.file) { read_name = d_name; write_name = d_name };
      i = f.i + 1;
    }
    else record f {
      file = record (f.file) {
        read_name = if name_lt d_name f.file.read_name then d_name else f.file.read_name;
        write_name = if name_lt f.file.write_name d_name then d_name else f.file.write_name;
      };
      i = f.i + 1;
    }

module _ (os : Os) (dirs : Dirs os) (conf : UcmqConf) where
  open os use {Sys}

  -- A name that starts with "rtag_": sizes and removals are of the name alone, which the system
  -- takes from the working directory.
  unfoldable pub take_rtag : List ℕ → Found → Sys → Sys × Found
  unfolding name_lt
  take_rtag d_name f s =
      if f.j == 1
      then (s, record f { file = record (f.file) { rtag_name = d_name }; j = f.j + 1 })
      else elim (os.file_size s d_name) [
        | none ↦ (os.unlink s d_name, f)
        | some size ↦ (
          os.unlink s (if name_lt d_name f.file.rtag_name then d_name else f.file.rtag_name),
          record f {
            file = record (f.file) {
              rtag_name = if name_lt f.file.rtag_name d_name then d_name else f.file.rtag_name;
            };
            j = f.j + 1;
          },
        )
      ]

  -- The fields hold 64 characters.
  unfoldable pub visit : List ℕ → Found → Sys → Run (Sys × Found)
  unfolding starts_with take_db take_rtag
  visit d_name f s =
      if ltb 64 (length d_name)
        && (starts_with d_name db_file_pattern || starts_with d_name rtag_file_pattern)
      then fault
      else if starts_with d_name db_file_pattern
      then ret (s, take_db d_name f)
      else if starts_with d_name rtag_file_pattern
      then ret (take_rtag d_name f s)
      else ret (s, f)

  -- One round of the loop, with its `continue`s.
  unfoldable pub round : FileType → List ℕ → Found → Sys → Run (Sys × Found)
  unfolding visit is_hidden
  round dt_reg d_name f s = if is_hidden d_name then ret (s, f) else visit d_name f s
  round dt_dir d_name f s = ret (s, f)
  round dt_other d_name f s = ret (s, f)

  unfoldable pub scan : List Dirent → Found → Sys → Run (Sys × Found)
  unfolding round
  scan [] f s = ret (s, f)
  scan (ent ∷ ents) f s = do (s', f') ← round ent.d_type ent.d_name f s; scan ents f' s'

  -- After the loop: both kinds of file are there, and the record is that of the read file.
  unfoldable pub found_files : (List ℕ → ℕ) → Sys × Found → Run (Sys × QueueFile × Bool)
  unfolding get_id_by_fname
  found_files atoll (s, f) = if leb f.i 1 || leb f.j 1 then ret (s, f.file, false) else (do
    rtag ← get_id_by_fname atoll f.file.rtag_name
    read ← get_id_by_fname atoll f.file.read_name
    write ← get_id_by_fname atoll f.file.write_name
    ret (s, record (f.file) { rtag_fid = rtag; read_fid = read; write_fid = write }, rtag == read))

  unfoldable pub find_handle_file :
      (List ℕ → ℕ) → QueueFile → List ℕ → Sys → Run (Sys × QueueFile × Bool)
  unfolding scan found_files
  find_handle_file atoll file qname s =
      elim (dirs.read_dir s (gen_queue_path_by_qname conf qname)) [
        | none ↦ ret (s, file, false)
        | some ents ↦ (do
          found ← scan ents (record { i = 1; j = 1; file = file }) s
          found_files atoll found)
      ]

  unfoldable pub touch_data_path : List ℕ → Sys → Sys × Bool
  touch_data_path path s = elim (dirs.access_errno s path) [
    | usable ↦ (s, dirs.is_dir s path)
    | eacces ↦ (s, false)
    | enoent ↦
        let (s', made_dir) = os.mkdir s path in
        elim made_dir [
          | made ↦ (s', dirs.is_dir s' path)
          | exists ↦ (s', false)
          | refused ↦ (s', false)
        ]
    | other_errno ↦ (s, false)
  ]
