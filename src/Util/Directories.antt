-- ===== src/Util/Directories.antt =====
-- source/util.c, source/mq_util.c: making and deleting directories.
use ucmq.Prelude.{
  ℕ, zero, suc, ◌-◌, Bool, true, false, not, ◌&&◌, ◌||◌, Option, none, some, List, [], ◌∷◌, ◌++◌,
  ltb, ◌==◌, if◌then◌else◌, length, get_or,
}
use ucmq.Prelude.Run.{Run, ret, fault, out_of_fuel, ◌>>=◌}
use ucmq.Os.{FileType, dt_reg, dt_dir, Dirent}
use ucmq.QueueManage.Table.{same_name}
use ucmq.Io.{Host, mq_errno}
use ucmq.Util.{Calls, eexist}

unfoldable pub is_special_dir : List ℕ → Bool
unfolding same_name
is_special_dir path = same_name path (46 ∷ []) || same_name path (46 ∷ 46 ∷ [])

-- PATH_MAX
abbrev pub path_max : ℕ
path_max = 4096

-- The buffer has PATH_MAX bytes; an empty path reads the byte in front of it.
unfoldable pub get_file_path : List ℕ → List ℕ → Run (List ℕ)
get_file_path path file_name =
    let slashed = if get_or path (length path - 1) 0 == 47 then path else path ++ 47 ∷ [] in
    if length path == 0
    then fault
    else if ltb (length (slashed ++ file_name)) path_max
    then ret (slashed ++ file_name)
    else fault

module _ (host : Host) (calls : Calls host) where
  open host use {Sys}

  -- The new directory is not there and cannot be made.
  unfoldable pub mkdir_fails : ℕ → List ℕ → Sys → Sys × Bool
  mkdir_fails mode dir s =
      let (s', made) = calls.mkdir s dir mode in (s', not made && not (host.errno s' == eexist))

  -- The end of the loop's body: a failure returns, else the loop goes on.
  unfoldable pub go_on : (Sys → Sys × ℕ) → Sys × Bool → Sys × ℕ
  unfolding mq_errno
  go_on next (s, true) = (s, mq_errno host s)
  go_on next (s, false) = next s

  -- From a byte of the path on; `before` is what stands before it. The end makes the whole path.
  unfoldable pub mkdir_from : ℕ → List ℕ → List ℕ → Sys → Sys × ℕ
  unfolding mkdir_fails go_on
  mkdir_from mode before [] s = go_on (λ s'. (s', 0)) (mkdir_fails mode before s)
  mkdir_from mode before (c ∷ rest) s =
      let next = mkdir_from mode (before ++ c ∷ []) rest in
      if c == 47 && ltb 0 (length before) then go_on next (mkdir_fails mode before s) else next s

  unfoldable pub do_mkdir : List ℕ → ℕ → Sys → Sys × ℕ
  unfolding mkdir_from
  do_mkdir dir mode s = mkdir_from mode [] dir s

  -- lstat succeeds and says so.
  unfoldable pub has_type : Option FileType → FileType → Bool
  has_type (some dt_reg) dt_reg = true
  has_type (some dt_dir) dt_dir = true
  has_type found type = false

  unfoldable pub is_dir : List ℕ → Sys → Bool
  unfolding has_type
  is_dir path s = has_type (calls.lstat_type s path) dt_dir

  unfoldable pub is_file : List ℕ → Sys → Bool
  unfolding has_type
  is_file path s = has_type (calls.lstat_type s path) dt_reg

  -- The loop of `delete_file` over a directory; `delete` is the call of itself.
  unfoldable pub delete_entries : (List ℕ → Sys → Run Sys) → List ℕ → List Dirent → Sys → Run Sys
  unfolding get_file_path is_special_dir
  delete_entries delete path [] s = ret s
  delete_entries delete path (entry ∷ entries) s = do
    file_path ← get_file_path path entry.d_name
    elim (is_special_dir entry.d_name) [
      | true ↦ delete_entries delete path entries s
      | false ↦ do
        s' ← delete file_path s
        delete_entries delete path entries (calls.rmdir s' file_path)
    ]

  -- On the depth of directories left.
  unfoldable pub delete_file : ℕ → List ℕ → Sys → Run Sys
  unfolding is_file is_dir delete_entries
  delete_file zero path s = out_of_fuel
  delete_file (suc depth) path s =
      if is_file path s
      then ret (calls.remove s path)
      else if is_dir path s
      then elim (calls.read_dir s path) [
        | none ↦ ret s
        | some entries ↦ do
          s' ← delete_entries (delete_file depth) path entries s
          ret (calls.rmdir s' path)
      ]
      else ret (calls.rmdir s path)
