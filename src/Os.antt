-- ===== src/Os.antt =====
-- The operating system as the store uses it: files, descriptors, mappings. None of it is in this
-- repository, so it is a parameter; a mapping's bytes are reached by `load` and `store`. A path is
-- the list of its bytes, and `none` stands for a negative descriptor or a failed mapping.
use ucmq.Prelude.{ℕ, ◌≡◌, ◌≢◌, Bool, Option, some, List}
use ucmq.Prelude.Bytes.{Memory, poke}

-- What reading the file back from `i` records before its end gives: a seek before the file's
-- start, an error, or bytes.
pub data TailRead : Type 0 where
  before_start failed : TailRead
  got : List ℕ → TailRead

pub data MkdirRet : Type 0 where
  made exists refused : MkdirRet

pub record Os : Type 1 where
  pub Sys : Type 0
  -- How many bytes of a mapping may be touched: 0 if it is not there.
  pub mapped : Sys → ℕ → ℕ
  pub load : Sys → ℕ → Memory
  pub store : Sys → ℕ → ℕ → List ℕ → Sys
  -- The Boolean is O_CREAT.
  pub open_file : Sys → List ℕ → Bool → Sys × Option ℕ
  pub close : Sys → Option ℕ → Sys
  pub ftruncate : Sys → Option ℕ → ℕ → Sys
  -- lseek(fd, -1, SEEK_END) is not negative.
  pub seek_last : Sys → Option ℕ → Sys × Bool
  pub write_byte : Sys → Option ℕ → ℕ → Sys
  pub file_size : Sys → List ℕ → Option ℕ
  pub mmap : Sys → Option ℕ → ℕ → Sys × Option ℕ
  pub munmap : Sys → Option ℕ → Sys
  -- The Boolean of a synchronisation: its result is not negative.
  pub msync : Sys → Option ℕ → ℕ → Sys × Bool
  pub fsync : Sys → Option ℕ → Sys × Bool
  pub unlink : Sys → List ℕ → Sys
  -- `write_n` of source/file.c; the Boolean says that its result is positive.
  pub write_n : Sys → Option ℕ → List ℕ → Sys × Bool
  -- lseek and `read_n` of source/file.c, from a number of records before the end.
  pub read_tail : Sys → Option ℕ → ℕ → TailRead
  -- f_bavail * f_bsize of statfs.
  pub free_bytes : Sys → List ℕ → ℕ
  pub access : Sys → List ℕ → Bool
  pub mkdir : Sys → List ℕ → Sys × MkdirRet
  -- `delete_file` of source/mq_util.c.
  pub delete_file : Sys → List ℕ → Sys

-- What the store relies on: memory behaves as memory, and the calls on other files and on the disk
-- copy leave it alone. These laws are for a program that maps no file twice and writes to a mapped
-- file through its mapping only, as this one does: `write_n` gets the descriptors of record files.
pub record IsLawful (os : Os) : Type 0 where
  pub load_store :
      (s : os.Sys) (m p : ℕ) (bs : List ℕ) → os.load (os.store s m p bs) m ≡ poke (os.load s m) p bs
  pub load_store_ne :
      (s : os.Sys) (m k p : ℕ) (bs : List ℕ) → m ≢ k → os.load (os.store s m p bs) k ≡ os.load s k
  pub mapped_store :
      (s : os.Sys) (m k p : ℕ) (bs : List ℕ) → os.mapped (os.store s m p bs) k ≡ os.mapped s k
  pub load_write :
      (s : os.Sys) (fd : Option ℕ) (bs : List ℕ) (k : ℕ)
      → os.load (os.write_n s fd bs).0 k ≡ os.load s k
  pub mapped_write :
      (s : os.Sys) (fd : Option ℕ) (bs : List ℕ) (k : ℕ)
      → os.mapped (os.write_n s fd bs).0 k ≡ os.mapped s k
  pub load_msync :
      (s : os.Sys) (m : Option ℕ) (n k : ℕ) → os.load (os.msync s m n).0 k ≡ os.load s k
  pub mapped_msync :
      (s : os.Sys) (m : Option ℕ) (n k : ℕ) → os.mapped (os.msync s m n).0 k ≡ os.mapped s k

-- The calls on files and on other mappings leave a mapping alone.
pub record KeepsMaps (os : Os) : Type 0 where
  pub load_munmap : (s : os.Sys) (m k : ℕ) → m ≢ k → os.load (os.munmap s (some m)) k ≡ os.load s k
  pub mapped_munmap :
      (s : os.Sys) (m k : ℕ) → m ≢ k → os.mapped (os.munmap s (some m)) k ≡ os.mapped s k
  pub load_close : (s : os.Sys) (fd : Option ℕ) (k : ℕ) → os.load (os.close s fd) k ≡ os.load s k
  pub mapped_close :
      (s : os.Sys) (fd : Option ℕ) (k : ℕ) → os.mapped (os.close s fd) k ≡ os.mapped s k
  pub load_unlink :
      (s : os.Sys) (name : List ℕ) (k : ℕ) → os.load (os.unlink s name) k ≡ os.load s k
  pub mapped_unlink :
      (s : os.Sys) (name : List ℕ) (k : ℕ) → os.mapped (os.unlink s name) k ≡ os.mapped s k
  pub load_open_file :
      (s : os.Sys) (name : List ℕ) (create : Bool) (k : ℕ)
      → os.load (os.open_file s name create).0 k ≡ os.load s k
  pub mapped_open_file :
      (s : os.Sys) (name : List ℕ) (create : Bool) (k : ℕ)
      → os.mapped (os.open_file s name create).0 k ≡ os.mapped s k

-- d_type: a regular file, a directory, or another.
pub data FileType : Type 0 where
  dt_reg dt_dir dt_other : FileType

-- struct dirent
pub record Dirent : Type 0 where
  pub d_type : FileType
  pub d_name : List ℕ

-- access(path, F_OK | R_OK | W_OK): 0, or its errno.
pub data AccessRet : Type 0 where
  usable eacces enoent other_errno : AccessRet

-- What the start of the program uses besides.
pub record Dirs (os : Os) : Type 0 where
  -- What readdir gives one after another: `none` where opendir fails.
  pub read_dir : os.Sys → List ℕ → Option (List Dirent)
  pub access_errno : os.Sys → List ℕ → AccessRet
  pub is_dir : os.Sys → List ℕ → Bool
  -- lseek to an offset and `read_n` of source/file.c of so many bytes: `none` where one fails.
  pub read_at : os.Sys → Option ℕ → ℕ → ℕ → Option (List ℕ)
