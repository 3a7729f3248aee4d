-- ===== src/QueueManage/Table/Closed.antt =====
-- source/mq_queue_manage.c, source/mq_store_manage.c: what closing the store gives back to the system.
use ucmq.Prelude.{
  ℕ, ◌≡◌, ◌⊎◌, true, Bool_cases, Option_cases, either_way, inl, inr, Option, none, some, List, [],
  ◌∷◌, ◌==◌, All, if◌then◌else◌,
}
use ucmq.Config.{UcmqConf}
use ucmq.Types.{MqQueue, DbMap}
use ucmq.Os.{Os}
use ucmq.StoreRtag.{rtag_close_file}
use ucmq.StoreManage.{close_db_file, close_db}
use ucmq.QueueManage.Table.{QueueList, close_all, close_store}

-- What a queue holds of the system.
pub data Resource : Type 0 where
  mapping descriptor : ℕ → Resource

-- What munmap and close are given is free then, and what is free stays so while nothing is opened.
pub record IsFreeing (os : Os) : Type 1 where
  pub Free : os.Sys → Resource → Type 0
  pub munmap_frees : (s : os.Sys) (m : ℕ) → Free (os.munmap s (some m)) (mapping m)
  pub close_frees : (s : os.Sys) (fd : ℕ) → Free (os.close s (some fd)) (descriptor fd)
  pub free_munmap : (s : os.Sys) (m : Option ℕ) (r : Resource) → Free s r → Free (os.munmap s m) r
  pub free_close : (s : os.Sys) (fd : Option ℕ) (r : Resource) → Free s r → Free (os.close s fd) r
  pub free_msync :
      (s : os.Sys) (m : Option ℕ) (n : ℕ) (r : Resource) → Free s r → Free (os.msync s m n).0 r
  pub free_fsync : (s : os.Sys) (fd : Option ℕ) (r : Resource) → Free s r → Free (os.fsync s fd).0 r
  pub free_unlink :
      (s : os.Sys) (name : List ℕ) (r : Resource) → Free s r → Free (os.unlink s name) r

module _ (os : Os) (law : IsFreeing os) where
  open os use {Sys}

  abbrev MappingFree : Option ℕ → Sys → Type 0
  MappingFree none s = Unit
  MappingFree (some m) s = law.Free s (mapping m)

  abbrev DescriptorFree : Option ℕ → Sys → Type 0
  DescriptorFree none s = Unit
  DescriptorFree (some fd) s = law.Free s (descriptor fd)

  abbrev pub FileFree : DbMap → Sys → Type 0
  FileFree db s = MappingFree db.map_mem s × DescriptorFree db.fd s

  -- The record file, the write file, and the read file where it is another.
  abbrev pub QueueFree : MqQueue → Sys → Type 0
  QueueFree q s =
      DescriptorFree q.rtag_fd s
      × FileFree q.cur_wdb s
      × ((q.cur_rdb.cur_index == q.cur_wdb.cur_index) ≡ true ⊎ FileFree q.cur_rdb s)

  -- Every queue of the list has given everything back.
  abbrev pub AllFree : QueueList → Sys → Type 0
  AllFree qlist s = All (λ e. QueueFree e.1 s) qlist

  -- What is free at one state is so at another.
  Kept : Sys → Sys → Type 0
  Kept s s' = (r : Resource) → law.Free s r → law.Free s' r

  mapping_kept : (o : Option ℕ) (s s' : Sys) → Kept s s' → MappingFree o s → MappingFree o s'
  unfolding Kept
  mapping_kept none s s' keeps h = tt
  mapping_kept (some m) s s' keeps h = keeps (mapping m) h

  descriptor_kept :
      (o : Option ℕ) (s s' : Sys) → Kept s s' → DescriptorFree o s → DescriptorFree o s'
  unfolding Kept
  descriptor_kept none s s' keeps h = tt
  descriptor_kept (some fd) s s' keeps h = keeps (descriptor fd) h

  file_kept : (db : DbMap) (s s' : Sys) → Kept s s' → FileFree db s → FileFree db s'
  file_kept db s s' keeps h =
      (mapping_kept db.map_mem s s' keeps h.0, descriptor_kept db.fd s s' keeps h.1)

  queue_kept : (q : MqQueue) (s s' : Sys) → Kept s s' → QueueFree q s → QueueFree q s'
  queue_kept q s s' keeps (record_file, write_file, read_file) = (
    descriptor_kept q.rtag_fd s s' keeps record_file,
    file_kept q.cur_wdb s s' keeps write_file,
    elim read_file [ inl same ↦ inl same | inr free ↦ inr (file_kept q.cur_rdb s s' keeps free) ],
  )

  module _ (conf : UcmqConf) where
    file_frees :
        (m fd : Option ℕ) (s : Sys)
        → MappingFree m (close_db_file os conf m fd s)
          × DescriptorFree fd (close_db_file os conf m fd s)
    unfolding close_db_file
    file_frees none none s = (tt, tt)
    file_frees none (some fd) s = (tt, law.close_frees _ fd)
    file_frees (some m) none s =
        (law.free_close _ none _ (law.free_fsync _ none _ (law.munmap_frees _ m)), tt)
    file_frees (some m) (some fd) s = (
      law.free_close _ (some fd) _ (law.free_fsync _ (some fd) _ (law.munmap_frees _ m)),
      law.close_frees _ fd,
    )

    file_keeps : (m fd : Option ℕ) (s : Sys) → Kept s (close_db_file os conf m fd s)
    unfolding Kept close_db_file
    file_keeps none fd s r h = law.free_close _ fd r (law.free_fsync _ fd r h)
    file_keeps (some m) fd s r h =
        law.free_close _ fd r
          (law.free_fsync _ fd r (law.free_munmap _ (some m) r (law.free_msync s (some m) _ r h)))

    rtag_frees : (q : MqQueue) (s : Sys) → DescriptorFree q.rtag_fd (rtag_close_file os q s).0
    unfolding rtag_close_file
    rtag_frees q s = elim (Option_cases q.rtag_fd) [
      | inl is ↦ rw is tt
      | inr (fd, is) ↦ rw is (law.close_frees _ fd)
    ]

    rtag_keeps : (q : MqQueue) (s : Sys) → Kept s (rtag_close_file os q s).0
    unfolding Kept rtag_close_file
    rtag_keeps q s r h = elim (Option_cases q.rtag_fd) [
      | inl is ↦ rw is h
      | inr (fd, is) ↦ rw is (law.free_close _ (some fd) r (law.free_fsync _ (some fd) r h))
    ]

    -- The read file is closed first, where it is another.
    read_closed : MqQueue → Sys → Sys
    read_closed q s =
        if q.cur_rdb.cur_index == q.cur_wdb.cur_index
        then s
        else close_db_file os conf q.cur_rdb.map_mem q.cur_rdb.fd s

    read_keeps : (q : MqQueue) (s : Sys) → Kept s (read_closed q s)
    unfolding Kept read_closed
    read_keeps q s r h =
        either_way (λ s'. law.Free s' r) (q.cur_rdb.cur_index == q.cur_wdb.cur_index) h
          (file_keeps q.cur_rdb.map_mem q.cur_rdb.fd s r h)

    read_frees :
        (q : MqQueue) (s : Sys)
        → ((q.cur_rdb.cur_index == q.cur_wdb.cur_index) ≡ true)
          ⊎ FileFree q.cur_rdb (read_closed q s)
    unfolding read_closed
    read_frees q s = elim (Bool_cases (q.cur_rdb.cur_index == q.cur_wdb.cur_index)) [
      | inl same ↦ inl same
      | inr other ↦ inr (rw other (file_frees q.cur_rdb.map_mem q.cur_rdb.fd s))
    ]

    queue_closed : MqQueue → Sys → Sys
    queue_closed q s = (close_db os conf q (rtag_close_file os q s).0).0

    queue_keeps : (q : MqQueue) (s : Sys) → Kept s (queue_closed q s)
    unfolding Kept queue_closed close_db read_closed
    queue_keeps q s r h =
        file_keeps q.cur_wdb.map_mem q.cur_wdb.fd _ r (read_keeps q _ r (rtag_keeps q s r h))

    queue_frees : (q : MqQueue) (s : Sys) → QueueFree q (queue_closed q s)
    unfolding queue_closed close_db read_closed
    queue_frees q s =
        let s1 = (rtag_close_file os q s).0 in
        let s2 = read_closed q s1 in
        let s3 = close_db_file os conf q.cur_wdb.map_mem q.cur_wdb.fd s2 in
        let last : Kept s2 s3 = file_keeps q.cur_wdb.map_mem q.cur_wdb.fd s2 in
        (
          descriptor_kept q.rtag_fd s2 s3 last
              (descriptor_kept q.rtag_fd s1 s2 (read_keeps q s1) (rtag_frees q s)),
          file_frees q.cur_wdb.map_mem q.cur_wdb.fd s2,
          elim (read_frees q s1) [
            | inl same ↦ inl same
            | inr free ↦ inr (file_kept q.cur_rdb s2 s3 last free)
          ],
        )

    all_keeps : (qlist : QueueList) (s : Sys) → Kept s (close_all os conf qlist s)
    unfolding Kept close_all queue_closed
    all_keeps [] s r h = h
    all_keeps ((key, q) ∷ qlist) s r h = all_keeps qlist (queue_closed q s) r (queue_keeps q s r h)

    close_all-AllFree : (qlist : QueueList) (s : Sys) → AllFree qlist (close_all os conf qlist s)
    unfolding close_all queue_closed
    close_all-AllFree [] s = tt
    close_all-AllFree ((key, q) ∷ qlist) s = (
      queue_kept q (queue_closed q s) _ (all_keeps qlist (queue_closed q s)) (queue_frees q s),
      close_all-AllFree qlist (queue_closed q s),
    )

    -- Closing the store gives back every mapping and descriptor of every queue.
    pub close_store-AllFree :
        (qlist : QueueList) (s : Sys) → AllFree qlist (close_store os conf qlist s).0
    unfolding close_store
    close_store-AllFree qlist s = close_all-AllFree qlist s

  -- Nothing of that is lost when a file is removed.
  pub unlink-AllFree :
      (qlist : QueueList) (s : Sys) (name : List ℕ)
      → AllFree qlist s
      → AllFree qlist (os.unlink s name)
  unfolding Kept
  unlink-AllFree [] s name free = tt
  unlink-AllFree ((key, q) ∷ qlist) s name (free, rest) = (
    queue_kept q s (os.unlink s name) (λ r h. law.free_unlink s name r h) free,
    unlink-AllFree qlist s name rest,
  )
