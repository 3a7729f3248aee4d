-- ===== src/StoreManage/Count/Sum.antt =====
-- source/mq_store_manage.c: the count of a queue whose data files have their counts in their heads.
use ucmq.Prelude.{
  ℕ, ◌+◌, ◌-◌, ◌/◌, ◌^◌, ◌≤◌, ◌<◌, ◌≡◌, refl, subst, ap, ◌∙◌, true, false, Bool_cases, inl, inr,
  Option, some, List, [], ◌∷◌, ◌++◌, arith, if◌then◌else◌, All,
}
use ucmq.Prelude.Bytes.{u64_mod}
use ucmq.Prelude.Run.{ret, ◌>>=◌}
use ucmq.Config.{UcmqConf, max_db_file_size}
use ucmq.Types.{MqQueue, msg_head_len}
use ucmq.Os.{Os, Dirs, Dirent, FileType, dt_reg, dt_dir, dt_other}
use ucmq.StoreFile.{gen_queue_path_by_qname, gen_data_full_path_by_fname}
use ucmq.StoreFile.Find.{starts_with, is_hidden, db_file_pattern}
use ucmq.StoreFile.Find.Least.{db_name, db_names}
use ucmq.StoreManage.Count.{
  opened_count, usable, add_count, count_db, count_entry, count_entries, set_counts, get_msg_count,
}

abbrev pub sum_of : (List ℕ → ℕ) → List (List ℕ) → ℕ
sum_of head [] = 0
sum_of head (d ∷ ds) = head d + sum_of head ds

sum_of-append :
    (head : List ℕ → ℕ) (xs ys : List (List ℕ))
    → sum_of head (xs ++ ys) ≡ sum_of head xs + sum_of head ys
sum_of-append head [] ys = omega arith
sum_of-append head (x ∷ xs) ys = omega (arith, sum_of-append head xs ys)

All-split {ℓ κ} :
    {A : Type ℓ} (P : A → Type κ) (xs ys : List A) → All P (xs ++ ys) → All P xs × All P ys
All-split P [] ys h = (tt, h)
All-split P (x ∷ xs) ys h = let (l, r) = All-split P xs ys h.1 in ((h.0, l), r)

-- A data file's name is not hidden.
shown : (d : List ℕ) → starts_with d db_file_pattern ≡ true → is_hidden d ≡ false
unfolding starts_with is_hidden
shown [] h = absurd (ground arith)
shown (c ∷ d) h = ground (arith, h)

module _ (os : Os) (dirs : Dirs os) (conf : UcmqConf) (atoi : List ℕ → ℕ) (q : MqQueue)
    (head : List ℕ → ℕ) where
  -- The file of that name opens, and its head has the count, which a file can hold.
  pub record Headed (d : List ℕ) : Type 0 where
    pub positive : 0 < head d
    pub below : head d < max_db_file_size conf / msg_head_len
    pub fd : os.Sys → ℕ
    pub opens :
        (s : os.Sys)
        → (os.open_file s (gen_data_full_path_by_fname conf q.qname d) false).1 ≡ some (fd s)
    pub line : os.Sys → List ℕ
    pub reads :
        (s : os.Sys)
        → dirs.read_at
            (os.open_file s (gen_data_full_path_by_fname conf q.qname d) false).0
            (some (fd s))
            1
            12
          ≡ some (line s)
    pub parses : (s : os.Sys) → atoi (line s) ≡ head d

  module _ (small : max_db_file_size conf ≤ 2 ^ 26) where
    -- A count that fits is used as it is.
    head_used :
        (fd : Option ℕ) (all n : ℕ) (line : List ℕ) (s : os.Sys)
        → atoi line ≡ n
        → 0 < n
        → n < max_db_file_size conf / msg_head_len
        → all + n < u64_mod
        → add_count os dirs conf atoi q fd all (some line) s ≡ ret (os.close s fd, all + n)
    unfolding add_count usable
    head_used fd all n line s parses positive below fits =
        ground (arith, parses, positive, below, fits, small)

    opened_step :
        (all n : ℕ) (t : os.Sys × Option ℕ)
        → t.1 ≡ some n
        → opened_count os dirs conf atoi q all t
          ≡ add_count os dirs conf atoi q (some n) all (dirs.read_at t.0 (some n) 1 12) t.0
    unfolding opened_count
    opened_step all n (s, o) h = ap (λ o'. opened_count os dirs conf atoi q all (s, o')) h

    counts_head :
        (d : List ℕ) (all : ℕ) (s : os.Sys)
        → Headed d
        → starts_with d db_file_pattern ≡ true
        → all + head d < u64_mod
        → (s' : os.Sys) × (count_db os dirs conf atoi q d all s ≡ ret (s', all + head d))
    unfolding count_db
    counts_head d all s h db fits =
        let opened = os.open_file s (gen_data_full_path_by_fname conf q.qname d) false in
        (
          os.close opened.0 (some (h.fd s)),
          ap (λ b. if b then opened_count os dirs conf atoi q all opened else ret (s, all)) db
              ∙ opened_step all (h.fd s) opened (h.opens s)
              ∙ ap (λ o. add_count os dirs conf atoi q (some (h.fd s)) all o opened.0) (h.reads s)
              ∙ head_used (some (h.fd s)) all (head d) (h.line s) opened.0 (h.parses s) h.positive
                  h.below fits,
        )

    count_entry-sum :
        (d_type : FileType) (d : List ℕ) (all : ℕ) (s : os.Sys)
        → All Headed (db_name d_type d)
        → all + sum_of head (db_name d_type d) < u64_mod
        → (s' : os.Sys) × (count_entry os dirs conf atoi q d_type d all s
            ≡ ret (s', all + sum_of head (db_name d_type d)))
    unfolding count_entry count_db
    count_entry-sum dt_reg d all s h fits = elim (Bool_cases (starts_with d db_file_pattern)) [
      | inl db ↦
          let (s', counts) =
            counts_head d all s (subst (λ b. All Headed (if b then d ∷ [] else [])) db h).0 db (
              omega (
                arith,
                subst (λ b. all + sum_of head (if b then d ∷ [] else []) < u64_mod) db fits,
              )) in
          (s', ground (arith, db, counts, shown d db))
      | inr other ↦ (s, ground (arith, other))
    ]
    count_entry-sum dt_dir d all s h fits = (s, ap (λ n. ret (s, n)) {x = all} (omega arith))
    count_entry-sum dt_other d all s h fits = (s, ap (λ n. ret (s, n)) {x = all} (omega arith))

    count_entries-sum :
        (ents : List Dirent) (all : ℕ) (s : os.Sys)
        → All Headed (db_names ents)
        → all + sum_of head (db_names ents) < u64_mod
        → (s' : os.Sys) × (count_entries os dirs conf atoi q ents all s
            ≡ ret (s', all + sum_of head (db_names ents)))
    unfolding count_entries
    count_entries-sum [] all s h fits = (s, ap (λ n. ret (s, n)) {x = all} (omega arith))
    count_entries-sum (ent ∷ ents) all s h fits =
        let names = db_name ent.d_type ent.d_name in
        let (h0, h1) = All-split Headed names (db_names ents) h in
        let sums = sum_of-append head names (db_names ents) in
        let (s', first) = count_entry-sum ent.d_type ent.d_name all s h0 (omega (arith, sums)) in
        let (s'', rest) =
          count_entries-sum ents (all + sum_of head names) s' h1 (omega (arith, sums)) in
        (
          s'',
          ap (λ x. x >>= λ (t : os.Sys × ℕ). count_entries os dirs conf atoi q ents t.1 t.0) first
              ∙ rest
              ∙ ap (λ n. ret (s'', n)) (omega (arith, sums)),
        )

    -- The count of a queue that was not counted before, whose data files can all be opened and
    -- have a count in their heads that a file can hold, is the sum of those counts less the number
    -- of messages read, or 0 if that is more; the queue's counters are the sum, that number and
    -- the count. The files are of at most 64 MB and the sum is below 2 ^ 64.
    pub get_msg_count-sum :
        (ents : List Dirent) (s : os.Sys)
        → dirs.read_dir s (gen_queue_path_by_qname conf q.qname) ≡ some ents
        → All Headed (db_names ents)
        → sum_of head (db_names ents) < u64_mod
        → q.unread_count ≡ 0
        → (s' : os.Sys) × (q' : MqQueue) × (get_msg_count os dirs conf atoi q s
            ≡ ret (s', q', sum_of head (db_names ents) - q.cur_rdb.opt_count))
          × (q'.put_num ≡ sum_of head (db_names ents))
          × (q'.get_num ≡ q.cur_rdb.opt_count)
          × (q'.unread_count ≡ sum_of head (db_names ents) - q.cur_rdb.opt_count)
    unfolding get_msg_count set_counts
    get_msg_count-sum ents s lists h fits unread =
        let (s', counts) = count_entries-sum ents 0 s h (omega arith) in
        (
          s',
          set_counts os dirs conf atoi q (0 + sum_of head (db_names ents)),
          ground (arith, lists, counts, unread),
          ground arith,
          refl,
          ground arith,
        )
