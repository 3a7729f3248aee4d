-- ===== src/StoreFile/Find/Round.antt =====
-- source/mq_store_file.c: the names that the loop of `find_handle_file` has seen.
use ucmq.Prelude.{
  ℕ, ◌+◌, ◌<◌, ◌≡◌, refl, sym, subst, true, false, Bool_cases, either_way, none, inl, inr, some,
  List, [], ◌∷◌, ◌++◌, append-nil, append_assoc, arith, length, ◌==◌, if◌then◌else◌, All,
}
use ucmq.Prelude.Run.{ret}
use ucmq.Config.{UcmqConf}
use ucmq.Os.{Os, Dirs, Dirent, FileType, dt_reg, dt_dir, dt_other}
use ucmq.StoreFile.Find.{
  round, name_lt, starts_with, db_file_pattern, rtag_file_pattern, Found, take_db, take_rtag, visit,
  is_hidden, scan,
}
use ucmq.StoreFile.Find.Least.{Chosen, db_name, db_names, take_db-Chosen, with_rtag}

-- The fields hold the name.
abbrev pub Fits : Dirent → Type 0
Fits ent = length ent.d_name < 64

module _ (os : Os) (dirs : Dirs os) (conf : UcmqConf) where
  -- A record file leaves the data files as they are.
  take_rtag-Chosen :
      (d : List ℕ) (ns : List (List ℕ)) (f : Found) (s : os.Sys)
      → length d < 64
      → Chosen ns f
      → Chosen ns (take_rtag os dirs conf d f s).1
  unfolding take_rtag
  take_rtag-Chosen d ns f s l c =
      either_way (λ (t : os.Sys × Found). Chosen ns t.1) (f.j == 1) (with_rtag ns f d (f.j + 1) l c)
        (elim (os.file_size s d)
          as (λ o.
            Chosen ns
              (elim o as (λ x. os.Sys × Found) [
                | none ↦ (os.unlink s d, f)
                | some size ↦ (
                  os.unlink s (if name_lt d f.file.rtag_name then d else f.file.rtag_name),
                  record f {
                    file = record (f.file) {
                      rtag_name = if name_lt f.file.rtag_name d then d else f.file.rtag_name;
                    };
                    j = f.j + 1;
                  },
                )
              ]).1) [
                | none ↦ c
                | some size ↦
                    with_rtag ns f (if name_lt f.file.rtag_name d then d else f.file.rtag_name)
                      (f.j + 1)
                      (either_way (λ (x : List ℕ). length x < 64) (name_lt f.file.rtag_name d) l
                        c.rtag_short)
                      c
              ])

  abbrev visited : List ℕ → List (List ℕ)
  visited d = if starts_with d db_file_pattern then d ∷ [] else []

  visit-Chosen :
      (d : List ℕ) (ns : List (List ℕ)) (f : Found) (s : os.Sys)
      → length d < 64
      → Chosen ns f
      → (s' : os.Sys) × (f' : Found) × (visit os dirs conf d f s ≡ ret (s', f'))
        × Chosen (ns ++ visited d) f'
  unfolding visit
  visit-Chosen d ns f s l c = elim (Bool_cases (starts_with d db_file_pattern)) [
    | inl db ↦ (
      s,
      take_db d f,
      ground (arith, db),
      subst (λ b. Chosen (ns ++ (if b then d ∷ [] else [])) (take_db d f)) (sym db)
          (take_db-Chosen d ns f l c),
    )
    | inr other ↦ elim (Bool_cases (starts_with d rtag_file_pattern)) [
      | inl rtag ↦ (
        (take_rtag os dirs conf d f s).0,
        (take_rtag os dirs conf d f s).1,
        ground (arith, other, rtag),
        subst (λ b. Chosen (ns ++ (if b then d ∷ [] else [])) (take_rtag os dirs conf d f s).1)
            (sym other)
            (subst (λ xs. Chosen xs (take_rtag os dirs conf d f s).1) (sym (append-nil ns))
              (take_rtag-Chosen d ns f s l c)),
      )
      | inr none_ ↦ (
        s,
        f,
        ground (arith, other, none_),
        subst (λ b. Chosen (ns ++ (if b then d ∷ [] else [])) f) (sym other)
            (subst (λ xs. Chosen xs f) (sym (append-nil ns)) c),
      )
    ]
  ]

  hidden : (d : List ℕ) → is_hidden d ≡ true → starts_with d db_file_pattern ≡ false
  unfolding is_hidden starts_with
  hidden [] h = refl
  hidden (c ∷ d) h = ground (arith, h)

  round-Chosen :
      (d_type : FileType) (d : List ℕ) (ns : List (List ℕ)) (f : Found) (s : os.Sys)
      → length d < 64
      → Chosen ns f
      → (s' : os.Sys) × (f' : Found) × (round os dirs conf d_type d f s ≡ ret (s', f'))
        × Chosen (ns ++ db_name d_type d) f'
  unfolding round
  round-Chosen dt_reg d ns f s l c = elim (Bool_cases (is_hidden d)) [
    | inl dot ↦ (
      s,
      f,
      ground (arith, dot),
      subst (λ b. Chosen (ns ++ (if b then d ∷ [] else [])) f) (sym (hidden d dot))
          (subst (λ xs. Chosen xs f) (sym (append-nil ns)) c),
    )
    | inr shown ↦
        let (s', f', visits, c') = visit-Chosen d ns f s l c in
        (s', f', ground (arith, shown, visits), c')
  ]
  round-Chosen dt_dir d ns f s l c = (s, f, refl, subst (λ xs. Chosen xs f) (sym (append-nil ns)) c)
  round-Chosen dt_other d ns f s l c =
      (s, f, refl, subst (λ xs. Chosen xs f) (sym (append-nil ns)) c)

  pub scan-Chosen :
      (ents : List Dirent) (ns : List (List ℕ)) (f : Found) (s : os.Sys)
      → All Fits ents
      → Chosen ns f
      → (s' : os.Sys) × (f' : Found) × (scan os dirs conf ents f s ≡ ret (s', f'))
        × Chosen (ns ++ db_names ents) f'
  unfolding scan
  scan-Chosen [] ns f s l c = (s, f, refl, subst (λ xs. Chosen xs f) (sym (append-nil ns)) c)
  scan-Chosen (ent ∷ ents) ns f s l c =
      let (s', f', rounds, c') = round-Chosen ent.d_type ent.d_name ns f s l.0 c in
      let (s'', f'', scans, c'') =
        scan-Chosen ents (ns ++ db_name ent.d_type ent.d_name) f' s' l.1 c' in
      (
        s'',
        f'',
        ground (arith, rounds, scans),
        subst (λ xs. Chosen xs f'')
            (append_assoc ns (db_name ent.d_type ent.d_name) (db_names ents)) c'',
      )
