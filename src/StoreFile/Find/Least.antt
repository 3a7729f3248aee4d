-- ===== src/StoreFile/Find/Least.antt =====
-- source/mq_store_file.c: the data files that `find_handle_file` picks, where one more name is taken into account.
use ucmq.Prelude.{
  ℕ, ◌+◌, ◌<◌, ◌≡◌, sym, subst, Bool, true, false, Bool_cases, either_way, inl, inr, List, [], ◌∷◌,
  ◌++◌, arith, length, length-append, ◌==◌, if◌then◌else◌, All, All-append,
}
use mathlib.Core.List.{Mem, mem-cons_self, mem-append_left, mem-append_right}
use ucmq.Os.{Dirent, FileType, dt_reg, dt_dir, dt_other}
use ucmq.StoreFile.Find.{name_lt, starts_with, db_file_pattern, Found, take_db}
use ucmq.StoreFile.Find.Order.{name_lt_irrefl, name_lt_trans}

-- The names of the data files in a listing, in its order.
abbrev pub db_name : FileType → List ℕ → List (List ℕ)
db_name dt_reg d_name = if starts_with d_name db_file_pattern then d_name ∷ [] else []
db_name dt_dir d_name = []
db_name dt_other d_name = []

abbrev pub db_names : List Dirent → List (List ℕ)
db_names [] = []
db_names (ent ∷ ents) = db_name ent.d_type ent.d_name ++ db_names ents

-- Among these names, the least is to be read and the greatest is to be written.
pub record Chosen (ns : List (List ℕ)) (f : Found) : Type 0 where
  pub count : f.i ≡ 1 + length ns
  pub read_there : 0 < length ns → Mem f.file.read_name ns
  pub read_least : All (λ x. name_lt x f.file.read_name ≡ false) ns
  pub write_there : 0 < length ns → Mem f.file.write_name ns
  pub write_greatest : All (λ x. name_lt f.file.write_name x ≡ false) ns
  pub rtag_short : length f.file.rtag_name < 64
  pub read_short : length f.file.read_name < 64
  pub write_short : length f.file.write_name < 64

-- An order of names, either way round.
module _ (lt : List ℕ → List ℕ → Bool) (irrefl : (x : List ℕ) → lt x x ≡ false)
    (trans : (x y z : List ℕ) → lt x y ≡ true → lt y z ≡ true → lt x z ≡ true) where
  -- No name is before this one.
  abbrev IsLeast : List ℕ → List (List ℕ) → Type 0
  IsLeast r ns = Mem r ns × All (λ x. lt x r ≡ false) ns

  -- What is before the least has nothing of the rest before it.
  keep_least :
      (d r : List ℕ) (ns : List (List ℕ))
      → lt d r ≡ true
      → All (λ x. lt x r ≡ false) ns
      → All (λ x. lt x d ≡ false) ns
  keep_least d r [] h a = tt
  keep_least d r (x ∷ ns) h a = (
    elim (Bool_cases (lt x d)) [
      | inl less ↦ ground (arith, trans x d r less h, a.0)
      | inr geq ↦ geq
    ],
    keep_least d r ns h a.1,
  )

  IsLeast-of :
      (d r : List ℕ) (ns : List (List ℕ))
      → IsLeast r ns
      → IsLeast (if lt d r then d else r) (ns ++ d ∷ [])
  IsLeast-of d r ns (m, a) = elim (Bool_cases (lt d r)) [
    | inl less ↦
        subst (λ b. IsLeast (if b then d else r) (ns ++ d ∷ [])) (sym less)
          (
            mem-append_right ns mem-cons_self,
            All-append (λ x. lt x d ≡ false) ns (d ∷ []) (keep_least d r ns less a) (irrefl d, tt),
          )
    | inr geq ↦
        subst (λ b. IsLeast (if b then d else r) (ns ++ d ∷ [])) (sym geq)
          (mem-append_left (d ∷ []) m, All-append (λ x. lt x r ≡ false) ns (d ∷ []) a (geq, tt))
  ]

abbrev after : List ℕ → List ℕ → Bool
after a b = name_lt b a

after_trans : (x y z : List ℕ) → after x y ≡ true → after y z ≡ true → after x z ≡ true
after_trans x y z h k = name_lt_trans z y x k h

-- The two branches of `take_db`.
abbrev taken_as : List ℕ → Found → Bool → Found
taken_as d f first =
    if first
    then record f { file = record (f.file) { read_name = d; write_name = d }; i = f.i + 1 }
    else record f {
      file = record (f.file) {
        read_name = if name_lt d f.file.read_name then d else f.file.read_name;
        write_name = if name_lt f.file.write_name d then d else f.file.write_name;
      };
      i = f.i + 1;
    }

-- One more data file is taken into account.
pub take_db-Chosen :
    (d : List ℕ) (ns : List (List ℕ)) (f : Found)
    → length d < 64
    → Chosen ns f
    → Chosen (ns ++ d ∷ []) (take_db d f)
unfolding take_db
take_db-Chosen d [] f l c =
    subst (λ b. Chosen (d ∷ []) (taken_as d f b)) (sym first)
      (record {
        count = omega (arith, c.count);
        read_there = λ h. mem-cons_self;
        read_least = (name_lt_irrefl d, tt);
        write_there = λ h. mem-cons_self;
        write_greatest = (name_lt_irrefl d, tt);
        rtag_short = c.rtag_short;
        read_short = l;
        write_short = l;
      })
  where
    first : (f.i == 1) ≡ true
    first = ground (arith, c.count)
take_db-Chosen d (n ∷ ns) f l c =
    let (rm, ra) =
      IsLeast-of name_lt name_lt_irrefl name_lt_trans d f.file.read_name (n ∷ ns)
        (c.read_there (omega arith), c.read_least) in
    let (wm, wa) =
      IsLeast-of after name_lt_irrefl after_trans d f.file.write_name (n ∷ ns)
        (c.write_there (omega arith), c.write_greatest) in
    subst (λ b. Chosen ((n ∷ ns) ++ d ∷ []) (taken_as d f b)) (sym later)
      (record {
        count = omega (arith, c.count, length-append (n ∷ ns) (d ∷ []));
        read_there = λ h. rm;
        read_least = ra;
        write_there = λ h. wm;
        write_greatest = wa;
        rtag_short = c.rtag_short;
        read_short =
            either_way (λ (x : List ℕ). length x < 64) (name_lt d f.file.read_name) l c.read_short;
        write_short =
            either_way (λ (x : List ℕ). length x < 64) (name_lt f.file.write_name d) l
              c.write_short;
      })
  where
    later : (f.i == 1) ≡ false
    later = ground (arith, c.count)

-- Neither the record file nor its count matters.
pub with_rtag :
    (ns : List (List ℕ)) (f : Found) (name : List ℕ) (j : ℕ)
    → length name < 64
    → Chosen ns f
    → Chosen ns (record f { file = record (f.file) { rtag_name = name }; j = j })
with_rtag ns f name j l c = record {
  count = c.count;
  read_there = c.read_there;
  read_least = c.read_least;
  write_there = c.write_there;
  write_greatest = c.write_greatest;
  rtag_short = l;
  read_short = c.read_short;
  write_short = c.write_short;
}
