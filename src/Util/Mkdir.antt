-- ===== src/Util/Mkdir.antt =====
-- source/util.c: what `do_mkdir` makes.
use ucmq.Prelude.{
  ℕ, ◌+◌, ◌^◌, ◌<◌, ◌≡◌, ◌⊎◌, inl, inr, refl, sym, subst, ◌∙◌, Bool, true, false, ◌&&◌, Bool_cases,
  either_way, by_test, ltb, ◌==◌, List, [], ◌∷◌, ◌++◌, append-nil, append_assoc, arith, length,
  length-append,
}
use ucmq.Io.{Host, mq_errno, is_negative}
use ucmq.Util.{Calls, eexist}
use ucmq.Util.Directories.{mkdir_fails, go_on, mkdir_from, do_mkdir}

-- A path that mkdir made is there, and so is one that it says exists, which may be a file or a link
-- and not a directory; mkdir takes none away. A failed call sets a positive `errno`.
pub record IsMkdir (host : Host) (calls : Calls host) : Type 1 where
  pub Exists : host.Sys → List ℕ → Type 0
  pub made :
      (s : host.Sys) (dir : List ℕ) (mode : ℕ)
      → (calls.mkdir s dir mode).1 ≡ true
      → Exists (calls.mkdir s dir mode).0 dir
  pub there :
      (s : host.Sys) (dir : List ℕ) (mode : ℕ)
      → (calls.mkdir s dir mode).1 ≡ false
      → (host.errno (calls.mkdir s dir mode).0 == eexist) ≡ true
      → Exists (calls.mkdir s dir mode).0 dir
  pub kept :
      (s : host.Sys) (dir other : List ℕ) (mode : ℕ)
      → Exists s other
      → Exists (calls.mkdir s dir mode).0 other
  pub reason :
      (s : host.Sys) (dir : List ℕ) (mode : ℕ)
      → (calls.mkdir s dir mode).1 ≡ false
      → (0 < host.errno (calls.mkdir s dir mode).0)
        × (host.errno (calls.mkdir s dir mode).0 < 2 ^ 31)

module _ (host : Host) (calls : Calls host) (law : IsMkdir host calls) (mode : ℕ) where
  open host use {Sys}

  errno_negative :
      (s : Sys) → 0 < host.errno s → host.errno s < 2 ^ 31 → is_negative (mq_errno host s) ≡ true
  unfolding mq_errno
  errno_negative s some_ small = ground arith

  -- A step makes the path, unless it is there, or fails with a positive `errno`.
  step :
      (dir : List ℕ) (s : Sys)
      → let (s', fails) = mkdir_fails host calls mode dir s in
        ((fails ≡ false) × law.Exists s' dir)
        ⊎ ((fails ≡ true) × (is_negative (mq_errno host s') ≡ true))
  unfolding mkdir_fails
  step dir s =
      let s' = (calls.mkdir s dir mode).0 in
      let reason = law.reason s dir mode in
      elim (Bool_cases (calls.mkdir s dir mode).1) [
        | inl made ↦ rw made (inl (refl, law.made s dir mode made))
        | inr failed ↦ elim (Bool_cases (host.errno s' == eexist)) [
          | inl exists ↦ rw (failed, exists) (inl (refl, law.there s dir mode failed exists))
          | inr other ↦
              rw (failed, other) (inr (refl, errno_negative s' (reason failed).0 (reason failed).1))
        ]
      ]

  fails-kept :
      (dir other : List ℕ) (s : Sys)
      → law.Exists s other
      → law.Exists (mkdir_fails host calls mode dir s).0 other
  unfolding mkdir_fails
  fails-kept dir other s h = law.kept s dir other mode h

  abbrev slash : ℕ → List ℕ → Bool
  slash c before = c == 47 && ltb 0 (length before)

  from-kept :
      (before rest other : List ℕ) (s : Sys)
      → law.Exists s other
      → law.Exists (mkdir_from host calls mode before rest s).0 other
  unfolding mkdir_from go_on
  from-kept before [] other s h = ground (arith, fails-kept before other s h)
  from-kept before (c ∷ rest) other s h =
      either_way (λ (w : Sys × ℕ). law.Exists w.0 other) (slash c before)
        (ground (
          arith,
          fails-kept before other s h,
          from-kept (before ++ c ∷ []) rest other (mkdir_fails host calls mode before s).0,
        ))
        (from-kept (before ++ c ∷ []) rest other s h)

  -- The paths that are there after the loop from a byte on.
  abbrev AllMade : Sys → List ℕ → List ℕ → Type 0
  AllMade s before [] = law.Exists s before
  AllMade s before (c ∷ rest) =
      (slash c before ≡ true → law.Exists s before) × AllMade s (before ++ c ∷ []) rest

  Good : List ℕ → List ℕ → Sys × ℕ → Type 0
  Good before rest (s, result) =
      ((result ≡ 0) × AllMade s before rest) ⊎ (is_negative result ≡ true)

  go_on-Good :
      (before : List ℕ) (next : Sys → Sys × ℕ) (Q : Sys × ℕ → Type 0) (s : Sys)
      → ((s' : Sys) → law.Exists s' before → Q (next s'))
      → ((s' : Sys) → is_negative (mq_errno host s') ≡ true → Q (s', mq_errno host s'))
      → Q (go_on host calls next (mkdir_fails host calls mode before s))
  unfolding go_on
  go_on-Good before next Q s fine wrong =
      let s' = (mkdir_fails host calls mode before s).0 in
      elim (step before s) [
        | inl (e, exists) ↦ rw (e, go_on) (fine s' exists)
        | inr (e, negative) ↦ rw (e, go_on) (wrong s' negative)
      ]

  with_before :
      (before : List ℕ) (c : ℕ) (rest : List ℕ) (w : Sys × ℕ)
      → (slash c before ≡ true → law.Exists w.0 before)
      → Good (before ++ c ∷ []) rest w
      → Good before (c ∷ rest) w
  unfolding Good
  with_before before c rest w exists (inl (e, made)) = inl (e, (exists, made))
  with_before before c rest w exists (inr n) = inr n

  from-Good :
      (before rest : List ℕ) (s : Sys) → Good before rest (mkdir_from host calls mode before rest s)
  unfolding mkdir_from Good
  from-Good before [] s =
      go_on-Good before (λ s'. (s', 0)) (Good before []) s (λ s' exists. inl (refl, exists))
        (λ s' n. inr n)
  from-Good before (c ∷ rest) s =
      let before' = before ++ c ∷ [] in
      let next = mkdir_from host calls mode before' rest in
      by_test (Good before (c ∷ rest)) (slash c before)
        (λ is.
          go_on-Good before next (Good before (c ∷ rest)) s
            (λ s' exists.
              with_before before c rest (next s') (λ _. from-kept before' rest before s' exists)
                (from-Good before' rest s'))
            (λ s' n. inr n))
        (λ not_.
          with_before before c rest (next s) (λ is. cc (sym is ∙ not_)) (from-Good before' rest s))

  -- The same, by what stands before each '/'.
  AllMade-Exists :
      (before p q : List ℕ) (s : Sys)
      → AllMade s before (p ++ 47 ∷ q)
      → 0 < length before + length p
      → law.Exists s (before ++ p)
  AllMade-Exists before [] q s made some_ =
      subst (law.Exists s) (sym (append-nil before)) (made.0 (ground arith))
  AllMade-Exists before (c ∷ p) q s made some_ =
      subst (law.Exists s) (append_assoc before (c ∷ []) p) (
        AllMade-Exists (before ++ c ∷ []) p q s made.1
          (omega (arith, length-append before (c ∷ []))))

  AllMade_whole :
      (before rest : List ℕ) (s : Sys) → AllMade s before rest → law.Exists s (before ++ rest)
  AllMade_whole before [] s made = subst (law.Exists s) (sym (append-nil before)) made
  AllMade_whole before (c ∷ rest) s made =
      subst (law.Exists s) (append_assoc before (c ∷ []) rest)
        (AllMade_whole (before ++ c ∷ []) rest s made.1)

  -- If `do_mkdir` gives 0, something with the path's name is there, and so it is for each part of
  -- the path before a '/', but the empty one; it need not be a directory where it was there before.
  -- Otherwise the result is negative. mkdir makes what it says, answers EEXIST only where the name is
  -- there, takes nothing away, and sets a positive `errno` where it fails.
  pub do_mkdir-Exists :
      (dir : List ℕ) (s : Sys)
      → let (s', result) = do_mkdir host calls dir mode s in
        ((result ≡ 0)
          × law.Exists s' dir
          × ((p q : List ℕ) → dir ≡ p ++ 47 ∷ q → 0 < length p → law.Exists s' p))
        ⊎ (is_negative result ≡ true)
  unfolding do_mkdir Good
  do_mkdir-Exists dir s = elim (from-Good [] dir s) [
    | inl (zero_, made) ↦
        let s' = (mkdir_from host calls mode [] dir s).0 in
        inl (
          zero_,
          AllMade_whole [] dir s' made,
          λ p q e some_. AllMade-Exists [] p q s' (subst (AllMade s' []) e made) (omega arith),
        )
    | inr n ↦ inr n
  ]
