-- ===== src/Client/Failover/Shuffle.antt =====
-- client/c/mq_client.c: the order in which `in_do_operate` tries the servers.
use ucmq.Prelude.{
  ℕ, suc, zero, ◌-◌, ◌%◌, ◌<◌, ◌≡◌, refl, sym, ap, ◌∙◌, Bool_cases, inl, inr, arith, ◌==◌,
  if◌then◌else◌,
}
use native.Mathlib.Nat.{mod-lt}
use ucmq.Client.{Net}
use ucmq.Client.Failover.{Order, swap, shuffle}

-- Each of `count` numbers stands at one of `count` places, and no number at two of them.
pub record IsOrder (count : ℕ) (a : Order) : Type 0 where
  pub below : (i : ℕ) → i < count → a i < count
  pub once : (i k : ℕ) → i < count → k < count → a i ≡ a k → i ≡ k
  pub place : ℕ → ℕ
  pub place_below : (v : ℕ) → v < count → place v < count
  pub place_of : (v : ℕ) → v < count → a (place v) ≡ v

pub id-IsOrder : (count : ℕ) → IsOrder count (λ i. i)
id-IsOrder count = record {
  below = λ i h. h;
  once = λ i k h g e. e;
  place = λ v. v;
  place_below = λ v h. h;
  place_of = λ v h. refl;
}

module _ (count i j : ℕ) (a : Order) (below_i : i < count) (below_j : j < count)
    (o : IsOrder count a) where
  -- A place's number is that of its partner.
  partner : ℕ → ℕ
  partner k = if k == i then j else if k == j then i else k

  swap-partner : (k : ℕ) → swap i j a k ≡ a (partner k)
  unfolding swap partner
  swap-partner k = elim (Bool_cases (k == i)) [
    | inl first ↦ ground (arith, first)
    | inr other ↦ elim (Bool_cases (k == j)) [
      | inl second ↦ ground (arith, other, second)
      | inr none_ ↦ ground (arith, other, none_)
    ]
  ]

  partner_below : (k : ℕ) → k < count → partner k < count
  unfolding partner
  partner_below k h = ground arith

  partner_twice : (k : ℕ) → partner (partner k) ≡ k
  unfolding partner
  partner_twice k = ground arith

  swap-IsOrder : IsOrder count (swap i j a)
  swap-IsOrder = record {
    below = λ k h. omega (arith, swap-partner k, o.below (partner k) (partner_below k h));
    once = λ k l h g e.
        sym (partner_twice k)
        ∙ ap partner (
            o.once (partner k) (partner l) (partner_below k h) (partner_below l g)
              (sym (swap-partner k) ∙ e ∙ swap-partner l))
        ∙ partner_twice l;
    place = λ v. partner (o.place v);
    place_below = λ v h. partner_below (o.place v) (o.place_below v h);
    place_of = λ v h.
        swap-partner (partner (o.place v)) ∙ ap a (partner_twice (o.place v)) ∙ o.place_of v h;
  }

shuffle-IsOrder :
    (net : Net) (count j : ℕ) (a : Order) (s : net.Sys)
    → j < count
    → IsOrder count a
    → IsOrder count (shuffle net count j a s).1
unfolding shuffle
shuffle-IsOrder net count zero a s h o = o
shuffle-IsOrder net count (suc j) a s h o =
    shuffle-IsOrder net count j (swap (suc j) ((net.rand s).1 % count) a) (net.rand s).0
      (omega arith)
      (swap-IsOrder count (suc j) ((net.rand s).1 % count) a h
        (mod-lt (net.rand s).1 (omega (arith, h))) o)

-- Whatever the random numbers are, the shuffled array has each server's number at exactly one
-- place.
pub shuffled-IsOrder :
    (net : Net) (count : ℕ) (s : net.Sys)
    → 0 < count
    → IsOrder count (shuffle net count (count - 1) (λ i. i) s).1
shuffled-IsOrder net count s h =
    shuffle-IsOrder net count (count - 1) (λ i. i) s (omega arith) (id-IsOrder count)
