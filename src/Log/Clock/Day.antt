-- ===== src/Log/Clock/Day.antt =====
-- source/log.c: `get_time` against the local time.
use ucmq.Prelude.{
  ℕ, ◌+◌, ◌-◌, ◌*◌, ◌/◌, ◌%◌, ◌^◌, ◌≤◌, ◌<◌, ◌≡◌, ◌⊎◌, inl, inr, Bool_cases, refl, sym, subst, ap,
  ◌∙◌, ==_iff, ◌==◌, arith, false, if◌then◌else◌,
}
use ucmq.Prelude.Bytes.{add32}
use ucmq.Io.{Timespec, is_negative}
use ucmq.Log.Clock.{TimeInfo, Kept, within_day, dated, set_time, get_time}

-- The seconds of the local clock.
abbrev pub local : ℕ → ℕ → ℕ
local time_zone sec =
    if is_negative time_zone then sec - 3600 * (2 ^ 32 - time_zone) else sec + 3600 * time_zone

-- At most 14 hours east or 12 hours west.
abbrev pub IsZone : ℕ → Type 0
IsZone time_zone = (time_zone ≤ 14) ⊎ ((2 ^ 32 ≤ time_zone + 12) × (time_zone < 2 ^ 32))

-- The local time of a second: its day since 1970, as 16 bits, hour, minute and second.
pub record IsTime (time_zone now : ℕ) (info : TimeInfo) : Type 0 where
  pub day : info.day ≡ local time_zone now / 86400 % 65536
  pub hour : info.hour ≡ local time_zone now / 3600 % 24
  pub min : info.min ≡ local time_zone now / 60 % 60
  pub sec : info.sec ≡ local time_zone now % 60

within_day_lem :
    (time_zone sec : ℕ)
    → IsZone time_zone
    → 86400 ≤ sec
    → let (hour, day) = within_day (add32 (sec % 86400 / 3600) time_zone) in
      (hour ≡ local time_zone sec / 3600 % 24)
      × ((day + sec / 86400) % 65536 ≡ local time_zone sec / 86400 % 65536)
unfolding within_day
within_day_lem time_zone sec (inl east) later = (ground arith, ground arith)
within_day_lem time_zone sec (inr west) later = (ground arith, ground arith)

-- Below 23 hours, the same hour is one of the same day.
same_day :
    (time_zone then_ now : ℕ)
    → IsZone time_zone
    → 86400 ≤ then_
    → then_ ≤ now
    → now < then_ + 82800
    → local time_zone now / 3600 % 24 ≡ local time_zone then_ / 3600 % 24
    → local time_zone now / 86400 ≡ local time_zone then_ / 86400
same_day time_zone then_ now (inl east) later order near same = ground arith
same_day time_zone then_ now (inr west) later order near same = ground arith

minutes :
    (time_zone now : ℕ)
    → IsZone time_zone
    → 86400 ≤ now
    → (now % 86400 % 3600 / 60 ≡ local time_zone now / 60 % 60)
      × (now % 86400 % 3600 % 60 ≡ local time_zone now % 60)
minutes time_zone now (inl east) later = (ground arith, ground arith)
minutes time_zone now (inr west) later = (ground arith, ground arith)

next_day :
    (time_zone now : ℕ)
    → IsZone time_zone
    → 86400 ≤ now
    → local time_zone (now + 86400) ≡ local time_zone now + 86400
next_day time_zone now (inl east) later = ground arith
next_day time_zone now (inr west) later = ground arith

module _ (time_zone : ℕ) (cur : Timespec) (kept : Kept) (zone : IsZone time_zone)
    (later : 86400 ≤ cur.tv_sec) where
  dated_lem :
      (ti : TimeInfo)
      → let on_day =
          dated cur.tv_sec (within_day (add32 (cur.tv_sec % 86400 / 3600) time_zone)) ti in
        (on_day.hour ≡ local time_zone cur.tv_sec / 3600 % 24)
        × ((on_day.day ≡ local time_zone cur.tv_sec / 86400 % 65536)
            ⊎ ((on_day.day ≡ ti.day) × (ti.hour ≡ local time_zone cur.tv_sec / 3600 % 24)))
  unfolding dated
  dated_lem ti =
      let (hour, day) = within_day_lem time_zone cur.tv_sec zone later in
      elim (Bool_cases ((within_day (add32 (cur.tv_sec % 86400 / 3600) time_zone)).0 == ti.hour)) [
        | inl same ↦ rw same (ground arith, inr (refl, ground arith))
        | inr other ↦ rw other (ground arith, inl day)
      ]

  set_time-IsTime :
      (ti : TimeInfo)
      → ((ti.hour ≡ local time_zone cur.tv_sec / 3600 % 24)
          → ti.day ≡ local time_zone cur.tv_sec / 86400 % 65536)
      → IsTime time_zone cur.tv_sec (set_time time_zone cur.tv_sec ti)
  unfolding set_time
  set_time-IsTime ti same =
      let (hour_, day_) = dated_lem ti in
      let (min_, sec_) = minutes time_zone cur.tv_sec zone later in
      record {
        day = elim day_ [ inl d ↦ d | inr (d, h) ↦ d ∙ same h ];
        hour = hour_;
        min = min_;
        sec = sec_;
      }

  -- Where the kept time is that of its second in the time zone, and the clock is less than 23
  -- hours later, `get_time` gives the day, hour, minute and second of the local clock, and keeps
  -- them with their second; for zones up to 14 hours east or 12 hours west, after the first day of
  -- 1970.
  pub get_time-IsTime :
      IsTime time_zone kept.g_sec kept.g_info
      → 86400 ≤ kept.g_sec
      → kept.g_sec ≤ cur.tv_sec
      → cur.tv_sec < kept.g_sec + 82800
      → let (kept', ti) = get_time time_zone cur kept in
        IsTime time_zone cur.tv_sec ti
        × IsTime time_zone kept'.g_sec kept'.g_info
        × (kept'.g_sec ≡ cur.tv_sec)
  unfolding get_time
  get_time-IsTime right start order near =
      let ti = record (kept.g_info) { msec = cur.tv_nsec / 1000000 % 65536 } in
      let new = set_time-IsTime ti (λ h.
        right.day
        ∙ sym (
            ap (λ k. k % 65536)
              (same_day time_zone kept.g_sec cur.tv_sec zone start order near
                (sym h ∙ right.hour)))) in
      elim (Bool_cases (kept.g_sec == cur.tv_sec)) [
        | inl same ↦
            let e = (==_iff kept.g_sec cur.tv_sec).0 same in
            let now =
              subst (λ k. IsTime time_zone k ti) e
                (record { day = right.day; hour = right.hour; min = right.min; sec = right.sec }) in
            rw same (now, right, e)
        | inr other ↦ rw other (new, new, refl)
      ]

  set_time_same_hour :
      (ti : TimeInfo)
      → ti.hour ≡ local time_zone cur.tv_sec / 3600 % 24
      → (set_time time_zone cur.tv_sec ti).day ≡ ti.day
  unfolding set_time dated
  set_time_same_hour ti same =
      let hours = within_day_lem time_zone cur.tv_sec zone later in
      rw
        ((==_iff (within_day (add32 (cur.tv_sec % 86400 / 3600) time_zone)).0 ti.hour).1
          (hours.0 ∙ sym same))
        refl

  -- Exactly a day later than the kept time, `get_time` gives the day that was kept, which is not
  -- the day of the local clock, for the same time zones.
  pub get_time_stale :
      IsTime time_zone kept.g_sec kept.g_info
      → 86400 ≤ kept.g_sec
      → cur.tv_sec ≡ kept.g_sec + 86400
      → let (kept', ti) = get_time time_zone cur kept in
        (ti.day ≡ kept.g_info.day) × ¬ IsTime time_zone cur.tv_sec ti
  unfolding get_time set_time
  get_time_stale right start e =
      let ti = record (kept.g_info) { msec = cur.tv_nsec / 1000000 % 65536 } in
      let next = next_day time_zone kept.g_sec zone start in
      let moved = ap (local time_zone) e ∙ next in
      let same : ti.hour ≡ local time_zone cur.tv_sec / 3600 % 24 =
        omega (arith, right.hour, moved) in
      let old = set_time_same_hour ti same in
      let other : (kept.g_sec == cur.tv_sec) ≡ false = ground arith in
      rw other (old, λ wrong. omega (arith, wrong.day, old, right.day, moved))
