-- ===== src/Modeset/TimerQueue/Kept.antt =====
-- Every operation of nvidia-modeset/TimerQueue.cpp keeps the counts of the references.
use mathlib.Core.Option
use nvidia_haiku.Prelude.{
  ℕ, ◌+◌, ◌^◌, ◌<◌, ◌≡◌, ◌≢◌, refl, ap, ◌∙◌, subst, Bool, true, false, [], ◌∷◌, ◌++◌, Option, none,
  some, ◌==◌, if◌then◌else◌, arith, length, Option-cases, Bool-cases, none≢some, some-injective,
  if_true, if_false, inl, inr,
}
use nvidia_haiku.Modeset.RefPtr.{RefPtrs, inc_ref}
use nvidia_haiku.Modeset.TimerQueue.{
  State, Timer, find, new_timer, create, schedule, free, timer_hook, end_dpc,
}
use nvidia_haiku.Modeset.TimerQueue.Timers.{
  holds, holders, holds_same, holds_none, holds_lent, append-AreDistinct, holders-append,
  holders-le,
}
use nvidia_haiku.Modeset.TimerQueue.References.{
  Counted, bit, Inv, inc_ref-Counted, Inv-store, Inv-append, Inv-remove, Inv-ends, Inv-ends_removed,
}

abbrev pub IsCounted : (ℕ → Bool) → State → Type 0
IsCounted owners s = Inv s.timers s.running s.refs owners

module _ (owners : ℕ → Bool) (s : State) (v : IsCounted owners s) where
  pub schedule-IsCounted :
      (address usec : ℕ) {t : State} → schedule address usec s ≡ some t → IsCounted owners t
  unfolding schedule
  schedule-IsCounted address usec e = elim (Option-cases (find address s.timers)) [
    | inl q ↦ absurd (none≢some (rw (q, schedule) at e))
    | inr (u, q) ↦
        subst (IsCounted owners) (some-injective (rw (q, schedule) at e))
          (elim (Bool-cases (usec == 0)) [
            | inl now ↦ rw now (
                Inv-store s.running address u _ s.timers q refl
                  (λ r. holds_same r s.running u _ refl refl refl) v)
            | inr later ↦ rw later (
                Inv-store s.running address u _ s.timers q refl
                  (λ r. holds_same r s.running u _ refl refl refl) v)
          ])
  ]

  pub free-IsCounted :
      (address : ℕ) (u : Timer) {t : State}
      → find address s.timers ≡ some u
      → u.is_ref_ptr ≡ false
      → free (some address) s ≡ some t
      → IsCounted owners t
  unfolding free
  free-IsCounted address u q plain e =
      subst (IsCounted owners) (some-injective (rw (q, free) at e))
        (Inv-remove s.running address u s.timers q (λ r. holds_none r s.running u plain) v)

  pub timer_hook-IsCounted :
      (address : ℕ) {t : State} → timer_hook address s ≡ some t → IsCounted owners t
  unfolding timer_hook
  timer_hook-IsCounted address e = elim (Option-cases (find address s.timers)) [
    | inl q ↦ absurd (none≢some (rw (q, timer_hook) at e))
    | inr (u, q) ↦
        subst (IsCounted owners) (some-injective (rw (q, timer_hook) at e))
          (elim (Bool-cases u.timer_scheduled) [
            | inl on ↦ rw on (
                Inv-store s.running address u _ s.timers q refl
                  (λ r. holds_same r s.running u _ refl refl refl) v)
            | inr off ↦ rw off v
          ])
  ]

  pub end_dpc-IsCounted :
      (address : ℕ) {t : State}
      → s.running ≡ some address
      → end_dpc address s ≡ some t
      → IsCounted owners t
  unfolding end_dpc
  end_dpc-IsCounted address run e = elim (Option-cases (find address s.timers)) [
    | inl q ↦ absurd (none≢some (rw (q, end_dpc) at e))
    | inr (u, q) ↦
        let w : Inv s.timers (some address) s.refs owners =
          subst (λ g. Inv s.timers g s.refs owners) run v in
        subst (IsCounted owners) (some-injective (rw (q, end_dpc) at e))
          (elim (Bool-cases u.is_ref_ptr) [
            | inl lent ↦ rw lent (Inv-ends_removed address u s.timers q w)
            | inr plain ↦
                rw plain (Inv-ends address u s.timers q (λ r. holds_none r none u plain) w)
          ])
  ]

  pub create_plain-IsCounted :
      (address proc data_ptr data_u32 : ℕ) {t : State}
      → find address s.timers ≡ none
      → create address proc data_ptr data_u32 false s ≡ some t
      → IsCounted owners t
  unfolding create
  create_plain-IsCounted address proc data_ptr data_u32 fresh e =
      subst (IsCounted owners) (some-injective e) (
        Inv-append s.running (new_timer address proc data_ptr data_u32 false) s.timers fresh
          (λ r. holds_none r s.running (new_timer address proc data_ptr data_u32 false) refl) v)

  -- The count that a reference should have.
  pub count : ℕ → ℕ
  count r = bit (owners r) + holders r s.running s.timers

  pub create_lent-IsCounted :
      (address proc ref_ptr data_u32 : ℕ) {t : State}
      → find address s.timers ≡ none
      → s.running ≢ some address
      → owners ref_ptr ≡ true
      → length s.timers + 2 < 2 ^ 32
      → create address proc ref_ptr data_u32 true s ≡ some t
      → IsCounted owners t
  unfolding create count
  create_lent-IsCounted address proc ref_ptr data_u32 {t} fresh idle owned few e =
      go (inc_ref ref_ptr s.refs) refl e
    where
      made : Timer
      made = new_timer address proc ref_ptr data_u32 true

      grown :
          (r : ℕ)
          → (if r == ref_ptr then count ref_ptr + 1 else count r)
            ≡ bit (owners r) + holders r s.running (s.timers ++ made ∷ [])
      grown r = elim (Bool-cases (r == ref_ptr)) [
        | inl q ↦
            let same : ref_ptr ≡ r = ground (arith, q) in
            let one : holds r s.running made ≡ 1 =
              holds_lent r s.running made refl idle ∙ if_true _ _ q in
            if_true _ _ q
            ∙ ap (λ j. count j + 1) same
            ∙ omega (arith, holders-append r s.running made s.timers, one)
        | inr q ↦
            let none_more : holds r s.running made ≡ 0 =
              holds_lent r s.running made refl idle ∙ if_false _ _ q in
            if_false _ _ q ∙ omega (arith, holders-append r s.running made s.timers, none_more)
      ]

      go :
          (x : Option RefPtrs)
          → inc_ref ref_ptr s.refs ≡ x
          → Option.map (λ refs. record s { timers = s.timers ++ made ∷ []; refs = refs }) x ≡ some t
          → IsCounted owners t
      go none q f = absurd (none≢some f)
      go (some refs) q f =
          let low : bit (owners ref_ptr) ≡ 1 = ap bit owned in
          let room : count ref_ptr + 1 < 2 ^ 32 =
            omega (arith, holders-le ref_ptr s.running s.timers, low, few) in
          subst (IsCounted owners) (some-injective f) (record {
            distinct = append-AreDistinct made s.timers v.distinct fresh;
            counted = λ r.
                subst (Counted (refs r)) (grown r)
                  (inc_ref-Counted ref_ptr s.refs count v.counted room q r);
          })
