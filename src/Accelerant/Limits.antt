-- ===== src/Accelerant/Limits.antt =====
-- `NvAccelerant::GetPixelClockLimits` of accelerant/Accelerant.cpp. `B_TIMING_INTERLACED` is a bit
-- above the 16 bits of a display size; the code looks for it in the size.
use nvidia_haiku.Prelude.{
  ℕ, ◌-◌, ◌/◌, ◌^◌, ◌≤◌, ◌<◌, ◌≡◌, inl, inr, refl, sym, ap, ◌∙◌, subst, Bool, true, false, not,
  ◌&&◌, List, [], ◌∷◌, Option, none, some, arith, ltb, ◌==◌, if◌then◌else◌, min, Bool-cases,
  none≢some, some-injective, if_true, if_false,
}
use nvidia_haiku.Accelerant.Timings.{DisplayTiming, ModeTimings, same_bool, to_haiku_mode_timings}
use nvidia_haiku.Accelerant.Propose.{Among}

abbrev pub max : ℕ → ℕ → ℕ
max a b = if ltb a b then b else a

module _ (interlaced_bit : ℕ → Bool) where
  unfoldable pub has_limits : DisplayTiming → ModeTimings → Bool
  unfolding to_haiku_mode_timings
  has_limits dm m =
      (to_haiku_mode_timings m).h_display == dm.h_display
      && ((to_haiku_mode_timings m).v_display == dm.v_display
          && same_bool (to_haiku_mode_timings m).flags.interlaced (interlaced_bit dm.v_display))

  -- The loop, with the limits so far.
  unfoldable pub limits_loop : DisplayTiming → List ModeTimings → ℕ → ℕ → ℕ × ℕ
  unfolding has_limits to_haiku_mode_timings
  limits_loop dm [] low high = (low, high)
  limits_loop dm (m ∷ ms) low high =
      let clock = (to_haiku_mode_timings m).pixel_clock in
      let narrowed = limits_loop dm ms (min low clock) (max high clock) in
      let kept = limits_loop dm ms low high in if has_limits dm m then narrowed else kept

  -- Nothing where the code raises an error.
  unfoldable pub get_pixel_clock_limits : List ModeTimings → DisplayTiming → Option (ℕ × ℕ)
  unfolding limits_loop
  get_pixel_clock_limits modes dm =
      let (low, high) = limits_loop dm modes (2 ^ 32 - 1) 0 in
      if ltb high low then none else some (low, high)

  -- The loop only widens the limits.
  limits_loop-widens :
      (dm : DisplayTiming) (modes : List ModeTimings) (low high : ℕ)
      → ((limits_loop dm modes low high).0 ≤ low) × (high ≤ (limits_loop dm modes low high).1)
  unfolding limits_loop
  limits_loop-widens dm [] low high = (omega arith, omega arith)
  limits_loop-widens dm (m ∷ ms) low high =
      let clock = (to_haiku_mode_timings m).pixel_clock in
      ground (
        arith,
        limits_loop-widens dm ms low high,
        limits_loop-widens dm ms (min low clock) (max high clock),
      )

  limits_loop-covers :
      (dm : DisplayTiming) (modes : List ModeTimings) (low high : ℕ) (m : ModeTimings)
      → Among m modes
      → has_limits dm m ≡ true
      → ((limits_loop dm modes low high).0 ≤ (to_haiku_mode_timings m).pixel_clock)
        × ((to_haiku_mode_timings m).pixel_clock ≤ (limits_loop dm modes low high).1)
  unfolding limits_loop
  limits_loop-covers dm [] low high m a e = absurd a
  limits_loop-covers dm (x ∷ ms) low high m (inl q) e =
      let clock = (to_haiku_mode_timings x).pixel_clock in
      let here : limits_loop dm (x ∷ ms) low high
          ≡ limits_loop dm ms (min low clock) (max high clock) =
        if_true _ _ (subst (λ z. has_limits dm z ≡ true) q e) in
      subst
        (λ z.
          ((limits_loop dm (x ∷ ms) low high).0 ≤ (to_haiku_mode_timings z).pixel_clock)
          × ((to_haiku_mode_timings z).pixel_clock ≤ (limits_loop dm (x ∷ ms) low high).1))
        (sym q)
        (subst (λ (r : ℕ × ℕ). (r.0 ≤ clock) × (clock ≤ r.1)) (sym here)
          (ground (arith, limits_loop-widens dm ms (min low clock) (max high clock))))
  limits_loop-covers dm (x ∷ ms) low high m (inr a) e =
      let clock = (to_haiku_mode_timings m).pixel_clock in
      elim (Bool-cases (has_limits dm x)) [
        | inl hit ↦
            subst (λ (r : ℕ × ℕ). (r.0 ≤ clock) × (clock ≤ r.1)) (sym (if_true _ _ hit))
              (limits_loop-covers dm ms _ _ m a e)
        | inr miss ↦
            subst (λ (r : ℕ × ℕ). (r.0 ≤ clock) × (clock ≤ r.1)) (sym (if_false _ _ miss))
              (limits_loop-covers dm ms _ _ m a e)
      ]

  -- The modes that are not interlaced.
  abbrev pub progressive : List ModeTimings → List ModeTimings
  progressive [] = []
  progressive (m ∷ ms) = if m.interlaced then progressive ms else m ∷ progressive ms

  module _ (dm : DisplayTiming) (no_bit : interlaced_bit dm.v_display ≡ false) where
    and_false : (a b : Bool) → b ≡ false → (a && b) ≡ false
    and_false true b e = e
    and_false false b e = refl

    interlaced-has_limits : (m : ModeTimings) → m.interlaced ≡ true → has_limits dm m ≡ false
    unfolding has_limits to_haiku_mode_timings
    interlaced-has_limits m e =
        and_false _ _
          (and_false _ _ (ap (λ i. same_bool i (interlaced_bit dm.v_display)) e ∙ no_bit))

    limits_loop-progressive :
        (modes : List ModeTimings) (low high : ℕ)
        → limits_loop dm modes low high ≡ limits_loop dm (progressive modes) low high
    unfolding limits_loop
    limits_loop-progressive [] low high = refl
    limits_loop-progressive (m ∷ ms) low high = elim (Bool-cases m.interlaced) [
      | inl e ↦
          if_false _ _ (interlaced-has_limits m e)
          ∙ limits_loop-progressive ms low high
          ∙ ap (λ xs. limits_loop dm xs low high) (sym (if_true _ _ e))
      | inr e ↦
          let clock = (to_haiku_mode_timings m).pixel_clock in
          let both : limits_loop dm (m ∷ ms) low high
              ≡ limits_loop dm (m ∷ progressive ms) low high =
            elim (Bool-cases (has_limits dm m)) [
              | inl hit ↦
                  if_true _ _ hit
                  ∙ limits_loop-progressive ms (min low clock) (max high clock)
                  ∙ sym (if_true _ _ hit)
              | inr miss ↦
                  if_false _ _ miss ∙ limits_loop-progressive ms low high ∙ sym (if_false _ _ miss)
            ] in
          both ∙ ap (λ xs. limits_loop dm xs low high) (sym (if_false _ _ e))
    ]

  -- If the bit of interlacing is in no size of 16 bits, interlaced modes never count for the limits,
  -- also when the limits of an interlaced mode are asked for.
  pub limits_ignore_interlaced :
      (modes : List ModeTimings) (dm : DisplayTiming)
      → ((n : ℕ) → n < 2 ^ 16 → interlaced_bit n ≡ false)
      → dm.v_display < 2 ^ 16
      → get_pixel_clock_limits modes dm ≡ get_pixel_clock_limits (progressive modes) dm
  unfolding get_pixel_clock_limits
  limits_ignore_interlaced modes dm high_bit small =
      ap (λ r. if ltb r.1 r.0 then none else some (r.0, r.1))
        (limits_loop-progressive dm (high_bit dm.v_display small) modes (2 ^ 32 - 1) 0)

  -- If the bit of interlacing is in no size of 16 bits, the clock of every mode of the size that is
  -- not interlaced is between the limits.
  pub limits_cover :
      (modes : List ModeTimings) (dm : DisplayTiming) (m : ModeTimings) {low high : ℕ}
      → ((n : ℕ) → n < 2 ^ 16 → interlaced_bit n ≡ false)
      → dm.v_display < 2 ^ 16
      → get_pixel_clock_limits modes dm ≡ some (low, high)
      → Among m modes
      → m.h_visible ≡ dm.h_display
      → m.v_visible ≡ dm.v_display
      → m.interlaced ≡ false
      → (low ≤ m.pixel_clock_hz / 1000) × (m.pixel_clock_hz / 1000 ≤ high)
  unfolding get_pixel_clock_limits has_limits to_haiku_mode_timings
  limits_cover modes dm m {low} {high} high_bit small e a h v p =
      let r = limits_loop dm modes (2 ^ 32 - 1) 0 in
      let size_h : (m.h_visible == dm.h_display) ≡ true = ground (arith, h) in
      let size_v : (m.v_visible == dm.v_display) ≡ true = ground (arith, v) in
      let plain : same_bool m.interlaced (interlaced_bit dm.v_display) ≡ true =
        ap (λ i. same_bool i (interlaced_bit dm.v_display)) p
        ∙ ap not (high_bit dm.v_display small) in
      let covers =
        limits_loop-covers dm modes (2 ^ 32 - 1) 0 m a
          (and_true _ _ size_h (and_true _ _ size_v plain)) in
      elim (Bool-cases (ltb r.1 r.0)) [
        | inl crossed ↦ absurd (none≢some (sym (if_true _ _ crossed) ∙ e))
        | inr ordered ↦
            let same : ◌≡◌ {A = ℕ × ℕ} (r.0, r.1) (low, high) =
              some-injective (sym (if_false _ _ ordered) ∙ e) in
            subst (λ q. (q.0 ≤ m.pixel_clock_hz / 1000) × (m.pixel_clock_hz / 1000 ≤ q.1)) same
              covers
      ]
    where
      and_true : (x y : Bool) → x ≡ true → y ≡ true → (x && y) ≡ true
      and_true true y f g = g
      and_true false y f g = f
