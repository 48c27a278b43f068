-- ===== src/Accelerant/Propose.antt =====
-- `NvAccelerant::ProposeMode` of accelerant/Accelerant.cpp.
use mathlib.Core.Option
use nvidia_haiku.Prelude.{
  ◌*◌, ◌<◌, ℕ, ◌+◌, ◌-◌, ◌≤◌, ◌≡◌, ◌⊎◌, inl, inr, refl, sym, ap, ◌∙◌, subst, Bool, true, false,
  ◌&&◌, ◌||◌, List, [], ◌∷◌, Option, none, some, arith, ltb, ◌==◌, if◌then◌else◌, Bool-cases,
  Option-cases, none≢some, some-injective, if_true, if_false, ltb→lt,
}
use nvidia_haiku.Accelerant.Timings.{
  DisplayTiming, ModeTimings, DisplayMode, same_bool, calc_refresh_rate, to_haiku_mode_timings,
  to_haiku_mode, mode_timings_equal, is_display_mode_within_bounds,
}

pub data Status : Type 0 where
  b_ok : Status
  b_bad_value : Status
  b_error : Status

-- `std::abs` of the difference.
abbrev pub distance : ℕ → ℕ → ℕ
distance a b = (a - b) + (b - a)

-- `IsDisplayModeWithinBounds(...) ? B_OK : B_BAD_VALUE`.
abbrev pub check_bounds : DisplayMode → DisplayMode → DisplayMode → Status
unfolding is_display_mode_within_bounds
check_bounds target low high =
    if is_display_mode_within_bounds target low high then b_ok else b_bad_value

-- The first loop: whether a mode has the target's timings.
unfoldable pub has_exact : DisplayTiming → List ModeTimings → Bool
unfolding mode_timings_equal to_haiku_mode
has_exact timing [] = false
has_exact timing (m ∷ ms) =
    mode_timings_equal timing (to_haiku_mode m).timing || has_exact timing ms

unfoldable pub is_candidate : DisplayTiming → ModeTimings → Bool
unfolding to_haiku_mode_timings
is_candidate timing m =
    (to_haiku_mode_timings m).h_display == timing.h_display
    && ((to_haiku_mode_timings m).v_display == timing.v_display
        && same_bool (to_haiku_mode_timings m).flags.interlaced timing.flags.interlaced)

-- Whether a mode replaces the best one so far.
abbrev pub is_better : ℕ → ModeTimings → Option ModeTimings → Bool
is_better req m none = true
is_better req m (some b) = ltb (distance m.rr_x1k req) (distance b.rr_x1k req)

-- The second loop, with the mode at `bestCandidateIdx` for its index.
unfoldable pub best_candidate :
    DisplayTiming → ℕ → List ModeTimings → Option ModeTimings → Option ModeTimings
unfolding is_candidate
best_candidate timing req [] best = best
best_candidate timing req (m ∷ ms) best =
    let taken = best_candidate timing req ms (some m) in
    let kept = best_candidate timing req ms best in
    if is_candidate timing m && is_better req m best then taken else kept

-- From the refresh rate of the target on.
unfoldable pub propose_nearest :
    List ModeTimings → DisplayMode → DisplayMode → DisplayMode → ℕ → Status × DisplayMode
unfolding best_candidate to_haiku_mode_timings
propose_nearest modes target low high req = elim (best_candidate target.timing req modes none) [
  | none ↦ (b_error, target)
  | some m ↦
      let nearest = record target { timing = to_haiku_mode_timings m } in
      (check_bounds nearest low high, nearest)
]

-- The status, and the target as it is left; none where the code divides by 0.
unfoldable pub propose_mode :
    List ModeTimings → DisplayMode → DisplayMode → DisplayMode → Option (Status × DisplayMode)
unfolding has_exact calc_refresh_rate
propose_mode modes target low high =
    if has_exact target.timing modes
    then some (check_bounds target low high, target)
    else Option.map (propose_nearest modes target low high) (calc_refresh_rate target.timing)

abbrev pub Among : ModeTimings → List ModeTimings → Type 0
Among m [] = ⊥
Among m (x ∷ xs) = (m ≡ x) ⊎ Among m xs

-- The best so far, or one of the list, that no candidate of the list is nearer than.
pub record Best (timing : DisplayTiming) (req : ℕ) (modes : List ModeTimings)
    (best : Option ModeTimings) (m : ModeTimings) : Type 0 where
  pub source : (best ≡ some m) ⊎ (Among m modes × (is_candidate timing m ≡ true))
  pub nearer : (b : ModeTimings) → best ≡ some b → distance m.rr_x1k req ≤ distance b.rr_x1k req
  pub nearest :
      (x : ModeTimings)
      → Among x modes
      → is_candidate timing x ≡ true
      → distance m.rr_x1k req ≤ distance x.rr_x1k req

and_left : (a b : Bool) → (a && b) ≡ true → a ≡ true
and_left true b e = refl
and_left false b e = e

and_right : (a b : Bool) → (a && b) ≡ true → b ≡ true
and_right true b e = e
and_right false b e = absurd (true≢false (sym e))
  where
    true≢false : true ≡ false → ⊥
    true≢false q = cc

-- A candidate that is passed over is no nearer than the best one so far.
passed_over :
    (timing : DisplayTiming) (req : ℕ) (x : ModeTimings) (best : Option ModeTimings)
    → (is_candidate timing x && is_better req x best) ≡ false
    → is_candidate timing x ≡ true
    → (b : ModeTimings) × (best ≡ some b) × (distance b.rr_x1k req ≤ distance x.rr_x1k req)
passed_over timing req x none e c = absurd (true≢false (sym (ap (λ a. a && true) c) ∙ e))
  where
    true≢false : true ≡ false → ⊥
    true≢false q = cc
passed_over timing req x (some b) e c =
    let further : ltb (distance x.rr_x1k req) (distance b.rr_x1k req) ≡ false =
      sym (ap (λ a. a && ltb (distance x.rr_x1k req) (distance b.rr_x1k req)) c) ∙ e in
    (b, refl, ground (arith, further))

module _ (timing : DisplayTiming) (req : ℕ) where
  best_candidate-Best :
      (modes : List ModeTimings) (best : Option ModeTimings) (m : ModeTimings)
      → best_candidate timing req modes best ≡ some m
      → Best timing req modes best m
  unfolding best_candidate
  best_candidate-Best [] best m e = record {
    source = inl e;
    nearer = λ b f. ap_distance (some-injective (sym e ∙ f));
    nearest = λ x h. absurd h;
  }
    where
      ap_distance : {b : ModeTimings} → m ≡ b → distance m.rr_x1k req ≤ distance b.rr_x1k req
      ap_distance f = subst (λ b. distance m.rr_x1k req ≤ distance b.rr_x1k req) f (omega arith)
  best_candidate-Best (x ∷ ms) best m e =
      elim (Bool-cases (is_candidate timing x && is_better req x best)) [
        | inl taken ↦
            let v = best_candidate-Best ms (some x) m (sym (if_true _ _ taken) ∙ e) in
            let c = and_left (is_candidate timing x) _ taken in
            let better = and_right (is_candidate timing x) _ taken in
            record {
              source = elim v.source [
                | inl f ↦ inr (
                  inl (sym (some-injective f)),
                  subst (λ z. is_candidate timing z ≡ true) (some-injective f) c,
                )
                | inr (a, g) ↦ inr (inr a, g)
              ];
              nearer = λ b f.
                  let less : ltb (distance x.rr_x1k req) (distance b.rr_x1k req) ≡ true =
                    subst (λ o. is_better req x o ≡ true) f better in
                  omega (arith, ltb→lt, less, v.nearer x refl);
              nearest = λ y h g. elim h [
                | inl q ↦
                    subst (λ z. distance m.rr_x1k req ≤ distance z.rr_x1k req) (sym q)
                      (v.nearer x refl)
                | inr a ↦ v.nearest y a g
              ];
            }
        | inr kept ↦
            let v = best_candidate-Best ms best m (sym (if_false _ _ kept) ∙ e) in
            record {
              source = elim v.source [ inl f ↦ inl f | inr (a, g) ↦ inr (inr a, g) ];
              nearer = v.nearer;
              nearest = λ y h g. elim h [
                | inl q ↦
                    let (b, f, far) =
                      passed_over timing req x best kept
                        (subst (λ z. is_candidate timing z ≡ true) q g) in
                    subst (λ z. distance m.rr_x1k req ≤ distance z.rr_x1k req) (sym q)
                      (omega (arith, far, v.nearer b f))
                | inr a ↦ v.nearest y a g
              ];
            }
      ]

  -- Where nothing is found there is no candidate.
  best_candidate-none :
      (modes : List ModeTimings) (best : Option ModeTimings)
      → best_candidate timing req modes best ≡ none
      → (best ≡ none) × ((x : ModeTimings) → Among x modes → is_candidate timing x ≡ false)
  unfolding best_candidate
  best_candidate-none [] best e = (e, λ x h. absurd h)
  best_candidate-none (x ∷ ms) best e =
      elim (Bool-cases (is_candidate timing x && is_better req x best)) [
        | inl taken ↦
            absurd
              (none≢some (sym (best_candidate-none ms (some x) (sym (if_true _ _ taken) ∙ e)).0))
        | inr kept ↦
            let (f, w) = best_candidate-none ms best (sym (if_false _ _ kept) ∙ e) in
            (
              f,
              λ y h. elim h [
                | inl q ↦
                    subst (λ z. is_candidate timing z ≡ false) (sym q) (no_candidate x best f kept)
                | inr a ↦ w y a
              ],
            )
      ]
    where
      no_candidate :
          (x : ModeTimings) (best : Option ModeTimings)
          → best ≡ none
          → (is_candidate timing x && is_better req x best) ≡ false
          → is_candidate timing x ≡ false
      no_candidate x none f e = elim (Bool-cases (is_candidate timing x)) [
        | inl c ↦ absurd (none≢some (passed_over timing req x none e c).1)
        | inr c ↦ c
      ]
      no_candidate x (some b) f e = absurd (none≢some (sym f))

-- The answers of `ProposeMode` for a refresh rate, where no mode has the target's timings.
pub data Nearest (modes : List ModeTimings) (target low high : DisplayMode) (req : ℕ)
    : Status × DisplayMode → Type 0 where
  nearest_mode :
      (m : ModeTimings)
      → Among m modes
      → is_candidate target.timing m ≡ true
      → ((x : ModeTimings)
          → Among x modes
          → is_candidate target.timing x ≡ true
          → distance m.rr_x1k req ≤ distance x.rr_x1k req)
      → Nearest modes target low high req (
        check_bounds (record target { timing = to_haiku_mode_timings m }) low high,
        record target { timing = to_haiku_mode_timings m },
      )
  no_mode :
      ((x : ModeTimings) → Among x modes → is_candidate target.timing x ≡ false)
      → Nearest modes target low high req (b_error, target)

propose_nearest-Nearest :
    (modes : List ModeTimings) (target low high : DisplayMode) (req : ℕ)
    → Nearest modes target low high req (propose_nearest modes target low high req)
unfolding propose_nearest
propose_nearest-Nearest modes target low high req =
    elim (Option-cases (best_candidate target.timing req modes none)) [
      | inl q ↦
          rw (q, propose_nearest) (no_mode (best_candidate-none target.timing req modes none q).1)
      | inr (m, q) ↦
          let v = best_candidate-Best target.timing req modes none m q in
          rw (q, propose_nearest)
            (elim v.source [
              | inl f ↦ absurd (none≢some f)
              | inr (a, c) ↦ nearest_mode m a c v.nearest
            ])
    ]

-- A crash for a target with a total of 0, or an answer by the target's refresh rate.
pub data Proposed (modes : List ModeTimings) (target low high : DisplayMode)
    : Option (Status × DisplayMode) → Type 0 where
  crashes : target.timing.h_total * target.timing.v_total ≡ 0 → Proposed modes target low high none
  answers :
      (req : ℕ) {answer : Status × DisplayMode}
      → 0 < target.timing.h_total * target.timing.v_total
      → calc_refresh_rate target.timing ≡ some req
      → Nearest modes target low high req answer
      → Proposed modes target low high (some answer)

-- Where no mode has exactly the target's timings and the totals of the target are not 0, `ProposeMode`
-- puts in the target the timings of a mode of the list of the target's size and interlacing, whose
-- refresh rate is as near to the target's as that of any other such mode, and answers by the bounds;
-- if the list has no such mode it fails and leaves the target. Where a total is 0 it divides by 0.
pub propose_mode-Proposed :
    (modes : List ModeTimings) (target low high : DisplayMode)
    → has_exact target.timing modes ≡ false
    → Proposed modes target low high (propose_mode modes target low high)
unfolding propose_mode calc_refresh_rate
propose_mode-Proposed modes target low high other =
    subst (Proposed modes target low high) (sym (if_false _ _ other))
      (elim (Bool-cases (target.timing.h_total * target.timing.v_total == 0)) [
        | inl q ↦
            subst (λ (r : Option ℕ). Proposed modes target low high (Option.map nearest r))
              (sym (if_true _ _ q)) (crashes (ground (arith, q)))
        | inr q ↦
            subst (λ (r : Option ℕ). Proposed modes target low high (Option.map nearest r))
              (sym (if_false _ _ q))
              (answers _ (ground (arith, q)) (if_false _ _ q)
                (propose_nearest-Nearest modes target low high _))
      ])
  where
    nearest : ℕ → Status × DisplayMode
    nearest = propose_nearest modes target low high
