-- ===== src/Accelerant/Displays.antt =====
-- What the constructor of the accelerant in accelerant/Accelerant.cpp ends with.
use nvidia_haiku.Prelude.{
  ℕ, zero, suc, ◌+◌, ◌≤◌, ◌<◌, ◌≡◌, inl, inr, refl, sym, ap, subst, ◌∙◌, Bool, true, false, not,
  Option, none, some, none≢some, some-injective, List, [], ltb, if◌then◌else◌, Bool-cases, arith,
}
use nvidia_haiku.Accelerant.Timings.{ModeTimings}
use nvidia_haiku.Accelerant.Startup.{
  Answers, Started, Found, raised, not_found, found, Dynamic, find_connected_display,
  total_attempts, attempts, start_display, construct, read_modes,
}
use nvidia_haiku.Accelerant.ModeList.{accepted, read_modes-accepted}

-- A search that no attempt before it ended.
pub record IsFirst (search : ℕ → Found) (start left : ℕ) (d : ℕ) : Type 0 where
  pub attempt : ℕ
  pub from : start ≤ attempt
  pub within : attempt < start + left
  pub finds : search attempt ≡ found d
  pub before : (j : ℕ) → start ≤ j → j < attempt → search j ≡ not_found

found-injective : {a b : ℕ} → found a ≡ found b → a ≡ b
found-injective e = cc

raised≢found : {a : ℕ} → raised ≡ found a → ⊥
raised≢found e = cc

not_found≢found : {a : ℕ} → not_found ≡ found a → ⊥
not_found≢found e = cc

attempts-IsFirst :
    (left i : ℕ) (query : ℕ → ℕ → Option Dynamic) (dpys : List ℕ) {d : ℕ}
    → attempts left i query dpys ≡ found d
    → IsFirst (λ k. find_connected_display (query k) dpys) i left d
unfolding attempts
attempts-IsFirst zero i query dpys e = absurd (not_found≢found e)
attempts-IsFirst (suc left) i query dpys {d} e =
    step (find_connected_display (query i) dpys) refl e (attempts-IsFirst left (i + 1) query dpys)
  where
    search : ℕ → Found
    search k = find_connected_display (query k) dpys

    later : search i ≡ not_found → IsFirst search (i + 1) left d → IsFirst search i (suc left) d
    later now f = record {
      attempt = f.attempt;
      from = omega (arith, f.from);
      within = omega (arith, f.within);
      finds = f.finds;
      before = λ j p q. elim (Bool-cases (ltb i j)) [
        | inl e ↦ f.before j (ground (arith, e)) q
        | inr e ↦ subst (λ k. search k ≡ not_found) (ground (arith, e, p)) now
      ];
    }

    step :
        (r : Found)
        → search i ≡ r
        → elim r [
          | raised ↦ raised
          | not_found ↦ attempts left (i + 1) query dpys
          | found dpy ↦ found dpy
        ]
          ≡ found d
        → (attempts left (i + 1) query dpys ≡ found d → IsFirst search (i + 1) left d)
        → IsFirst search i (suc left) d
    step raised p e ih = absurd (raised≢found e)
    step not_found p e ih = later p (ih e)
    step (found dpy) p e ih = record {
      attempt = i;
      from = omega arith;
      within = omega arith;
      finds = p ∙ e;
      before = λ j a b. absurd (omega (arith, a, b));
    }

pub record IsStarted (a : Answers) (s : Started) : Type 0 where
  pub has_display : 0 < a.num_disps
  pub has_grabbed : a.grabbed ≡ true
  pub dpys : List ℕ
  pub queried : a.valid_dpys ≡ some dpys
  pub first : IsFirst (λ k. find_connected_display (a.query k) dpys) 0 total_attempts s.dpy_id
  pub modes : s.mode_list ≡ accepted (a.validate s.dpy_id) (a.replies s.dpy_id)

abbrev started_with : Bool → ℕ → Option (List ModeTimings) → Option Started
started_with grabbed dpy read =
    if not grabbed
    then none
    else elim read [ none ↦ none | some modes ↦ some (record { dpy_id = dpy; mode_list = modes }) ]

started_with-some :
    (grabbed : Bool) (dpy : ℕ) (read : Option (List ModeTimings)) {s : Started}
    → started_with grabbed dpy read ≡ some s
    → (grabbed ≡ true) × (s.dpy_id ≡ dpy) × (read ≡ some s.mode_list)
started_with-some false dpy read e = absurd (none≢some e)
started_with-some true dpy none e = absurd (none≢some e)
started_with-some true dpy (some modes) e =
    let f = some-injective e in
    (refl, sym (ap (λ (t : Started). t.dpy_id) f), ap (λ (t : Started). some t.mode_list) f)

start_display-some :
    (a : Answers) (r : Found) {s : Started}
    → start_display a r ≡ some s
    → (r ≡ found s.dpy_id)
      × (a.grabbed ≡ true)
      × (s.mode_list ≡ accepted (a.validate s.dpy_id) (a.replies s.dpy_id))
start_display-some a raised e = absurd (none≢some e)
start_display-some a not_found e = absurd (none≢some e)
start_display-some a (found dpy) {s} e =
    let m = started_with-some a.grabbed dpy (read_modes (a.validate dpy) (a.replies dpy) []) e in
    (
      ap found (sym m.1),
      m.0,
      subst (λ k. s.mode_list ≡ accepted (a.validate k) (a.replies k)) (sym m.1)
          (read_modes-accepted (a.validate dpy) (a.replies dpy) [] m.2),
    )

abbrev displays : Answers → Bool → Option (List ℕ) → Option Started
displays a some_disps dpys = if not some_disps then none else elim dpys [
  | none ↦ none
  | some ds ↦ start_display a (attempts total_attempts 0 a.query ds)
]

displays-some :
    (a : Answers) (some_disps : Bool) (dpys : Option (List ℕ)) {s : Started}
    → displays a some_disps dpys ≡ some s
    → (some_disps ≡ true)
      × (ds : List ℕ) × (dpys ≡ some ds)
      × (start_display a (attempts total_attempts 0 a.query ds) ≡ some s)
displays-some a false dpys e = absurd (none≢some e)
displays-some a true none e = absurd (none≢some e)
displays-some a true (some ds) e = (refl, ds, refl, e)

-- An accelerant that comes up has a device with a display controller and the ownership of it, its
-- display is the one that the first of ten attempts to find any found, and its modes are those of the
-- driver's that the driver accepts, in the driver's order.
pub construct-IsStarted : (a : Answers) {s : Started} → construct a ≡ some s → IsStarted a s
unfolding construct
construct-IsStarted a {s} e =
    let d = displays-some a (ltb 0 a.num_disps) a.valid_dpys e in
    let m = start_display-some a (attempts total_attempts 0 a.query d.1) d.3 in
    record {
      has_display = ground (arith, d.0);
      has_grabbed = m.1;
      dpys = d.1;
      queried = d.2;
      first = attempts-IsFirst total_attempts 0 a.query d.1 m.0;
      modes = m.2;
    }
