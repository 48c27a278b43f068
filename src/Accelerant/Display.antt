-- ===== src/Accelerant/Display.antt =====
-- `SetDisplayMode` of accelerant/Accelerant.cpp: which surfaces exist, which are kept, and which one the
-- mode setting driver shows. The answers of that driver are parameters.
use nvidia_haiku.Prelude.{
  ◌⊎◌, inl, inr, ℕ, ◌+◌, ◌-◌, ◌≤◌, ◌≡◌, refl, sym, subst, Bool, true, false, not, Option, none,
  some, ◌==◌, if◌then◌else◌, ◌||◌, arith,
}
use nvidia_haiku.Accelerant.Timings.{DisplayMode, ModeTimings, to_nv_kms_mode_timings}

-- The mode that is asked for, and where it starts on the virtual screen.
pub record Request : Type 0 where
  pub mode : DisplayMode
  pub h_display_start : ℕ
  pub v_display_start : ℕ

-- `validated` is whether the call to validate goes through, `valid` its reply; `bitmap` is the surface
-- of the new framebuffer, none where making it fails; `mode_is_set` is whether the mode is set. The
-- last three are the calls that delete what the framebuffer before the last one had: its mapping, its
-- surface and its memory. One that is not made goes through.
pub record Replies : Type 0 where
  pub validated : Bool
  pub valid : Bool
  pub bitmap : Option ℕ
  pub mode_is_set : Bool
  pub unmapped : Bool
  pub unregistered : Bool
  pub freed : Bool

-- `raised_late` is an exception after the mode is set, and `crashed` a division by 0.
pub data Outcome : Type 0 where
  returned : Outcome
  raised_invalid : Outcome
  raised : Outcome
  raised_late : Outcome
  crashed : Outcome

-- `fCurrentMode`, `fFramebuffer` and `fOldFramebuffer` by their surfaces; how many live surfaces have a
-- handle; and the surface that was last handed over to be shown.
pub record Display : Type 0 where
  pub current_mode : Option ModeTimings
  pub framebuffer : Option ℕ
  pub old_framebuffer : Option ℕ
  pub live : ℕ → ℕ
  pub shown : Option ℕ

abbrev pub holds : Option ℕ → ℕ → ℕ
holds none h = 0
holds (some s) h = if s == h then 1 else 0

abbrev pub is_unsupported : Request → Bool
is_unsupported r =
    not (r.mode.virtual_width == r.mode.timing.h_display)
    || not (r.mode.virtual_height == r.mode.timing.v_display)
    || not (r.h_display_start == 0)
    || not (r.v_display_start == 0)

-- The destructor of `newFramebuffer` where the call raises.
abbrev pub deleted : ℕ → Display → Display
deleted s d = record d { live = λ h. d.live h - holds (some s) h }

-- The two move assignments. The first one deletes what the old framebuffer has and moves the members one
-- by one; the second one finds nothing to delete.
unfoldable pub store_bitmap : Replies → ℕ → Display → Outcome × Display
store_bitmap a s d =
    let old_deleted = record d {
      old_framebuffer = d.framebuffer;
      live = λ h. d.live h - holds d.old_framebuffer h;
    } in
    if not a.unmapped
    then (raised_late, deleted s d)
    else if not a.unregistered
    then (raised_late, deleted s d)
    else if not a.freed
    then (raised_late, deleted s (record old_deleted { framebuffer = none }))
    else (returned, record old_deleted { framebuffer = some s })

-- From the new framebuffer on.
unfoldable pub show_bitmap : Replies → Option ℕ → ModeTimings → Display → Outcome × Display
unfolding store_bitmap
show_bitmap a none timings d = (raised, d)
show_bitmap a (some s) timings d =
    let made = record d { live = λ h. d.live h + holds (some s) h } in
    if not a.mode_is_set
    then (raised, deleted s made)
    else store_bitmap a s (record made { current_mode = some timings; shown = some s })

-- From the form of the mode for the mode setting driver on.
abbrev pub validate_mode : Replies → Option ModeTimings → Display → Outcome × Display
unfolding show_bitmap
validate_mode a none d = (crashed, d)
validate_mode a (some timings) d =
    if not a.validated
    then (raised, d)
    else if not a.valid
    then (raised_invalid, d)
    else show_bitmap a a.bitmap timings d

unfoldable pub set_display_mode : Replies → Request → Display → Outcome × Display
unfolding show_bitmap to_nv_kms_mode_timings
set_display_mode a r d =
    if is_unsupported r
    then (raised_invalid, d)
    else validate_mode a (to_nv_kms_mode_timings r.mode.timing) d

-- Whether the last call that set a mode raised after that.
abbrev pub late : Outcome → Bool → Bool
late returned before = false
late raised_late before = true
late raised_invalid before = before
late raised before = before
late crashed before = before

-- The calls of an accelerant so far.
pub data Reach : Bool → Display → Type 0 where
  initial : Reach false (record {
    current_mode = none;
    framebuffer = none;
    old_framebuffer = none;
    live = λ h. 0;
    shown = none;
  })
  sets :
      (a : Replies) (r : Request) {b : Bool} {d : Display}
      → Reach b d
      → Reach (late (set_display_mode a r d).0 b) (set_display_mode a r d).1

-- The framebuffers are the live surfaces, and the framebuffer is what is shown, or the call that showed
-- a surface raised after that.
pub record IsOwned (b : Bool) (d : Display) : Type 0 where
  pub owned : (h : ℕ) → d.live h ≡ holds d.framebuffer h + holds d.old_framebuffer h
  pub showing : (d.shown ≡ d.framebuffer) ⊎ (b ≡ true)

-- What a call ends in, after calls that ended in `b`.
abbrev Owns : Bool → Outcome × Display → Type 0
Owns b r = IsOwned (late r.0 b) r.1

guarded : (b g : Bool) (x y : Outcome × Display) → Owns b x → Owns b y → Owns b (if g then x else y)
guarded b true x y p q = p
guarded b false x y p q = q

store_bitmap-Owns :
    (a : Replies) (b : Bool) (s : ℕ) (d : Display)
    → ((h : ℕ) → d.live h ≡ holds d.framebuffer h + holds d.old_framebuffer h + holds (some s) h)
    → d.shown ≡ some s
    → Owns b (store_bitmap a s d)
unfolding store_bitmap
store_bitmap-Owns a b s d owned shown =
    guarded b (not a.unmapped) _ _
      (record { owned = λ h. omega (arith, owned h); showing = inr refl })
      (guarded b (not a.unregistered) _ _
        (record { owned = λ h. omega (arith, owned h); showing = inr refl })
        (guarded b (not a.freed) _ _
          (record { owned = λ h. omega (arith, owned h); showing = inr refl })
          (record { owned = λ h. omega (arith, owned h); showing = inl shown })))

show_bitmap-Owns :
    (a : Replies) (b : Bool) (bitmap : Option ℕ) (timings : ModeTimings) (d : Display)
    → IsOwned b d
    → Owns b (show_bitmap a bitmap timings d)
unfolding show_bitmap
show_bitmap-Owns a b none timings d v = v
show_bitmap-Owns a b (some s) timings d v =
    guarded b (not a.mode_is_set) _ _
      (record { owned = λ h. omega (arith, v.owned h); showing = v.showing })
      (store_bitmap-Owns a b s _ (λ h. omega (arith, v.owned h)) refl)

validate_mode-Owns :
    (a : Replies) (b : Bool) (t : Option ModeTimings) (d : Display)
    → IsOwned b d
    → Owns b (validate_mode a t d)
unfolding validate_mode
validate_mode-Owns a b none d v = v
validate_mode-Owns a b (some timings) d v =
    guarded b (not a.validated) _ _ v
      (guarded b (not a.valid) _ _ v (show_bitmap-Owns a b a.bitmap timings d v))

Reach-IsOwned : {b : Bool} {d : Display} → Reach b d → IsOwned b d
unfolding set_display_mode
Reach-IsOwned initial = record { owned = λ h. refl; showing = inl refl }
Reach-IsOwned (sets a r {b} {d} q) =
    let v = Reach-IsOwned q in
    guarded b (is_unsupported r) _ _ v
      (validate_mode-Owns a b (to_nv_kms_mode_timings r.mode.timing) d v)

-- Whatever the driver answers to any calls that set modes, no surface of a framebuffer is lost: the live
-- surfaces are those of the framebuffer and of the one before it. The framebuffer is the surface that is
-- shown, and is live, unless the last call that set a mode raised after that, in the deletion of the
-- framebuffer before the last.
pub framebuffers_owned :
    {b : Bool} {d : Display} (h : ℕ)
    → Reach b d
    → (d.live h ≡ holds d.framebuffer h + holds d.old_framebuffer h)
      × (((d.shown ≡ d.framebuffer) × (holds d.shown h ≤ d.live h)) ⊎ (b ≡ true))
framebuffers_owned {b} {d} h q =
    let v = Reach-IsOwned q in
    (
      v.owned h,
      elim v.showing [
        | inl e ↦ inl (e, subst (λ s. holds s h ≤ d.live h) (sym e) (omega (arith, v.owned h)))
        | inr e ↦ inr e
      ],
    )
