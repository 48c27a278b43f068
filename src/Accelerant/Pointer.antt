-- ===== src/Accelerant/Pointer.antt =====
-- Showing and moving the cursor in accelerant/Accelerant.cpp. A bitmap is the handle of its surface, 0
-- where it is not set; whether the mode setting driver takes a call is a parameter.
use nvidia_haiku.Prelude.{
  ℕ, ◌+◌, ◌-◌, ◌%◌, ◌^◌, ◌≡◌, refl, sym, ◌∙◌, Bool, true, false, not, ◌==◌, if◌then◌else◌, if_false,
}
use nvidia_haiku.Accelerant.Timings.{same_bool}

-- The members of the accelerant for the cursor, and what the driver was last told: the surface and the
-- position, a number of 16 bits for each coordinate.
pub record Pointer : Type 0 where
  pub cursor : ℕ
  pub new_cursor : ℕ
  pub visible : Bool
  pub x : ℕ
  pub y : ℕ
  pub hot_x : ℕ
  pub hot_y : ℕ
  pub image : ℕ
  pub head_x : ℕ
  pub head_y : ℕ

abbrev pub newest : Pointer → ℕ
newest p = if p.new_cursor == 0 then p.cursor else p.new_cursor

-- The difference of two numbers of 16 bits, as 16 bits.
abbrev pub difference : ℕ → ℕ → ℕ
difference a b = (a + 2 ^ 16 - b % 2 ^ 16) % 2 ^ 16

-- The two halves of `UpdateCursor`; false is that the call raises.
unfoldable pub update_image : Bool → Pointer → Bool × Pointer
update_image false p = (false, p)
update_image true p = (
  true,
  record p { image = if p.visible then newest p else 0; cursor = newest p; new_cursor = 0 },
)

unfoldable pub update_pos : Bool → Pointer → Bool × Pointer
update_pos false p = (false, p)
update_pos true p =
    (true, record p { head_x = difference p.x p.hot_x; head_y = difference p.y p.hot_y })

unfoldable pub move_cursor : Bool → ℕ → ℕ → Pointer → Bool × Pointer
move_cursor taken x y p = update_pos taken (record p { x = x; y = y })

unfoldable pub show_cursor : Bool → Bool → Pointer → Bool × Pointer
show_cursor taken is_visible p =
    if same_bool p.visible is_visible
    then (true, p)
    else update_image taken (record p { visible = not p.visible })

abbrev pub then_pos : Bool → Bool × Pointer → Bool × Pointer
then_pos taken (false, p) = (false, p)
then_pos taken (true, p) = update_pos taken p

-- The end of `SetCursorBitmap`, for a bitmap that was made.
unfoldable pub use_cursor :
    (image_taken pos_taken : Bool) (surface hot_x hot_y : ℕ) → Pointer → Bool × Pointer
use_cursor image_taken pos_taken surface hot_x hot_y p =
    let q = record p { new_cursor = surface; hot_x = hot_x; hot_y = hot_y } in
    if p.visible then then_pos pos_taken (update_image image_taken q) else (true, q)

-- Calls on the cursor, where the driver takes all of its calls.
pub data Reach : Pointer → Type 0 where
  initial : Reach (record {
    cursor = 0;
    new_cursor = 0;
    visible = false;
    x = 0;
    y = 0;
    hot_x = 0;
    hot_y = 0;
    image = 0;
    head_x = 0;
    head_y = 0;
  })
  moves : (x y : ℕ) {p : Pointer} → Reach p → Reach (move_cursor true x y p).1
  shows : (is_visible : Bool) {p : Pointer} → Reach p → Reach (show_cursor true is_visible p).1
  uses :
      (surface hot_x hot_y : ℕ) {p : Pointer}
      → Reach p
      → Reach (use_cursor true true surface hot_x hot_y p).1

pub record IsShown (p : Pointer) : Type 0 where
  pub image : p.image ≡ (if p.visible then newest p else 0)

update_image-IsShown : (p : Pointer) → IsShown (update_image true p).1
unfolding update_image
update_image-IsShown p = record { image = refl }

show_cursor-IsShown : (v : Bool) (p : Pointer) → IsShown p → IsShown (show_cursor true v p).1
unfolding show_cursor
show_cursor-IsShown v p s = guard (same_bool p.visible v) _ s (update_image-IsShown _)
  where
    guard :
        (b : Bool) (y : Bool × Pointer)
        → IsShown p
        → IsShown y.1
        → IsShown (if b then (true, p) else y).1
    guard true y q r = q
    guard false y q r = r

use_cursor-IsShown :
    (s hx hy : ℕ) (p : Pointer) → IsShown p → IsShown (use_cursor true true s hx hy p).1
unfolding use_cursor update_image update_pos
use_cursor-IsShown s hx hy p v = used p.visible refl
  where
    given : Pointer
    given = record p { new_cursor = s; hot_x = hx; hot_y = hy }

    used :
        (b : Bool)
        → p.visible ≡ b
        → IsShown (if b then then_pos true (update_image true given) else (true, given)).1
    used true e = record { image = refl }
    used false e = record { image = v.image ∙ if_false _ _ e ∙ sym (if_false _ _ e) }

Reach-IsShown : {p : Pointer} → Reach p → IsShown p
unfolding move_cursor update_pos
Reach-IsShown initial = record { image = refl }
Reach-IsShown (moves x y r) = record { image = (Reach-IsShown r).image }
Reach-IsShown (shows v {p} r) = show_cursor-IsShown v p (Reach-IsShown r)
Reach-IsShown (uses s hx hy {p} r) = use_cursor-IsShown s hx hy p (Reach-IsShown r)

-- However the cursor is shown, hidden, moved and replaced, where the driver takes all of its calls the
-- image that it was last given is the newest bitmap while the cursor is visible, and none while it is
-- hidden.
pub cursor_image_shown : {p : Pointer} → Reach p → p.image ≡ (if p.visible then newest p else 0)
cursor_image_shown r = (Reach-IsShown r).image
