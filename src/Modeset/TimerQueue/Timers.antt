-- ===== src/Modeset/TimerQueue/Timers.antt =====
-- Laws of the timer list: addresses are distinct, and a timer that holds a reference counts.
use nvidia_haiku.Prelude.{
  ℕ, ◌+◌, ◌≤◌, ◌≡◌, ◌≢◌, refl, ap, Bool, true, false, not, ◌&&◌, List, [], ◌∷◌, ◌++◌, Option, none,
  some, ◌==◌, if◌then◌else◌, arith, length,
}
use nvidia_haiku.Modeset.TimerQueue.{Timer, find, remove, store}

abbrev pub AreDistinct : List Timer → Type 0
AreDistinct [] = Unit {0}
AreDistinct (t ∷ ts) = (find t.address ts ≡ none) × AreDistinct ts

abbrev pub is_running : Option ℕ → ℕ → Bool
is_running none a = false
is_running (some b) a = b == a

-- A timer holds a reference until its procedure is called.
pub holds : ℕ → Option ℕ → Timer → ℕ
holds r running t =
    if t.is_ref_ptr && (t.data_ptr == r && not (is_running running t.address)) then 1 else 0

pub holders : ℕ → Option ℕ → List Timer → ℕ
holders r running [] = 0
holders r running (t ∷ ts) = holds r running t + holders r running ts

pub find-address : (a : ℕ) (ts : List Timer) (t : Timer) → find a ts ≡ some t → t.address ≡ a
unfolding find
find-address a [] t e = cc
find-address a (u ∷ ts) t e = ground (arith, find-address a ts t)

pub find-remove_ne : (a b : ℕ) (ts : List Timer) → find a ts ≡ none → find a (remove b ts) ≡ none
unfolding find remove
find-remove_ne a b [] e = refl
find-remove_ne a b (u ∷ ts) e = ground (arith, find-remove_ne a b ts)

pub find-store-none :
    (a b : ℕ) (u : Timer) (ts : List Timer)
    → u.address ≡ b
    → find a ts ≡ none
    → find a (store b u ts) ≡ none
unfolding find store
find-store-none a b u [] w e = refl
find-store-none a b u (t ∷ ts) w e = ground (arith, find-store-none a b u ts w)

pub find-append_none :
    (a : ℕ) (t : Timer) (ts : List Timer)
    → find a ts ≡ none
    → a ≢ t.address
    → find a (ts ++ t ∷ []) ≡ none
unfolding find
find-append_none a t [] e w = ground arith
find-append_none a t (u ∷ ts) e w = ground (arith, find-append_none a t ts)

pub remove-AreDistinct : (a : ℕ) (ts : List Timer) → AreDistinct ts → AreDistinct (remove a ts)
unfolding remove
remove-AreDistinct a [] d = tt
remove-AreDistinct a (t ∷ ts) d =
    ground (arith, remove-AreDistinct a ts d.1, find-remove_ne t.address a ts d.0)

pub store-AreDistinct :
    (a : ℕ) (u : Timer) (ts : List Timer)
    → u.address ≡ a
    → AreDistinct ts
    → AreDistinct (store a u ts)
unfolding store
store-AreDistinct a u [] w d = tt
store-AreDistinct a u (t ∷ ts) w d =
    ground (arith, store-AreDistinct a u ts w d.1, find-store-none t.address a u ts w d.0)

pub append-AreDistinct :
    (t : Timer) (ts : List Timer)
    → AreDistinct ts
    → find t.address ts ≡ none
    → AreDistinct (ts ++ t ∷ [])
unfolding find
append-AreDistinct t [] d e = (refl, tt)
append-AreDistinct t (u ∷ ts) d e =
    (find-append_none u.address t ts d.0 (ground arith), append-AreDistinct t ts d.1 (ground arith))

pub holders-append :
    (r : ℕ) (g : Option ℕ) (t : Timer) (ts : List Timer)
    → holders r g (ts ++ t ∷ []) ≡ holders r g ts + holds r g t
unfolding holders
holders-append r g t [] = omega arith
holders-append r g t (u ∷ ts) = omega (arith, holders-append r g t ts)

pub holders-store :
    (r : ℕ) (g : Option ℕ) (a : ℕ) (u : Timer) (ts : List Timer) (t : Timer)
    → find a ts ≡ some t
    → holders r g (store a u ts) + holds r g t ≡ holders r g ts + holds r g u
unfolding holders find store
holders-store r g a u [] t e = cc
holders-store r g a u (x ∷ ts) t e = ground (arith, holders-store r g a u ts t)

pub holders-remove :
    (r : ℕ) (g : Option ℕ) (a : ℕ) (ts : List Timer) (t : Timer)
    → find a ts ≡ some t
    → holders r g (remove a ts) + holds r g t ≡ holders r g ts
unfolding holders find remove
holders-remove r g a [] t e = cc
holders-remove r g a (x ∷ ts) t e = ground (arith, holders-remove r g a ts t)

holds_other : (r a : ℕ) (t : Timer) → t.address ≢ a → holds r (some a) t ≡ holds r none t
unfolding holds
holds_other r a t h = ground arith

holds_own : (r a : ℕ) (t : Timer) → t.address ≡ a → holds r (some a) t ≡ 0
unfolding holds
holds_own r a t h = ground arith

-- Away from the running timer it makes no difference which one runs.
holders_absent :
    (r a : ℕ) (ts : List Timer) → find a ts ≡ none → holders r (some a) ts ≡ holders r none ts
unfolding holders find
holders_absent r a [] e = refl
holders_absent r a (x ∷ ts) e = ground (arith, holders_absent r a ts, holds_other r a x)

-- The timer that begins to run gives up its reference.
pub holders_running :
    (r a : ℕ) (ts : List Timer) (t : Timer)
    → AreDistinct ts
    → find a ts ≡ some t
    → holders r (some a) ts + holds r none t ≡ holders r none ts
unfolding holders find
holders_running r a [] t d e = cc
holders_running r a (x ∷ ts) t d e =
    ground (
      arith,
      holders_running r a ts t d.1,
      holders_absent r a ts,
      holds_other r a x,
      holds_own r a x,
    )

pub holders-le : (r : ℕ) (g : Option ℕ) (ts : List Timer) → holders r g ts ≤ length ts
unfolding holders holds
holders-le r g [] = omega arith
holders-le r g (t ∷ ts) = ground (arith, holders-le r g ts)

pub holds_same :
    (r : ℕ) (g : Option ℕ) (t u : Timer)
    → u.address ≡ t.address
    → u.data_ptr ≡ t.data_ptr
    → u.is_ref_ptr ≡ t.is_ref_ptr
    → holds r g u ≡ holds r g t
unfolding holds
holds_same r g t u a d i = rw (a, d, i)

pub holds_none : (r : ℕ) (g : Option ℕ) (t : Timer) → t.is_ref_ptr ≡ false → holds r g t ≡ 0
unfolding holds
holds_none r g t e = rw e

pub holds_lent :
    (r : ℕ) (g : Option ℕ) (t : Timer)
    → t.is_ref_ptr ≡ true
    → g ≢ some t.address
    → holds r g t ≡ (if r == t.data_ptr then 1 else 0)
unfolding holds
holds_lent r none t e w = rw e (ground arith)
holds_lent r (some b) t e w = ground (arith, λ (q : b ≡ t.address). w (ap some q))
