-- ===== src/Pool/SizeClass.antt =====
-- The loop of `IntrSafePool::Alloc` that picks the first group whose blocks are large enough.
use native.Mathlib.Nat.{pow-suc}
use nvidia_haiku.Prelude.{
  ℕ, zero, suc, ◌+◌, ◌*◌, ◌%◌, ◌^◌, ◌≤◌, ◌<◌, ◌≡◌, ◌⊎◌, inl, inr, refl, Option, none, some, arith,
  ltb, if◌then◌else◌, Bool-cases, ltb→lt, lt→ltb, sym, ap, ◌∙◌,
}

abbrev pub min_size_pow2 : ℕ
min_size_pow2 = 4

abbrev pub min_size : ℕ
min_size = 2 ^ min_size_pow2

-- `while (groupSize < size) {n++; groupSize *= 2;}` over a 64-bit `size_t`; nothing if the fuel runs
-- out.
unfoldable pub size_class_loop : ℕ → ℕ → ℕ → ℕ → Option ℕ
size_class_loop zero n group_size size = none
size_class_loop (suc fuel) n group_size size =
    let rest = size_class_loop fuel (n + 1) (group_size * 2 % 2 ^ 64) size in
    if ltb group_size size then rest else some n

-- From 16 a 64-bit size is passed, if at all, within 59 doublings.
abbrev pub size_class_fuel : ℕ
size_class_fuel = 60

unfoldable pub size_class : ℕ → Option ℕ
size_class size = size_class_loop size_class_fuel 0 min_size size

-- What the loop ends in after `d` doublings of a group size `s`.
record Least (s size d : ℕ) : Type 0 where
  fits : size ≤ s * 2 ^ d
  least : (d ≡ 0) ⊎ (s * 2 ^ d < 2 * size)

pub double-pow : (s j : ℕ) → s * 2 ^ suc j ≡ s * 2 * 2 ^ j
double-pow s j = grind (arith, pow-suc 2 j)

pub pow-pos : (j : ℕ) → 0 < 2 ^ j
pow-pos zero = omega arith
pow-pos (suc j) = omega (arith, pow-suc 2 j, pow-pos j)

-- A power of two below 2^63 is doubled without wrapping around.
double-le : (s j : ℕ) → s * 2 ^ suc j ≡ 2 ^ 63 → s * 2 % 2 ^ 64 ≡ s * 2
double-le s j e = omega (arith, bound)
  where
    bound : s * 2 ≤ 2 ^ 63
    bound = grind (arith, double-pow s j, pow-pos j)

Least-double : (s size d : ℕ) → s < size → Least (s * 2) size d → Least s size (suc d)
Least-double s size d h l = record {
  fits = rw (double-pow s d) l.fits;
  least = inr (elim l.least [ inl e ↦ rw e (omega arith) | inr lt ↦ rw (double-pow s d) lt ]);
}

-- With `j` doublings left up to 2^63, `j + 1` rounds are enough.
loop_finds :
    (j n s size : ℕ)
    → s * 2 ^ j ≡ 2 ^ 63
    → size ≤ 2 ^ 63
    → (d : ℕ) × (size_class_loop (suc j) n s size ≡ some (n + d)) × Least s size d
unfolding size_class_loop
loop_finds zero n s size e h = (0, ground arith, record { fits = omega arith; least = inl refl })
loop_finds (suc j) n s size e h = elim (Bool-cases (ltb s size)) [
  | inl more ↦
      let (d, found, l) = loop_finds j (n + 1) (s * 2) size (sym (double-pow s j) ∙ e) h in
      (
        suc d,
        rw (double-le s j e) (rw more (found ∙ ap some (omega arith))),
        Least-double s size d (ltb→lt s size more) l,
      )
  | inr stop ↦
      (0, rw stop (ap some (omega arith)), record { fits = ground arith; least = inl refl })
]

-- The loop ends for every size up to 2^63, with the least group whose blocks hold the size.
pub size_class_least :
    (size : ℕ)
    → size ≤ 2 ^ 63
    → (n : ℕ) × (size_class size ≡ some n)
      × (size ≤ min_size * 2 ^ n)
      × ((n ≡ 0) ⊎ (min_size * 2 ^ n < 2 * size))
unfolding size_class
size_class_least size h =
    let (d, found, l) = loop_finds 59 0 min_size size refl h in
    (d, found ∙ ap some (omega arith), l.fits, l.least)

zero_hangs : (fuel n size : ℕ) → 0 < size → size_class_loop fuel n 0 size ≡ none
unfolding size_class_loop
zero_hangs zero n size h = refl
zero_hangs (suc fuel) n size h = ground (arith, zero_hangs fuel (n + 1) size)

top_hangs : (fuel n s size : ℕ) → s ≡ 2 ^ 63 → s < size → size_class_loop fuel n s size ≡ none
unfolding size_class_loop
top_hangs zero n s size e h = refl
top_hangs (suc fuel) n s size e h =
    let wraps : s * 2 % 2 ^ 64 ≡ 0 = omega arith in
    rw (lt→ltb s size h, wraps) (zero_hangs fuel (n + 1) size (omega arith))

loop_hangs :
    (fuel j n s size : ℕ)
    → s * 2 ^ j ≡ 2 ^ 63
    → 2 ^ 63 < size
    → size_class_loop fuel n s size ≡ none
unfolding size_class_loop
loop_hangs fuel zero n s size e h = top_hangs fuel n s size (omega arith) (omega arith)
loop_hangs zero (suc j) n s size e h = refl
loop_hangs (suc fuel) (suc j) n s size e h =
    let small : s < size = omega (arith, double-le s j e) in
    rw (lt→ltb s size small, double-le s j e)
      (loop_hangs fuel j (n + 1) (s * 2) size (sym (double-pow s j) ∙ e) h)

-- Above 2^63 the group size wraps to 0 and the loop never ends, whatever the fuel.
pub size_class_hangs : (fuel size : ℕ) → 2 ^ 63 < size → size_class_loop fuel 0 min_size size ≡ none
size_class_hangs fuel size h = loop_hangs fuel 59 0 min_size size refl h

pub size_class-none : (size : ℕ) → 2 ^ 63 < size → size_class size ≡ none
unfolding size_class
size_class-none size h = size_class_hangs size_class_fuel size h
