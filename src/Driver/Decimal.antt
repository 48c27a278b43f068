-- ===== src/Driver/Decimal.antt =====
-- The decimal numerals of nvidia_gsp/nvidia/Driver.cpp: what `sprintf` writes for a number, and what
-- `strtol` reads. A string is the list of its character codes, without the final 0.
use nvidia_haiku.Prelude.{
  ℕ, zero, suc, ◌+◌, ◌-◌, ◌*◌, ◌/◌, ◌%◌, ◌^◌, ◌<◌, ◌≡◌, ap, ◌∙◌, Bool, ◌&&◌, List, [], ◌∷◌, ◌++◌,
  arith, ltb, leb, if◌then◌else◌, Bool-cases, inl, inr,
}
use native.Mathlib.Nat.{pow-suc}

abbrev pub Text : Type 0
Text = List ℕ

-- '0' is 48.
abbrev pub is_digit : ℕ → Bool
is_digit c = leb 48 c && leb c 57

abbrev pub digit : ℕ → ℕ
digit d = 48 + d

-- `strtol` in base 10 from its first digit on, before it saturates: the number, and where it stops.
unfoldable pub read_digits : ℕ → Text → ℕ × Text
read_digits n [] = (n, [])
read_digits n (c ∷ s) =
    let rest = read_digits (n * 10 + (c - 48)) s in if is_digit c then rest else (n, c ∷ s)

-- `%d` of a number that is not negative, for at most `k` digits.
unfoldable pub write_digits : ℕ → ℕ → Text
write_digits zero n = []
write_digits (suc k) n =
    let rest = write_digits k (n / 10) in
    if ltb n 10 then digit n ∷ [] else rest ++ digit (n % 10) ∷ []

read_digits-append :
    (s : Text) (m n d : ℕ)
    → d < 10
    → read_digits m s ≡ (n, [])
    → read_digits m (s ++ digit d ∷ []) ≡ (n * 10 + d, [])
unfolding read_digits
read_digits-append [] m n d h e = ground arith
read_digits-append (c ∷ s) m n d h e =
    ground (arith, read_digits-append s (m * 10 + (c - 48)) n d h)

-- Reading gives back the number that was written.
pub read-write : (k n : ℕ) → n < 10 ^ suc k → read_digits 0 (write_digits (suc k) n) ≡ (n, [])
unfolding read_digits write_digits
read-write zero n h = ground (arith, h)
read-write (suc k) n h = elim (Bool-cases (ltb n 10)) [
  | inl few ↦ rw (few, write_digits) (ground arith)
  | inr many ↦
      let low : n / 10 < 10 ^ suc k = omega (arith, h, pow-suc 10 (suc k)) in
      let value : n / 10 * 10 + n % 10 ≡ n = omega arith in
      rw (many, write_digits)
        (read_digits-append (write_digits (suc k) (n / 10)) 0 (n / 10) (n % 10) (omega arith)
            (read-write k (n / 10) low)
          ∙ ap (λ m. (m, [])) value)
]
