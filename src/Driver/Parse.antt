-- ===== src/Driver/Parse.antt =====
-- `ParseUint32` and `ParseDeviceName` of nvidia_gsp/nvidia/Driver.cpp.
use mathlib.Core.Option
use nvidia_haiku.Prelude.{
  ℕ, zero, suc, ◌-◌, ◌/◌, ◌^◌, ◌<◌, ◌≡◌, refl, ap, ◌∙◌, Bool, true, false, ◌&&◌, ◌||◌, [], ◌∷◌,
  ◌++◌, Option, none, some, arith, ltb, leb, ◌==◌, if◌then◌else◌, min, length, Bool-cases, if_false,
  inl, inr,
}
use native.Mathlib.Nat.{pow-suc}
use nvidia_haiku.Driver.Decimal.{Text, read_digits, write_digits, read-write}

-- "graphics/nvidia" of nvidia_gsp/nvidia/nv-haiku.h.
abbrev pub device_name_prefix : Text
device_name_prefix =
    103 ∷ 114 ∷ 97 ∷ 112 ∷ 104 ∷ 105 ∷ 99 ∷ 115 ∷ 47 ∷ 110 ∷ 118 ∷ 105 ∷ 100 ∷ 105 ∷ 97 ∷ []

-- "nvidiactl".
abbrev pub control_name : Text
control_name = 110 ∷ 118 ∷ 105 ∷ 100 ∷ 105 ∷ 97 ∷ 99 ∷ 116 ∷ 108 ∷ []

-- `strcmp(...) == 0`.
abbrev pub same_text : Text → Text → Bool
same_text [] [] = true
same_text [] (d ∷ t) = false
same_text (c ∷ s) [] = false
same_text (c ∷ s) (d ∷ t) = c == d && same_text s t

-- What follows a prefix, if `strncmp` finds it at the start.
abbrev pub drop_prefix : Text → Text → Option Text
drop_prefix [] s = some s
drop_prefix (p ∷ ps) [] = none
drop_prefix (p ∷ ps) (c ∷ s) = if p == c then drop_prefix ps s else none

-- `str[0] >= '1' && str[0] <= '9'`.
abbrev pub starts_nonzero : Text → Bool
starts_nonzero [] = false
starts_nonzero (c ∷ s) = leb 49 c && leb c 57

abbrev pub long_max : ℕ
long_max = 2 ^ 63 - 1

abbrev pub uint32_max : ℕ
uint32_max = 2 ^ 32 - 1

-- `strtol` on a string that starts with a digit: it saturates.
unfoldable pub strtol : Text → ℕ × Text
unfolding read_digits
strtol s = let (value, str_end) = read_digits 0 s in (min value long_max, str_end)

-- The number and where it ends. A value that saturates is refused as one above the 32 bits is,
-- whatever `errno` holds, and none is below 0. The end is a tail of the string, so that it is the
-- start if it is as long.
unfoldable pub parse_uint32 : Text → Option (ℕ × Text)
unfolding strtol
parse_uint32 str =
    if same_text str (48 ∷ []) || starts_nonzero str
    then if length (strtol str).1 == length str
      then none
      else if ltb uint32_max (strtol str).0
      then none
      else some (strtol str)
    else none

-- `*strEnd != '\0'`.
abbrev pub at_end : ℕ × Text → Option ℕ
at_end (index, []) = some index
at_end (index, c ∷ s) = none

unfoldable pub parse_device_name : Text → Option ℕ
unfolding parse_uint32
parse_device_name name =
    Option.bind (drop_prefix device_name_prefix name) (λ str. Option.bind (parse_uint32 str) at_end)

starts_nonzero-append : (s t : Text) → starts_nonzero s ≡ true → starts_nonzero (s ++ t) ≡ true
starts_nonzero-append [] t e = absurd (ground arith)
starts_nonzero-append (c ∷ s) t e = e

-- A numeral does not start with a 0 unless it is 0.
write_digits-starts_nonzero :
    (k n : ℕ) → 0 < n → n < 10 ^ suc k → starts_nonzero (write_digits (suc k) n) ≡ true
unfolding write_digits
write_digits-starts_nonzero zero n pos h = ground (arith, h)
write_digits-starts_nonzero (suc k) n pos h = elim (Bool-cases (ltb n 10)) [
  | inl few ↦ rw (few, write_digits) (ground arith)
  | inr many ↦
      rw (many, write_digits)
        (starts_nonzero-append (write_digits (suc k) (n / 10)) _ (
          write_digits-starts_nonzero k (n / 10) (ground arith)
            (omega (arith, h, pow-suc 10 (suc k)))))
]

length-starts_nonzero : (s : Text) → starts_nonzero s ≡ true → 0 < length s
length-starts_nonzero [] e = absurd (ground arith)
length-starts_nonzero (c ∷ s) e = omega arith

or_true : (a b : Bool) → b ≡ true → (a || b) ≡ true
or_true true b e = refl
or_true false b e = e

strtol-whole :
    (str : Text) (n : ℕ) → read_digits 0 str ≡ (n, []) → n < 2 ^ 32 → strtol str ≡ (n, [])
unfolding strtol
strtol-whole str n e h =
    let low : min n long_max ≡ n = omega (arith, h) in rw (e, strtol) (ap (λ m. (m, [])) low)

-- `ParseUint32` reads the whole of a string of digits.
parse_uint32-whole :
    (str : Text) (n : ℕ)
    → (same_text str (48 ∷ []) || starts_nonzero str) ≡ true
    → 0 < length str
    → read_digits 0 str ≡ (n, [])
    → n < 2 ^ 32
    → parse_uint32 str ≡ some (n, [])
unfolding parse_uint32
parse_uint32-whole str n starts long e h =
    let all : strtol str ≡ (n, []) = strtol-whole str n e h in
    let moved : (length (strtol str).1 == length str) ≡ false =
      ap (λ r. length r.1 == length str) all ∙ ground (arith, long) in
    let low : ltb uint32_max (strtol str).0 ≡ false =
      ap (λ r. ltb uint32_max r.0) all ∙ ground (arith, h) in
    rw (starts, parse_uint32) (if_false _ _ moved ∙ if_false _ _ low ∙ ap some all)

-- `ParseUint32` reads the whole of a numeral.
pub parse_uint32-write : (n : ℕ) → n < 2 ^ 32 → parse_uint32 (write_digits 10 n) ≡ some (n, [])
unfolding write_digits read_digits
parse_uint32-write zero h = parse_uint32-whole (48 ∷ []) 0 refl (omega arith) refl h
parse_uint32-write (suc n) h =
    let first = write_digits-starts_nonzero 9 (suc n) (omega arith) (omega (arith, h)) in
    parse_uint32-whole (write_digits 10 (suc n)) (suc n)
      (or_true (same_text (write_digits 10 (suc n)) (48 ∷ [])) _ first)
      (length-starts_nonzero (write_digits 10 (suc n)) first)
      (read-write 9 (suc n) (omega (arith, h))) h

-- A name that is written for a device is read back.
pub parse_device_name-write :
    (n : ℕ) → n < 2 ^ 32 → parse_device_name (device_name_prefix ++ write_digits 10 n) ≡ some n
unfolding parse_device_name Option.bind
parse_device_name-write n h = ap (λ x. Option.bind x at_end) (parse_uint32-write n h)
