-- ===== src/Driver/Canonical.antt =====
-- A name that nvidia_gsp/nvidia/Driver.cpp parses is the one that it writes: no number has two names.
use native.Mathlib.Nat.{pow-suc}
use nvidia_haiku.Prelude.{
  ℕ, zero, suc, ◌+◌, ◌-◌, ◌*◌, ◌/◌, ◌%◌, ◌^◌, ◌≤◌, ◌<◌, ◌≡◌, refl, sym, ap, ◌∙◌, subst, Bool, true,
  false, ◌||◌, [], ◌∷◌, ◌++◌, none, some, none≢some, some-injective, bind-cases, arith, ltb, ◌==◌,
  if◌then◌else◌, min, length, Bool-cases, if_true, if_false, inl, inr,
}
use nvidia_haiku.Driver.Decimal.{Text, digit, is_digit, read_digits, write_digits}
use nvidia_haiku.Driver.Parse.{
  device_name_prefix, drop_prefix, starts_nonzero, same_text, uint32_max, long_max, strtol,
  parse_uint32, at_end, parse_device_name,
}

append-nil : (s : Text) → s ++ [] ≡ s
append-nil [] = refl
append-nil (c ∷ s) = ap (◌∷◌ c) (append-nil s)

append_assoc : (s t u : Text) → (s ++ t) ++ u ≡ s ++ (t ++ u)
append_assoc [] t u = refl
append_assoc (c ∷ s) t u = ap (◌∷◌ c) (append_assoc s t u)

-- More digits than are needed are not written.
write_digits-fuel :
    (j k n : ℕ) → n < 10 ^ suc j → n < 10 ^ suc k → write_digits (suc j) n ≡ write_digits (suc k) n
unfolding write_digits
write_digits-fuel zero zero n h g = refl
write_digits-fuel zero (suc k) n h g = ground (arith, h)
write_digits-fuel (suc j) zero n h g = ground (arith, g)
write_digits-fuel (suc j) (suc k) n h g =
    let same : write_digits (suc j) (n / 10) ≡ write_digits (suc k) (n / 10) =
      write_digits-fuel j k (n / 10) (omega (arith, h, pow-suc 10 (suc j)))
        (omega (arith, g, pow-suc 10 (suc k))) in
    ap (λ rest. if ltb n 10 then digit n ∷ [] else rest ++ digit (n % 10) ∷ []) same

write_digits-step :
    (k a : ℕ) → 10 ≤ a → write_digits (suc k) a ≡ write_digits k (a / 10) ++ digit (a % 10) ∷ []
unfolding write_digits
write_digits-step k a h = let many : ltb a 10 ≡ false = ground (arith, h) in if_false _ _ many

-- One more digit is written at the end.
write_digits-snoc :
    (k n c : ℕ)
    → 0 < n
    → n < 10 ^ suc k
    → is_digit c ≡ true
    → write_digits (suc (suc k)) (n * 10 + (c - 48)) ≡ write_digits (suc k) n ++ c ∷ []
write_digits-snoc k n c pos h e =
    let least : 48 ≤ c = ground (arith, e) in
    let most : c ≤ 57 = ground (arith, e) in
    let front : (n * 10 + (c - 48)) / 10 ≡ n = omega (arith, least, most) in
    let last : digit ((n * 10 + (c - 48)) % 10) ≡ c = omega (arith, least, most) in
    write_digits-step (suc k) (n * 10 + (c - 48)) (omega (arith, pos)) ∙ rw (front, last) refl

-- The digits that were read before, and those that are read now, are those of the number.
write-read :
    (s : Text) (k m n : ℕ)
    → 0 < m
    → m < 10 ^ suc k
    → read_digits m s ≡ (n, [])
    → (j : ℕ) × (n < 10 ^ suc j) × (write_digits (suc j) n ≡ write_digits (suc k) m ++ s)
unfolding read_digits
write-read [] k m n pos h e =
    let same : m ≡ n = ap (λ r. r.0) e in
    (
      k,
      subst (λ n. n < 10 ^ suc k) same h,
      subst (λ n. write_digits (suc k) n ≡ write_digits (suc k) m ++ []) same (sym (append-nil _)),
    )
write-read (c ∷ s) k m n pos h e = elim (Bool-cases (is_digit c)) [
  | inl d ↦
      let (j, g, w) =
        write-read s (suc k) (m * 10 + (c - 48)) n (omega (arith, pos)) (shifted d)
          (sym (if_true _ _ d) ∙ e) in
      (
        j,
        g,
        w
            ∙ ap (λ t. t ++ s) (write_digits-snoc k m c pos h d)
            ∙ append_assoc (write_digits (suc k) m) (c ∷ []) s,
      )
  | inr d ↦ absurd (cons≢nil (ap (λ r. r.1) (sym (if_false _ _ d) ∙ e)))
]
  where
    cons≢nil : c ∷ s ≡ [] → ⊥
    cons≢nil e = cc

    shifted : is_digit c ≡ true → m * 10 + (c - 48) < 10 ^ suc (suc k)
    shifted d = let most : c ≤ 57 = ground (arith, d) in omega (arith, h, most, pow-suc 10 (suc k))

drop_prefix-some : (p s t : Text) → drop_prefix p s ≡ some t → s ≡ p ++ t
drop_prefix-some [] s t e = some-injective e
drop_prefix-some (c ∷ p) [] t e = absurd (none≢some e)
drop_prefix-some (c ∷ p) (d ∷ s) t e = elim (Bool-cases (c == d)) [
  | inl q ↦
      let same : d ≡ c = ground (arith, q) in
      rw (same, drop_prefix-some p s t (sym (if_true _ _ q) ∙ e)) refl
  | inr q ↦ absurd (none≢some (sym (if_false _ _ q) ∙ e))
]

-- What is read from a string that starts with another digit than 0 is written as that string.
write-read_nonzero :
    (str : Text) (n : ℕ)
    → starts_nonzero str ≡ true
    → read_digits 0 str ≡ (n, [])
    → n < 2 ^ 32
    → str ≡ write_digits 10 n
unfolding read_digits write_digits
write-read_nonzero [] n first e h = absurd (ground arith)
write-read_nonzero (c ∷ s) n first e h =
    let d : is_digit c ≡ true = ground (arith, first) in
    let low : 0 + (c - 48) < 10 ^ 1 = ground (arith, first) in
    let pos : 0 < 0 + (c - 48) = ground (arith, first) in
    let (j, g, w) = write-read s 0 (0 + (c - 48)) n pos low (sym (if_true _ _ d) ∙ e) in
    let one : write_digits 1 (0 + (c - 48)) ≡ c ∷ [] = ground (arith, first) in
    sym (ap (λ t. t ++ s) one) ∙ sym w ∙ write_digits-fuel j 9 n g (omega (arith, h))

pub same_text-eq : (s t : Text) → same_text s t ≡ true → s ≡ t
same_text-eq [] [] e = refl
same_text-eq [] (d ∷ t) e = absurd (ground arith)
same_text-eq (c ∷ s) [] e = absurd (ground arith)
same_text-eq (c ∷ s) (d ∷ t) e =
    let same : c ≡ d = ground (arith, e) in
    let rest : same_text s t ≡ true = ground (arith, e) in rw (same, same_text-eq s t rest) refl

or_false : (a b : Bool) → a ≡ false → (a || b) ≡ true → b ≡ true
or_false true b e h = cc
or_false false b e h = h

-- What is left after the checks on the number and the end.
past_checks :
    (str : Text) (n : ℕ)
    → (if length (strtol str).1 == length str
        then none
        else if ltb uint32_max (strtol str).0
        then none
        else some (strtol str))
      ≡ some (n, [])
    → (n < 2 ^ 32) × (read_digits 0 str ≡ (n, []))
unfolding strtol
past_checks str n e = elim (Bool-cases (length (strtol str).1 == length str)) [
  | inl q ↦ absurd (none≢some (sym (if_true _ _ q) ∙ e))
  | inr q ↦
      let e' = sym (if_false _ _ q) ∙ e in
      elim (Bool-cases (ltb uint32_max (strtol str).0)) [
        | inl g ↦ absurd (none≢some (sym (if_true _ _ g) ∙ e'))
        | inr g ↦
            let all : strtol str ≡ (n, []) = some-injective (sym (if_false _ _ g) ∙ e') in
            let value : min (read_digits 0 str).0 long_max ≡ n = ap (λ r. r.0) all in
            let few : min (read_digits 0 str).0 long_max ≤ uint32_max = ground (arith, g) in
            let exact : (read_digits 0 str).0 ≡ n = omega (arith, value, few) in
            let rest : (read_digits 0 str).1 ≡ [] = ap (λ r. r.1) all in
            (omega (arith, value, few), λ i. (exact i, rest i))
      ]
]

-- A string that `ParseUint32` reads to its end is the numeral of what it reads.
parse_uint32-canonical :
    (str : Text) (n : ℕ)
    → parse_uint32 str ≡ some (n, [])
    → (n < 2 ^ 32) × (str ≡ write_digits 10 n)
unfolding parse_uint32 strtol read_digits write_digits
parse_uint32-canonical str n e = elim (Bool-cases (same_text str (48 ∷ []) || starts_nonzero str)) [
  | inr q ↦ absurd (none≢some (sym (if_false _ _ q) ∙ e))
  | inl q ↦
      let (low, all) = past_checks str n (sym (if_true _ _ q) ∙ e) in
      (
        low,
        elim (Bool-cases (same_text str (48 ∷ []))) [
          | inl zero_text ↦
              let same = same_text-eq str (48 ∷ []) zero_text in
              let none_read : 0 ≡ n =
                subst (λ s. (read_digits 0 s).0 ≡ n) same (ap (λ r. r.0) all) in
              same ∙ ap (write_digits 10) none_read
          | inr other ↦ write-read_nonzero str n (or_false _ _ other q) all low
        ],
      )
]

-- A name that `ParseDeviceName` accepts is the one that is written for what it gives.
pub parse_device_name-canonical :
    (name : Text) (n : ℕ)
    → parse_device_name name ≡ some n
    → (n < 2 ^ 32) × (name ≡ device_name_prefix ++ write_digits 10 n)
unfolding parse_device_name
parse_device_name-canonical name n e =
    let (str, a, f) = bind-cases (drop_prefix device_name_prefix name) _ e in
    let ((m, s), b, g) = bind-cases (parse_uint32 str) at_end f in
    let all : ◌≡◌ {A = ℕ × Text} (m, s) (n, []) = at_end-some m s n g in
    let (low, text) = parse_uint32-canonical str n (b ∙ ap some all) in
    (low, drop_prefix-some device_name_prefix name str a ∙ ap (λ t. device_name_prefix ++ t) text)
  where
    at_end-some :
        (m : ℕ) (s : Text) (n : ℕ) → at_end (m, s) ≡ some n → ◌≡◌ {A = ℕ × Text} (m, s) (n, [])
    at_end-some m [] n e = ap (λ k. (k, [])) (some-injective e)
    at_end-some m (c ∷ s) n e = absurd (none≢some e)
