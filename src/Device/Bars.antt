-- ===== src/Device/Bars.antt =====
-- The base address registers in `NvHaikuDevice::Init` of nvidia_gsp/nvidia/Device.cpp, and
-- `NvHaikuDevice::Probe`. What the headers of the PCI bus and of the resource manager say of a
-- register's flags and of a place in the configuration space is given.
use nvidia_haiku.Prelude.{
  ℕ, zero, suc, ◌+◌, ◌-◌, ◌*◌, ◌^◌, ◌≡◌, ◌⊎◌, inl, inr, refl, sym, ap, ◌∙◌, Bool, true, false, ◌&&◌,
  ◌||◌, List, [], ◌∷◌, ◌++◌, Option, none, some, arith, ltb, ◌==◌, if◌then◌else◌, length,
  Bool-cases, if_true, if_false, length-append,
}

-- One place of `base_registers`, `base_register_sizes` and `base_register_flags`.
pub record Register : Type 0 where
  pub base : ℕ
  pub size : ℕ
  pub flags : ℕ

pub record Bar : Type 0 where
  pub offset : ℕ
  pub cpu_address : ℕ
  pub size : ℕ

pub record PciIds : Type 0 where
  pub vendor_id : ℕ
  pub class_base : ℕ
  pub class_sub : ℕ

-- The guard of `Probe`; 0x10DE is the vendor.
unfoldable pub is_supported : (display vga threed : ℕ) → PciIds → Bool
is_supported display vga threed p =
    p.vendor_id == 4318
    && (p.class_base == display && (p.class_sub == vga || p.class_sub == threed))

module _ (is_64 : ℕ → Bool) (bar_offset : ℕ → ℕ) (num_bars : ℕ) where
  -- `if (size > 0 && curNvBar < NV_GPU_NUM_BARS)`.
  unfoldable pub add_bar : Bar → List Bar → List Bar
  add_bar b bars = if ltb 0 b.size && ltb (length bars) num_bars then bars ++ b ∷ [] else bars

  abbrev pub narrow : ℕ → Register → Bar
  narrow bar r = record { offset = bar_offset bar; cpu_address = r.base; size = r.size }

  abbrev pub wide : ℕ → Register → Register → Bar
  wide bar r high = record {
    offset = bar_offset bar;
    cpu_address = r.base + high.base * 2 ^ 32;
    size = r.size + high.size * 2 ^ 32;
  }

  -- The loop from register `bar` on; nothing where it would read past the last register.
  unfoldable pub decode_bars : ℕ → List Register → List Bar → Option (List Bar)
  unfolding add_bar
  decode_bars bar [] bars = some bars
  decode_bars bar (r ∷ []) bars = if is_64 r.flags then none else some (add_bar (narrow bar r) bars)
  decode_bars bar (r ∷ q ∷ rs) bars =
      let after_pair = decode_bars (bar + 2) rs (add_bar (wide bar r q) bars) in
      let after_one = decode_bars (bar + 1) (q ∷ rs) (add_bar (narrow bar r) bars) in
      if is_64 r.flags then after_pair else after_one

  -- A register of 64 bits has its upper half after it.
  abbrev pub IsPaired : List Register → Type 0
  IsPaired [] = Unit {0}
  IsPaired (r ∷ []) = is_64 r.flags ≡ false
  IsPaired (r ∷ q ∷ rs) =
      ((is_64 r.flags ≡ true) × IsPaired rs) ⊎ ((is_64 r.flags ≡ false) × IsPaired (q ∷ rs))

  -- The regions that the registers describe, with and without a size.
  unfoldable pub regions : ℕ → List Register → List Bar
  regions bar [] = []
  regions bar (r ∷ []) = narrow bar r ∷ []
  regions bar (r ∷ q ∷ rs) =
      let after_pair = regions (bar + 2) rs in
      let after_one = regions (bar + 1) (q ∷ rs) in
      if is_64 r.flags then wide bar r q ∷ after_pair else narrow bar r ∷ after_one

  -- The first `n` of those that have a size.
  unfoldable pub first_sized : ℕ → List Bar → List Bar
  first_sized n [] = []
  first_sized zero (b ∷ bs) = []
  first_sized (suc n) (b ∷ bs) =
      if ltb 0 b.size then b ∷ first_sized n bs else first_sized (suc n) bs

  first_sized-zero : (bs : List Bar) → first_sized 0 bs ≡ []
  unfolding first_sized
  first_sized-zero [] = refl
  first_sized-zero (b ∷ bs) = refl

  append-nil : (bs : List Bar) → bs ++ [] ≡ bs
  append-nil [] = refl
  append-nil (b ∷ bs) = ap (◌∷◌ b) (append-nil bs)

  append-cons : (xs ys : List Bar) (b : Bar) → (xs ++ b ∷ []) ++ ys ≡ xs ++ b ∷ ys
  append-cons [] ys b = refl
  append-cons (x ∷ xs) ys b = ap (◌∷◌ x) (append-cons xs ys b)

  add_bar-full :
      (b : Bar) (bars : List Bar) → ltb (length bars) num_bars ≡ false → add_bar b bars ≡ bars
  unfolding add_bar
  add_bar-full b bars e = if_false _ _ (and_false (ltb 0 b.size) _ e)
    where
      and_false : (a c : Bool) → c ≡ false → (a && c) ≡ false
      and_false true c e = e
      and_false false c e = refl

  add_bar-empty : (b : Bar) (bars : List Bar) → ltb 0 b.size ≡ false → add_bar b bars ≡ bars
  unfolding add_bar
  add_bar-empty b bars e = if_false _ _ (ap (λ x. x && ltb (length bars) num_bars) e)

  add_bar-sized :
      (b : Bar) (bars : List Bar)
      → ltb 0 b.size ≡ true
      → ltb (length bars) num_bars ≡ true
      → add_bar b bars ≡ bars ++ b ∷ []
  unfolding add_bar
  add_bar-sized b bars e f = if_true _ _ (ap (λ x. x && ltb (length bars) num_bars) e ∙ f)

  -- The bars so far, and what is left to add of a list.
  abbrev then_first : List Bar → List Bar → List Bar
  then_first bars bs = bars ++ first_sized (num_bars - length bars) bs

  -- What is left to add goes on after the next region.
  add_bar-first_sized :
      (b : Bar) (bs bars : List Bar) → then_first (add_bar b bars) bs ≡ then_first bars (b ∷ bs)
  unfolding first_sized
  add_bar-first_sized b bs bars = elim (Bool-cases (ltb (length bars) num_bars)) [
    | inr full ↦
        let none_left : num_bars - length bars ≡ 0 = ground (arith, full) in
        ap (λ xs. then_first xs bs) (add_bar-full b bars full)
        ∙ ap (λ n. bars ++ first_sized n bs) none_left
        ∙ ap (λ xs. bars ++ xs) (first_sized-zero bs ∙ sym (first_sized-zero (b ∷ bs)))
        ∙ ap (λ n. bars ++ first_sized n (b ∷ bs)) (sym none_left)
    | inl room ↦
        let left : num_bars - length bars ≡ suc (num_bars - length bars - 1) =
          ground (arith, room) in
        elim (Bool-cases (ltb 0 b.size)) [
          | inr empty ↦
              ap (λ xs. then_first xs bs) (add_bar-empty b bars empty)
              ∙ ap (λ n. bars ++ first_sized n bs) left
              ∙ ap (λ xs. bars ++ xs) (sym (if_false _ _ empty))
              ∙ ap (λ n. bars ++ first_sized n (b ∷ bs)) (sym left)
          | inl sized ↦
              let grown : length (bars ++ b ∷ []) ≡ length bars + 1 = length-append bars (b ∷ []) in
              let less : num_bars - length (bars ++ b ∷ []) ≡ num_bars - length bars - 1 =
                omega (arith, grown) in
              ap (λ xs. then_first xs bs) (add_bar-sized b bars sized room)
              ∙ ap (λ n. (bars ++ b ∷ []) ++ first_sized n bs) less
              ∙ append-cons bars _ b
              ∙ ap (λ xs. bars ++ xs) (sym (if_true _ _ sized))
              ∙ ap (λ n. bars ++ first_sized n (b ∷ bs)) (sym left)
        ]
  ]

  -- If no register of 64 bits is the last one, the loop reads no register past the last, and finds
  -- the regions that have a size, in order, up to the number that there is room for.
  pub decode_bars_lem :
      (bar : ℕ) (rs : List Register) (bars : List Bar)
      → IsPaired rs
      → decode_bars bar rs bars
        ≡ some (bars ++ first_sized (num_bars - length bars) (regions bar rs))
  unfolding decode_bars regions first_sized
  decode_bars_lem bar [] bars v = ap some (sym (append-nil bars))
  decode_bars_lem bar (r ∷ []) bars v =
      if_false _ _ v
      ∙ ap some (
          sym (append-nil (add_bar (narrow bar r) bars))
          ∙ add_bar-first_sized (narrow bar r) [] bars)
  decode_bars_lem bar (r ∷ q ∷ rs) bars (inl (long, v)) =
      if_true _ _ long
      ∙ decode_bars_lem (bar + 2) rs (add_bar (wide bar r q) bars) v
      ∙ ap some (add_bar-first_sized (wide bar r q) (regions (bar + 2) rs) bars)
      ∙ ap (λ bs. some (then_first bars bs)) (sym (if_true _ _ long))
  decode_bars_lem bar (r ∷ q ∷ rs) bars (inr (short, v)) =
      if_false _ _ short
      ∙ decode_bars_lem (bar + 1) (q ∷ rs) (add_bar (narrow bar r) bars) v
      ∙ ap some (add_bar-first_sized (narrow bar r) (regions (bar + 1) (q ∷ rs)) bars)
      ∙ ap (λ bs. some (then_first bars bs)) (sym (if_false _ _ short))

  -- If the registers up to the last are paired and the last one is of 64 bits, the loop reads a
  -- register past the last one.
  pub decode_bars_past_end :
      (bar : ℕ) (rs : List Register) (last : Register) (bars : List Bar)
      → IsPaired rs
      → is_64 last.flags ≡ true
      → decode_bars bar (rs ++ last ∷ []) bars ≡ none
  unfolding decode_bars
  decode_bars_past_end bar [] last bars v long = if_true _ _ long
  decode_bars_past_end bar (r ∷ []) last bars v long = if_false _ _ v ∙ if_true _ _ long
  decode_bars_past_end bar (r ∷ q ∷ rs) last bars (inl (first, v)) long =
      if_true _ _ first
      ∙ decode_bars_past_end (bar + 2) rs last (add_bar (wide bar r q) bars) v long
  decode_bars_past_end bar (r ∷ q ∷ rs) last bars (inr (first, v)) long =
      if_false _ _ first
      ∙ decode_bars_past_end (bar + 1) (q ∷ rs) last (add_bar (narrow bar r) bars) v long
