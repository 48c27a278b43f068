-- ===== src/Device/Gpus.antt =====
-- `nvidia_module_open_gpu` and `nvidia_module_close_gpu` of nvidia_gsp/nvidia/NvidiaModule.cpp, on
-- the devices of the driver in order.
use nvidia_haiku.Prelude.{
  ℕ, ◌+◌, ◌-◌, ◌%◌, ◌^◌, ◌<◌, ◌≡◌, refl, sym, ap, ◌∙◌, Bool, true, false, List, [], ◌∷◌, ◌==◌, ltb,
  if◌then◌else◌, arith, Bool-cases, if_true, if_false, inl, inr,
}
use nvidia_haiku.Device.{
  Device, Answers, Status, b_ok, b_error, b_io_error, b_no_memory, enodev, start, stop, settle,
  acquire_ref, release_ref, count_up, count_down,
}

pub record Gpu : Type 0 where
  pub gpu_id : ℕ
  pub device : Device

-- `!(res < B_OK)`.
abbrev pub succeeded : Status → Bool
succeeded b_ok = true
succeeded b_error = false
succeeded b_io_error = false
succeeded b_no_memory = false
succeeded enodev = false

unfoldable pub open_gpu : Answers → ℕ → List Gpu → Bool × List Gpu
unfolding acquire_ref
open_gpu a gpu_id [] = (false, [])
open_gpu a gpu_id (g ∷ gs) =
    let rest = open_gpu a gpu_id gs in
    let (status, device) = acquire_ref a g.device in
    if g.gpu_id == gpu_id
    then (succeeded status, record g { device = device } ∷ gs)
    else (rest.0, g ∷ rest.1)

unfoldable pub close_gpu : ℕ → List Gpu → List Gpu
unfolding release_ref
close_gpu gpu_id [] = []
close_gpu gpu_id (g ∷ gs) =
    let rest = close_gpu gpu_id gs in
    if g.gpu_id == gpu_id then record g { device = release_ref g.device } ∷ gs else g ∷ rest

abbrev pub counts : List Gpu → List ℕ
counts [] = []
counts (g ∷ gs) = g.device.open_count ∷ counts gs

-- Memory bounds the references that are taken.
abbrev pub FewRefs : List Gpu → Type 0
FewRefs [] = Unit {0}
FewRefs (g ∷ gs) = (g.device.open_count + 1 < 2 ^ 32) × FewRefs gs

start-count : (a : Answers) (d : Device) → (start a d).1.open_count ≡ d.open_count
unfolding start
start-count a d = elim (Bool-cases (ltb a.msi_count 1)) [
  | inl q ↦ rw (q, start) refl
  | inr q ↦ elim (Bool-cases a.init_adapter) [
    | inl u ↦ rw (q, start) (rw u refl)
    | inr u ↦ rw (q, start) (rw u refl)
  ]
]

stop-count : (d : Device) → (stop d).open_count ≡ d.open_count
unfolding stop
stop-count d = elim (Bool-cases (d.irq == 0)) [
  | inl q ↦ rw (q, stop) refl
  | inr q ↦ rw (q, stop) refl
]

settle-count :
    (r : Status × Device)
    → (settle r).1.open_count
      ≡ (if succeeded r.0 then r.1.open_count else (r.1.open_count + (2 ^ 32 - 1)) % 2 ^ 32)
settle-count (b_ok, d) = refl
settle-count (b_error, d) = refl
settle-count (b_io_error, d) = refl
settle-count (b_no_memory, d) = refl
settle-count (enodev, d) = refl

settle-succeeded : (r : Status × Device) → succeeded (settle r).0 ≡ succeeded r.0
settle-succeeded (b_ok, d) = refl
settle-succeeded (b_error, d) = refl
settle-succeeded (b_io_error, d) = refl
settle-succeeded (b_no_memory, d) = refl
settle-succeeded (enodev, d) = refl

-- A reference that is taken counts one more, and one that is refused leaves the count.
acquire_ref-count :
    (a : Answers) (d : Device)
    → d.open_count + 1 < 2 ^ 32
    → (acquire_ref a d).1.open_count
      ≡ (if succeeded (acquire_ref a d).0 then d.open_count + 1 else d.open_count)
unfolding acquire_ref
acquire_ref-count a d few = elim (Bool-cases (d.open_count == 0)) [
  | inr q ↦ rw (q, acquire_ref) (omega (arith, few))
  | inl q ↦
      let begun : (start a (count_up d)).1.open_count ≡ d.open_count + 1 =
        start-count a (count_up d) ∙ omega (arith, few) in
      rw (q, acquire_ref)
        (settle-count (start a (count_up d))
          ∙ elim (Bool-cases (succeeded (start a (count_up d)).0)) [
            | inl ok ↦
                if_true _ _ ok
                ∙ begun
                ∙ sym (if_true _ _ (settle-succeeded (start a (count_up d)) ∙ ok))
            | inr bad ↦
                if_false _ _ bad
                ∙ omega (arith, begun, few)
                ∙ sym (if_false _ _ (settle-succeeded (start a (count_up d)) ∙ bad))
          ])
]

release_ref-count :
    (d : Device) → (release_ref d).open_count ≡ (d.open_count + (2 ^ 32 - 1)) % 2 ^ 32
unfolding release_ref
release_ref-count d = elim (Bool-cases (d.open_count == 1)) [
  | inl q ↦ rw (q, release_ref) (stop-count (count_down d))
  | inr q ↦ rw (q, release_ref) refl
]

-- `close_gpu` after an `open_gpu` that succeeded.
abbrev pub settled : ℕ → Bool × List Gpu → List Gpu
unfolding close_gpu
settled gpu_id r = if r.0 then close_gpu gpu_id r.1 else r.1

settled-match :
    (a : Answers) (gpu_id : ℕ) (g : Gpu) (gs : List Gpu)
    → (g.gpu_id == gpu_id) ≡ true
    → g.device.open_count + 1 < 2 ^ 32
    → (ok : Bool) → succeeded (acquire_ref a g.device).0 ≡ ok
    → counts (settled gpu_id (ok, record g { device = (acquire_ref a g.device).1 } ∷ gs))
      ≡ counts (g ∷ gs)
unfolding settled close_gpu
settled-match a gpu_id g gs q few true e =
    ap counts (if_true _ _ q)
    ∙ ap (λ c. c ∷ counts gs)
        (release_ref-count (acquire_ref a g.device).1
          ∙ ap (λ c. (c + (2 ^ 32 - 1)) % 2 ^ 32) (acquire_ref-count a g.device few ∙ if_true _ _ e)
          ∙ omega (arith, few))
settled-match a gpu_id g gs q few false e =
    ap (λ c. c ∷ counts gs) (acquire_ref-count a g.device few ∙ if_false _ _ e)

settled-other :
    (gpu_id : ℕ) (g : Gpu) (gs : List Gpu) (r : Bool × List Gpu)
    → (g.gpu_id == gpu_id) ≡ false
    → counts (settled gpu_id r) ≡ counts gs
    → counts (settled gpu_id (r.0, g ∷ r.1)) ≡ counts (g ∷ gs)
unfolding settled close_gpu
settled-other gpu_id g gs (true, rs) q e =
    ap counts (if_false _ _ q) ∙ ap (λ cs. g.device.open_count ∷ cs) e
settled-other gpu_id g gs (false, rs) q e = ap (λ cs. g.device.open_count ∷ cs) e

-- If `open_gpu` succeeds, `close_gpu` for the same GPU brings back the open count of every device,
-- and if it fails it has changed none, where the counts are below 2^32 - 1 before.
pub close-open_gpu :
    (a : Answers) (gpu_id : ℕ) (gpus : List Gpu)
    → FewRefs gpus
    → counts (settled gpu_id (open_gpu a gpu_id gpus)) ≡ counts gpus
unfolding open_gpu settled
close-open_gpu a gpu_id [] few = refl
close-open_gpu a gpu_id (g ∷ gs) few = elim (Bool-cases (g.gpu_id == gpu_id)) [
  | inl q ↦
      ap (λ r. counts (settled gpu_id r)) (if_true _ _ q)
      ∙ settled-match a gpu_id g gs q few.0 (succeeded (acquire_ref a g.device).0) refl
  | inr q ↦
      ap (λ r. counts (settled gpu_id r)) (if_false _ _ q)
      ∙ settled-other gpu_id g gs (open_gpu a gpu_id gs) q (close-open_gpu a gpu_id gs few.1)
]
