-- ===== src/Modeset/Ioctl.antt =====
-- `Control` of nvidia_gsp/nvidia-modeset/KmsDevice.cpp, and `NvKmsApi::Control` of
-- nvrm_cpp_sdk/NvKmsApi.cpp, which calls it. The library for the mode setting, and the first code of its
-- commands, are parameters.
use nvidia_haiku.Prelude.{
  ℕ, ◌+◌, ◌-◌, ◌%◌, ◌^◌, ◌<◌, ◌≡◌, ap, ◌∙◌, Bool, true, false, Option, none, some, ltb,
  if◌then◌else◌, if_false, arith,
}

pub data Status : Type 0 where
  b_ok : Status
  einval : Status
  b_dev_invalid_ioctl : Status

-- `Locker()` and what it guards.
pub record Guarded (L : Type 0) : Type 0 where
  pub locked : Bool
  pub library : L

module _ {L : Type 0} (base : ℕ) (nv_kms_ioctl : (cookie cmd : ℕ) → L → Bool × L) where
  abbrev pub answer : Bool × L → Status × Guarded L
  answer (true, l) = (b_ok, record { locked = false; library = l })
  answer (false, l) = (einval, record { locked = false; library = l })

  -- `Control`; a thread that waits for a lock that no other one gives up is none.
  unfoldable pub control : (cookie op : ℕ) → Guarded L → Option (Status × Guarded L)
  control cookie op g =
      if ltb op base
      then some (b_dev_invalid_ioctl, g)
      else if g.locked
      then none
      else some (answer (nv_kms_ioctl cookie (op - base) g.library))

  -- `NvKmsApi::Control`.
  unfoldable pub api_control : (cookie cmd : ℕ) → Guarded L → Option (Status × Guarded L)
  unfolding control
  api_control cookie cmd g = control cookie ((base + cmd) % 2 ^ 32) g

  -- A command from the SDK reaches the library as it is, where its code does not pass 2 ^ 32 and the lock
  -- is free, and its answer is the status; the lock is free after it.
  pub api_control-reaches :
      (cookie cmd : ℕ) (l : L)
      → base + cmd < 2 ^ 32
      → api_control cookie cmd (record { locked = false; library = l })
        ≡ some (answer (nv_kms_ioctl cookie cmd l))
  unfolding api_control control
  api_control-reaches cookie cmd l fits =
      if_false _ _ above ∙ ap (λ (n : ℕ). some (answer (nv_kms_ioctl cookie n l))) back
    where
      above : ltb ((base + cmd) % 2 ^ 32) base ≡ false
      above =
          let e : (base + cmd) % 2 ^ 32 ≡ base + cmd = omega (arith, fits) in
          ap (λ (n : ℕ). ltb n base) e ∙ ground arith

      back : (base + cmd) % 2 ^ 32 - base ≡ cmd
      back = omega (arith, fits)
