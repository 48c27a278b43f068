-- ===== src/Os/Copy.antt =====
-- The copies between the kernel and a process: os_memcpy_to_user and os_memcpy_from_user of
-- nvidia_gsp/nvidia/os-haiku.cpp, and nvkms_copyin and nvkms_copyout of nvidia-modeset/nvkms-haiku.cpp. Which
-- addresses are the user's and which the kernel's, and the copy itself, are parameters.
use nvidia_haiku.Prelude.{ℕ, ◌≡◌, refl, Bool, true, false, not, ◌&&◌, ◌||◌, if◌then◌else◌}

pub data NvStatus : Type 0 where
  nv_ok : NvStatus
  nv_err_invalid_address : NvStatus

pub data Status : Type 0 where
  b_ok : Status
  b_bad_value : Status
  failed : ℕ → Status

-- `user_memcpy(to, from, n)` on the memory.
pub record Kernel (M : Type 0) : Type 0 where
  pub is_user_address : ℕ → Bool
  pub is_kernel_address : ℕ → Bool
  pub user_memcpy : (to from n : ℕ) → M → Status × M

-- `status < B_OK ? NV_ERR_INVALID_ADDRESS : NV_OK`.
abbrev pub to_nv_status : {M : Type 0} → Status × M → NvStatus × M
to_nv_status (b_ok, m) = (nv_ok, m)
to_nv_status (b_bad_value, m) = (nv_err_invalid_address, m)
to_nv_status (failed n, m) = (nv_err_invalid_address, m)

module _ {M : Type 0} (k : Kernel M) where
  unfoldable pub os_memcpy_to_user : (to from n : ℕ) → M → NvStatus × M
  os_memcpy_to_user to from n m =
      if not (k.is_user_address to) || not (k.is_kernel_address from)
      then (nv_err_invalid_address, m)
      else to_nv_status (k.user_memcpy to from n m)

  unfoldable pub os_memcpy_from_user : (to from n : ℕ) → M → NvStatus × M
  os_memcpy_from_user to from n m =
      if not (k.is_kernel_address to) || not (k.is_user_address from)
      then (nv_err_invalid_address, m)
      else to_nv_status (k.user_memcpy to from n m)

  unfoldable pub nvkms_copyin : (kptr uaddr n : ℕ) → M → Status × M
  nvkms_copyin kptr uaddr n m =
      if not (k.is_kernel_address kptr && k.is_user_address uaddr)
      then (b_bad_value, m)
      else k.user_memcpy kptr uaddr n m

  unfoldable pub nvkms_copyout : (uaddr kptr n : ℕ) → M → Status × M
  nvkms_copyout uaddr kptr n m =
      if not (k.is_user_address uaddr && k.is_kernel_address kptr)
      then (b_bad_value, m)
      else k.user_memcpy uaddr kptr n m

  checks_agree :
      (a b : Bool) (r : Status × M) (m : M)
      → (if not a || not b then (nv_err_invalid_address, m) else to_nv_status r)
        ≡ to_nv_status (if not (a && b) then (b_bad_value, m) else r)
  checks_agree true true r m = refl
  checks_agree true false r m = refl
  checks_agree false b r m = refl

  -- The resource manager's copies and those of the mode setting do the same: they accept the same
  -- addresses, give an error in the same cases, and leave the same memory.
  pub copies_agree :
      (to from n : ℕ) (m : M)
      → (os_memcpy_to_user to from n m ≡ to_nv_status (nvkms_copyout to from n m))
        × (os_memcpy_from_user to from n m ≡ to_nv_status (nvkms_copyin to from n m))
  unfolding os_memcpy_to_user os_memcpy_from_user nvkms_copyin nvkms_copyout
  copies_agree to from n m = (
    checks_agree (k.is_user_address to) (k.is_kernel_address from) (k.user_memcpy to from n m) m,
    checks_agree (k.is_kernel_address to) (k.is_user_address from) (k.user_memcpy to from n m) m,
  )
