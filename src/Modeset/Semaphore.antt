-- ===== src/Modeset/Semaphore.antt =====
-- The semaphores of nvidia_gsp/nvidia-modeset/nvkms-haiku.cpp beside those of
-- nvidia_gsp/nvidia/os-haiku.cpp, over those of the kernel: a count, 0 or more. A thread that would make
-- it less waits, so that its call is none.
use nvidia_haiku.Prelude.{
  ℕ, zero, suc, ◌+◌, ◌≤◌, ◌≡◌, ◌≢◌, ◌⊎◌, inl, inr, refl, sym, Bool, true, false, Option, none, some,
  none≢some, some-injective, arith,
}

-- The kernel's calls.
abbrev pub acquire_sem : ℕ → Option ℕ
acquire_sem zero = none
acquire_sem (suc count) = some count

abbrev pub release_sem : ℕ → Option ℕ
release_sem count = some (count + 1)

-- `nvkms_sema_alloc`: whether there is memory, and whether the kernel gives a semaphore.
unfoldable pub nvkms_sema_alloc : (memory created : Bool) → Option ℕ
nvkms_sema_alloc false created = none
nvkms_sema_alloc true false = none
nvkms_sema_alloc true true = some 0

unfoldable pub nvkms_sema_down : ℕ → Option ℕ
nvkms_sema_down count = release_sem count

unfoldable pub nvkms_sema_up : ℕ → Option ℕ
nvkms_sema_up count = acquire_sem count

unfoldable pub os_alloc_semaphore : (memory created : Bool) → ℕ → Option ℕ
os_alloc_semaphore false created initial = none
os_alloc_semaphore true false initial = none
os_alloc_semaphore true true initial = some initial

unfoldable pub os_acquire_semaphore : ℕ → Option ℕ
os_acquire_semaphore count = acquire_sem count

-- The call does not wait: false is `NV_ERR_TIMEOUT_RETRY`.
unfoldable pub os_cond_acquire_semaphore : ℕ → Bool × ℕ
os_cond_acquire_semaphore zero = (false, 0)
os_cond_acquire_semaphore (suc count) = (true, count)

unfoldable pub os_release_semaphore : ℕ → Option ℕ
os_release_semaphore count = release_sem count

-- A semaphore in use: its count, and how often it was taken and given so far.
pub record Use : Type 0 where
  pub count : ℕ
  pub taken : ℕ
  pub given : ℕ

-- Any sequence of calls that return, on a semaphore that was made with `initial`. `take` and `give` are
-- the calls that are to take it and to give it back.
pub data Reach (take give : ℕ → Option ℕ) (initial : ℕ) : Use → Type 0 where
  made : Reach take give initial (record { count = initial; taken = 0; given = 0 })
  takes :
      {u : Use} {n : ℕ}
      → Reach take give initial u
      → take u.count ≡ some n
      → Reach take give initial (record { count = n; taken = u.taken + 1; given = u.given })
  gives :
      {u : Use} {n : ℕ}
      → Reach take give initial u
      → give u.count ≡ some n
      → Reach take give initial (record { count = n; taken = u.taken; given = u.given + 1 })

acquire_sem-count : (m : ℕ) {n : ℕ} → acquire_sem m ≡ some n → m ≡ n + 1
acquire_sem-count zero e = absurd (none≢some e)
acquire_sem-count (suc m) e = omega (arith, some-injective e)

release_sem-count : (m : ℕ) {n : ℕ} → release_sem m ≡ some n → n ≡ m + 1
release_sem-count m e = sym (some-injective e)

os_counts :
    {initial : ℕ} {u : Use}
    → Reach os_acquire_semaphore os_release_semaphore initial u
    → u.count + u.taken ≡ initial + u.given
unfolding os_acquire_semaphore os_release_semaphore
os_counts made = omega arith
os_counts (takes {u} r e) = omega (arith, os_counts r, acquire_sem-count u.count e)
os_counts (gives {u} r e) = omega (arith, os_counts r, release_sem-count u.count e)

-- A semaphore of the resource manager counts. It has never been taken more often than it was made with
-- and given together. Where it has been taken as often, taking it waits and trying to fails; else
-- both take it, and leave one less.
pub os_semaphore_counts :
    {initial : ℕ} {u : Use}
    → Reach os_acquire_semaphore os_release_semaphore initial u
    → ((u.taken ≡ initial + u.given)
        × (os_acquire_semaphore u.count ≡ none)
        × (os_cond_acquire_semaphore u.count ≡ (false, u.count)))
      ⊎ ((left : ℕ) × (u.taken + 1 + left ≡ initial + u.given)
          × (os_acquire_semaphore u.count ≡ some left)
          × (os_cond_acquire_semaphore u.count ≡ (true, left)))
unfolding os_acquire_semaphore os_cond_acquire_semaphore
os_semaphore_counts {initial} {u} r = split u.count (os_counts r)
  where
    split :
        (c : ℕ)
        → c + u.taken ≡ initial + u.given
        → ((u.taken ≡ initial + u.given)
            × (os_acquire_semaphore c ≡ none)
            × (os_cond_acquire_semaphore c ≡ (false, c)))
          ⊎ ((left : ℕ) × (u.taken + 1 + left ≡ initial + u.given)
              × (os_acquire_semaphore c ≡ some left)
              × (os_cond_acquire_semaphore c ≡ (true, left)))
    split zero e = inl (omega (arith, e), refl, refl)
    split (suc c) e = inr (c, omega (arith, e), refl, refl)

nvkms_counts : {u : Use} → Reach nvkms_sema_down nvkms_sema_up 0 u → u.count + u.given ≡ u.taken
unfolding nvkms_sema_down nvkms_sema_up
nvkms_counts made = omega arith
nvkms_counts (takes {u} r e) = omega (arith, nvkms_counts r, release_sem-count u.count e)
nvkms_counts (gives {u} r e) = omega (arith, nvkms_counts r, acquire_sem-count u.count e)

-- A semaphore of the mode setting driver works the wrong way round. Whatever calls came before,
-- `nvkms_sema_down` returns at once, `nvkms_sema_up` has returned at most as often as
-- `nvkms_sema_down`, and where it has as often it waits, as on a new semaphore.
pub sema_swapped :
    {u : Use}
    → Reach nvkms_sema_down nvkms_sema_up 0 u
    → ((n : ℕ) × (nvkms_sema_down u.count ≡ some n))
      × (u.given ≤ u.taken)
      × (u.given ≢ u.taken ⊎ (nvkms_sema_up u.count ≡ none))
unfolding nvkms_sema_down nvkms_sema_up
sema_swapped {u} r =
    ((u.count + 1, refl), omega (arith, nvkms_counts r), waits u.count (nvkms_counts r))
  where
    waits : (c : ℕ) → c + u.given ≡ u.taken → u.given ≢ u.taken ⊎ (acquire_sem c ≡ none)
    waits zero e = inr refl
    waits (suc c) e = inl (λ f. absurd (omega (arith, e, f)))
