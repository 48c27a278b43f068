-- ===== src/Sdk/Retry.antt =====
-- `NvRmIoctl` of nvrm_cpp_sdk/NvRmApi.cpp: the loop around `ioctl`. The file and its state are
-- parameters: `ioctl` takes a state to what the call gives and the state after it.
use nvidia_haiku.Prelude.{
  ℕ, zero, suc, ◌+◌, ◌<◌, ◌≤◌, ◌≡◌, ◌⊎◌, inl, inr, refl, ap, ◌∙◌, Bool, true, false, Option, none,
  some, if◌then◌else◌, if_true, if_false, arith,
}

pub data Errno : Type 0 where
  eintr : Errno
  eagain : Errno
  other : ℕ → Errno

pub data Reply : Type 0 where
  returned : ℕ → Reply
  failed : Errno → Reply

-- The condition of the loop.
abbrev pub is_interrupted : Reply → Bool
is_interrupted (returned n) = false
is_interrupted (failed eintr) = true
is_interrupted (failed eagain) = true
is_interrupted (failed (other n)) = false

-- `NvRmIoctl`, on fuel for the turns of the loop.
unfoldable pub nv_rm_ioctl : {K : Type 0} → (K → Reply × K) → ℕ → K → Option (Reply × K)
nv_rm_ioctl ioctl zero k = none
nv_rm_ioctl ioctl (suc fuel) k =
    let again = nv_rm_ioctl ioctl fuel (ioctl k).1 in
    if is_interrupted (ioctl k).0 then again else some (ioctl k)

-- The state after `n` calls.
unfoldable pub after : {K : Type 0} → (K → Reply × K) → ℕ → K → K
after ioctl zero k = k
after ioctl (suc n) k = after ioctl n (ioctl k).1

one_more : (spare : ℕ) → 1 + spare ≡ suc spare
one_more spare = omega arith

still_in_loop :
    {K : Type 0} (ioctl : K → Reply × K) (m n : ℕ) (k : K)
    → ((i : ℕ) → i < n → is_interrupted (ioctl (after ioctl i k)).0 ≡ true)
    → m ≤ n
    → nv_rm_ioctl ioctl m k ≡ none
unfolding nv_rm_ioctl after
still_in_loop ioctl zero n k before below = refl
still_in_loop ioctl (suc m) zero k before below = absurd (omega (arith, below))
still_in_loop ioctl (suc m) (suc n) k before below =
    if_true _ _ (before 0 (omega arith))
    ∙ still_in_loop ioctl m n (ioctl k).1 (λ i h. before (suc i) (omega (arith, h)))
        (omega (arith, below))

out_of_loop :
    {K : Type 0} (ioctl : K → Reply × K) (n spare : ℕ) (k : K)
    → ((i : ℕ) → i < n → is_interrupted (ioctl (after ioctl i k)).0 ≡ true)
    → is_interrupted (ioctl (after ioctl n k)).0 ≡ false
    → nv_rm_ioctl ioctl (n + 1 + spare) k ≡ some (ioctl (after ioctl n k))
unfolding nv_rm_ioctl after
out_of_loop ioctl zero spare k before e =
    ap (λ (fuel : ℕ). nv_rm_ioctl ioctl fuel k) (one_more spare) ∙ if_false _ _ e
out_of_loop ioctl (suc n) spare k before e =
    let fuel_left : suc n + 1 + spare ≡ suc (n + 1 + spare) = omega arith in
    ap (λ (fuel : ℕ). nv_rm_ioctl ioctl fuel k) fuel_left
    ∙ if_true _ _ (before 0 (omega arith))
    ∙ out_of_loop ioctl n spare (ioctl k).1 (λ i below. before (suc i) (omega (arith, below))) e

-- A reply after which the call is made again, and one that is the answer.
abbrev pub IsTransient : Reply → Type 0
IsTransient reply = (reply ≡ failed eintr) ⊎ (reply ≡ failed eagain)

abbrev pub IsFinal : Reply → Type 0
IsFinal reply = ((r : ℕ) × (reply ≡ returned r)) ⊎ ((e : ℕ) × (reply ≡ failed (other e)))

transient_again : {reply : Reply} → IsTransient reply → is_interrupted reply ≡ true
transient_again (inl e) = ap is_interrupted e
transient_again (inr e) = ap is_interrupted e

final_ends : {reply : Reply} → IsFinal reply → is_interrupted reply ≡ false
final_ends (inl (r, e)) = ap is_interrupted e
final_ends (inr (n, e)) = ap is_interrupted e

-- If the first `n` calls fail with EINTR or EAGAIN, each in either way, and the call after them returns
-- or fails with another error, what that call gives is what the loop gives, on any fuel above `n`; on
-- any fuel up to `n` the loop still runs.
pub nv_rm_ioctl-first :
    {K : Type 0} (ioctl : K → Reply × K) (n spare less : ℕ) (k : K)
    → ((i : ℕ) → i < n → IsTransient (ioctl (after ioctl i k)).0)
    → IsFinal (ioctl (after ioctl n k)).0
    → less ≤ n
    → (nv_rm_ioctl ioctl (n + 1 + spare) k ≡ some (ioctl (after ioctl n k)))
      × (nv_rm_ioctl ioctl less k ≡ none)
nv_rm_ioctl-first ioctl n spare less k before last h = (
  out_of_loop ioctl n spare k (λ i below. transient_again (before i below)) (final_ends last),
  still_in_loop ioctl less n k (λ i below. transient_again (before i below)) h,
)

-- A call that is always interrupted never returns.
pub nv_rm_ioctl-stuck :
    {K : Type 0} (ioctl : K → Reply × K) (fuel : ℕ) (k : K)
    → ((i : ℕ) → is_interrupted (ioctl (after ioctl i k)).0 ≡ true)
    → nv_rm_ioctl ioctl fuel k ≡ none
unfolding nv_rm_ioctl after
nv_rm_ioctl-stuck ioctl zero k e = refl
nv_rm_ioctl-stuck ioctl (suc fuel) k e =
    if_true _ _ (e 0) ∙ nv_rm_ioctl-stuck ioctl fuel (ioctl k).1 (λ i. e (suc i))
