-- ===== src/Accelerant/Hooks/Caught.antt =====
-- What the hooks of accelerant/Accelerant.cpp tell the app server of the methods behind them.
use nvidia_haiku.Prelude.{
  ◌^◌, ◌-◌, ap, sym, arith, ◌⊎◌, inl, inr, ℕ, ◌≡◌, ◌≢◌, refl, Option, none, some,
}
use nvidia_haiku.Sdk.Calls.{Error, errno, nv_status}
use nvidia_haiku.Accelerant.Hooks.{
  Feature, init_accelerant, accelerant_clone_info_size, get_accelerant_clone_info, clone_accelerant,
  uninit_accelerant, get_accelerant_device_info, accelerant_mode_count, get_mode_list,
  propose_display_mode, set_display_mode, get_display_mode, get_frame_buffer_config,
  get_pixel_clock_limits, dpms_capabilities, dpms_mode, set_dpms_mode, get_preferred_display_mode,
  get_edid_info, other, Ended, returned, threw, threw_other, Methods, Given, b_error, status,
  number, nothing, escapes, to_error_code, status_hook, own_status_hook, number_hook, void_hook,
  bare_number_hook, bare_void_hook, b_dpms_on, get_accelerant_hook,
}

-- The method behind a hook.
abbrev pub method : {S : Type 0} → Methods S → Feature → S → Ended × S
method m init_accelerant = m.init
method m accelerant_clone_info_size = m.clone_info_size
method m get_accelerant_clone_info = m.get_clone_info
method m clone_accelerant = m.clone
method m uninit_accelerant = m.uninit
method m get_accelerant_device_info = m.get_device_info
method m accelerant_mode_count = m.mode_count
method m get_mode_list = m.get_mode_list
method m propose_display_mode = m.propose_mode
method m set_display_mode = m.set_display_mode
method m get_display_mode = m.get_display_mode
method m get_frame_buffer_config = m.get_frame_buffer_config
method m get_pixel_clock_limits = m.get_pixel_clock_limits
method m dpms_capabilities = m.dpms_capabilities
method m dpms_mode = m.dpms_mode
method m set_dpms_mode = m.set_dpms_mode
method m get_preferred_display_mode = m.get_preferred_display_mode
method m get_edid_info = m.get_edid_info
method m (other n) = λ s. (threw_other, s)

-- What the app server is told where the method returned `n`: the status of `ProposeMode` is its own,
-- the counts, the modes of DPMS and the size are numbers, two functions give nothing, and the others
-- say B_OK.
abbrev pub answer : Feature → ℕ → Given
answer propose_display_mode n = status n
answer accelerant_clone_info_size n = number n
answer accelerant_mode_count n = number n
answer dpms_capabilities n = number n
answer dpms_mode n = number n
answer get_accelerant_clone_info n = nothing
answer uninit_accelerant n = nothing
answer f n = status 0

-- What it is told where the method threw an error: no mode, no capability, a display that is on, nothing,
-- or the error.
abbrev pub failure : Feature → Error → Given
failure accelerant_mode_count error = number 0
failure dpms_capabilities error = number 0
failure dpms_mode error = number 1
failure uninit_accelerant error = nothing
failure f (errno n) = status n
failure f (nv_status n) = status (2 ^ 32 - 1)

-- That a call of a hook leaves the state as its method does, and that the method returned and the hook
-- gives the answer, or it threw an error of the system, which the hook neither lets out nor tells as
-- B_OK, or it threw another exception, which leaves the hook.
pub record IsCaught {S : Type 0} (give : ℕ → Given) (fail : Error → Given) (hook : Given × S)
    (ended : Ended × S) : Type 0 where
  pub state : hook.1 ≡ ended.1
  pub told :
      ((n : ℕ) × (ended.0 ≡ returned n) × (hook.0 ≡ give n))
      ⊎ (((error : Error) × (ended.0 ≡ threw error)
            × (hook.0 ≡ fail error)
            × (hook.0 ≢ escapes)
            × (hook.0 ≢ status 0))
          ⊎ ((ended.0 ≡ threw_other) × (hook.0 ≡ escapes)))

module _ {S : Type 0} (give : ℕ → Given) (fail : Error → Given) where
  by_return : (n : ℕ) (s : S) → IsCaught give fail (give n, s) (returned n, s)
  by_return n s = record { state = refl; told = inl (n, refl, refl) }

  by_error :
      (error : Error) (s : S)
      → fail error ≢ escapes
      → fail error ≢ status 0
      → IsCaught give fail (fail error, s) (threw error, s)
  by_error error s stays fails = record {
    state = refl;
    told = inr (inl (error, refl, refl, stays, fails));
  }

  by_other : (s : S) → IsCaught give fail (escapes, s) (threw_other, s)
  by_other s = record { state = refl; told = inr (inr (refl, refl)) }

-- The number of a status.
abbrev number_of : Given → ℕ
number_of (status n) = n
number_of (number n) = n
number_of nothing = 0
number_of escapes = 0

-- That an error is told by its number: an error of the resource manager as B_ERROR.
abbrev pub IsCode : (Error → Given) → Type 0
IsCode fail =
    ((n : ℕ) → fail (errno n) ≡ status n) × ((n : ℕ) → fail (nv_status n) ≡ status (2 ^ 32 - 1))

module _ {S : Type 0} (give : ℕ → Given) (fail : Error → Given) (tells : IsCode fail) where
  by_code :
      (error : Error) (s : S)
      → threw error ≢ threw (errno 0)
      → IsCaught give fail (status (to_error_code error), s) (threw error, s)
  by_code (errno n) s h = record {
    state = refl;
    told = inr (
        inl (
          errno n,
          refl,
          sym (tells.0 n),
          λ e. cc,
          λ e. h (ap (λ (x : ℕ). threw (errno x)) (ap number_of e)),
        ));
  }
  by_code (nv_status n) s h = record {
    state = refl;
    told = inr (inl (nv_status n, refl, sym (tells.1 n), λ e. cc, λ e. b_error≢0 (ap number_of e)));
  }
    where
      b_error≢0 : b_error ≡ 0 → ⊥
      b_error≢0 e = omega (arith, e)

module _ {S : Type 0} where
  status_hook-IsCaught :
      (fail : Error → Given) (tells : IsCode fail) (ended : Ended × S)
      → ended.0 ≢ threw (errno 0)
      → IsCaught (λ n. status 0) fail (status_hook ended) ended
  status_hook-IsCaught fail tells (returned n, s) h = by_return (λ n. status 0) fail n s
  status_hook-IsCaught fail tells (threw error, s) h = by_code (λ n. status 0) fail tells error s h
  status_hook-IsCaught fail tells (threw_other, s) h = by_other (λ n. status 0) fail s

  own_status_hook-IsCaught :
      (fail : Error → Given) (tells : IsCode fail) (ended : Ended × S)
      → ended.0 ≢ threw (errno 0)
      → IsCaught status fail (own_status_hook ended) ended
  own_status_hook-IsCaught fail tells (returned n, s) h = by_return status fail n s
  own_status_hook-IsCaught fail tells (threw error, s) h = by_code status fail tells error s h
  own_status_hook-IsCaught fail tells (threw_other, s) h = by_other status fail s

  number_hook-IsCaught :
      (default : ℕ) (ended : Ended × S)
      → IsCaught number (λ error. number default) (number_hook default ended) ended
  number_hook-IsCaught default (returned n, s) = by_return number (λ error. number default) n s
  number_hook-IsCaught default (threw error, s) =
      by_error number (λ error. number default) error s (λ e. cc) (λ e. cc)
  number_hook-IsCaught default (threw_other, s) = by_other number (λ error. number default) s

  void_hook-IsCaught :
      (ended : Ended × S) → IsCaught (λ n. nothing) (λ error. nothing) (void_hook ended) ended
  void_hook-IsCaught (returned n, s) = by_return (λ n. nothing) (λ error. nothing) n s
  void_hook-IsCaught (threw error, s) =
      by_error (λ n. nothing) (λ error. nothing) error s (λ e. cc) (λ e. cc)
  void_hook-IsCaught (threw_other, s) = by_other (λ n. nothing) (λ error. nothing) s

  bare_number_hook-IsCaught :
      (fail : Error → Given) (ended : Ended × S)
      → ((error : Error) → ended.0 ≢ threw error)
      → IsCaught number fail (bare_number_hook ended) ended
  bare_number_hook-IsCaught fail (returned n, s) h = by_return number fail n s
  bare_number_hook-IsCaught fail (threw error, s) h = absurd (h error refl)
  bare_number_hook-IsCaught fail (threw_other, s) h = by_other number fail s

  bare_void_hook-IsCaught :
      (fail : Error → Given) (ended : Ended × S)
      → ((error : Error) → ended.0 ≢ threw error)
      → IsCaught (λ n. nothing) fail (bare_void_hook ended) ended
  bare_void_hook-IsCaught fail (returned n, s) h = by_return (λ n. nothing) fail n s
  bare_void_hook-IsCaught fail (threw error, s) h = absurd (h error refl)
  bare_void_hook-IsCaught fail (threw_other, s) h = by_other (λ n. nothing) fail s

-- The two methods whose hooks have no `try` do not raise errors of the system.
pub record IsQuiet {S : Type 0} (m : Methods S) : Type 0 where
  pub size_returns : (s : S) (error : Error) → (m.clone_info_size s).0 ≢ threw error
  pub info_returns : (s : S) (error : Error) → (m.get_clone_info s).0 ≢ threw error

-- A hook that is caught, or none for a feature that the accelerant does not have.
abbrev pub IsCaughtHook : {S : Type 0} → (S → Ended × S) → Feature → Option (S → Given × S) → Type 0
IsCaughtHook run f none = (n : ℕ) × (f ≡ other n)
IsCaughtHook {S = S} run f (some hook) = (s : S) → IsCaught (answer f) (failure f) (hook s) (run s)

-- Every feature but the unknown ones has a hook. A call of it leaves the state as the method behind it
-- does. If the method returns, the hook gives what the function of the feature is to answer. If the
-- method throws an error of the system, the hook does not let it out and does not give B_OK: it gives
-- the error's number, B_ERROR for an error of the resource manager, a number that stands for none or,
-- for uninit, nothing. Only other exceptions leave it. No error thrown is number 0, and the two methods
-- for cloning, which are called without `try`, are taken to throw no such error.
pub hooks_caught :
    {S : Type 0} (m : Methods S) (f : Feature)
    → IsQuiet m
    → ((s : S) → (method m f s).0 ≢ threw (errno 0))
    → IsCaughtHook (method m f) f (get_accelerant_hook m f)
unfolding get_accelerant_hook
hooks_caught m init_accelerant q h =
    λ s. status_hook-IsCaught (failure init_accelerant) (λ n. refl, λ n. refl) (m.init s) (h s)
hooks_caught m accelerant_clone_info_size q h = λ s.
    bare_number_hook-IsCaught (failure accelerant_clone_info_size) (m.clone_info_size s)
      (q.size_returns s)
hooks_caught m get_accelerant_clone_info q h = λ s.
    bare_void_hook-IsCaught (failure get_accelerant_clone_info) (m.get_clone_info s)
      (q.info_returns s)
hooks_caught m clone_accelerant q h =
    λ s. status_hook-IsCaught (failure clone_accelerant) (λ n. refl, λ n. refl) (m.clone s) (h s)
hooks_caught m uninit_accelerant q h = λ s. void_hook-IsCaught (m.uninit s)
hooks_caught m get_accelerant_device_info q h = λ s.
    status_hook-IsCaught (failure get_accelerant_device_info) (λ n. refl, λ n. refl)
      (m.get_device_info s) (h s)
hooks_caught m accelerant_mode_count q h = λ s. number_hook-IsCaught 0 (m.mode_count s)
hooks_caught m get_mode_list q h = λ s.
    status_hook-IsCaught (failure get_mode_list) (λ n. refl, λ n. refl) (m.get_mode_list s) (h s)
hooks_caught m propose_display_mode q h = λ s.
    own_status_hook-IsCaught (failure propose_display_mode) (λ n. refl, λ n. refl)
      (m.propose_mode s) (h s)
hooks_caught m set_display_mode q h = λ s.
    status_hook-IsCaught (failure set_display_mode) (λ n. refl, λ n. refl) (m.set_display_mode s)
      (h s)
hooks_caught m get_display_mode q h = λ s.
    status_hook-IsCaught (failure get_display_mode) (λ n. refl, λ n. refl) (m.get_display_mode s)
      (h s)
hooks_caught m get_frame_buffer_config q h = λ s.
    status_hook-IsCaught (failure get_frame_buffer_config) (λ n. refl, λ n. refl)
      (m.get_frame_buffer_config s) (h s)
hooks_caught m get_pixel_clock_limits q h = λ s.
    status_hook-IsCaught (failure get_pixel_clock_limits) (λ n. refl, λ n. refl)
      (m.get_pixel_clock_limits s) (h s)
hooks_caught m dpms_capabilities q h = λ s. number_hook-IsCaught 0 (m.dpms_capabilities s)
hooks_caught m dpms_mode q h = λ s. number_hook-IsCaught b_dpms_on (m.dpms_mode s)
hooks_caught m set_dpms_mode q h = λ s.
    status_hook-IsCaught (failure set_dpms_mode) (λ n. refl, λ n. refl) (m.set_dpms_mode s) (h s)
hooks_caught m get_preferred_display_mode q h = λ s.
    status_hook-IsCaught (failure get_preferred_display_mode) (λ n. refl, λ n. refl)
      (m.get_preferred_display_mode s) (h s)
hooks_caught m get_edid_info q h = λ s.
    status_hook-IsCaught (failure get_edid_info) (λ n. refl, λ n. refl) (m.get_edid_info s) (h s)
hooks_caught m (other n) q h = (n, refl)
