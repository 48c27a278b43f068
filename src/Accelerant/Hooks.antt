-- ===== src/Accelerant/Hooks.antt =====
-- `get_accelerant_hook` of accelerant/Accelerant.cpp: the functions that the app server calls, around the
-- methods of NvAccelerant, and the short ones among those. A method is a parameter, applied to the
-- arguments of the call; its exceptions are those of nvrm_cpp_sdk/ErrorUtils.h.
pub mod Caught
use nvidia_haiku.Prelude.{
  ℕ, zero, suc, ◌+◌, ◌≡◌, ◌≢◌, ◌⊎◌, inl, inr, refl, ap, sym, ◌∙◌, Bool, true, false, Option, none,
  some, some-injective, arith,
}
use nvidia_haiku.Sdk.Calls.{Error, errno, nv_status}

pub data Feature : Type 0 where
  init_accelerant : Feature
  accelerant_clone_info_size : Feature
  get_accelerant_clone_info : Feature
  clone_accelerant : Feature
  uninit_accelerant : Feature
  get_accelerant_device_info : Feature
  accelerant_mode_count : Feature
  get_mode_list : Feature
  propose_display_mode : Feature
  set_display_mode : Feature
  get_display_mode : Feature
  get_frame_buffer_config : Feature
  get_pixel_clock_limits : Feature
  dpms_capabilities : Feature
  dpms_mode : Feature
  set_dpms_mode : Feature
  get_preferred_display_mode : Feature
  get_edid_info : Feature
  other : ℕ → Feature

-- How a method ends: by its value, by a `std::system_error`, or by another exception.
pub data Ended : Type 0 where
  returned : ℕ → Ended
  threw : Error → Ended
  threw_other : Ended

pub record Methods (S : Type 0) : Type 0 where
  pub init : S → Ended × S
  pub clone_info_size : S → Ended × S
  pub get_clone_info : S → Ended × S
  pub clone : S → Ended × S
  pub uninit : S → Ended × S
  pub get_device_info : S → Ended × S
  pub mode_count : S → Ended × S
  pub get_mode_list : S → Ended × S
  pub propose_mode : S → Ended × S
  pub set_display_mode : S → Ended × S
  pub get_display_mode : S → Ended × S
  pub get_frame_buffer_config : S → Ended × S
  pub get_pixel_clock_limits : S → Ended × S
  pub dpms_capabilities : S → Ended × S
  pub dpms_mode : S → Ended × S
  pub set_dpms_mode : S → Ended × S
  pub get_preferred_display_mode : S → Ended × S
  pub get_edid_info : S → Ended × S

-- What a hook gives: a status, a number, nothing, or an exception that leaves it.
pub data Given : Type 0 where
  status : ℕ → Given
  number : ℕ → Given
  nothing : Given
  escapes : Given

-- B_OK, and B_ERROR, which is -1, as numbers of 32 bits.
abbrev pub b_ok : ℕ
b_ok = 0

abbrev pub b_error : ℕ
b_error = 4294967295

-- `ToErrorCode`.
abbrev pub to_error_code : Error → ℕ
to_error_code (errno n) = n
to_error_code (nv_status n) = b_error

-- The bodies of the hooks, by what they give for each end of the method.
abbrev pub status_hook : {S : Type 0} → Ended × S → Given × S
status_hook (returned n, s) = (status b_ok, s)
status_hook (threw error, s) = (status (to_error_code error), s)
status_hook (threw_other, s) = (escapes, s)

abbrev pub own_status_hook : {S : Type 0} → Ended × S → Given × S
own_status_hook (returned n, s) = (status n, s)
own_status_hook (threw error, s) = (status (to_error_code error), s)
own_status_hook (threw_other, s) = (escapes, s)

abbrev pub number_hook : {S : Type 0} → ℕ → Ended × S → Given × S
number_hook default (returned n, s) = (number n, s)
number_hook default (threw error, s) = (number default, s)
number_hook default (threw_other, s) = (escapes, s)

abbrev pub void_hook : {S : Type 0} → Ended × S → Given × S
void_hook (returned n, s) = (nothing, s)
void_hook (threw error, s) = (nothing, s)
void_hook (threw_other, s) = (escapes, s)

-- A body without `try`.
abbrev pub bare_number_hook : {S : Type 0} → Ended × S → Given × S
bare_number_hook (returned n, s) = (number n, s)
bare_number_hook (threw error, s) = (escapes, s)
bare_number_hook (threw_other, s) = (escapes, s)

abbrev pub bare_void_hook : {S : Type 0} → Ended × S → Given × S
bare_void_hook (returned n, s) = (nothing, s)
bare_void_hook (threw error, s) = (escapes, s)
bare_void_hook (threw_other, s) = (escapes, s)

-- B_DPMS_ON.
abbrev pub b_dpms_on : ℕ
b_dpms_on = 1

-- The hook of a feature; none is null. The cursor's hooks are compiled out.
unfoldable pub get_accelerant_hook : {S : Type 0} → Methods S → Feature → Option (S → Given × S)
get_accelerant_hook m init_accelerant = some (λ s. status_hook (m.init s))
get_accelerant_hook m accelerant_clone_info_size =
    some (λ s. bare_number_hook (m.clone_info_size s))
get_accelerant_hook m get_accelerant_clone_info = some (λ s. bare_void_hook (m.get_clone_info s))
get_accelerant_hook m clone_accelerant = some (λ s. status_hook (m.clone s))
get_accelerant_hook m uninit_accelerant = some (λ s. void_hook (m.uninit s))
get_accelerant_hook m get_accelerant_device_info = some (λ s. status_hook (m.get_device_info s))
get_accelerant_hook m accelerant_mode_count = some (λ s. number_hook 0 (m.mode_count s))
get_accelerant_hook m get_mode_list = some (λ s. status_hook (m.get_mode_list s))
get_accelerant_hook m propose_display_mode = some (λ s. own_status_hook (m.propose_mode s))
get_accelerant_hook m set_display_mode = some (λ s. status_hook (m.set_display_mode s))
get_accelerant_hook m get_display_mode = some (λ s. status_hook (m.get_display_mode s))
get_accelerant_hook m get_frame_buffer_config =
    some (λ s. status_hook (m.get_frame_buffer_config s))
get_accelerant_hook m get_pixel_clock_limits = some (λ s. status_hook (m.get_pixel_clock_limits s))
get_accelerant_hook m dpms_capabilities = some (λ s. number_hook 0 (m.dpms_capabilities s))
get_accelerant_hook m dpms_mode = some (λ s. number_hook b_dpms_on (m.dpms_mode s))
get_accelerant_hook m set_dpms_mode = some (λ s. status_hook (m.set_dpms_mode s))
get_accelerant_hook m get_preferred_display_mode =
    some (λ s. status_hook (m.get_preferred_display_mode s))
get_accelerant_hook m get_edid_info = some (λ s. status_hook (m.get_edid_info s))
get_accelerant_hook m (other n) = none
