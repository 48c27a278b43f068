-- ===== src/Accelerant/Tests.antt =====
-- Runs of the start of accelerant/Accelerant.cpp, with two displays of which the second is connected from
-- the third attempt on, and of the requests of accelerant/NvUtils.cpp.
use mathlib.Core.Option
use nvidia_haiku.Sdk.RmObject.{handle}
use nvidia_haiku.Prelude.{
  ◌≢◌, ◌⊎◌, none, List, ◌++◌, length, fitted, ℕ, ◌≡◌, refl, true, false, ltb, ◌+◌, ◌&&◌, ◌==◌, some,
  [], ◌∷◌,
}
use nvidia_haiku.Accelerant.Timings.{ModeTimings, DisplayMode, to_haiku_mode}
use nvidia_haiku.Accelerant.Memory.{
  block_linear, scanout, system_params, video_params, allocate_system_memory, allocate_video_memory,
}
use nvidia_haiku.Accelerant.Agreement.{common, is_none, is_refused, allocators_agree}
use nvidia_haiku.Accelerant.Startup.{
  Answers, Started, find_connected_display, attempts, read_modes, construct,
}
use nvidia_haiku.Accelerant.Displays.{IsStarted, construct-IsStarted}
use nvidia_haiku.Sdk.Calls.{errno, nv_status}
use nvidia_haiku.Accelerant.Bitmap.{
  KmsBitmap, construct_bitmap, destroy, move_construct, constructed, moved_into, bitmap_loses_area,
}
use nvidia_haiku.Sdk.Calls.{World, answered, failed, Leaves}
use nvidia_haiku.Sdk.Device.Balanced.{AtMostOneLinear}
use nvidia_haiku.Sdk.Unwinding.{Anything}
use nvidia_haiku.Accelerant.Getters
use nvidia_haiku.Accelerant.Allocation.{Constants, b_rgba32, allocate_bitmap}
use nvidia_haiku.Accelerant.Allocation.Balanced.{with_bitmap, allocate_bitmap-Leaves}
use nvidia_haiku.Accelerant.Getters.{
  Numbers, gives, throws, answered, get_edid_info, edid_info-fitted,
}
use nvidia_haiku.Accelerant.Hooks.{
  Ended, returned, threw, Methods, get_accelerant_device_info, get_accelerant_hook,
}
use nvidia_haiku.Accelerant.Hooks.Caught.{method, IsQuiet, IsCaughtHook, hooks_caught}

abbrev mode : ℕ → ModeTimings
mode width = record {
  rr_x1k = 60000;
  pixel_clock_hz = 148500000;
  h_visible = width;
  h_sync_start = width + 88;
  h_sync_end = width + 132;
  h_total = width + 280;
  v_visible = 1080;
  v_sync_start = 1084;
  v_sync_end = 1089;
  v_total = 1125;
  interlaced = false;
  h_sync_pos = true;
  h_sync_neg = false;
  v_sync_pos = true;
  v_sync_neg = false;
}

abbrev answers : Answers
answers = record {
  num_disps = 1;
  valid_dpys = some (3 ∷ 4 ∷ []);
  query = λ i dpy. some (record { connected = ltb 1 i && (dpy == 4); edid_valid = false });
  grabbed = true;
  replies = λ dpy. some (mode 1920) ∷ some (mode 1280) ∷ some (mode 640) ∷ [];
  validate = λ dpy m. some (ltb 1000 m.h_visible);
}

abbrev started : Started
started = record { dpy_id = 4; mode_list = mode 1920 ∷ mode 1280 ∷ [] }

construct_run : construct answers ≡ some started
unfolding construct attempts find_connected_display read_modes
construct_run = refl

construct-IsStarted_example : IsStarted answers started
construct-IsStarted_example = construct-IsStarted answers construct_run

abbrev blank : DisplayMode
blank = record { timing = (to_haiku_mode (mode 0)).timing; virtual_width = 0; virtual_height = 0 }

allocators_agree_example :
    (is_none (system_params true false block_linear 8294400 scanout false)
      ≡ is_refused block_linear scanout)
    × (Option.map common (system_params true false block_linear 8294400 scanout false)
        ≡ Option.map common (video_params block_linear 8294400 scanout false))
    × (is_none (
          allocate_system_memory
            (λ p. some (7, true))
            true
            false
            block_linear
            8294400
            scanout
            false)
        ≡ is_refused block_linear scanout)
    × (is_none (allocate_video_memory (λ p. some (7, true)) block_linear 8294400 scanout false)
        ≡ is_refused block_linear scanout)
allocators_agree_example =
    allocators_agree true false block_linear 8294400 scanout false (λ p. (7, true))

-- Methods on a counter of their calls: two of them raise.
abbrev returns : ℕ → ℕ → Ended × ℕ
returns value calls = (returned value, calls + 1)

abbrev methods : Methods ℕ
methods = record {
  init = returns 0;
  clone_info_size = returns 22;
  get_clone_info = returns 0;
  clone = λ calls. (threw (errno 2), calls + 1);
  uninit = returns 0;
  get_device_info = λ calls. (threw (nv_status 86), calls + 1);
  mode_count = returns 12;
  get_mode_list = returns 0;
  propose_mode = returns 0;
  set_display_mode = returns 0;
  get_display_mode = returns 0;
  get_frame_buffer_config = returns 0;
  get_pixel_clock_limits = returns 0;
  dpms_capabilities = returns 9;
  dpms_mode = returns 1;
  set_dpms_mode = returns 0;
  get_preferred_display_mode = returns 0;
  get_edid_info = returns 0;
}

methods-IsQuiet : IsQuiet methods
methods-IsQuiet = record { size_returns = λ s error e. cc; info_returns = λ s error e. cc }

hooks_caught_example :
    IsCaughtHook
      (method methods get_accelerant_device_info)
      get_accelerant_device_info
      (get_accelerant_hook methods get_accelerant_device_info)
hooks_caught_example = hooks_caught methods get_accelerant_device_info methods-IsQuiet λ s e. cc

abbrev numbers : Numbers
numbers = record { enoent = 2; b_error = 7 }

abbrev edid : List ℕ
edid = 9 ∷ 8 ∷ []

abbrev memory : List ℕ
memory = 1 ∷ 2 ∷ 3 ∷ []

edid_info-fitted_example :
    (get_edid_info numbers (Getters.answered true edid) (length memory) (memory ++ (4 ∷ []))
      ≡ some (gives 1, fitted (length memory) edid ++ (4 ∷ [])))
    × (get_edid_info numbers (Getters.answered false edid) (length memory) (memory ++ (4 ∷ []))
        ≡ some (throws (errno 7), memory ++ (4 ∷ [])))
    × (get_edid_info numbers (Getters.failed 22) (length memory) (memory ++ (4 ∷ []))
        ≡ some (throws (errno 22), memory ++ (4 ∷ [])))
edid_info-fitted_example = edid_info-fitted numbers edid memory (4 ∷ []) 22

abbrev bitmap : KmsBitmap
bitmap =
    construct_bitmap 64 64 256 8 (record { rm = some 1; h_object = 40 })
      (record { kms_dev = some 2; surface = 5 })
      (record { linear = 9; address = some 65536; size = 16384; area = some 77 })

bitmap_loses_area_example :
    ((((move_construct bitmap).0.mapping.address ≡ none)
        × ((destroy (move_construct bitmap).0).mapping ≡ none))
      ⊎ (((move_construct bitmap).0.mapping.address ≢ none)
          × ((destroy (move_construct bitmap).0).mapping
              ≡ some (record { area = none; linear = (move_construct bitmap).0.mapping.linear }))))
    × ((destroy (move_construct bitmap).0).surface
        ≡ handle (move_construct bitmap).0.surface.surface)
    × ((destroy (move_construct bitmap).0).memory
        ≡ handle (move_construct bitmap).0.memory.h_object)
bitmap_loses_area_example = bitmap_loses_area (
    moved_into (
      constructed 64 64 256 8 (record { rm = some 1; h_object = 40 })
        (record { kms_dev = some 2; surface = 5 })
        (record { linear = 9; address = some 65536; size = 16384; area = some 77 })))

-- The map on Haiku fails, and the destructors run.
abbrev unmapped : World
unmapped = record {
  script =
      answered 0 40
      ∷ (answered 0 5
          ∷ (answered 0 0
              ∷ (answered 0 3
                  ∷ (answered 0 6
                      ∷ (answered 0 900 ∷ (failed 12 ∷ (answered 0 0 ∷ (answered 0 0 ∷ []))))))));
  held = record { files = []; objects = []; linears = []; areas = []; surfaces = [] };
}

abbrev constants : Constants
constants = record { einval = 22; memory_local_user = 64; page_size = 4096 }

allocate_bitmap-Leaves_example :
    Leaves (with_bitmap unmapped.held) (AtMostOneLinear unmapped.held) Anything (
      allocate_bitmap constants
        (record { fd = 3; client = 17 })
        (record { device = 18; subdevice = 19 })
        64
        64
        b_rgba32
        unmapped)
allocate_bitmap-Leaves_example =
    allocate_bitmap-Leaves constants (record { fd = 3; client = 17 })
      (record { device = 18; subdevice = 19 }) 64 64 b_rgba32 unmapped
