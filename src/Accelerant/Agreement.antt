-- ===== src/Accelerant/Agreement.antt =====
-- That the two functions of accelerant/NvUtils.cpp ask for the same memory, each at its own place.
use mathlib.Core.Option
use nvidia_haiku.Prelude.{ℕ, ◌≡◌, refl, Bool, true, false, Option, none, some}
use nvidia_haiku.Accelerant.Memory.{
  Layout, block_linear, pitch, other_layout, AllocationType, scanout, notifier, offscreen,
  other_type, AllocationParams, system_params, video_params, allocate_system_memory,
  allocate_video_memory,
}

-- What does not depend on where the memory is.
abbrev pub common : AllocationParams → AllocationParams
common p = record p {
  kind = none;
  alignment = 0;
  location = none;
  coherency = none;
  physicality = none;
  page_size_4kb = false;
  niso_display = false;
  alignment_force = false;
  mem_grows_up = false;
}

-- A request that no memory can meet.
abbrev pub is_refused : Layout → AllocationType → Bool
is_refused other_layout type = true
is_refused layout other_type = true
is_refused block_linear notifier = true
is_refused layout type = false

abbrev pub is_none {ℓ} : {A : Type ℓ} → Option A → Bool
is_none none = true
is_none (some a) = false

-- Whatever the modes of coherency, a request for system memory and one for video memory are refused
-- alike, exactly where the layout or the type is unknown or a notifier is block linear. Where they are
-- not, they agree on the owner, the size, the format, the depth, the compression, the isochronous flag,
-- the scanout flag and the cacheability.
pub allocators_agree :
    (iso niso : Bool) (layout : Layout) (size : ℕ) (type : AllocationType) (compressible : Bool)
    (answer : AllocationParams → ℕ × Bool)
    → (is_none (system_params iso niso layout size type compressible) ≡ is_refused layout type)
      × (Option.map common (system_params iso niso layout size type compressible)
          ≡ Option.map common (video_params layout size type compressible))
      × (is_none
            (allocate_system_memory (λ p. some (answer p)) iso niso layout size type compressible)
          ≡ is_refused layout type)
      × (is_none (allocate_video_memory (λ p. some (answer p)) layout size type compressible)
          ≡ is_refused layout type)
unfolding allocate_system_memory allocate_video_memory
allocators_agree iso niso other_layout size type c answer = (refl, refl, refl, refl)
allocators_agree iso niso block_linear size scanout true answer = (refl, refl, refl, refl)
allocators_agree iso niso block_linear size scanout false answer = (refl, refl, refl, refl)
allocators_agree iso niso block_linear size notifier true answer = (refl, refl, refl, refl)
allocators_agree iso niso block_linear size notifier false answer = (refl, refl, refl, refl)
allocators_agree iso niso block_linear size offscreen true answer = (refl, refl, refl, refl)
allocators_agree iso niso block_linear size offscreen false answer = (refl, refl, refl, refl)
allocators_agree iso niso block_linear size other_type true answer = (refl, refl, refl, refl)
allocators_agree iso niso block_linear size other_type false answer = (refl, refl, refl, refl)
allocators_agree iso niso pitch size scanout c answer = (refl, refl, refl, refl)
allocators_agree iso niso pitch size notifier c answer = (refl, refl, refl, refl)
allocators_agree iso niso pitch size offscreen c answer = (refl, refl, refl, refl)
allocators_agree iso niso pitch size other_type c answer = (refl, refl, refl, refl)
