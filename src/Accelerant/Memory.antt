-- ===== src/Accelerant/Memory.antt =====
-- The requests for memory of accelerant/NvUtils.cpp. A field of the attributes is none where the code
-- leaves it 0; the resource manager, which answers a request, is a parameter.
use mathlib.Core.Option
use nvidia_haiku.Prelude.{ℕ, Bool, true, false, not, Option, none, some, if◌then◌else◌}

pub data Layout : Type 0 where
  block_linear : Layout
  pitch : Layout
  other_layout : Layout

pub data AllocationType : Type 0 where
  scanout : AllocationType
  notifier : AllocationType
  offscreen : AllocationType
  other_type : AllocationType

pub data Format : Type 0 where
  format_block_linear : Format
  format_pitch : Format

pub data Depth : Type 0 where
  depth_32 : Depth
  depth_unknown : Depth

pub data Location : Type 0 where
  location_pci : Location
  location_vidmem : Location

pub data Coherency : Type 0 where
  write_combine : Coherency
  write_back : Coherency
  uncached : Coherency

pub data Physicality : Type 0 where
  contiguous : Physicality
  noncontiguous : Physicality

pub data MemoryType : Type 0 where
  type_primary : MemoryType
  type_dma : MemoryType
  type_image : MemoryType

-- `NV_MEMORY_ALLOCATION_PARAMS`: `compr_any` to `page_size_4kb` are fields of `attr`, the three
-- after them of `attr2`, and the last three of `flags`.
pub record AllocationParams : Type 0 where
  pub owner : ℕ
  pub size : ℕ
  pub kind : Option MemoryType
  pub alignment : ℕ
  pub format : Option Format
  pub depth : Option Depth
  pub compr_any : Bool
  pub location : Option Location
  pub coherency : Option Coherency
  pub physicality : Option Physicality
  pub page_size_4kb : Bool
  pub iso : Bool
  pub niso_display : Bool
  pub not_gpu_cacheable : Bool
  pub no_scanout : Bool
  pub alignment_force : Bool
  pub mem_grows_up : Bool

abbrev pub new_system_params : ℕ → AllocationParams
new_system_params size = record {
  owner = 0xdcba;
  size = size;
  kind = none;
  alignment = 0;
  format = none;
  depth = none;
  compr_any = false;
  location = none;
  coherency = none;
  physicality = none;
  page_size_4kb = false;
  iso = false;
  niso_display = false;
  not_gpu_cacheable = false;
  no_scanout = false;
  alignment_force = false;
  mem_grows_up = false;
}

-- The switch over the layout in `nvKmsKapiAllocateSystemMemory`; none is the exception `EINVAL`.
abbrev pub set_system_layout : Layout → Bool → AllocationParams → Option AllocationParams
set_system_layout block_linear true p =
    some (record p { format = some format_block_linear; depth = some depth_32; compr_any = true })
set_system_layout block_linear false p =
    some (record p { format = some format_block_linear; depth = some depth_unknown })
set_system_layout pitch compressible p = some (record p { format = some format_pitch })
set_system_layout other_layout compressible p = none

-- The switch over the type in `nvKmsKapiAllocateSystemMemory`, with `pIOCoherencyModes` as whether it
-- is set and coherent.
abbrev pub set_system_type :
    (iso_coherent niso_coherent : Bool)
    → Layout
    → AllocationType
    → AllocationParams
    → Option (AllocationParams × Bool)
set_system_type iso_coherent niso_coherent layout scanout p =
    some (record p { iso = true }, iso_coherent)
set_system_type iso_coherent niso_coherent block_linear notifier p = none
set_system_type iso_coherent niso_coherent pitch notifier p =
    some (record p { niso_display = true }, niso_coherent)
set_system_type iso_coherent niso_coherent other_layout notifier p =
    some (record p { niso_display = true }, niso_coherent)
set_system_type iso_coherent niso_coherent layout offscreen p =
    some (record p { no_scanout = true }, false)
set_system_type iso_coherent niso_coherent layout other_type p = none

abbrev pub finish_system : AllocationParams × Bool → AllocationParams
finish_system (p, coherent) = record p {
  location = some location_pci;
  not_gpu_cacheable = true;
  coherency = some (if coherent then write_back else write_combine);
  physicality = some noncontiguous;
}

unfoldable pub system_params :
    (iso_coherent niso_coherent : Bool)
    → Layout
    → ℕ
    → AllocationType
    → Bool
    → Option AllocationParams
unfolding Option.bind
system_params iso_coherent niso_coherent layout size type compressible = Option.map finish_system (
    Option.bind (set_system_layout layout compressible (new_system_params size))
      (set_system_type iso_coherent niso_coherent layout type))

abbrev pub new_video_params : ℕ → AllocationParams
new_video_params size = record {
  owner = 0xdcba;
  size = size;
  kind = none;
  alignment = 0;
  format = none;
  depth = none;
  compr_any = false;
  location = none;
  coherency = none;
  physicality = none;
  page_size_4kb = false;
  iso = false;
  niso_display = false;
  not_gpu_cacheable = false;
  no_scanout = false;
  alignment_force = false;
  mem_grows_up = false;
}

-- The switch over the layout in `nvKmsKapiAllocateVideoMemory`; none is the exception `EINVAL`.
abbrev pub set_video_layout : Layout → Bool → AllocationParams → Option AllocationParams
set_video_layout block_linear true p =
    some (record p { format = some format_block_linear; depth = some depth_32; compr_any = true })
set_video_layout block_linear false p =
    some (record p { format = some format_block_linear; depth = some depth_unknown })
set_video_layout pitch compressible p = some (record p { format = some format_pitch })
set_video_layout other_layout compressible p = none

-- The switch over the type in `nvKmsKapiAllocateVideoMemory`.
abbrev pub set_video_type : Layout → AllocationType → AllocationParams → Option AllocationParams
set_video_type layout scanout p = some (record p {
  kind = some type_primary;
  alignment = 0x1000;
  alignment_force = true;
  mem_grows_up = true;
  physicality = some contiguous;
  iso = true;
})
set_video_type block_linear notifier p = none
set_video_type pitch notifier p =
    some (record p { kind = some type_dma; page_size_4kb = true; coherency = some uncached })
set_video_type other_layout notifier p =
    some (record p { kind = some type_dma; page_size_4kb = true; coherency = some uncached })
set_video_type layout offscreen p = some (record p {
  kind = some type_image;
  no_scanout = true;
  mem_grows_up = true;
  physicality = some noncontiguous;
})
set_video_type layout other_type p = none

unfoldable pub video_params : Layout → ℕ → AllocationType → Bool → Option AllocationParams
unfolding Option.bind
video_params layout size type compressible =
    Option.bind (set_video_layout layout compressible (new_video_params size)) λ p.
      set_video_type layout type
        (record p { location = some location_vidmem; not_gpu_cacheable = true })

-- The end of both functions. `answer` gives the new object, and whether the compression that it gives
-- back is `NONE`; none is an exception of the call.
abbrev pub request :
    (AllocationParams → Option (ℕ × Bool)) → Option AllocationParams → Option (ℕ × Bool)
request answer none = none
request answer (some p) = elim (answer p) [
  | none ↦ none
  | some (object, uncompressed) ↦ some (object, not uncompressed)
]

unfoldable pub allocate_system_memory :
    (answer : AllocationParams → Option (ℕ × Bool)) (iso_coherent niso_coherent : Bool)
    → Layout
    → ℕ
    → AllocationType
    → Bool
    → Option (ℕ × Bool)
unfolding system_params
allocate_system_memory answer iso_coherent niso_coherent layout size type compressible =
    request answer (system_params iso_coherent niso_coherent layout size type compressible)

unfoldable pub allocate_video_memory :
    (AllocationParams → Option (ℕ × Bool)) → Layout → ℕ → AllocationType → Bool → Option (ℕ × Bool)
unfolding video_params
allocate_video_memory answer layout size type compressible =
    request answer (video_params layout size type compressible)
