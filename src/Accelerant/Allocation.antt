-- ===== src/Accelerant/Allocation.antt =====
-- The calls of the constructor of NvKmsBitmap in accelerant/NvKmsBitmap.cpp, with the exceptions between
-- them. The parameters of the requests are those of `Cursor` and `Memory`.
pub mod Steps
pub mod Balanced
use nvidia_haiku.Prelude.{ℕ, Option, none, some}
use nvidia_haiku.Accelerant.Cursor.{new_bitmap, memory_size}
use nvidia_haiku.Sdk.Calls.{
  World, Outcome, Error, errno, done, raised, Call, kms_call, register_surface, and_then,
  on_exception, alloc, close, delete_object, delete_surface,
}
use nvidia_haiku.Sdk.Device.{Api, Device, Mapping, map_device_memory, export_object}

pub data ColorSpace : Type 0 where
  b_rgb32 : ColorSpace
  b_rgba32 : ColorSpace
  other : ℕ → ColorSpace

pub data SurfaceFormat : Type 0 where
  x8r8g8b8 : SurfaceFormat
  a8r8g8b8 : SurfaceFormat

abbrev pub nv_kms_format : ColorSpace → Option SurfaceFormat
nv_kms_format b_rgb32 = some x8r8g8b8
nv_kms_format b_rgba32 = some a8r8g8b8
nv_kms_format (other n) = none

-- EINVAL, NV01_MEMORY_LOCAL_USER and B_PAGE_SIZE.
pub record Constants : Type 0 where
  pub einval : ℕ
  pub memory_local_user : ℕ
  pub page_size : ℕ

pub record AllocatedBitmap : Type 0 where
  pub memory : ℕ
  pub surface : ℕ
  pub mapping : Mapping

-- From the surface on: it is mapped, and the file is closed.
abbrev pub map_bitmap : Api → Device → (memory fd surface size : ℕ) → Call AllocatedBitmap
map_bitmap a d memory fd surface size w =
    and_then (on_exception (close fd) (map_device_memory a d memory 0 size 0 w)) λ mapping w1.
      and_then (close fd w1)
        λ _ w2. (done (record { memory = memory; surface = surface; mapping = mapping }), w2)

-- From the file on: an exception closes the file, and then destroys the surface.
abbrev pub register_bitmap : Api → Device → (memory fd size : ℕ) → Call AllocatedBitmap
register_bitmap a d memory fd size w =
    and_then (on_exception (close fd) (kms_call (register_surface fd) w))
      λ surface w1. on_exception (delete_surface surface) (map_bitmap a d memory fd surface size w1)

-- From the memory on.
abbrev pub export_bitmap : Api → Device → (memory size : ℕ) → Call AllocatedBitmap
export_bitmap a d memory size w =
    and_then (export_object a w) λ fd w1. register_bitmap a d memory fd size w1

-- The constructor.
unfoldable pub allocate_bitmap :
    Constants → Api → Device → (width height : ℕ) → ColorSpace → Call AllocatedBitmap
unfolding new_bitmap memory_size map_device_memory export_object kms_call
allocate_bitmap c a d width height color_space w = elim (nv_kms_format color_space) [
  | none ↦ (raised (errno c.einval), w)
  | some format ↦ and_then (alloc a.client c.memory_local_user d.device w) λ memory w1.
      on_exception (delete_object a.client memory)
        (export_bitmap a d memory (memory_size c.page_size (new_bitmap width height)) w1)
]
