-- ===== src/Accelerant/Bitmap.antt =====
-- `NvKmsBitmap` of accelerant/NvKmsBitmap.{h,cpp} as an object that owns three others: a memory of the
-- resource manager, a surface of the mode setting, and a mapping, each of them a class of nvrm_cpp_sdk.
use nvidia_haiku.Prelude.{ℕ, ◌≡◌, ◌≢◌, ◌⊎◌, inl, inr, refl, ap, Option, none, some}
use nvidia_haiku.Sdk.RmObject
use nvidia_haiku.Sdk.RmObject.{RmObject, handle}
use nvidia_haiku.Sdk.KmsSurface
use nvidia_haiku.Sdk.KmsSurface.{KmsSurface}
use nvidia_haiku.Sdk.Mapping
use nvidia_haiku.Sdk.Mapping.{MemoryMapping, Deleted, empty_mapping}

-- `color_space` is 0 for B_NO_COLOR_SPACE.
pub record KmsBitmap : Type 0 where
  pub memory : RmObject
  pub surface : KmsSurface
  pub mapping : MemoryMapping
  pub width : ℕ
  pub height : ℕ
  pub bytes_per_row : ℕ
  pub color_space : ℕ

-- What a bitmap gives back, the mapping first.
pub record Released : Type 0 where
  pub mapping : Option Deleted
  pub surface : Option ℕ
  pub memory : Option ℕ

-- `NvKmsBitmap()`.
unfoldable pub empty_bitmap : KmsBitmap
unfolding empty_mapping
empty_bitmap = record {
  memory = record { rm = none; h_object = 0 };
  surface = record { kms_dev = none; surface = 0 };
  mapping = empty_mapping;
  width = 0;
  height = 0;
  bytes_per_row = 0;
  color_space = 0;
}

-- The destructor: the members in the opposite order.
unfoldable pub destroy : KmsBitmap → Released
unfolding Mapping.destroy KmsSurface.destroy RmObject.destroy
destroy b = record {
  mapping = Mapping.destroy b.mapping;
  surface = KmsSurface.destroy b.surface;
  memory = RmObject.destroy b.memory;
}

-- For two objects that are not the same.
unfoldable pub move_assign : KmsBitmap → KmsBitmap → KmsBitmap × KmsBitmap × Released
unfolding Mapping.move_assign KmsSurface.move_assign RmObject.move_assign
move_assign this other =
    let (mapping, other_mapping, mapping_released) =
      Mapping.move_assign this.mapping other.mapping in
    let (surface, other_surface, surface_released) =
      KmsSurface.move_assign this.surface other.surface in
    let (memory, other_memory, memory_released) = RmObject.move_assign this.memory other.memory in
    (
      record other { memory = memory; surface = surface; mapping = mapping },
      record {
        memory = other_memory;
        surface = other_surface;
        mapping = other_mapping;
        width = 0;
        height = 0;
        bytes_per_row = 0;
        color_space = 0;
      },
      record { mapping = mapping_released; surface = surface_released; memory = memory_released },
    )

-- The move constructor assigns to members that are empty.
unfoldable pub move_construct : KmsBitmap → KmsBitmap × KmsBitmap
unfolding move_assign empty_bitmap
move_construct other = ((move_assign empty_bitmap other).0, (move_assign empty_bitmap other).1)

-- The end of the constructor, with what its calls gave: the surface and the mapping are assigned to
-- members that are empty.
unfoldable pub construct_bitmap :
    (width height bytes_per_row color_space : ℕ) → RmObject → KmsSurface → MemoryMapping → KmsBitmap
unfolding Mapping.move_assign KmsSurface.move_assign empty_mapping
construct_bitmap width height bytes_per_row color_space memory surface mapping = record {
  memory = memory;
  surface = (KmsSurface.move_assign (record { kms_dev = none; surface = 0 }) surface).0;
  mapping = (Mapping.move_assign empty_mapping mapping).0;
  width = width;
  height = height;
  bytes_per_row = bytes_per_row;
  color_space = color_space;
}

-- The bitmaps that a program may have, by how each came about.
pub data Made : KmsBitmap → Type 0 where
  made_empty : Made empty_bitmap
  constructed :
      (width height bytes_per_row color_space : ℕ) (memory : RmObject) (surface : KmsSurface)
      (mapping : MemoryMapping)
      → Made (construct_bitmap width height bytes_per_row color_space memory surface mapping)
  moved_into : {other : KmsBitmap} → Made other → Made (move_construct other).0
  moved_from : {other : KmsBitmap} → Made other → Made (move_construct other).1
  assigned_to : {this other : KmsBitmap} → Made this → Made other → Made (move_assign this other).0
  assigned_from :
      {this other : KmsBitmap} → Made this → Made other → Made (move_assign this other).1

no_area : {b : KmsBitmap} → Made b → b.mapping.area ≡ none
unfolding empty_bitmap empty_mapping construct_bitmap move_construct move_assign Mapping.move_assign
no_area made_empty = refl
no_area (constructed width height bytes_per_row color_space memory surface mapping) = refl
no_area (moved_into m) = refl
no_area (moved_from m) = no_area m
no_area (assigned_to m n) = no_area m
no_area (assigned_from m n) = no_area n

-- No bitmap gives back the area of its mapping. The destructor of a bitmap with a mapping deletes that of
-- the resource manager, and no area, which was lost when the constructor, or a move, assigned the
-- mapping; that of a bitmap without a mapping deletes none. It gives back the surface and the memory where
-- their handles are not 0.
pub bitmap_loses_area :
    {b : KmsBitmap}
    → Made b
    → (((b.mapping.address ≡ none) × ((destroy b).mapping ≡ none))
        ⊎ ((b.mapping.address ≢ none)
            × ((destroy b).mapping ≡ some (record { area = none; linear = b.mapping.linear }))))
      × ((destroy b).surface ≡ handle b.surface.surface)
      × ((destroy b).memory ≡ handle b.memory.h_object)
unfolding destroy Mapping.destroy Mapping.delete KmsSurface.destroy RmObject.destroy
bitmap_loses_area {b = b} m = (
  of_address b.mapping.address b.mapping.linear b.mapping.size b.mapping.area (no_area m),
  refl,
  refl,
)
  where
    of_address :
        (address : Option ℕ) (linear size : ℕ) (area : Option ℕ)
        → area ≡ none
        → ((address ≡ none)
            × (Mapping.destroy
                  (record { linear = linear; address = address; size = size; area = area })
                ≡ none))
          ⊎ ((address ≢ none)
              × (Mapping.destroy
                    (record { linear = linear; address = address; size = size; area = area })
                  ≡ some (record { area = none; linear = linear })))
    of_address none linear size area e = inl (refl, refl)
    of_address (some x) linear size area e =
        inr ((λ q. cc), ap (λ (a : Option ℕ). some (record { area = a; linear = linear })) e)
