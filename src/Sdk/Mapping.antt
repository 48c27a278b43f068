-- ===== src/Sdk/Mapping.antt =====
-- `NvRmMemoryMapping` of nvrm_cpp_sdk/NvRmDevice.{h,cpp}, as it is built on Haiku.
use nvidia_haiku.Prelude.{ℕ, ◌≡◌, refl, Option, none, some}

-- `linear` stands for the mapping of the resource manager, which its device, memory, linear address
-- and flags name together. An object is set while its address is not null.
pub record MemoryMapping : Type 0 where
  pub linear : ℕ
  pub address : Option ℕ
  pub size : ℕ
  pub area : Option ℕ  -- none for a number below 0

-- What `Delete` gives back: an area, and a mapping of the resource manager.
pub record Deleted : Type 0 where
  pub area : Option ℕ
  pub linear : ℕ

unfoldable pub delete : MemoryMapping → Deleted
delete this = record { area = this.area; linear = this.linear }

-- `if (IsSet()) Delete()`.
unfoldable pub destroy : MemoryMapping → Option Deleted
unfolding delete
destroy this = elim this.address [ none ↦ none | some _ ↦ some (delete this) ]

-- `NvRmMemoryMapping()`.
unfoldable pub empty_mapping : MemoryMapping
empty_mapping = record { linear = 0; address = none; size = 0; area = none }

unfoldable pub move_construct : MemoryMapping → MemoryMapping × MemoryMapping
move_construct other = (other, record other { address = none })

-- For two objects that are not the same.
unfoldable pub move_assign :
    MemoryMapping → MemoryMapping → MemoryMapping × MemoryMapping × Option Deleted
unfolding destroy
move_assign this other = (
  record this { linear = other.linear; address = other.address; size = other.size },
  record other { address = none },
  destroy this,
)

-- A mapping that is moved into a new object is given back whole, and once, by that object.
pub constructed_gives_back :
    (m : MemoryMapping) (x : ℕ)
    → m.address ≡ some x
    → (destroy (move_construct m).0 ≡ some (record { area = m.area; linear = m.linear }))
      × (destroy (move_construct m).1 ≡ none)
unfolding move_construct destroy delete
constructed_gives_back m x e = (rw e refl, refl)

-- A mapping that is assigned to another object loses its area: what is given back in the end is the
-- area that the target had before, once more if the target was set, and neither object gives back
-- the area of the source.
pub assigned_loses_area :
    (t s : MemoryMapping) (x : ℕ)
    → s.address ≡ some x
    → ((move_assign t s).2 ≡ destroy t)
      × (destroy (move_assign t s).0 ≡ some (record { area = t.area; linear = s.linear }))
      × (destroy (move_assign t s).1 ≡ none)
unfolding move_assign destroy delete
assigned_loses_area t s x e = (refl, rw e refl, refl)
