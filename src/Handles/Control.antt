-- ===== src/Handles/Control.antt =====
-- `NV_HAIKU_MAP` of `Control` in nvidia_gsp/nvidia/BaseDevice.cpp: mapping what the context of a file
-- names into the team that asks. The kernel's answers are parameters; setting the memory type of an area
-- is left out, since it changes no area.
use nvidia_haiku.Prelude.{
  ℕ, ◌+◌, ◌*◌, ◌≡◌, refl, Bool, true, false, not, List, [], ◌∷◌, length, Option, none, some, leb,
  ◌==◌, ==_iff, if◌then◌else◌, if_true,
}
use nvidia_haiku.Handles.Mapping.{MappingContext, MemoryRange}
use nvidia_haiku.Handles.Select.{remove}

-- What is mapped: pages of an allocation, one range of physical memory, or several.
pub data Backing : Type 0 where
  clone_area : Option ℕ → Backing
  map_physical : MemoryRange → Backing
  map_physical_vecs : List MemoryRange → Backing

pub data Answer : Type 0 where
  invalid_argument : Answer
  dev_invalid_ioctl : Answer
  bad_address : Answer
  no_area : Answer
  mapped : (area address : ℕ) → Answer

-- A call: the length that it gives and the size of the parameters, whether the address is one of the
-- user, whether the parameters can be read and written there, and the length of the name.
pub record Call : Type 0 where
  pub len : ℕ
  pub params_size : ℕ
  pub is_user_address : Bool
  pub can_read : Bool
  pub name_length : ℕ
  pub can_write : Bool

abbrev pub ranges_backing : Option (List MemoryRange) → Option Backing
ranges_backing none = none
ranges_backing (some []) = none
ranges_backing (some (r ∷ [])) = some (map_physical r)
ranges_backing (some (r ∷ q ∷ rs)) =
    if leb (length (r ∷ q ∷ rs)) 4294967295 then some (map_physical_vecs (r ∷ q ∷ rs)) else none

unfoldable pub backing : Bool → MappingContext → Option Backing
backing is_ctl c = if is_ctl then some (clone_area c.alloc) else ranges_backing c.ranges

unfoldable pub map_offset : Bool → MappingContext → ℕ
map_offset is_ctl c = if is_ctl then c.page_index * 4096 else 0

-- From the kernel's answer on: the areas that exist, and the `AreaDeleter` at the end of the scope.
unfoldable pub end_map : Bool → ℕ → Option (ℕ × ℕ) → List ℕ → Answer × List ℕ
end_map can_write offset none areas = (no_area, areas)
end_map can_write offset (some (area, base)) areas =
    if can_write
    then (mapped area (base + offset), area ∷ areas)
    else (bad_address, remove area (area ∷ areas))

unfoldable pub map_backing :
    (Backing → Option (ℕ × ℕ)) → Bool → ℕ → Option Backing → List ℕ → Answer × List ℕ
map_backing create can_write offset none areas = (invalid_argument, areas)
map_backing create can_write offset (some b) areas = end_map can_write offset (create b) areas

-- `create` is what the kernel answers: the area and its address, or none for an error.
unfoldable pub control_map :
    (Backing → Option (ℕ × ℕ)) → Call → Bool → MappingContext → List ℕ → Answer × List ℕ
control_map create call is_ctl c areas =
    if not (call.len == call.params_size)
    then (invalid_argument, areas)
    else if not call.is_user_address
    then (dev_invalid_ioctl, areas)
    else if not call.can_read
    then (bad_address, areas)
    else if leb 32 call.name_length
    then (invalid_argument, areas)
    else if not c.valid
    then (invalid_argument, areas)
    else map_backing create call.can_write (map_offset is_ctl c) (backing is_ctl c) areas

-- The areas that a call leaves, by its answer.
abbrev pub left_areas : Answer → List ℕ → List ℕ
left_areas invalid_argument areas = areas
left_areas dev_invalid_ioctl areas = areas
left_areas bad_address areas = areas
left_areas no_area areas = areas
left_areas (mapped area address) areas = area ∷ areas

record IsKeeping (areas : List ℕ) (r : Answer × List ℕ) : Type 0 where
  kept : r.1 ≡ left_areas r.0 areas

guard :
    {areas : List ℕ} {x y : Answer × List ℕ} (b : Bool)
    → IsKeeping areas x
    → IsKeeping areas y
    → IsKeeping areas (if b then x else y)
guard true p q = p
guard false p q = q

end_map-IsKeeping :
    (can_write : Bool) (offset : ℕ) (made : Option (ℕ × ℕ)) (areas : List ℕ)
    → IsKeeping areas (end_map can_write offset made areas)
unfolding end_map
end_map-IsKeeping can_write offset none areas = record { kept = refl }
end_map-IsKeeping true offset (some (area, base)) areas = record { kept = refl }
end_map-IsKeeping false offset (some (area, base)) areas = record {
  kept = if_true {b = area == area} _ _ ((==_iff area area).1 refl);
}

map_backing-IsKeeping :
    (create : Backing → Option (ℕ × ℕ)) (can_write : Bool) (offset : ℕ) (b : Option Backing)
    (areas : List ℕ)
    → IsKeeping areas (map_backing create can_write offset b areas)
unfolding map_backing
map_backing-IsKeeping create can_write offset none areas = record { kept = refl }
map_backing-IsKeeping create can_write offset (some b) areas =
    end_map-IsKeeping can_write offset (create b) areas

control_map-IsKeeping :
    (create : Backing → Option (ℕ × ℕ)) (call : Call) (is_ctl : Bool) (c : MappingContext)
    (areas : List ℕ)
    → IsKeeping areas (control_map create call is_ctl c areas)
unfolding control_map
control_map-IsKeeping create call is_ctl c areas =
    guard (not (call.len == call.params_size)) (record { kept = refl })
      (guard (not call.is_user_address) (record { kept = refl })
        (guard (not call.can_read) (record { kept = refl })
          (guard (leb 32 call.name_length) (record { kept = refl })
            (guard (not c.valid) (record { kept = refl })
              (map_backing-IsKeeping create call.can_write (map_offset is_ctl c) (backing is_ctl c)
                areas)))))

-- No area is lost: whatever the kernel answers, the areas that exist after a call to map are those from
-- before, with one more exactly if the call answers with that area.
pub control_map_keeps_areas :
    (create : Backing → Option (ℕ × ℕ)) (call : Call) (is_ctl : Bool) (c : MappingContext)
    (areas : List ℕ)
    → (control_map create call is_ctl c areas).1
      ≡ left_areas (control_map create call is_ctl c areas).0 areas
control_map_keeps_areas create call is_ctl c areas =
    (control_map-IsKeeping create call is_ctl c areas).kept
