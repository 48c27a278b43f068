-- ===== src/Sdk/RmObject.antt =====
-- `NvRmObject` of nvrm_cpp_sdk/NvRmApi.h as an owner of handles of the resource manager.
use nvidia_haiku.Prelude.{ℕ, zero, suc, refl, Option, none, some}
use nvidia_haiku.Sdk.Owner.{Owner}

pub record RmObject : Type 0 where
  pub rm : Option ℕ
  pub h_object : ℕ

-- `fHObject != 0`.
abbrev pub handle : ℕ → Option ℕ
handle zero = none
handle (suc n) = some (suc n)

unfoldable pub move_construct : RmObject → RmObject × RmObject
move_construct other =
    (record { rm = other.rm; h_object = other.h_object }, record other { h_object = 0 })

unfoldable pub destroy : RmObject → Option ℕ
destroy this = handle this.h_object

unfoldable pub move_assign : RmObject → RmObject → RmObject × RmObject × Option ℕ
move_assign this other = (
  record { rm = other.rm; h_object = other.h_object },
  record other { h_object = 0 },
  handle this.h_object,
)

-- The same code where `other` is the object itself.
unfoldable pub self_assign : RmObject → RmObject × Option ℕ
self_assign this = (record this { h_object = 0 }, handle this.h_object)

unfoldable pub detach : RmObject → RmObject × Option ℕ
detach this = (record this { h_object = 0 }, handle this.h_object)

unfoldable pub owner : Owner RmObject
unfolding move_construct destroy move_assign self_assign detach
owner = record {
  owns = λ c. handle c.h_object;
  move_construct = move_construct;
  move_assign = move_assign;
  self_assign = self_assign;
  destroy = destroy;
  detach = detach;
  construct-owns = λ c. refl;
  construct-empties = λ c. refl;
  assign-owns = λ c d. refl;
  assign-empties = λ c d. refl;
  assign-releases = λ c d. refl;
  destroy-releases = λ c. refl;
  detach-gives = λ c. refl;
  detach-empties = λ c. refl;
  self_assign-releases = λ c. refl;
  self_assign-empties = λ c. refl;
}
