-- ===== src/Sdk/KmsSurface.antt =====
-- `NvKmsSurface` of nvrm_cpp_sdk/NvKmsSurface.{h,cpp} as an owner of surfaces.
use nvidia_haiku.Prelude.{ℕ, refl, Option}
use nvidia_haiku.Sdk.Owner.{Owner}
use nvidia_haiku.Sdk.RmObject.{handle}

pub record KmsSurface : Type 0 where
  pub kms_dev : Option ℕ
  pub surface : ℕ

unfoldable pub move_construct : KmsSurface → KmsSurface × KmsSurface
move_construct other =
    (record { kms_dev = other.kms_dev; surface = other.surface }, record other { surface = 0 })

unfoldable pub destroy : KmsSurface → Option ℕ
destroy this = handle this.surface

unfoldable pub move_assign : KmsSurface → KmsSurface → KmsSurface × KmsSurface × Option ℕ
move_assign this other = (
  record { kms_dev = other.kms_dev; surface = other.surface },
  record other { surface = 0 },
  handle this.surface,
)

-- The same code where `other` is the object itself.
unfoldable pub self_assign : KmsSurface → KmsSurface × Option ℕ
self_assign this = (record this { surface = 0 }, handle this.surface)

unfoldable pub detach : KmsSurface → KmsSurface × Option ℕ
detach this = (record this { surface = 0 }, handle this.surface)

unfoldable pub owner : Owner KmsSurface
unfolding move_construct destroy move_assign self_assign detach
owner = record {
  owns = λ c. handle c.surface;
  move_construct = move_construct;
  move_assign = move_assign;
  self_assign = self_assign;
  destroy = destroy;
  detach = detach;
  construct-owns = λ c. refl;
  construct-empties = λ c. refl;
  assign-owns = λ c d. refl;
  assign-empties = λ c d. refl;
  assign-releases = λ c d. refl;
  destroy-releases = λ c. refl;
  detach-gives = λ c. refl;
  detach-empties = λ c. refl;
  self_assign-releases = λ c. refl;
  self_assign-empties = λ c. refl;
}
