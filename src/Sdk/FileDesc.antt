-- ===== src/Sdk/FileDesc.antt =====
-- `FileDesc` of nvrm_cpp_sdk/FileDesc.h as an owner of file descriptors.
use nvidia_haiku.Prelude.{ℕ, refl, Option, none}
use nvidia_haiku.Sdk.Owner.{Owner}

-- Any negative `fFd` is no descriptor.
pub record FileDesc : Type 0 where
  pub fd : Option ℕ

unfoldable pub move_construct : FileDesc → FileDesc × FileDesc
move_construct other = (record { fd = other.fd }, record { fd = none })

unfoldable pub destroy : FileDesc → Option ℕ
destroy this = this.fd

unfoldable pub move_assign : FileDesc → FileDesc → FileDesc × FileDesc × Option ℕ
move_assign this other = (record { fd = other.fd }, record { fd = none }, this.fd)

-- The same code where `other` is the object itself.
unfoldable pub self_assign : FileDesc → FileDesc × Option ℕ
self_assign this = (record { fd = none }, this.fd)

unfoldable pub detach : FileDesc → FileDesc × Option ℕ
detach this = (record { fd = none }, this.fd)

unfoldable pub owner : Owner FileDesc
unfolding move_construct destroy move_assign self_assign detach
owner = record {
  owns = λ c. c.fd;
  move_construct = move_construct;
  move_assign = move_assign;
  self_assign = self_assign;
  destroy = destroy;
  detach = detach;
  construct-owns = λ c. refl;
  construct-empties = λ c. refl;
  assign-owns = λ c d. refl;
  assign-empties = λ c d. refl;
  assign-releases = λ c d. refl;
  destroy-releases = λ c. refl;
  detach-gives = λ c. refl;
  detach-empties = λ c. refl;
  self_assign-releases = λ c. refl;
  self_assign-empties = λ c. refl;
}
