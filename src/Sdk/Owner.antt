-- ===== src/Sdk/Owner.antt =====
-- What the owning classes of nvrm_cpp_sdk promise: an object owns one resource or none, and passes it
-- on when it is moved from. A resource is named by a number.
use nvidia_haiku.Prelude.{ℕ, ◌≡◌, Option, none, some, ◌==◌, if◌then◌else◌}

-- How often a resource is among those that an object owns, or that a call gives back.
abbrev pub count_of : ℕ → Option ℕ → ℕ
count_of r none = 0
count_of r (some q) = if q == r then 1 else 0

-- The operations of such a class, for two objects that are not the same. Each gives the objects that
-- are left, and the resource that it gives back, if any.
pub record Owner (C : Type 0) : Type 0 where
  pub owns : C → Option ℕ
  -- The new object, and the one moved from.
  pub move_construct : C → C × C
  -- The target, the source, and what the target gave back.
  pub move_assign : C → C → C × C × Option ℕ
  -- The object after it is assigned to itself, and what it gave back.
  pub self_assign : C → C × Option ℕ
  pub destroy : C → Option ℕ
  -- The object, and the resource that the caller takes over.
  pub detach : C → C × Option ℕ
  pub construct-owns : (c : C) → owns (move_construct c).0 ≡ owns c
  pub construct-empties : (c : C) → owns (move_construct c).1 ≡ none
  pub assign-owns : (c d : C) → owns (move_assign c d).0 ≡ owns d
  pub assign-empties : (c d : C) → owns (move_assign c d).1 ≡ none
  pub assign-releases : (c d : C) → (move_assign c d).2 ≡ owns c
  pub destroy-releases : (c : C) → destroy c ≡ owns c
  pub detach-gives : (c : C) → (detach c).1 ≡ owns c
  pub detach-empties : (c : C) → owns (detach c).0 ≡ none
  pub self_assign-releases : (c : C) → (self_assign c).1 ≡ owns c
  pub self_assign-empties : (c : C) → owns (self_assign c).0 ≡ none
