-- ===== src/Driver/Hooks.antt =====
-- The hooks that nvidia_gsp/Drivers_cpp.h makes for the kernel out of the classes of a driver: the ones
-- that open, close and free a file, over `FindDevice`. The classes are parameters, as operations on a
-- state.
use nvidia_haiku.Prelude.{
  ℕ, ◌^◌, ◌<◌, ◌≡◌, ◌≢◌, ◌⊎◌, refl, sym, ap, ◌∙◌, true, List, Option, some, length, get_elem?, inl,
  inr,
}
use nvidia_haiku.Driver.Decimal.{Text}
use nvidia_haiku.Driver.Names.{DeviceNamesArray, publish, until_null}
use nvidia_haiku.Driver.Find.{
  DevfsNodeInstance, no_node, control_node, device_node, find_device, node_at, find_published,
  found_published,
}

pub data Status : Type 0 where
  b_ok : Status
  enoent : Status
  failed : ℕ → Status

-- `Open` of the class of a node, which gives a handle where it succeeds, and the handles' operations. A
-- cookie is the handle's pointer, none for null.
pub record Classes (D S : Type 0) : Type 0 where
  pub open_control : S → Status × Option ℕ × S
  pub open_device : D → S → Status × Option ℕ × S
  pub close_handle : ℕ → S → Status × S
  pub delete_handle : ℕ → S → S

no_node-cases : {D : Type 0} (node : DevfsNodeInstance D) → (node ≡ no_node) ⊎ (node ≢ no_node)
no_node-cases no_node = inl refl
no_node-cases control_node = inr (λ e. cc)
no_node-cases (device_node d) = inr (λ e. cc)

module _ {D S : Type 0} (c : Classes D S) where
  -- `Open` of what `FindDevice` gave. The cookie is left as it is where there is no node.
  abbrev pub open_node : DevfsNodeInstance D → Option ℕ → S → Status × Option ℕ × S
  open_node no_node cookie s = (enoent, cookie, s)
  open_node control_node cookie s = c.open_control s
  open_node (device_node d) cookie s = c.open_device d s

  -- `cls.open`.
  unfoldable pub open_hook : List D → Text → Option ℕ → S → Status × Option ℕ × S
  unfolding find_device
  open_hook devices name cookie s = open_node (find_device name devices) cookie s

  -- `cls.close`, for a cookie that `open` gave.
  abbrev pub close_hook : ℕ → S → Status × S
  close_hook cookie s = c.close_handle cookie s

  -- `cls.free`.
  abbrev pub free_hook : ℕ → S → Status × S
  free_hook cookie s = (b_ok, c.delete_handle cookie s)

  -- If there is memory for the names, a name is at a place of the published list, and opening it opens
  -- the node at that place, which is there, or it is at no place, and opening it gives ENOENT and
  -- changes nothing; this is for fewer than 2^31 devices.
  pub open_hook-published :
      (devices : List D) {names : DeviceNamesArray} (name : Text) (cookie : Option ℕ) (s : S)
      → length devices < 2 ^ 31
      → publish true (λ _. true) (length devices) ≡ some names
      → ((i : ℕ) × (get_elem? (until_null names) i ≡ some name)
          × (open_hook devices name cookie s ≡ open_node (node_at devices i) cookie s)
          × (node_at devices i ≢ no_node))
        ⊎ (((i : ℕ) → get_elem? (until_null names) i ≢ some name)
            × (open_hook devices name cookie s ≡ (enoent, cookie, s)))
  unfolding open_hook
  open_hook-published devices {names = names} name cookie s few made =
      elim (no_node-cases (find_device name devices)) [
        | inl missing ↦ inr (
          λ i place.
              let found = find_published devices i name few made place in
              found.1 (sym found.0 ∙ missing),
          ap (λ node. open_node node cookie s) missing,
        )
        | inr there ↦
            let (i, place) = found_published devices name made there in
            let found = find_published devices i name few made place in
            inl (i, place, ap (λ node. open_node node cookie s) found.0, found.1)
      ]
