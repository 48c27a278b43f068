-- ===== src/Driver/Find.antt =====
-- `NvHaikuDriver::FindDevice` of nvidia_gsp/nvidia/Driver.cpp, and the names that it finds.
use nvidia_haiku.Prelude.{
  ℕ, zero, suc, ◌^◌, ◌<◌, ◌≡◌, ◌≢◌, ◌⊎◌, refl, sym, ap, ◌∙◌, true, false, List, [], ◌∷◌, Option,
  none, some, arith, leb, if◌then◌else◌, length, get_elem?, Bool-cases, Option-cases,
  some-injective, if_true, if_false, inl, inr,
}
use nvidia_haiku.Driver.Decimal.{Text}
use nvidia_haiku.Driver.Parse.{control_name, same_text, parse_device_name, parse_device_name-write}
use nvidia_haiku.Driver.Canonical.{parse_device_name-canonical, same_text-eq}
use nvidia_haiku.Driver.Names.{
  DeviceNamesArray, publish, init, device_name, until_null, published, name_all-published,
  published-first, published-later, published-only,
}

publish-published :
    (count : ℕ) {names : DeviceNamesArray}
    → publish true (λ _. true) count ≡ some names
    → until_null names ≡ published count
unfolding publish init
publish-published count e = ap until_null (sym (some-injective e)) ∙ name_all-published count

-- The class and the object that `open` is called on.
pub data DevfsNodeInstance (D : Type 0) : Type 0 where
  no_node : DevfsNodeInstance D
  control_node : DevfsNodeInstance D
  device_node : D → DevfsNodeInstance D

module _ {D : Type 0} where
  abbrev pub device_or_none : Option D → DevfsNodeInstance D
  device_or_none none = no_node
  device_or_none (some d) = device_node d

  unfoldable pub find_device : Text → List D → DevfsNodeInstance D
  unfolding parse_device_name
  find_device name devices =
      if same_text name control_name then control_node else elim (parse_device_name name) [
        | none ↦ no_node
        | some index ↦
            if leb (length devices) index then no_node else device_or_none (get_elem? devices index)
      ]

  -- The node that the name at a place of the published list stands for.
  abbrev pub node_at : List D → ℕ → DevfsNodeInstance D
  node_at devices zero = control_node
  node_at devices (suc i) = device_or_none (get_elem? devices i)

  get_elem?-some : (xs : List D) (i : ℕ) → i < length xs → (x : D) × (get_elem? xs i ≡ some x)
  get_elem?-some [] i h = absurd (omega (arith, h))
  get_elem?-some (x ∷ xs) zero h = (x, refl)
  get_elem?-some (x ∷ xs) (suc i) h = get_elem?-some xs i (omega (arith, h))

  find_device-name :
      (devices : List D) (i : ℕ)
      → length devices < 2 ^ 31
      → i < length devices
      → find_device (device_name i) devices ≡ device_or_none (get_elem? devices i)
  unfolding find_device device_name
  find_device-name devices i few h =
      let within : leb (length devices) i ≡ false = ground (arith, h) in
      rw (parse_device_name-write i (omega (arith, few, h)), find_device) (if_false _ _ within)

  -- A name that is found is the control device's or one that is written for a device.
  find_device-only :
      (devices : List D) (name : Text)
      → find_device name devices ≢ no_node
      → (name ≡ control_name) ⊎ ((i : ℕ) × (i < length devices) × (name ≡ device_name i))
  unfolding find_device device_name
  find_device-only devices name found = elim (Bool-cases (same_text name control_name)) [
    | inl q ↦ inl (same_text-eq name control_name q)
    | inr q ↦ elim (Option-cases (parse_device_name name)) [
      | inl p ↦ absurd (found (if_false _ _ q ∙ rw p refl))
      | inr (index, p) ↦ elim (Bool-cases (leb (length devices) index)) [
        | inl out ↦ absurd (found (if_false _ _ q ∙ rw p (if_true _ _ out)))
        | inr within ↦
            inr (index, ground (arith, within), (parse_device_name-canonical name index p).1)
      ]
    ]
  ]

  -- If there is memory for the names, opening the name at any place of the published list finds the
  -- control device at the first place and the device of that index at each later one, for fewer than
  -- 2^31 devices.
  pub find_published :
      (devices : List D) {names : DeviceNamesArray} (i : ℕ) (name : Text)
      → length devices < 2 ^ 31
      → publish true (λ _. true) (length devices) ≡ some names
      → get_elem? (until_null names) i ≡ some name
      → (find_device name devices ≡ node_at devices i) × (node_at devices i ≢ no_node)
  unfolding find_device
  find_published devices i name few made place =
      elim (published-only (length devices) i
        (ap (λ xs. get_elem? xs i) (sym (publish-published (length devices) made)) ∙ place)) [
          | inl (e, control) ↦ rw (e, control) (refl, λ q. cc)
          | inr (j, e, h, same) ↦
              let (d, there) = get_elem?-some devices j h in
              let node : node_at devices i ≡ device_node d = rw e (rw there refl) in
              (
                ap (λ n. find_device n devices) same
                    ∙ find_device-name devices j few h
                    ∙ sym (rw e refl),
                λ q. device≢none d (sym node ∙ q),
              )
        ]
    where
      device≢none : (d : D) → device_node d ≢ no_node
      device≢none d q = cc

  -- If there is memory for the names, a name that `FindDevice` finds a device for is one of the
  -- published names: no other spelling of an index is accepted.
  pub found_published :
      (devices : List D) {names : DeviceNamesArray} (name : Text)
      → publish true (λ _. true) (length devices) ≡ some names
      → find_device name devices ≢ no_node
      → (i : ℕ) × (get_elem? (until_null names) i ≡ some name)
  found_published devices {names = names} name made found =
      elim (find_device-only devices name found) [
        | inl control ↦ (0, all 0 ∙ first control)
        | inr (i, h, same) ↦ (suc i, all (suc i) ∙ later i h same)
      ]
    where
      all : (i : ℕ) → get_elem? (until_null names) i ≡ get_elem? (published (length devices)) i
      all i = ap (λ xs. get_elem? xs i) (publish-published (length devices) made)

      first : name ≡ control_name → get_elem? (published (length devices)) 0 ≡ some name
      first control = published-first (length devices) ∙ ap some (sym control)

      later :
          (i : ℕ)
          → i < length devices
          → name ≡ device_name i
          → get_elem? (published (length devices)) (suc i) ≡ some name
      later i h same = published-later (length devices) i h ∙ ap some (sym same)
