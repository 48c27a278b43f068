-- ===== src/Driver/Names.antt =====
-- nvidia_gsp/DeviceNamesArray.{h,cpp}, and the part of `NvHaikuDriver::Init` that names the devices.
-- A pointer to a name is null or the name; `memory` says of each call whether the allocator gave
-- memory.
use mathlib.Core.Option
use nvidia_haiku.Prelude.{
  ℕ, zero, suc, ◌+◌, ◌<◌, ◌≡◌, refl, sym, ap, ◌∙◌, Bool, true, List, [], ◌∷◌, ◌++◌, Option, none,
  some, arith, if◌then◌else◌, length, get_elem?, set, replicate, length-append, map, none≢some,
  some-injective, ◌⊎◌, inl, inr,
}
use nvidia_haiku.Driver.Decimal.{Text, write_digits}
use nvidia_haiku.Driver.Parse.{device_name_prefix, control_name}

-- `fNames`, its final null included.
abbrev pub DeviceNamesArray : Type 0
DeviceNamesArray = List (Option Text)

-- `DeviceNamesArray::Init`, without the names that it deletes first: nothing without memory.
unfoldable pub init : Bool → ℕ → Option DeviceNamesArray
init memory count = if memory then some (replicate (count + 1) none) else none

-- `DeviceNamesArray::SetName`: without memory the array stays as it is.
unfoldable pub set_name : Bool → ℕ → Text → DeviceNamesArray → DeviceNamesArray
set_name memory index name names = if memory then set names index (some name) else names

-- `sprintf(name, NVIDIA_DEVIVE_NAME "%" B_PRId32, i)`. An `int32` has at most 10 digits.
unfoldable pub device_name : ℕ → Text
unfolding write_digits
device_name i = device_name_prefix ++ write_digits 10 i

-- The loop over the devices from `i` on, `remaining` of them.
unfoldable pub name_devices : (ℕ → Bool) → ℕ → ℕ → DeviceNamesArray → DeviceNamesArray
unfolding set_name device_name
name_devices memory zero i names = names
name_devices memory (suc remaining) i names =
    name_devices memory remaining (i + 1) (set_name (memory (1 + i)) (1 + i) (device_name i) names)

-- The array that `NvHaikuDriver::Init` leaves for so many devices.
unfoldable pub name_all : (ℕ → Bool) → ℕ → DeviceNamesArray → DeviceNamesArray
unfolding set_name name_devices
name_all memory count names = name_devices memory count 0 (set_name (memory 0) 0 control_name names)

-- The naming in `NvHaikuDriver::Init`.
unfoldable pub publish : Bool → (ℕ → Bool) → ℕ → Option DeviceNamesArray
unfolding init name_all
publish array_memory memory count =
    Option.map (name_all memory count) (init array_memory (1 + count))

-- What the caller of `PublishDevices` reads: the names up to the first null.
unfoldable pub until_null : DeviceNamesArray → List Text
until_null [] = []
until_null (none ∷ names) = []
until_null (some name ∷ names) = name ∷ until_null names

-- The names of the devices from `i` on.
pub names_from : ℕ → ℕ → List Text
unfolding device_name
names_from zero i = []
names_from (suc n) i = device_name i ∷ names_from n (i + 1)

set-next :
    (xs : List Text) (name : Text) (rest : DeviceNamesArray)
    → set (map some xs ++ none ∷ rest) (length xs) (some name) ≡ map some (xs ++ name ∷ []) ++ rest
set-next [] name rest = refl
set-next (x ∷ xs) name rest = ap (◌∷◌ (some x)) (set-next xs name rest)

append-cons : (xs ys : List Text) (x : Text) → (xs ++ x ∷ []) ++ ys ≡ xs ++ x ∷ ys
append-cons [] ys x = refl
append-cons (y ∷ xs) ys x = ap (◌∷◌ y) (append-cons xs ys x)

append-nil : (xs : List Text) → xs ++ [] ≡ xs
append-nil [] = refl
append-nil (x ∷ xs) = ap (◌∷◌ x) (append-nil xs)

-- With memory, the loop fills the free places one after the other.
name_devices-fills :
    (n i : ℕ) (xs : List Text)
    → length xs ≡ 1 + i
    → name_devices (λ _. true) n i (map some xs ++ replicate (suc n) none)
      ≡ map some (xs ++ names_from n i) ++ none ∷ []
unfolding name_devices set_name names_from
name_devices-fills zero i xs e = ap (λ ys. map some ys ++ none ∷ []) (sym (append-nil xs))
name_devices-fills (suc n) i xs e =
    let placed : set (map some xs ++ replicate (suc (suc n)) none) (1 + i) (some (device_name i))
        ≡ map some (xs ++ device_name i ∷ []) ++ replicate (suc n) none =
      ap (λ j. set (map some xs ++ replicate (suc (suc n)) none) j (some (device_name i))) (sym e)
      ∙ set-next xs (device_name i) (replicate (suc n) none) in
    ap (name_devices (λ _. true) n (i + 1)) placed
    ∙ name_devices-fills n (i + 1) (xs ++ device_name i ∷ [])
        (length-append xs (device_name i ∷ []) ∙ omega (arith, e))
    ∙ ap (λ ys. map some ys ++ none ∷ []) (append-cons xs (names_from n (i + 1)) (device_name i))

until_null-all : (xs : List Text) → until_null (map some xs ++ none ∷ []) ≡ xs
unfolding until_null
until_null-all [] = refl
until_null-all (x ∷ xs) = ap (◌∷◌ x) (until_null-all xs)

-- With memory, the published names are that of the control device and those of the devices.
pub published : ℕ → List Text
published count = control_name ∷ names_from count 0

pub name_all-published :
    (count : ℕ)
    → until_null (name_all (λ _. true) count (replicate (1 + count + 1) none)) ≡ published count
unfolding name_all set_name published
name_all-published count =
    let size : 1 + count + 1 ≡ suc (suc count) = omega arith in
    ap (λ n. until_null (name_all (λ _. true) count (replicate n none))) size
    ∙ ap until_null (name_devices-fills count 0 (control_name ∷ []) refl)
    ∙ until_null-all (published count)

pub get_elem?-names_from :
    (n i j : ℕ) → j < n → get_elem? (names_from n i) j ≡ some (device_name (i + j))
unfolding names_from
get_elem?-names_from zero i j h = absurd (omega (arith, h))
get_elem?-names_from (suc n) i zero h =
    let same : i ≡ i + 0 = omega arith in ap (λ k. some (device_name k)) same
get_elem?-names_from (suc n) i (suc j) h =
    let same : i + 1 + j ≡ i + suc j = omega arith in
    get_elem?-names_from n (i + 1) j (omega (arith, h)) ∙ ap (λ k. some (device_name k)) same

pub get_elem?-names_from_lt :
    (n i j : ℕ) {name : Text} → get_elem? (names_from n i) j ≡ some name → j < n
unfolding names_from
get_elem?-names_from_lt zero i j e = absurd (none≢some e)
get_elem?-names_from_lt (suc n) i zero e = omega arith
get_elem?-names_from_lt (suc n) i (suc j) e = omega (arith, get_elem?-names_from_lt n (i + 1) j e)

pub published-first : (count : ℕ) → get_elem? (published count) 0 ≡ some control_name
unfolding published
published-first count = refl

pub published-later :
    (count i : ℕ) → i < count → get_elem? (published count) (suc i) ≡ some (device_name i)
unfolding published
published-later count i h =
    let same : 0 + i ≡ i = omega arith in
    get_elem?-names_from count 0 i h ∙ ap (λ k. some (device_name k)) same

-- There is no other name.
pub published-only :
    (count i : ℕ) {name : Text}
    → get_elem? (published count) i ≡ some name
    → ((i ≡ 0) × (name ≡ control_name))
      ⊎ ((j : ℕ) × (i ≡ suc j) × (j < count) × (name ≡ device_name j))
unfolding published
published-only count zero e = inl (refl, sym (some-injective e))
published-only count (suc j) e =
    inr (j, refl, within, sym (some-injective (sym (published-later count j within) ∙ e)))
  where
    within : j < count
    within = get_elem?-names_from_lt count 0 j e
