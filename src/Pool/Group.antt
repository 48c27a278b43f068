-- ===== src/Pool/Group.antt =====
-- `IntrSafePool::Group`: a bounded stack of pointers. A pointer is `none` for null, or a block with
-- the size that it was allocated with.
use nvidia_haiku.Prelude.{
  ℕ, zero, suc, ◌+◌, ◌-◌, ◌≤◌, ◌<◌, ◌≡◌, List, [], ◌∷◌, Option, none, some, arith, leb, ltb, ◌==◌,
  if◌then◌else◌, length, get_or, set, replicate, length-set, length-replicate, Bool-cases, ◌∙◌, ◌⊎◌,
  inl, inr,
}

pub record Block : Type 0 where
  pub address : ℕ
  pub size : ℕ

-- What a call ends in: a result, a kernel panic, or a loop that never ends.
pub data Outcome {ℓ} (A : Type ℓ) : Type ℓ where
  done : A → Outcome A
  panicked : Outcome A
  hung : Outcome A

abbrev pub map_outcome {ℓ κ} : {A : Type ℓ} {B : Type κ} → (A → B) → Outcome A → Outcome B
map_outcome f (done a) = done (f a)
map_outcome f panicked = panicked
map_outcome f hung = hung

pub record Group : Type 0 where
  pub count : ℕ
  pub items : List (Option Block)

unfoldable pub empty : ℕ → Group
empty max_item_count = record { count = 0; items = replicate max_item_count none }

-- `Group::Alloc`.
unfoldable pub alloc : Group → Group × Option Block
alloc g = if g.count == 0 then (g, none) else (
  record g { count = g.count - 1; items = set g.items (g.count - 1) none },
  get_or g.items (g.count - 1) none,
)

-- `items[count] = ptr; count++`.
unfoldable pub put : Group → Option Block → Group
put g ptr = record g { count = g.count + 1; items = set g.items g.count ptr }

-- `Group::Free`.
unfoldable pub free : ℕ → Group → Option Block → Outcome Group
free max_item_count g ptr = if leb max_item_count g.count then panicked else done (put g ptr)

-- One round of `Group::ReclaimAll`, up to the release of the lock around `free(ptr)`: the pointer
-- to free, or nothing if the group is empty.
unfoldable pub reclaim : ℕ → Group → Outcome (Group × Option (Option Block))
reclaim max_item_count g =
    if g.count == 0
    then done (g, none)
    else if ltb max_item_count g.count
    then panicked
    else done (
      record g { count = g.count - 1; items = set g.items (g.count - 1) none },
      some (get_or g.items (g.count - 1) none),
    )

-- `Group::ReclaimAll` with nobody else at work: the group, and the pointers in the order in which
-- they are freed. The first argument is the number of rounds left.
unfoldable pub reclaim_all : ℕ → ℕ → Group → Outcome (Group × List (Option Block))
reclaim_all zero max_item_count g = hung
reclaim_all (suc rounds) max_item_count g = elim (reclaim max_item_count g) [
  | panicked ↦ panicked
  | hung ↦ hung
  | done (g', none) ↦ done (g', [])
  | done (g', some ptr) ↦ map_outcome (λ r. (r.0, ptr ∷ r.1)) (reclaim_all rounds max_item_count g')
]

-- A block holds at least `size` bytes; a null pointer is no block.
abbrev pub IsLarge : ℕ → Option Block → Type 0
IsLarge size none = Unit {0}
IsLarge size (some b) = size ≤ b.size

abbrev pub AllLarge : ℕ → List (Option Block) → Type 0
AllLarge size [] = Unit {0}
AllLarge size (p ∷ ps) = IsLarge size p × AllLarge size ps

-- The stack pointer stays within the array, and all blocks have at least `size` bytes.
pub record IsGroup (max_item_count size : ℕ) (g : Group) : Type 0 where
  pub within : g.count ≤ max_item_count
  pub fixed : length g.items ≡ max_item_count
  pub large : AllLarge size g.items

set-AllLarge :
    (size : ℕ) (ps : List (Option Block)) (i : ℕ) (p : Option Block)
    → AllLarge size ps
    → IsLarge size p
    → AllLarge size (set ps i p)
set-AllLarge size [] i p h l = tt
set-AllLarge size (q ∷ ps) zero p h l = (l, h.1)
set-AllLarge size (q ∷ ps) (suc i) p h l = (h.0, set-AllLarge size ps i p h.1 l)

get_or-AllLarge :
    (size : ℕ) (ps : List (Option Block)) (i : ℕ)
    → AllLarge size ps
    → IsLarge size (get_or ps i none)
get_or-AllLarge size [] i h = tt
get_or-AllLarge size (q ∷ ps) zero h = h.0
get_or-AllLarge size (q ∷ ps) (suc i) h = get_or-AllLarge size ps i h.1

pub empty-IsGroup : (max_item_count size : ℕ) → IsGroup max_item_count size (empty max_item_count)
unfolding empty
empty-IsGroup max_item_count size = record {
  within = omega arith;
  fixed = length-replicate max_item_count none;
  large = nulls max_item_count;
}
  where
    nulls : (n : ℕ) → AllLarge size (replicate n none)
    nulls zero = tt
    nulls (suc n) = (tt, nulls n)

-- `Group::Alloc` keeps the group well formed, and what it gives out is large enough.
pub alloc-IsGroup :
    (max_item_count size : ℕ) (g : Group)
    → IsGroup max_item_count size g
    → IsGroup max_item_count size (alloc g).0 × IsLarge size (alloc g).1
unfolding alloc
alloc-IsGroup m size g v = ground (
  arith,
  length-set g.items (g.count - 1) none,
  set-AllLarge size g.items (g.count - 1) none v.large,
  get_or-AllLarge size g.items (g.count - 1) v.large,
)

pub put-IsGroup :
    (max_item_count size : ℕ) (g : Group) (ptr : Option Block)
    → IsGroup max_item_count size g
    → g.count < max_item_count
    → IsLarge size ptr
    → IsGroup max_item_count size (put g ptr)
unfolding put
put-IsGroup m size g ptr v h l = record {
  within = omega (arith, h);
  fixed = length-set g.items g.count ptr ∙ v.fixed;
  large = set-AllLarge size g.items g.count ptr v.large l;
}

-- A round of `Group::ReclaimAll` does not panic, keeps the group well formed, and takes one pointer.
pub reclaim-IsGroup :
    (max_item_count size : ℕ) (g : Group)
    → IsGroup max_item_count size g
    → ((reclaim max_item_count g ≡ done (g, none)) × (g.count ≡ 0))
      ⊎ ((g' : Group) × (ptr : Option Block) × (reclaim max_item_count g ≡ done (g', some ptr))
          × (g.count ≡ suc g'.count)
          × IsGroup max_item_count size g')
unfolding reclaim
reclaim-IsGroup m size g v = elim (Bool-cases (g.count == 0)) [
  | inl e ↦ inl (rw e, ground arith)
  | inr e ↦ inr (
    record g { count = g.count - 1; items = set g.items (g.count - 1) none },
    get_or g.items (g.count - 1) none,
    ground arith,
    ground arith,
    record {
      within = omega (arith, v.within);
      fixed = length-set g.items (g.count - 1) none ∙ v.fixed;
      large = set-AllLarge size g.items (g.count - 1) none v.large tt;
    },
  )
]
