-- ===== src/Pool/Maintain.antt =====
-- `IntrSafePool::Maintain`, cut where it gives up the lock: around `free(ptr)`, and around
-- `calloc(1, size)`.
use nvidia_haiku.Prelude.{ℕ, zero, suc, ◌*◌, List, [], ◌∷◌, Option, none, some, ltb, if◌then◌else◌}
use nvidia_haiku.Pool.Group.{Block, Outcome, done, panicked, hung, Group}
use nvidia_haiku.Pool.Group
use nvidia_haiku.Pool.SizeClass.{min_size}
use nvidia_haiku.Pool.State.{Pool, enter, leave, group_max_item_count, reclaim_max_item_count}

-- What a call is doing while it does not hold the lock.
pub data Window : Type 0 where
  freeing : (ptr : Option Block) → Window  -- inside `fReclaimGroup.ReclaimAll`
  filling : (i size : ℕ) → Window  -- in the loop over the groups

-- How a stretch under the lock ends: the call returns, or opens a window.
pub data Segment : Type 0 where
  returns : Pool → Segment
  opens : Pool → Window → Segment

abbrev pub shift : Option (ℕ × ℕ) → Option (ℕ × ℕ)
shift none = none
shift (some (i, size)) = some (suc i, size)

-- The loop over the groups from index `i` on: the first that is not full, and its block size.
unfoldable pub scan : ℕ → ℕ → List Group → Option (ℕ × ℕ)
scan i size [] = none
scan (suc i) size (g ∷ gs) = shift (scan i size gs)
scan zero size (g ∷ gs) =
    if ltb g.count group_max_item_count then some (0, size) else shift (scan zero (size * 2) gs)

unfoldable pub fill : ℕ → ℕ → Pool → Segment
fill i size p = elim (scan i size p.groups) [
  | none ↦ returns (leave p)
  | some (j, size') ↦ opens p (filling j size')
]

-- `fReclaimGroup.ReclaimAll(fSpinlock)`, and the loop over the groups when nothing is left.
unfoldable pub drain : Pool → Outcome Segment
drain p = elim (Group.reclaim reclaim_max_item_count p.reclaim_group) [
  | panicked ↦ panicked
  | hung ↦ hung
  | done (g, some ptr) ↦ done (opens (record p { reclaim_group = g }) (freeing ptr))
  | done (g, none) ↦ done (fill 0 min_size (record p { reclaim_group = g }))
]

-- From the call up to the first window. A second call returns at once.
unfoldable pub start : Pool → Outcome Segment
start p = if ltb 0 p.level then done (returns (leave (enter p))) else drain (enter p)

unfoldable pub put_at : ℕ → Option Block → List Group → List Group
put_at i ptr [] = []
put_at zero ptr (g ∷ gs) = Group.put g ptr ∷ gs
put_at (suc i) ptr (g ∷ gs) = g ∷ put_at i ptr gs

-- From the end of a window on, `ptr` being what `calloc` returned.
unfoldable pub resume : Window → Option Block → Pool → Outcome Segment
resume (freeing _) ptr p = drain p
resume (filling i size) ptr p = done (fill i size (record p { groups = put_at i ptr p.groups }))
