-- ===== src/Pool/State.antt =====
-- `IntrSafePool::Alloc` and `IntrSafePool::Free`, each under the lock from beginning to end.
use nvidia_haiku.Prelude.{ℕ, zero, suc, ◌+◌, ◌-◌, List, [], ◌∷◌, Option, none, some, replicate}
use nvidia_haiku.Pool.Group.{Block, Outcome, done, panicked, hung, map_outcome, Group}
use nvidia_haiku.Pool.Group
use nvidia_haiku.Pool.SizeClass.{size_class}

abbrev pub group_count : ℕ
group_count = 4

abbrev pub group_max_item_count : ℕ
group_max_item_count = 16

abbrev pub reclaim_max_item_count : ℕ
reclaim_max_item_count = 4096

pub record Pool : Type 0 where
  pub groups : List Group
  pub reclaim_group : Group
  pub level : ℕ

unfoldable pub init : Pool
init = record {
  groups = replicate group_count (Group.empty group_max_item_count);
  reclaim_group = Group.empty reclaim_max_item_count;
  level = 0;
}

-- `fLevel++`, and `fLevel--` when the scope is left.
abbrev pub enter : Pool → Pool
enter p = record p { level = p.level + 1 }

abbrev pub leave : Pool → Pool
leave p = record p { level = p.level - 1 }

abbrev pub prepend : Group → List Group × Block → List Group × Block
prepend g (gs, b) = (g ∷ gs, b)

-- The loop over the groups: the first pointer that is not null, from group `n` on.
unfoldable pub alloc_from : ℕ → List Group → Outcome (List Group × Block)
alloc_from n [] = panicked
alloc_from (suc n) (g ∷ gs) = map_outcome (prepend g) (alloc_from n gs)
alloc_from zero (g ∷ gs) =
    let (g', ptr) = Group.alloc g in
    elim ptr [ some b ↦ done (g' ∷ gs, b) | none ↦ map_outcome (prepend g') (alloc_from zero gs) ]

-- `IntrSafePool::Alloc`.
unfoldable pub alloc : ℕ → Pool → Outcome (Pool × Block)
alloc size p = elim (size_class size) [
  | none ↦ hung
  | some n ↦
      map_outcome (λ r. (leave (record (enter p) { groups = r.0 }), r.1))
        (alloc_from n (enter p).groups)
]

-- `IntrSafePool::Free`.
unfoldable pub free : Option Block → Pool → Outcome Pool
free ptr p =
    map_outcome (λ g. leave (record (enter p) { reclaim_group = g }))
      (Group.free reclaim_max_item_count (enter p).reclaim_group ptr)
