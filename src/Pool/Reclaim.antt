-- ===== src/Pool/Reclaim.antt =====
-- `IntrSafePool::ReclaimAll`, which the driver's destructor calls when nobody else is at work.
use nvidia_haiku.Prelude.{
  ℕ, zero, suc, ◌-◌, ◌*◌, ◌≤◌, ◌<◌, ◌≡◌, ◌⊎◌, inl, inr, refl, sym, ap, ◌∙◌, subst, List, [], ◌∷◌,
  ◌++◌, Option, none, some, arith, get_or, set,
}
use nvidia_haiku.Pool.Group.{
  Block, Outcome, done, panicked, hung, map_outcome, Group, IsGroup, reclaim-IsGroup,
}
use nvidia_haiku.Pool.Group
use nvidia_haiku.Pool.SizeClass.{min_size}
use nvidia_haiku.Pool.State.{Pool, group_max_item_count, reclaim_max_item_count}
use nvidia_haiku.Pool.Invariant.{AreGroups, IsPool}

abbrev pub and_then {ℓ κ} : {A : Type ℓ} {B : Type κ} → Outcome A → (A → Outcome B) → Outcome B
and_then (done a) f = f a
and_then panicked f = panicked
and_then hung f = hung

-- The loop over the groups.
unfoldable pub reclaim_groups : List Group → Outcome (List Group × List (Option Block))
unfolding Group.reclaim_all
reclaim_groups [] = done ([], [])
reclaim_groups (g ∷ gs) =
    let rest = reclaim_groups gs in
    and_then (Group.reclaim_all (suc group_max_item_count) group_max_item_count g)
      (λ r. map_outcome (λ q. (r.0 ∷ q.0, r.1 ++ q.1)) rest)

-- The pool, and the pointers in the order in which they are freed.
unfoldable pub reclaim_all : Pool → Outcome (Pool × List (Option Block))
unfolding Group.reclaim_all reclaim_groups
reclaim_all p =
    and_then (Group.reclaim_all (suc reclaim_max_item_count) reclaim_max_item_count p.reclaim_group)
      (λ r.
        map_outcome (λ q. (record p { groups = q.0; reclaim_group = r.0 }, r.1 ++ q.1))
          (reclaim_groups p.groups))

-- The first `n` pointers of a group, the last first.
unfoldable pub top_first : ℕ → List (Option Block) → List (Option Block)
top_first zero ps = []
top_first (suc n) ps = get_or ps n none ∷ top_first n ps

get_or-set_ne :
    (ps : List (Option Block)) (i j : ℕ) (p : Option Block)
    → i < j
    → get_or (set ps j p) i none ≡ get_or ps i none
get_or-set_ne [] i j p h = refl
get_or-set_ne (q ∷ ps) i zero p h = absurd (omega (arith, h))
get_or-set_ne (q ∷ ps) zero (suc j) p h = refl
get_or-set_ne (q ∷ ps) (suc i) (suc j) p h = get_or-set_ne ps i j p (omega (arith, h))

top_first-set :
    (n j : ℕ) (ps : List (Option Block)) (p : Option Block)
    → n ≤ j
    → top_first n (set ps j p) ≡ top_first n ps
unfolding top_first
top_first-set zero j ps p h = refl
top_first-set (suc n) j ps p h =
    rw (get_or-set_ne ps n j p (omega (arith, h)), top_first-set n j ps p (omega (arith, h))) refl

-- A group that is left empty, and what was in it.
record Emptied (max_item_count size : ℕ) (g : Group) (r : Group × List (Option Block))
    : Type 0 where
  still : IsGroup max_item_count size r.0
  count_zero : r.0.count ≡ 0
  freed : r.1 ≡ top_first g.count g.items

-- A group without its last pointer.
abbrev popped : Group → Group
popped g = record g { count = g.count - 1; items = set g.items (g.count - 1) none }

reclaim-popped :
    (max_item_count size : ℕ) (g : Group)
    → IsGroup max_item_count size g
    → 0 < g.count
    → (Group.reclaim max_item_count g ≡ done (popped g, some (get_or g.items (g.count - 1) none)))
      × IsGroup max_item_count size (popped g)
unfolding Group.reclaim
reclaim-popped m size g v h = elim (reclaim-IsGroup m size g v) [
  | inl e ↦ absurd (omega (arith, e.1, h))
  | inr (g', ptr, e, _, w) ↦
      let run : Group.reclaim m g ≡ done (popped g, some (get_or g.items (g.count - 1) none)) =
        ground (arith, v.within, h) in
      (run, subst (IsGroup m size) (fst_done (sym e ∙ run)) w)
]
  where
    fst_done : {a b : Group × Option (Option Block)} → done a ≡ done b → a.0 ≡ b.0
    fst_done e = cc

top_first-popped :
    (g : Group)
    → 0 < g.count
    → top_first g.count g.items
      ≡ get_or g.items (g.count - 1) none ∷ top_first (g.count - 1) (popped g).items
unfolding top_first
top_first-popped g h =
    let last : g.count ≡ suc (g.count - 1) = omega (arith, h) in
    ap (λ n. top_first n g.items) last ∙ step (g.count - 1)
  where
    step :
        (n : ℕ)
        → top_first (suc n) g.items ≡ get_or g.items n none ∷ top_first n (set g.items n none)
    step n = rw (top_first-set n n g.items none (omega arith), top_first) refl

group_reclaim_all :
    (rounds max_item_count size : ℕ) (g : Group)
    → IsGroup max_item_count size g
    → g.count < rounds
    → (r : Group × List (Option Block)) × (Group.reclaim_all rounds max_item_count g ≡ done r)
      × Emptied max_item_count size g r
unfolding Group.reclaim_all Group.reclaim top_first
group_reclaim_all zero m size g v h = absurd (omega (arith, h))
group_reclaim_all (suc rounds) m size g v h = elim (zero_or_pos g.count) [
  | inl e ↦ (
    (g, []),
    rw (empty_run e, Group.reclaim_all) refl,
    record { still = v; count_zero = e; freed = rw e refl },
  )
  | inr pos ↦
      let (run, w) = reclaim-popped m size g v pos in
      let (r, all, done') = group_reclaim_all rounds m size (popped g) w (omega (arith, h, pos)) in
      (
        (r.0, get_or g.items (g.count - 1) none ∷ r.1),
        rw (run, Group.reclaim_all) (rw all refl),
        record {
          still = done'.still;
          count_zero = done'.count_zero;
          freed =
              ap (◌∷◌ (get_or g.items (g.count - 1) none)) done'.freed
              ∙ sym (top_first-popped g pos);
        },
      )
]
  where
    zero_or_pos : (n : ℕ) → (n ≡ 0) ⊎ (0 < n)
    zero_or_pos zero = inl refl
    zero_or_pos (suc n) = inr (omega arith)

    empty_run : g.count ≡ 0 → Group.reclaim m g ≡ done (g, none)
    empty_run e = ground arith

-- The pointers of each group, in the order in which they are freed.
unfoldable pub held : List Group → List (Option Block)
unfolding top_first
held [] = []
held (g ∷ gs) = top_first g.count g.items ++ held gs

abbrev pub AllEmpty : List Group → Type 0
AllEmpty [] = Unit {0}
AllEmpty (g ∷ gs) = (g.count ≡ 0) × AllEmpty gs

groups_reclaim_all :
    (size : ℕ) (gs : List Group)
    → AreGroups size gs
    → (q : List Group × List (Option Block)) × (reclaim_groups gs ≡ done q)
      × AreGroups size q.0
      × AllEmpty q.0
      × (q.1 ≡ held gs)
unfolding reclaim_groups held
groups_reclaim_all size [] v = (([], []), refl, tt, tt, refl)
groups_reclaim_all size (g ∷ gs) v =
    let (r, one, e) =
      group_reclaim_all (suc group_max_item_count) group_max_item_count size g v.0
        (omega (arith, v.0.within)) in
    let (q, rest, ok, empty, freed) = groups_reclaim_all (size * 2) gs v.1 in
    (
      (r.0 ∷ q.0, r.1 ++ q.1),
      rw (one, reclaim_groups) (rw rest refl),
      (e.still, ok),
      (e.count_zero, empty),
      rw (e.freed, freed) refl,
    )

-- On a well-formed pool that nobody else works on, `ReclaimAll` ends without a panic. It frees each
-- pointer that the pool holds once, those of the reclaim group first and in each group the last
-- first, and leaves a well-formed pool whose groups are all empty.
pub reclaim_all_frees :
    (p : Pool)
    → IsPool p
    → (q : Pool) × (reclaim_all p
        ≡ done (q, top_first p.reclaim_group.count p.reclaim_group.items ++ held p.groups))
      × IsPool q
      × AllEmpty (q.reclaim_group ∷ q.groups)
unfolding reclaim_all
reclaim_all_frees p v =
    let (r, one, e) =
      group_reclaim_all (suc reclaim_max_item_count) reclaim_max_item_count 0 p.reclaim_group
        v.reclaim_ok (omega (arith, v.reclaim_ok.within)) in
    let (q, rest, ok, empty, freed) = groups_reclaim_all min_size p.groups v.groups_ok in
    (
      record p { groups = q.0; reclaim_group = r.0 },
      rw (one, reclaim_all) (rw rest (rw (e.freed, freed) refl)),
      record { groups_ok = ok; reclaim_ok = e.still },
      (e.count_zero, empty),
    )
