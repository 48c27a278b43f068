-- ===== src/Pool/Safety.antt =====
-- What holds in every state that threads in `IntrSafePool` can reach.
use nvidia_haiku.Prelude.{
  ℕ, ◌≤◌, ◌≡◌, ◌⊎◌, inl, inr, refl, List, [], ◌∷◌, ◌++◌, Option, arith, ◌≢◌, subst, sym, ap, ◌∙◌,
}
use nvidia_haiku.Pool.Group.{Block, done, empty-IsGroup}
use nvidia_haiku.Pool.State.{Pool, init, alloc, group_max_item_count, reclaim_max_item_count}
use nvidia_haiku.Pool.Maintain.{Window, Segment, returns, start, resume}
use nvidia_haiku.Pool.System.{
  System, Gives, Reach, initial, next, Inv, Step-Inv, alloc-Allocated, SegInv, AtMostOne-IsOpen,
  start-returns, start-drains, resume-SegInv, AtMostOne,
}

pub init-Inv : Inv (record { pool = init; active = [] })
unfolding init
init-Inv = record {
  valid = record {
    groups_ok = (
      empty-IsGroup group_max_item_count 16,
      (
        empty-IsGroup group_max_item_count 32,
        (empty-IsGroup group_max_item_count 64, (empty-IsGroup group_max_item_count 128, tt)),
      ),
    );
    reclaim_ok = empty-IsGroup reclaim_max_item_count 0;
  };
  one = refl;
}

-- In every reachable state each group's count is within its array, group `i` holds blocks of at
-- least 16 * 2^i bytes, at most one call of `Maintain` is at work and the level counts it, and a
-- call that waits for `calloc` is at a group that still has room for the block.
pub Reach-Inv : {s : System} → Reach s → Inv s
Reach-Inv initial = init-Inv
Reach-Inv (next r st) = Step-Inv st (Reach-Inv r)

-- In every reachable state a block that `Alloc` gives out is as large as was asked for.
pub alloc_enough :
    {s : System} (size : ℕ) {q : Pool} {b : Block}
    → Reach s
    → alloc size s.pool ≡ done (q, b)
    → size ≤ b.size
alloc_enough {s} size r e = (alloc-Allocated size s.pool (Reach-Inv r).valid e).enough

level_of : (p : Pool) (w : Window) (ws : List Window) → AtMostOne p (w ∷ ws) → p.level ≡ 1
level_of p w [] one = one.0
level_of p w (u ∷ ws) one = absurd one

-- In every reachable state a new call of `Maintain` runs without a panic: it returns at once and
-- changes nothing while another call is at work, and otherwise runs with the level at 1.
pub start_runs :
    {s : System}
    → Reach s
    → ((s.active ≢ []) × (start s.pool ≡ done (returns s.pool)))
      ⊎ ((s.active ≡ []) × ((seg : Segment) × (start s.pool ≡ done seg) × SegInv seg))
start_runs {s} r = go s.active refl
  where
    v : Inv s
    v = Reach-Inv r

    go :
        (ws : List Window)
        → s.active ≡ ws
        → ((s.active ≢ []) × (start s.pool ≡ done (returns s.pool)))
          ⊎ ((s.active ≡ []) × ((seg : Segment) × (start s.pool ≡ done seg) × SegInv seg))
    go [] e = inr (e, start-drains s.pool v.valid (subst (AtMostOne s.pool) e v.one))
    go (w ∷ ws) e = inl (
      λ f. cc (sym e ∙ f),
      start-returns s.pool (omega (arith, level_of s.pool w ws (subst (AtMostOne s.pool) e v.one)))
          ∙ ap done (ap returns (ground arith)),
    )

-- In every reachable state a call of `Maintain` that comes out of its window runs without a panic,
-- whatever `calloc` gave.
pub resume_runs :
    {s : System} (before behind : List Window) (w : Window) (ptr : Option Block)
    → Reach s
    → s.active ≡ before ++ w ∷ behind
    → Gives w ptr
    → (seg : Segment) × (resume w ptr s.pool ≡ done seg) × SegInv seg
resume_runs {s} before behind w ptr r e g =
    let v = Reach-Inv r in
    let (level, open_w, _) =
      AtMostOne-IsOpen s.pool before behind w (subst (AtMostOne s.pool) e v.one) in
    resume-SegInv w ptr s.pool v.valid level open_w g
