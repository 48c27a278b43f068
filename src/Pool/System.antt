-- ===== src/Pool/System.antt =====
-- Any number of threads in `Alloc`, `Free` and `Maintain` at once: a call of the first two is one
-- step, and `Maintain` is a step for each stretch under the lock.
use nvidia_haiku.Prelude.{
  ℕ, ◌*◌, ◌^◌, ◌≤◌, ◌<◌, ◌≡◌, inl, inr, refl, sym, ◌∙◌, List, [], ◌∷◌, ◌++◌, Option, none, some,
  arith, Bool-cases, ltb, leb, leb→le, lt→ltb, subst, false,
}
use nvidia_haiku.Pool.Group.{
  Block, Outcome, done, panicked, hung, map_outcome, Group, IsLarge, IsGroup, put-IsGroup,
  reclaim-IsGroup, empty-IsGroup,
}
use nvidia_haiku.Pool.Group
use nvidia_haiku.Pool.SizeClass.{min_size, size_class, size_class_least, size_class-none}
use nvidia_haiku.Pool.State.{
  Pool, init, enter, leave, alloc, free, alloc_from, reclaim_max_item_count,
}
use nvidia_haiku.Pool.Maintain.{
  Window, freeing, filling, Segment, returns, opens, start, drain, fill, scan, resume,
}
use nvidia_haiku.Pool.Invariant.{
  HasRoom, HasRoom-size, IsPool, GivenBy, alloc_from-Given, FoundRoom, scan-FoundRoom,
  put_at-AreGroups,
}

-- The pool, and the calls of `Maintain` that are in a window.
pub record System : Type 0 where
  pub pool : Pool
  pub active : List Window

abbrev pub after : Segment → List Window → System
after (returns p) ws = record { pool = p; active = ws }
after (opens p w) ws = record { pool = p; active = w ∷ ws }

-- `calloc(1, size)` gives null or a block of at least `size` bytes.
abbrev pub Gives : Window → Option Block → Type 0
Gives (freeing _) ptr = Unit {0}
Gives (filling i size) ptr = IsLarge size ptr

pub data Step (s : System) : System → Type 0 where
  allocs :
      (size : ℕ) {p : Pool} {b : Block}
      → alloc size s.pool ≡ done (p, b)
      → Step s (record s { pool = p })
  frees :
      (ptr : Option Block) {p : Pool} → free ptr s.pool ≡ done p → Step s (record s { pool = p })
  starts : {seg : Segment} → start s.pool ≡ done seg → Step s (after seg s.active)
  resumes :
      (before behind : List Window) (w : Window) (ptr : Option Block) {seg : Segment}
      → s.active ≡ before ++ w ∷ behind
      → Gives w ptr
      → resume w ptr s.pool ≡ done seg
      → Step s (after seg (before ++ behind))

pub data Reach : System → Type 0 where
  initial : Reach (record { pool = init; active = [] })
  next : {s t : System} → Reach s → Step s t → Reach t

-- A window in the loop over the groups is at a group that has room.
abbrev pub IsOpen : Pool → Window → Type 0
IsOpen p (freeing _) = Unit {0}
IsOpen p (filling i size) = HasRoom min_size i size p.groups

-- The one call of `Maintain` that is at work.
abbrev pub AtMostOne : Pool → List Window → Type 0
AtMostOne p [] = p.level ≡ 0
AtMostOne p (w ∷ []) = (p.level ≡ 1) × IsOpen p w
AtMostOne p (w ∷ v ∷ ws) = ⊥

pub record Inv (s : System) : Type 0 where
  pub valid : IsPool s.pool
  pub one : AtMostOne s.pool s.active

-- A stretch of `Maintain` that runs with the level at 1 returns at 0, or opens a window at 1.
abbrev pub SegInv : Segment → Type 0
SegInv (returns p) = IsPool p × (p.level ≡ 0)
SegInv (opens p w) = IsPool p × (p.level ≡ 1) × IsOpen p w

fill-SegInv :
    (i size : ℕ) (p : Pool)
    → IsPool p
    → p.level ≡ 1
    → size ≡ min_size * 2 ^ i
    → SegInv (fill i size p)
unfolding fill
fill-SegInv i size p v l e =
    go (scan i size p.groups) refl (scan-FoundRoom min_size i size p.groups e)
  where
    go :
        (r : Option (ℕ × ℕ))
        → scan i size p.groups ≡ r
        → FoundRoom min_size p.groups r
        → SegInv (fill i size p)
    go none q h =
        rw (q, fill) (record { groups_ok = v.groups_ok; reclaim_ok = v.reclaim_ok }, omega arith)
    go (some (j, z)) q h = rw (q, fill) (v, l, h)

-- `Maintain` does not panic.
pub drain-SegInv :
    (p : Pool) → IsPool p → p.level ≡ 1 → (seg : Segment) × (drain p ≡ done seg) × SegInv seg
unfolding drain
drain-SegInv p v l = elim (reclaim-IsGroup reclaim_max_item_count 0 p.reclaim_group v.reclaim_ok) [
  | inl (e, _) ↦ (fill 0 min_size p, rw (e, drain), fill-SegInv 0 min_size p v l refl)
  | inr (g, ptr, e, _, vg) ↦ (
    opens (record p { reclaim_group = g }) (freeing ptr),
    rw (e, drain),
    (record { groups_ok = v.groups_ok; reclaim_ok = vg }, l, tt),
  )
]

pub resume-SegInv :
    (w : Window) (ptr : Option Block) (p : Pool)
    → IsPool p
    → p.level ≡ 1
    → IsOpen p w
    → Gives w ptr
    → (seg : Segment) × (resume w ptr p ≡ done seg) × SegInv seg
unfolding resume
resume-SegInv (freeing _) ptr p v l o g = drain-SegInv p v l
resume-SegInv (filling i size) ptr p v l o g = (
  _,
  refl,
  fill-SegInv i size _
      (record {
        groups_ok = put_at-AreGroups min_size i size ptr p.groups v.groups_ok o g;
        reclaim_ok = v.reclaim_ok;
      })
      l (HasRoom-size min_size i size p.groups o),
)

after-Inv : (seg : Segment) → SegInv seg → Inv (after seg [])
after-Inv (returns p) h = record { valid = h.0; one = h.1 }
after-Inv (opens p w) h = record { valid = h.0; one = (h.1, h.2) }

pub done-injective {ℓ} : {A : Type ℓ} {a b : A} → done a ≡ done b → a ≡ b
done-injective e = cc

-- A stretch that ends in `seg` by one lemma ends in no other segment.
SegInv-unique :
    {r : Outcome Segment} {seg : Segment}
    → (s : Segment) × (r ≡ done s) × SegInv s
    → r ≡ done seg
    → SegInv seg
SegInv-unique (s, e, h) q = subst SegInv (done-injective (sym e ∙ q)) h

-- An allocation or a release leaves the windows open.
Inv-keeps :
    (p q : Pool) (ws : List Window)
    → IsPool q
    → q.level ≡ p.level
    → ((i size : ℕ) → HasRoom min_size i size p.groups → HasRoom min_size i size q.groups)
    → AtMostOne p ws
    → Inv (record { pool = q; active = ws })
Inv-keeps p q [] v l room one = record { valid = v; one = l ∙ one }
Inv-keeps p q (freeing _ ∷ []) v l room one = record { valid = v; one = (l ∙ one.0, tt) }
Inv-keeps p q (filling i size ∷ []) v l room one = record {
  valid = v;
  one = (l ∙ one.0, room i size one.1);
}
Inv-keeps p q (w ∷ u ∷ ws) v l room one = absurd one

-- What `Alloc` leaves and gives out, whatever the size.
pub record Allocated (size : ℕ) (p q : Pool) (b : Block) : Type 0 where
  pub valid : IsPool q
  pub level : q.level ≡ p.level
  pub room : (i z : ℕ) → HasRoom min_size i z p.groups → HasRoom min_size i z q.groups
  pub enough : size ≤ b.size

pub alloc-Allocated :
    (size : ℕ) (p : Pool) {q : Pool} {b : Block}
    → IsPool p
    → alloc size p ≡ done (q, b)
    → Allocated size p q b
unfolding alloc
alloc-Allocated size p {q} {b} v e = elim (Bool-cases (leb size (2 ^ 63))) [
  | inl small ↦
      let (n, found, fits, _) = size_class_least size (leb→le _ _ small) in
      go n fits (alloc_from n p.groups) (alloc_from-Given min_size n p.groups v.groups_ok)
        (rw (found, alloc) at e)
  | inr large ↦
      let hangs : size_class size ≡ none = size_class-none size (ground arith) in
      cc (rw (hangs, alloc) at e)
]
  where
    finish : List Group × Block → Pool × Block
    finish r = (leave (record (enter p) { groups = r.0 }), r.1)

    go :
        (n : ℕ)
        → size ≤ min_size * 2 ^ n
        → (r : Outcome (List Group × Block)) → GivenBy min_size n p.groups r
        → map_outcome finish r ≡ done (q, b)
        → Allocated size p q b
    go n fits (done (gs, c)) g e =
        subst (λ x. Allocated size p x.0 x.1) (done-injective e)
          (record {
            valid = record { groups_ok = g.still; reclaim_ok = v.reclaim_ok };
            level = omega arith;
            room = g.room;
            enough = omega (arith, fits, g.enough);
          })
    go n fits panicked g e = cc
    go n fits hung g e = absurd g

free-IsPool :
    (ptr : Option Block) (p : Pool) {q : Pool}
    → IsPool p
    → free ptr p ≡ done q
    → IsPool q × (q.level ≡ p.level) × (q.groups ≡ p.groups)
unfolding free Group.free
free-IsPool ptr p v e = elim (Bool-cases (leb reclaim_max_item_count p.reclaim_group.count)) [
  | inl full ↦ cc (rw full at e)
  | inr room ↦
      subst (λ x. IsPool x × (x.level ≡ p.level) × (x.groups ≡ p.groups))
        (done-injective (rw room at e))
        (
          record {
            groups_ok = v.groups_ok;
            reclaim_ok =
                put-IsGroup reclaim_max_item_count 0 p.reclaim_group ptr v.reclaim_ok (ground arith)
                  (IsLarge_any ptr);
          },
          omega arith,
          refl,
        )
]
  where
    IsLarge_any : (x : Option Block) → IsLarge 0 x
    IsLarge_any none = tt
    IsLarge_any (some b) = omega arith

-- A window that is open is the only one.
pub AtMostOne-IsOpen :
    (p : Pool) (before behind : List Window) (w : Window)
    → AtMostOne p (before ++ w ∷ behind)
    → (p.level ≡ 1) × IsOpen p w × (before ++ behind ≡ [])
AtMostOne-IsOpen p [] [] w one = (one.0, one.1, refl)
AtMostOne-IsOpen p [] (u ∷ behind) w one = absurd one
AtMostOne-IsOpen p (u ∷ []) behind w one = absurd one
AtMostOne-IsOpen p (u ∷ x ∷ before) behind w one = absurd one

pub start-returns : (p : Pool) → 0 < p.level → start p ≡ done (returns (leave (enter p)))
unfolding start
start-returns p h = rw (lt→ltb 0 p.level h)

pub start-drains :
    (p : Pool) → IsPool p → p.level ≡ 0 → (seg : Segment) × (start p ≡ done seg) × SegInv seg
unfolding start
start-drains p v l =
    let zero_level : ltb 0 p.level ≡ false = ground arith in
    rw (zero_level, start)
      (drain-SegInv (enter p) (record { groups_ok = v.groups_ok; reclaim_ok = v.reclaim_ok })
        (omega arith))

start-Inv :
    (p : Pool) (ws : List Window) {seg : Segment}
    → IsPool p
    → AtMostOne p ws
    → start p ≡ done seg
    → Inv (after seg ws)
start-Inv p [] v one e = after-Inv _ (SegInv-unique (start-drains p v one) e)
start-Inv p (w ∷ []) v one e =
    subst (λ x. Inv (after x (w ∷ []))) (done-injective (sym (start-returns p (omega arith)) ∙ e))
      (Inv-keeps p _ (w ∷ []) (record { groups_ok = v.groups_ok; reclaim_ok = v.reclaim_ok })
        (omega arith) (λ i z h. h) one)
start-Inv p (w ∷ u ∷ ws) v one e = absurd one

resume-Inv :
    (p : Pool) (ws before behind : List Window) (w : Window) (ptr : Option Block) {seg : Segment}
    → IsPool p
    → AtMostOne p ws
    → ws ≡ before ++ w ∷ behind
    → Gives w ptr
    → resume w ptr p ≡ done seg
    → Inv (after seg (before ++ behind))
resume-Inv p ws before behind w ptr {seg} v one e g q =
    let (level, open_w, alone) = AtMostOne-IsOpen p before behind w (subst (AtMostOne p) e one) in
    subst (λ x. Inv (after seg x)) (sym alone)
      (after-Inv seg (SegInv-unique (resume-SegInv w ptr p v level open_w g) q))

pub Step-Inv : {s t : System} → Step s t → Inv s → Inv t
Step-Inv {s} (allocs size e) v =
    let a = alloc-Allocated size s.pool v.valid e in
    Inv-keeps s.pool _ s.active a.valid a.level a.room v.one
Step-Inv {s} (frees ptr e) v =
    let (valid, level, same) = free-IsPool ptr s.pool v.valid e in
    Inv-keeps s.pool _ s.active valid level (λ i z h. subst (HasRoom min_size i z) (sym same) h)
      v.one
Step-Inv {s} (starts e) v = start-Inv s.pool s.active v.valid v.one e
Step-Inv {s} (resumes before behind w ptr e g q) v =
    resume-Inv s.pool s.active before behind w ptr v.valid v.one e g q
