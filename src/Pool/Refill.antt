-- ===== src/Pool/Refill.antt =====
-- One call of `IntrSafePool::Maintain` with nobody else at work, run from beginning to end.
use nvidia_haiku.Prelude.{
  ℕ, zero, suc, ◌+◌, ◌-◌, ◌*◌, ◌^◌, ◌≤◌, ◌≡◌, inl, inr, refl, List, [], ◌∷◌, Option, none, some,
  arith, Bool-cases, Option-cases, false, ltb, subst,
}
use nvidia_haiku.Pool.Group.{
  Block, Outcome, done, panicked, hung, Group, IsLarge, IsGroup, reclaim-IsGroup,
}
use nvidia_haiku.Pool.Group
use nvidia_haiku.Pool.SizeClass.{min_size}
use nvidia_haiku.Pool.State.{Pool, enter, leave, group_max_item_count, reclaim_max_item_count}
use nvidia_haiku.Pool.Maintain.{
  Window, freeing, filling, Segment, returns, opens, scan, shift, fill, drain, start, put_at,
  resume,
}
use nvidia_haiku.Pool.Invariant.{
  AreGroups, HasRoom, HasRoom-size, IsPool, scan-FoundRoom, FoundRoom, put_at-AreGroups,
}

-- What `calloc` returns in a window.
abbrev answer : (ℕ → Option Block) → Window → Option Block
answer calloc (freeing _) = none
answer calloc (filling i size) = calloc size

-- The stretches of one call, with `calloc` in the windows; nothing if it panics, hangs, or needs
-- more windows than there is fuel.
unfoldable pub run : ℕ → (ℕ → Option Block) → Outcome Segment → Option Pool
run fuel calloc panicked = none
run fuel calloc hung = none
run fuel calloc (done (returns p)) = some p
run zero calloc (done (opens p w)) = none
run (suc fuel) calloc (done (opens p w)) = run fuel calloc (resume w (answer calloc w) p)

unfoldable pub maintain : ℕ → (ℕ → Option Block) → Pool → Option Pool
maintain fuel calloc p = run fuel calloc (start p)

-- The first `i` groups are full.
abbrev pub FullBelow : ℕ → List Group → Type 0
FullBelow zero gs = Unit {0}
FullBelow (suc i) [] = ⊥
FullBelow (suc i) (g ∷ gs) = (g.count ≡ group_max_item_count) × FullBelow i gs

abbrev pub AllFull : List Group → Type 0
AllFull [] = Unit {0}
AllFull (g ∷ gs) = (g.count ≡ group_max_item_count) × AllFull gs

-- Free slots: the calls of `calloc` that are left.
abbrev pub missing : List Group → ℕ
missing [] = 0
missing (g ∷ gs) = group_max_item_count - g.count + missing gs

abbrev FoundFull : List Group → Option (ℕ × ℕ) → Type 0
FoundFull gs none = AllFull gs
FoundFull gs (some (j, z)) = FullBelow j gs

FoundFull-shift :
    (g : Group) (gs : List Group) (r : Option (ℕ × ℕ))
    → g.count ≡ group_max_item_count
    → FoundFull gs r
    → FoundFull (g ∷ gs) (shift r)
FoundFull-shift g gs none e h = (e, h)
FoundFull-shift g gs (some (j, z)) e h = (e, h)

-- The loop passes over full groups only.
scan-FoundFull :
    (base i size : ℕ) (gs : List Group)
    → AreGroups base gs
    → FullBelow i gs
    → FoundFull gs (scan i size gs)
unfolding scan
scan-FoundFull base zero size [] v h = tt
scan-FoundFull base (suc i) size [] v h = absurd h
scan-FoundFull base (suc i) size (g ∷ gs) v h =
    FoundFull-shift g gs (scan i size gs) h.0 (scan-FoundFull (base * 2) i size gs v.1 h.1)
scan-FoundFull base zero size (g ∷ gs) v h = elim (Bool-cases (ltb g.count group_max_item_count)) [
  | inl room ↦ rw room tt
  | inr full ↦
      let bound : g.count ≤ group_max_item_count = v.0.within in
      rw full (
        FoundFull-shift g gs (scan zero (size * 2) gs) (ground arith)
          (scan-FoundFull (base * 2) zero (size * 2) gs v.1 tt))
]

put_at-FullBelow :
    (i : ℕ) (ptr : Option Block) (gs : List Group) → FullBelow i gs → FullBelow i (put_at i ptr gs)
unfolding put_at
put_at-FullBelow zero ptr gs h = tt
put_at-FullBelow (suc i) ptr [] h = absurd h
put_at-FullBelow (suc i) ptr (g ∷ gs) h = (h.0, put_at-FullBelow i ptr gs h.1)

missing-put_at :
    (base i size : ℕ) (ptr : Option Block) (gs : List Group)
    → HasRoom base i size gs
    → missing gs ≡ suc (missing (put_at i ptr gs))
unfolding put_at Group.put
missing-put_at base i size ptr [] h = absurd h
missing-put_at base zero size ptr (g ∷ gs) h = omega arith
missing-put_at base (suc i) size ptr (g ∷ gs) h =
    omega (arith, missing-put_at (base * 2) i size ptr gs h)

-- What a call leaves: full groups, nothing to reclaim, and the level at 0.
pub record IsRefilled (p : Pool) : Type 0 where
  pub valid : IsPool p
  pub full : AllFull p.groups
  pub drained : p.reclaim_group.count ≡ 0
  pub idle : p.level ≡ 0

abbrev Refills : ℕ → (ℕ → Option Block) → Outcome Segment → Type 0
Refills fuel calloc seg = (q : Pool) × (run fuel calloc seg ≡ some q) × IsRefilled q

run-returns :
    (fuel : ℕ) (calloc : ℕ → Option Block) (p : Pool) → run fuel calloc (done (returns p)) ≡ some p
unfolding run
run-returns zero calloc p = refl
run-returns (suc fuel) calloc p = refl

fill-returns :
    (fuel i size : ℕ) (calloc : ℕ → Option Block) (p : Pool)
    → IsPool p
    → FullBelow i p.groups
    → p.reclaim_group.count ≡ 0
    → p.level ≡ 1
    → scan i size p.groups ≡ none
    → Refills fuel calloc (done (fill i size p))
unfolding fill
fill-returns fuel i size calloc p v full dr l none_left = (
  leave p,
  rw (none_left, fill) (run-returns fuel calloc (leave p)),
  record {
    valid = record { groups_ok = v.groups_ok; reclaim_ok = v.reclaim_ok };
    full =
        subst (FoundFull p.groups) none_left
          (scan-FoundFull min_size i size p.groups v.groups_ok full);
    drained = dr;
    idle = omega arith;
  },
)

module _ (calloc : ℕ → Option Block) (gives : (size : ℕ) → IsLarge size (calloc size)) where
  -- Each window fills one free slot.
  fill-Refills :
      (fuel i size : ℕ) (p : Pool)
      → IsPool p
      → FullBelow i p.groups
      → size ≡ min_size * 2 ^ i
      → p.reclaim_group.count ≡ 0
      → p.level ≡ 1
      → missing p.groups ≤ fuel
      → Refills fuel calloc (done (fill i size p))
  unfolding fill run resume
  fill-Refills zero i size p v full e dr l h = elim (Option-cases (scan i size p.groups)) [
    | inl q ↦ fill-returns zero i size calloc p v full dr l q
    | inr ((j, z), q) ↦
        let room : HasRoom min_size j z p.groups =
          subst (FoundRoom min_size p.groups) q (scan-FoundRoom min_size i size p.groups e) in
        absurd (omega (arith, missing-put_at min_size j z none p.groups room))
  ]
  fill-Refills (suc fuel) i size p v full e dr l h = elim (Option-cases (scan i size p.groups)) [
    | inl q ↦ fill-returns (suc fuel) i size calloc p v full dr l q
    | inr ((j, z), q) ↦
        let room : HasRoom min_size j z p.groups =
          subst (FoundRoom min_size p.groups) q (scan-FoundRoom min_size i size p.groups e) in
        let passed : FullBelow j p.groups =
          subst (FoundFull p.groups) q (scan-FoundFull min_size i size p.groups v.groups_ok full) in
        rw (q, fill)
          (fill-Refills fuel j z (record p { groups = put_at j (calloc z) p.groups })
            (record {
              groups_ok =
                  put_at-AreGroups min_size j z (calloc z) p.groups v.groups_ok room (gives z);
              reclaim_ok = v.reclaim_ok;
            })
            (put_at-FullBelow j (calloc z) p.groups passed)
            (HasRoom-size min_size j z p.groups room) dr l
            (omega (arith, missing-put_at min_size j z (calloc z) p.groups room)))
  ]

  -- Each window frees one pointer.
  drain-Refills :
      (fuel : ℕ) (p : Pool)
      → IsPool p
      → p.level ≡ 1
      → p.reclaim_group.count + missing p.groups ≤ fuel
      → Refills fuel calloc (drain p)
  unfolding drain run resume
  drain-Refills zero p v l h =
      elim (reclaim-IsGroup reclaim_max_item_count 0 p.reclaim_group v.reclaim_ok) [
        | inl (e, dr) ↦ rw (e, drain) (fill-Refills zero 0 min_size p v tt refl dr l (omega arith))
        | inr (g, ptr, e, c, vg) ↦ absurd (omega arith)
      ]
  drain-Refills (suc fuel) p v l h =
      elim (reclaim-IsGroup reclaim_max_item_count 0 p.reclaim_group v.reclaim_ok) [
        | inl (e, dr) ↦
            rw (e, drain) (fill-Refills (suc fuel) 0 min_size p v tt refl dr l (omega arith))
        | inr (g, ptr, e, c, vg) ↦
            rw (e, drain)
              (drain-Refills fuel (record p { reclaim_group = g })
                (record { groups_ok = v.groups_ok; reclaim_ok = vg }) l (omega arith))
      ]

  -- One call of `Maintain` ends after one window for each pointer to reclaim and for each free slot,
  -- with every group full, nothing left to reclaim, and the level back at 0.
  pub maintain_refills :
      (fuel : ℕ) (p : Pool)
      → IsPool p
      → p.level ≡ 0
      → p.reclaim_group.count + missing p.groups ≤ fuel
      → (q : Pool) × (maintain fuel calloc p ≡ some q) × IsRefilled q
  unfolding maintain start
  maintain_refills fuel p v l h =
      let zero_level : ltb 0 p.level ≡ false = ground arith in
      rw (zero_level, start)
        (drain-Refills fuel (enter p)
          (record { groups_ok = v.groups_ok; reclaim_ok = v.reclaim_ok }) (omega arith) h)
