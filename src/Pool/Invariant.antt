-- ===== src/Pool/Invariant.antt =====
-- What holds of the groups between any two calls.
use nvidia_haiku.Prelude.{
  ℕ, zero, suc, ◌*◌, ◌^◌, ◌≤◌, ◌<◌, ◌≡◌, inl, inr, sym, ◌∙◌, List, [], ◌∷◌, Option, none, some,
  arith, Option-cases, Bool-cases, ltb, ltb→lt, subst,
}
use nvidia_haiku.Pool.Group.{
  Block, Outcome, done, panicked, hung, map_outcome, Group, IsLarge, IsGroup, alloc-IsGroup,
  put-IsGroup, reclaim-IsGroup,
}
use nvidia_haiku.Pool.Group
use nvidia_haiku.Pool.SizeClass.{min_size, double-pow}
use nvidia_haiku.Pool.State.{
  Pool, group_max_item_count, reclaim_max_item_count, alloc_from, prepend,
}
use nvidia_haiku.Pool.Maintain.{scan, shift, put_at}

-- Each group is well formed, and its blocks are twice as large as those of the group before it.
abbrev pub AreGroups : ℕ → List Group → Type 0
AreGroups size [] = Unit {0}
AreGroups size (g ∷ gs) = IsGroup group_max_item_count size g × AreGroups (size * 2) gs

-- Group `i` of a list that begins with blocks of `base` bytes has a free slot, for blocks of `size`.
abbrev pub HasRoom : (base i size : ℕ) → List Group → Type 0
HasRoom base i size [] = ⊥
HasRoom base zero size (g ∷ gs) = (size ≡ base) × (g.count < group_max_item_count)
HasRoom base (suc i) size (g ∷ gs) = HasRoom (base * 2) i size gs

pub record IsPool (p : Pool) : Type 0 where
  pub groups_ok : AreGroups min_size p.groups
  pub reclaim_ok : IsGroup reclaim_max_item_count 0 p.reclaim_group

pub HasRoom-size :
    (base i size : ℕ) (gs : List Group) → HasRoom base i size gs → size ≡ base * 2 ^ i
HasRoom-size base i size [] h = absurd h
HasRoom-size base zero size (g ∷ gs) h = omega arith
HasRoom-size base (suc i) size (g ∷ gs) h =
    HasRoom-size (base * 2) i size gs h ∙ sym (double-pow base i)

-- What an allocation from group `n` on leaves and gives out.
pub record Given (base n : ℕ) (gs gs' : List Group) (b : Block) : Type 0 where
  pub still : AreGroups base gs'
  pub enough : base * 2 ^ n ≤ b.size
  pub room : (i size : ℕ) → HasRoom base i size gs → HasRoom base i size gs'

alloc-count : (g : Group) → (Group.alloc g).0.count ≤ g.count
unfolding Group.alloc
alloc-count g = ground arith

-- The first group gives a block.
Given-here :
    (base : ℕ) (g : Group) (gs : List Group) (b : Block)
    → IsGroup group_max_item_count base g
    → AreGroups (base * 2) gs
    → (Group.alloc g).1 ≡ some b
    → Given base 0 (g ∷ gs) ((Group.alloc g).0 ∷ gs) b
Given-here base g gs b v vs e = record {
  still = ((alloc-IsGroup _ base g v).0, vs);
  enough = ground (arith, alloc-IsGroup group_max_item_count base g v);
  room = room;
}
  where
    room :
        (i size : ℕ) → HasRoom base i size (g ∷ gs) → HasRoom base i size ((Group.alloc g).0 ∷ gs)
    room zero size h = (h.0, omega (arith, alloc-count g, h.1))
    room (suc i) size h = h

-- The first group gives no block, and a later one does.
Given-later :
    (base : ℕ) (g : Group) (gs gs' : List Group) (b : Block)
    → IsGroup group_max_item_count base g
    → Given (base * 2) 0 gs gs' b
    → Given base 0 (g ∷ gs) ((Group.alloc g).0 ∷ gs') b
Given-later base g gs gs' b v later = record {
  still = ((alloc-IsGroup _ base g v).0, later.still);
  enough = omega (arith, later.enough);
  room = room;
}
  where
    room :
        (i size : ℕ) → HasRoom base i size (g ∷ gs) → HasRoom base i size ((Group.alloc g).0 ∷ gs')
    room zero size h = (h.0, omega (arith, alloc-count g, h.1))
    room (suc i) size h = later.room i size h

Given-skip :
    (base n : ℕ) (g : Group) (gs gs' : List Group) (b : Block)
    → IsGroup group_max_item_count base g
    → Given (base * 2) n gs gs' b
    → Given base (suc n) (g ∷ gs) (g ∷ gs') b
Given-skip base n g gs gs' b v later = record {
  still = (v, later.still);
  enough = rw (double-pow base n) later.enough;
  room = room;
}
  where
    room : (i size : ℕ) → HasRoom base i size (g ∷ gs) → HasRoom base i size (g ∷ gs')
    room zero size h = h
    room (suc i) size h = later.room i size h

abbrev pub GivenBy : (base n : ℕ) → List Group → Outcome (List Group × Block) → Type 0
GivenBy base n gs (done (gs', b)) = Given base n gs gs' b
GivenBy base n gs panicked = Unit {0}
GivenBy base n gs hung = ⊥

GivenBy-skip :
    (base n : ℕ) (g : Group) (gs : List Group) (r : Outcome (List Group × Block))
    → IsGroup group_max_item_count base g
    → GivenBy (base * 2) n gs r
    → GivenBy base (suc n) (g ∷ gs) (map_outcome (prepend g) r)
GivenBy-skip base n g gs (done (gs', b)) v later = Given-skip base n g gs gs' b v later
GivenBy-skip base n g gs panicked v later = tt
GivenBy-skip base n g gs hung v later = later

GivenBy-later :
    (base : ℕ) (g : Group) (gs : List Group) (r : Outcome (List Group × Block))
    → IsGroup group_max_item_count base g
    → GivenBy (base * 2) 0 gs r
    → GivenBy base 0 (g ∷ gs) (map_outcome (prepend (Group.alloc g).0) r)
GivenBy-later base g gs (done (gs', b)) v later = Given-later base g gs gs' b v later
GivenBy-later base g gs panicked v later = tt
GivenBy-later base g gs hung v later = later

-- An allocation gives a block of the size class or panics; it does not hang.
pub alloc_from-Given :
    (base n : ℕ) (gs : List Group) → AreGroups base gs → GivenBy base n gs (alloc_from n gs)
unfolding alloc_from
alloc_from-Given base n [] v = tt
alloc_from-Given base (suc n) (g ∷ gs) v =
    GivenBy-skip base n g gs (alloc_from n gs) v.0 (alloc_from-Given (base * 2) n gs v.1)
alloc_from-Given base zero (g ∷ gs) v = elim (Option-cases (Group.alloc g).1) [
  | inl e ↦
      rw (e, alloc_from)
        (GivenBy-later base g gs (alloc_from zero gs) v.0 (alloc_from-Given (base * 2) zero gs v.1))
  | inr (b, e) ↦ rw (e, alloc_from) (Given-here base g gs b v.0 v.1 e)
]

abbrev pub FoundRoom : ℕ → List Group → Option (ℕ × ℕ) → Type 0
FoundRoom base gs none = Unit {0}
FoundRoom base gs (some (j, z)) = HasRoom base j z gs

FoundRoom-shift :
    (base : ℕ) (g : Group) (gs : List Group) (r : Option (ℕ × ℕ))
    → FoundRoom (base * 2) gs r
    → FoundRoom base (g ∷ gs) (shift r)
FoundRoom-shift base g gs none h = tt
FoundRoom-shift base g gs (some (j, z)) h = h

-- The loop of `Maintain` stops at a group that has room, for blocks of its size.
pub scan-FoundRoom :
    (base i size : ℕ) (gs : List Group) → size ≡ base * 2 ^ i → FoundRoom base gs (scan i size gs)
unfolding scan
scan-FoundRoom base i size [] e = tt
scan-FoundRoom base (suc i) size (g ∷ gs) e =
    FoundRoom-shift base g gs (scan i size gs)
      (scan-FoundRoom (base * 2) i size gs (e ∙ double-pow base i))
scan-FoundRoom base zero size (g ∷ gs) e = elim (Bool-cases (ltb g.count group_max_item_count)) [
  | inl room ↦ rw room (omega arith, ltb→lt _ _ room)
  | inr full ↦ rw full (
      FoundRoom-shift base g gs (scan zero (size * 2) gs)
        (scan-FoundRoom (base * 2) zero (size * 2) gs (omega arith)))
]

-- A block that goes into a group with room keeps the groups well formed.
pub put_at-AreGroups :
    (base i size : ℕ) (ptr : Option Block) (gs : List Group)
    → AreGroups base gs
    → HasRoom base i size gs
    → IsLarge size ptr
    → AreGroups base (put_at i ptr gs)
unfolding put_at
put_at-AreGroups base i size ptr [] v h l = tt
put_at-AreGroups base zero size ptr (g ∷ gs) v h l =
    (put-IsGroup _ base g ptr v.0 h.1 (subst (λ z. IsLarge z ptr) h.0 l), v.1)
put_at-AreGroups base (suc i) size ptr (g ∷ gs) v h l =
    (v.0, put_at-AreGroups (base * 2) i size ptr gs v.1 h l)
