-- ===== src/Sdk/Program.antt =====
-- Any program over the objects of an owning class of nvrm_cpp_sdk: objects are made for resources,
-- moved, assigned, detached and destroyed.
use nvidia_haiku.Prelude.{ℕ, zero, suc, ◌+◌, ◌≡◌, ◌≢◌, List, [], ◌∷◌, Option, some, get_elem?, set}
use nvidia_haiku.Sdk.Owner.{Owner, count_of}

module _ {C : Type 0} (o : Owner C) where
  -- The objects in scope, and how often each resource was taken on, given back and detached.
  pub record World : Type 0 where
    pub objects : List C
    pub acquired : ℕ → ℕ
    pub released : ℕ → ℕ
    pub detached : ℕ → ℕ

  abbrev pub tally : (ℕ → ℕ) → Option ℕ → ℕ → ℕ
  tally n q r = n r + count_of r q

  abbrev pub drop : ℕ → List C → List C
  drop i [] = []
  drop zero (c ∷ cs) = cs
  drop (suc i) (c ∷ cs) = c ∷ drop i cs

  -- An object at a place of the list is used by its place; `assigns` is for two objects.
  pub data Step (w : World) : World → Type 0 where
    makes :
        (c : C)
        → Step w (record w { objects = c ∷ w.objects; acquired = tally w.acquired (o.owns c) })
    moves :
        (i : ℕ) {c : C}
        → get_elem? w.objects i ≡ some c
        → Step w
            (record w { objects = (o.move_construct c).0 ∷ set w.objects i (o.move_construct c).1 })
    assigns :
        (i j : ℕ) {c d : C}
        → i ≢ j
        → get_elem? w.objects i ≡ some c
        → get_elem? w.objects j ≡ some d
        → Step w (record w {
          objects = set (set w.objects i (o.move_assign c d).0) j (o.move_assign c d).1;
          released = tally w.released (o.move_assign c d).2;
        })
    assigns_self :
        (i : ℕ) {c : C}
        → get_elem? w.objects i ≡ some c
        → Step w (record w {
          objects = set w.objects i (o.self_assign c).0;
          released = tally w.released (o.self_assign c).1;
        })
    detaches :
        (i : ℕ) {c : C}
        → get_elem? w.objects i ≡ some c
        → Step w (record w {
          objects = set w.objects i (o.detach c).0;
          detached = tally w.detached (o.detach c).1;
        })
    destroys :
        (i : ℕ) {c : C}
        → get_elem? w.objects i ≡ some c
        → Step w
            (record w { objects = drop i w.objects; released = tally w.released (o.destroy c) })

  abbrev pub empty_world : World
  empty_world = record { objects = []; acquired = λ r. 0; released = λ r. 0; detached = λ r. 0 }

  pub data Reach : World → Type 0 where
    initial : Reach empty_world
    next : {w v : World} → Reach w → Step w v → Reach v
