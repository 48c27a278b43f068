-- ===== src/Sdk/Conservation.antt =====
-- No program over the objects of an owning class of nvrm_cpp_sdk loses a resource or gives it back
-- twice.
use nvidia_haiku.Prelude.{
  get_elem?-set_ne, ℕ, zero, suc, ◌+◌, ◌≡◌, refl, ap, ◌∙◌, List, [], ◌∷◌, Option, some, get_elem?,
  set, arith, none≢some, some-injective,
}
use nvidia_haiku.Sdk.Owner.{Owner, count_of}
use nvidia_haiku.Sdk.FileDesc
use nvidia_haiku.Sdk.RmObject
use nvidia_haiku.Sdk.KmsSurface
use nvidia_haiku.Sdk.Program.{
  World, Step, makes, moves, assigns, assigns_self, detaches, destroys, drop, Reach, initial, next,
}

module _ {C : Type 0} (o : Owner C) where
  -- How many of the objects own a resource.
  pub owners : ℕ → List C → ℕ
  owners r [] = 0
  owners r (c ∷ cs) = count_of r (o.owns c) + owners r cs

  owners-set :
      (r : ℕ) (cs : List C) (i : ℕ) (c d : C)
      → get_elem? cs i ≡ some c
      → owners r (set cs i d) + count_of r (o.owns c) ≡ owners r cs + count_of r (o.owns d)
  unfolding owners
  owners-set r [] i c d e = absurd (none≢some e)
  owners-set r (b ∷ cs) zero c d e =
      let same : count_of r (o.owns b) ≡ count_of r (o.owns c) =
        ap (λ x. count_of r (o.owns x)) (some-injective e) in
      omega (arith, same)
  owners-set r (b ∷ cs) (suc i) c d e = omega (arith, owners-set r cs i c d e)

  owners-drop :
      (r : ℕ) (cs : List C) (i : ℕ) (c : C)
      → get_elem? cs i ≡ some c
      → owners r (drop o i cs) + count_of r (o.owns c) ≡ owners r cs
  unfolding owners
  owners-drop r [] i c e = absurd (none≢some e)
  owners-drop r (b ∷ cs) zero c e =
      let same : count_of r (o.owns b) ≡ count_of r (o.owns c) =
        ap (λ x. count_of r (o.owns x)) (some-injective e) in
      omega (arith, same)
  owners-drop r (b ∷ cs) (suc i) c e = omega (arith, owners-drop r cs i c e)

  abbrev pub IsConserved : World o → Type 0
  IsConserved w = (r : ℕ) → w.acquired r ≡ owners r w.objects + w.released r + w.detached r

  count-owns : (r : ℕ) {p q : Option ℕ} → p ≡ q → count_of r p ≡ count_of r q
  count-owns r e = ap (count_of r) e

  Step-IsConserved : {w v : World o} → Step o w v → IsConserved w → IsConserved v
  unfolding owners
  Step-IsConserved {w} (makes c) h r = omega (arith, h r)
  Step-IsConserved {w} (moves i {c} e) h r = omega (
    arith,
    h r,
    owners-set r w.objects i c (o.move_construct c).1 e,
    count-owns r (o.construct-owns c),
    count-owns r (o.construct-empties c),
  )
  Step-IsConserved {w} (assigns i j {c} {d} other e f) h r = omega (
    arith,
    h r,
    owners-set r w.objects i c (o.move_assign c d).0 e,
    owners-set r (set w.objects i (o.move_assign c d).0) j d (o.move_assign c d).1
        (get_elem?-set_ne w.objects i j (o.move_assign c d).0 other ∙ f),
    count-owns r (o.assign-owns c d),
    count-owns r (o.assign-empties c d),
    count-owns r (o.assign-releases c d),
  )
  Step-IsConserved {w} (assigns_self i {c} e) h r = omega (
    arith,
    h r,
    owners-set r w.objects i c (o.self_assign c).0 e,
    count-owns r (o.self_assign-releases c),
    count-owns r (o.self_assign-empties c),
  )
  Step-IsConserved {w} (detaches i {c} e) h r = omega (
    arith,
    h r,
    owners-set r w.objects i c (o.detach c).0 e,
    count-owns r (o.detach-gives c),
    count-owns r (o.detach-empties c),
  )
  Step-IsConserved {w} (destroys i {c} e) h r =
      omega (arith, h r, owners-drop r w.objects i c e, count-owns r (o.destroy-releases c))

  pub Reach-IsConserved : {w : World o} → Reach o w → IsConserved w
  unfolding owners
  Reach-IsConserved initial = λ r. refl
  Reach-IsConserved (next p st) = Step-IsConserved st (Reach-IsConserved p)

-- Whatever a program does with `FileDesc` objects, each descriptor has been taken on as often as it
-- is open in an object, was closed and was detached together.
pub FileDesc_conserved :
    {w : World FileDesc.owner} (r : ℕ)
    → Reach FileDesc.owner w
    → w.acquired r ≡ owners FileDesc.owner r w.objects + w.released r + w.detached r
FileDesc_conserved r p = Reach-IsConserved FileDesc.owner p r

-- Whatever a program does with `NvRmObject` objects of one client, each handle has been taken on as
-- often as it is in an object, was freed and was detached together.
pub RmObject_conserved :
    {w : World RmObject.owner} (r : ℕ)
    → Reach RmObject.owner w
    → w.acquired r ≡ owners RmObject.owner r w.objects + w.released r + w.detached r
RmObject_conserved r p = Reach-IsConserved RmObject.owner p r

-- Whatever a program does with `NvKmsSurface` objects of one device, each surface has been taken on
-- as often as it is in an object, was unregistered and was detached together.
pub KmsSurface_conserved :
    {w : World KmsSurface.owner} (r : ℕ)
    → Reach KmsSurface.owner w
    → w.acquired r ≡ owners KmsSurface.owner r w.objects + w.released r + w.detached r
KmsSurface_conserved r p = Reach-IsConserved KmsSurface.owner p r
