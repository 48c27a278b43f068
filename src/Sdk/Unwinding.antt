-- ===== src/Sdk/Unwinding.antt =====
-- How what a function of nvrm_cpp_sdk holds follows from its calls and from the destructors that an
-- exception runs.
use nvidia_haiku.Prelude.{ℕ, zero, suc, ◌≡◌, refl, subst, sym, List, [], ◌∷◌, if_true, ==_iff}
use nvidia_haiku.Sdk.Calls.{
  Answer, failed, answered, Holdings, World, Error, Outcome, done, raised, aborted, Call, Leaves,
  nv_rm_call, kms_call, and_then, unwound, on_exception, owned, without, delete_object,
  delete_surface, close,
}

-- That a destructor which ends leaves `Kept`.
abbrev pub Ends : (Holdings → Type 0) → Outcome ℕ × World → Type 0
Ends Kept (done n, w) = Kept w.held
Ends Kept (raised error, w) = w.held ≡ w.held
Ends Kept (aborted, w) = w.held ≡ w.held

-- Where the program ends nothing is claimed.
abbrev pub Anything : Holdings → Type 0
Anything h = h ≡ h

pub and_then-Leaves :
    {A B : Type 0} (given : A → Holdings) (given' : B → Holdings) (Kept : Holdings → Type 0)
    (r : Outcome A × World) (f : A → Call B)
    → Leaves given Kept Anything r
    → ((a : A) (w : World) → w.held ≡ given a → Leaves given' Kept Anything (f a w))
    → Leaves given' Kept Anything (and_then r f)
and_then-Leaves given given' Kept (done a, w) f l next = next a w l
and_then-Leaves given given' Kept (raised error, w) f l next = l
and_then-Leaves given given' Kept (aborted, w) f l next = refl

unwound-Leaves :
    {A : Type 0} (given : A → Holdings) (Kept : Holdings → Type 0) (error : Error)
    (r : Outcome ℕ × World)
    → Ends Kept r
    → Leaves given Kept Anything (unwound {A = A} (raised error) r)
unwound-Leaves given Kept error (done n, w) e = e
unwound-Leaves given Kept error (raised other, w) e = refl
unwound-Leaves given Kept error (aborted, w) e = refl

pub on_exception-Leaves :
    {A : Type 0} (given : A → Holdings) (Kept Inner : Holdings → Type 0) (destructor : Call ℕ)
    (r : Outcome A × World)
    → Leaves given Inner Anything r
    → ((w : World) → Inner w.held → Ends Kept (destructor w))
    → Leaves given Kept Anything (on_exception destructor r)
on_exception-Leaves given Kept Inner destructor (done a, w) l ends = l
on_exception-Leaves given Kept Inner destructor (raised error, w) l ends =
    unwound-Leaves given Kept error (destructor w) (ends w l)
on_exception-Leaves given Kept Inner destructor (aborted, w) l ends = refl

pub without_head : (x : ℕ) (l : List ℕ) → without x (x ∷ l) ≡ l
without_head x l = if_true _ _ ((==_iff x x).1 refl)

-- A world is its script and its holdings.
pub at_held :
    (P : World → Type 0) (w : World) (held : Holdings)
    → w.held ≡ held
    → P (record { script = w.script; held = held })
    → P w
at_held P w held e p =
    subst (λ (h : Holdings). P (record { script = w.script; held = h })) (sym e) p

object_freed :
    (client h : ℕ) (script : List Answer) (held : Holdings) (Kept : Holdings → Type 0)
    → Kept held
    → Ends Kept (
        delete_object client h
          (record { script = script; held = record held { objects = owned h held.objects } }))
unfolding nv_rm_call
object_freed client zero script held Kept k = k
object_freed client (suc h) [] held Kept k = refl
object_freed client (suc h) (failed e ∷ s) held Kept k = refl
object_freed client (suc h) (answered (suc n) v ∷ s) held Kept k = refl
object_freed client (suc h) (answered zero v ∷ s) held Kept k =
    subst (λ (l : List ℕ). Kept (record held { objects = l }))
      (sym (without_head (suc h) held.objects)) k

pub delete_object-Ends :
    (client h : ℕ) (w : World) (held : Holdings) (Kept : Holdings → Type 0)
    → w.held ≡ record held { objects = owned h held.objects }
    → Kept held
    → Ends Kept (delete_object client h w)
delete_object-Ends client h w held Kept e k =
    at_held (λ (v : World). Ends Kept (delete_object client h v)) w _ e
      (object_freed client h w.script held Kept k)

surface_freed :
    (h : ℕ) (script : List Answer) (held : Holdings) (Kept : Holdings → Type 0)
    → Kept held
    → Ends Kept (
        delete_surface h
          (record { script = script; held = record held { surfaces = owned h held.surfaces } }))
unfolding kms_call
surface_freed zero script held Kept k = k
surface_freed (suc h) [] held Kept k = refl
surface_freed (suc h) (failed e ∷ s) held Kept k = refl
surface_freed (suc h) (answered n v ∷ s) held Kept k =
    subst (λ (l : List ℕ). Kept (record held { surfaces = l }))
      (sym (without_head (suc h) held.surfaces)) k

pub delete_surface-Ends :
    (h : ℕ) (w : World) (held : Holdings) (Kept : Holdings → Type 0)
    → w.held ≡ record held { surfaces = owned h held.surfaces }
    → Kept held
    → Ends Kept (delete_surface h w)
delete_surface-Ends h w held Kept e k =
    at_held (λ (v : World). Ends Kept (delete_surface h v)) w _ e
      (surface_freed h w.script held Kept k)

pub close-Ends :
    (fd : ℕ) (w : World) (held : Holdings) (Kept : Holdings → Type 0)
    → w.held ≡ record held { files = fd ∷ held.files }
    → Kept held
    → Ends Kept (close fd w)
close-Ends fd w held Kept e k =
    at_held (λ (v : World). Ends Kept (close fd v)) w _ e
      (subst (λ (l : List ℕ). Kept (record held { files = l })) (sym (without_head fd held.files))
        k)
