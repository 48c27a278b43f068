-- ===== src/Accelerant/Allocation/Steps.antt =====
-- The calls and the destructors of the constructor of NvKmsBitmap in accelerant/NvKmsBitmap.cpp, one by
-- one.
use nvidia_haiku.Prelude.{ℕ, zero, suc, inl, inr, refl, subst, sym, List, [], ◌∷◌}
use nvidia_haiku.Sdk.Calls.{
  Answer, failed, answered, Holdings, World, Outcome, done, raised, aborted, Leaves, nv_rm_call,
  kms_call, register_surface, alloc, owned, without, close, delete_object, delete_surface,
}
use nvidia_haiku.Sdk.Device.{Api, export_object}
use nvidia_haiku.Sdk.Device.Balanced.{AtMostOneLinear}
use nvidia_haiku.Sdk.Unwinding.{
  Ends, Anything, without_head, delete_object-Ends, delete_surface-Ends, close-Ends,
}

abbrev pub with_object : Holdings → ℕ → Holdings
with_object held h = record held { objects = owned h held.objects }

abbrev pub with_surface : Holdings → ℕ → Holdings
with_surface held h = record held { surfaces = owned h held.surfaces }

abbrev pub with_file : Holdings → ℕ → Holdings
with_file held fd = record held { files = fd ∷ held.files }

pub alloc_on :
    (client h_class parent : ℕ) (script : List Answer) (held : Holdings) (Kept : Holdings → Type 0)
    → Kept held
    → Leaves
        (with_object held)
        Kept
        Anything
        (alloc client h_class parent (record { script = script; held = held }))
unfolding nv_rm_call
alloc_on client h_class parent [] held Kept k = k
alloc_on client h_class parent (failed e ∷ s) held Kept k = k
alloc_on client h_class parent (answered zero v ∷ s) held Kept k = refl
alloc_on client h_class parent (answered (suc n) v ∷ s) held Kept k = k

closed :
    (fd : ℕ) (held : Holdings) (Kept : Holdings → Type 0)
    → Kept held
    → Kept (record held { files = without fd (fd ∷ held.files) })
closed fd held Kept k =
    subst (λ (l : List ℕ). Kept (record held { files = l })) (sym (without_head fd held.files)) k

pub export_on :
    (a : Api) (script : List Answer) (held : Holdings) (Kept : Holdings → Type 0)
    → Kept held
    → Leaves
        (with_file held)
        Kept
        Anything
        (export_object a (record { script = script; held = held }))
unfolding export_object nv_rm_call
export_on a [] held Kept k = k
export_on a (failed e ∷ s) held Kept k = k
export_on a (answered n fd ∷ []) held Kept k = closed fd held Kept k
export_on a (answered n fd ∷ (failed e ∷ s)) held Kept k = closed fd held Kept k
export_on a (answered n fd ∷ (answered zero v ∷ s)) held Kept k = refl
export_on a (answered n fd ∷ (answered (suc m) v ∷ s)) held Kept k = closed fd held Kept k

pub register_on :
    (fd : ℕ) (script : List Answer) (held : Holdings) (Kept : Holdings → Type 0)
    → Kept held
    → Leaves
        (with_surface held)
        Kept
        Anything
        (kms_call (register_surface fd) (record { script = script; held = held }))
unfolding kms_call
register_on fd [] held Kept k = k
register_on fd (failed e ∷ s) held Kept k = k
register_on fd (answered n v ∷ s) held Kept k = refl

with_linear : Holdings → ℕ → Holdings
with_linear held x = record held { linears = x ∷ held.linears }

-- The destructors, where a mapping of the resource manager may have been left before them.
pub memory-Ends :
    (client m : ℕ) (held : Holdings) (w : World)
    → AtMostOneLinear (with_object held m) w.held
    → Ends (AtMostOneLinear held) (delete_object client m w)
unfolding with_linear
memory-Ends client m held w (inl e) =
    delete_object-Ends client m w held (AtMostOneLinear held) e (inl refl)
memory-Ends client m held w (inr (x, e)) =
    delete_object-Ends client m w (with_linear held x) (AtMostOneLinear held) e (inr (x, refl))

pub surface-Ends :
    (s : ℕ) (held : Holdings) (w : World)
    → AtMostOneLinear (with_surface held s) w.held
    → Ends (AtMostOneLinear held) (delete_surface s w)
unfolding with_linear
surface-Ends s held w (inl e) = delete_surface-Ends s w held (AtMostOneLinear held) e (inl refl)
surface-Ends s held w (inr (x, e)) =
    delete_surface-Ends s w (with_linear held x) (AtMostOneLinear held) e (inr (x, refl))

pub file-Ends :
    (fd : ℕ) (held : Holdings) (w : World)
    → AtMostOneLinear (with_file held fd) w.held
    → Ends (AtMostOneLinear held) (close fd w)
unfolding with_linear
file-Ends fd held w (inl e) = close-Ends fd w held (AtMostOneLinear held) e (inl refl)
file-Ends fd held w (inr (x, e)) =
    close-Ends fd w (with_linear held x) (AtMostOneLinear held) e (inr (x, refl))

pub anything :
    {A : Type 0} (given : A → Holdings) (Kept Aborted : Holdings → Type 0) (r : Outcome A × World)
    → Leaves given Kept Aborted r
    → Leaves given Kept Anything r
anything given Kept Aborted (done a, w) l = l
anything given Kept Aborted (raised error, w) l = l
anything given Kept Aborted (aborted, w) l = refl
