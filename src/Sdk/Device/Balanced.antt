-- ===== src/Sdk/Device/Balanced.antt =====
-- What the constructors and MapMemory of nvrm_cpp_sdk/NvRmDevice.cpp hold after each of their ends, and
-- after their destructors.
use nvidia_haiku.Prelude.{
  ℕ, zero, suc, ◌≡◌, ◌≢◌, ◌⊎◌, inl, inr, refl, ap, subst, ◌∙◌, List, [], ◌∷◌,
}
use nvidia_haiku.Sdk.Calls.{
  Call, Answer, failed, answered, Holdings, World, done, Error, errno, nv_status, raised, Leaves,
  nv_rm_call, and_then, unwound, owned, without, delete_object,
}
use nvidia_haiku.Sdk.Unwinding.{without_head}
use nvidia_haiku.Sdk.Device.{
  Classes, Api, Device, Mapping, new_api, delete_api, new_device, map_device_memory, delete_mapping,
}

abbrev pub with_device : Holdings → Device → Holdings
with_device held d = record held { objects = owned d.subdevice (owned d.device held.objects) }

abbrev pub with_api : Holdings → Api → Holdings
with_api held a = record held { files = a.fd ∷ held.files; objects = owned a.client held.objects }

-- One object more than before.
abbrev pub OneObject : Holdings → Holdings → Type 0
OneObject before held = (h : ℕ) × (held ≡ record before { objects = h ∷ before.objects })

abbrev pub with_mapping : Holdings → Mapping → Holdings
with_mapping held m = record held {
  linears = m.linear_address ∷ held.linears;
  areas = m.area ∷ held.areas;
}

-- As before, or one mapping of the resource manager more.
abbrev pub AtMostOneLinear : Holdings → Holdings → Type 0
AtMostOneLinear before held =
    (held ≡ before) ⊎ ((x : ℕ) × (held ≡ record before { linears = x ∷ before.linears }))

-- The end of an exception that frees the device.
freed_on :
    {A : Type 0} (a : Api) (h : ℕ) (script : List Answer) (held : Holdings) (error : Error)
    (given : A → Holdings) (f : ℕ → Call A)
    → Leaves given
        (λ x. x ≡ held)
        (OneObject held)
        (and_then
          (unwound (raised error) (
            delete_object a.client h
              (record { script = script; held = record held { objects = owned h held.objects } })))
          f)
unfolding nv_rm_call
freed_on a zero script held error given f = refl
freed_on a (suc h) [] held error given f = (suc h, refl)
freed_on a (suc h) (failed e ∷ s) held error given f = (suc h, refl)
freed_on a (suc h) (answered zero v ∷ s) held error given f =
    ap (λ (l : List ℕ). record held { objects = l }) (without_head (suc h) held.objects)
freed_on a (suc h) (answered (suc n) v ∷ s) held error given f = (suc h, refl)

new_device_on :
    (c : Classes) (a : Api) (script : List Answer) (held : Holdings)
    → Leaves
        (with_device held)
        (λ h. h ≡ held)
        (OneObject held)
        (new_device c a (record { script = script; held = held }))
unfolding new_device nv_rm_call
new_device_on c a [] held = refl
new_device_on c a (failed e ∷ s) held = refl
new_device_on c a (answered (suc n) v ∷ s) held = refl
new_device_on c a (answered zero v ∷ []) held = freed_on a v [] held (errno 0) (with_device held) _
new_device_on c a (answered zero v ∷ (failed e ∷ s)) held =
    freed_on a v s held (errno e) (with_device held) _
new_device_on c a (answered zero v ∷ (answered (suc n) x ∷ s)) held =
    freed_on a v s held (nv_status (suc n)) (with_device held) _
new_device_on c a (answered zero v ∷ (answered zero x ∷ s)) held = refl

closed : (fd : ℕ) (held : Holdings) → record held { files = without fd (fd ∷ held.files) } ≡ held
closed fd held = ap (λ (l : List ℕ). record held { files = l }) (without_head fd held.files)

map_device_memory_on :
    (a : Api) (d : Device) (h_memory offset length flags : ℕ) (script : List Answer)
    (held : Holdings)
    → Leaves
        (with_mapping held)
        (AtMostOneLinear held)
        (λ h. h ≡ held)
        (map_device_memory a d h_memory offset length flags
          (record { script = script; held = held }))
unfolding map_device_memory nv_rm_call
map_device_memory_on a d m o l f [] held = refl
map_device_memory_on a d m o l f (failed e ∷ s) held = refl
map_device_memory_on a d m o l f (answered n fd ∷ []) held = inl (closed fd held)
map_device_memory_on a d m o l f (answered n fd ∷ (failed e ∷ s)) held = inl (closed fd held)
map_device_memory_on a d m o l f (answered n fd ∷ (answered (suc k) v ∷ s)) held =
    inl (closed fd held)
map_device_memory_on a d m o l f (answered n fd ∷ (answered zero v ∷ [])) held =
    inr (v, closed fd (record held { linears = v ∷ held.linears }))
map_device_memory_on a d m o l f (answered n fd ∷ (answered zero v ∷ (failed e ∷ s))) held =
    inr (v, closed fd (record held { linears = v ∷ held.linears }))
map_device_memory_on a d m o l f (answered n fd ∷ (answered zero v ∷ (answered (suc k) x ∷ s)))
      held =
    inr (v, closed fd (record held { linears = v ∷ held.linears }))
map_device_memory_on a d m o l f (answered n fd ∷ (answered zero v ∷ (answered zero x ∷ s))) held =
    closed fd (record held { linears = v ∷ held.linears; areas = x ∷ held.areas })

-- The constructor of a device, whatever the answers are: it gives a device, and what is held is one
-- object for each handle that is not 0 more, or it raises, and what is held is as before. It ends the
-- program only with the object of the device left, which could not be freed.
pub new_device-Leaves :
    (c : Classes) (a : Api) (w : World)
    → Leaves (with_device w.held) (λ h. h ≡ w.held) (OneObject w.held) (new_device c a w)
new_device-Leaves c a w = new_device_on c a w.script w.held

-- `MapMemory`, whatever the answers are: the file that it opens is closed in every case; it gives a
-- mapping, and what is held is that of the resource manager and an area more, or it raises, and at most
-- the mapping of the resource manager is left. It ends the program only where nothing was taken.
pub map_device_memory-Leaves :
    (a : Api) (d : Device) (h_memory offset length flags : ℕ) (w : World)
    → Leaves
        (with_mapping w.held)
        (AtMostOneLinear w.held)
        (λ h. h ≡ w.held)
        (map_device_memory a d h_memory offset length flags w)
map_device_memory-Leaves a d h_memory offset length flags w =
    map_device_memory_on a d h_memory offset length flags w.script w.held

-- A mapping that `MapMemory` gave is given back whole by its destructor, where the resource manager
-- accepts that: what is held is as before both.
pub mapped_given_back :
    (a : Api) (d : Device) (h_memory offset length flags value : ℕ) (w after : World) (m : Mapping)
    (script : List Answer)
    → map_device_memory a d h_memory offset length flags w ≡ (done m, after)
    → delete_mapping a d m (record after { script = answered 0 value ∷ script })
      ≡ (done value, record w { script = script })
unfolding delete_mapping nv_rm_call
mapped_given_back a d h_memory offset length flags value w after m script e =
    ap
      (λ (h : Holdings).
        delete_mapping a d m (record { script = answered 0 value ∷ script; held = h }))
      held_after
    ∙ ap
        (λ (l : List ℕ).
          (done value, left (without m.linear_address (m.linear_address ∷ w.held.linears)) l))
        (without_head m.area w.held.areas)
    ∙ ap (λ (l : List ℕ). (done value, left l w.held.areas))
        (without_head m.linear_address w.held.linears)
  where
    left : (linears areas : List ℕ) → World
    left linears areas = record w {
      script = script;
      held = record w.held { linears = linears; areas = areas };
    }

    held_after : after.held ≡ with_mapping w.held m
    held_after =
        subst (Leaves (with_mapping w.held) (AtMostOneLinear w.held) (λ h. h ≡ w.held)) e
          (map_device_memory-Leaves a d h_memory offset length flags w)

new_api_on :
    (c : Classes) (script : List Answer) (held : Holdings)
    → Leaves
        (with_api held)
        (λ h. h ≡ held)
        (λ h. h ≡ held)
        (new_api c (record { script = script; held = held }))
unfolding new_api nv_rm_call
new_api_on c [] held = refl
new_api_on c (failed e ∷ s) held = refl
new_api_on c (answered n fd ∷ []) held = closed fd held
new_api_on c (answered n fd ∷ (failed e ∷ s)) held = closed fd held
new_api_on c (answered n fd ∷ (answered (suc k) v ∷ s)) held = closed fd held
new_api_on c (answered n fd ∷ (answered zero v ∷ s)) held = refl

-- The constructor of the API and its destructor, where the resource manager accepts to free the client:
-- what is held is as before both, and the file is closed after the client is freed.
pub api_given_back :
    (c : Classes) (value : ℕ) (w after : World) (a : Api) (script : List Answer)
    → new_api c w ≡ (done a, after)
    → a.client ≢ 0
    → delete_api a (record after { script = answered 0 value ∷ script })
      ≡ (done a.fd, record w { script = script })
unfolding nv_rm_call
api_given_back c value w after a script e nonzero =
    ap (λ (h : Holdings). delete_api a (record { script = answered 0 value ∷ script; held = h }))
      held_after
    ∙ freed a.client nonzero
  where
    left : (files objects : List ℕ) → World
    left files objects = record w {
      script = script;
      held = record w.held { files = files; objects = objects };
    }

    freed :
        (client : ℕ)
        → client ≢ 0
        → delete_api
            (record { fd = a.fd; client = client })
            (record {
              script = answered 0 value ∷ script;
              held = with_api w.held (record { fd = a.fd; client = client });
            })
          ≡ (done a.fd, record w { script = script })
    freed zero h = absurd (h refl)
    freed (suc n) h =
        ap (λ (l : List ℕ). (done a.fd, left (without a.fd (a.fd ∷ w.held.files)) l))
          (without_head (suc n) w.held.objects)
        ∙ ap (λ (l : List ℕ). (done a.fd, left l w.held.objects)) (without_head a.fd w.held.files)

    held_after : after.held ≡ with_api w.held a
    held_after =
        subst (Leaves (with_api w.held) (λ h. h ≡ w.held) (λ h. h ≡ w.held)) e
          (new_api_on c w.script w.held)
