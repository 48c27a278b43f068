-- ===== src/Modeset/TimerQueue.antt =====
-- nvidia-modeset/TimerQueue.{h,cpp}: timers whose procedure runs on the kernel's DPC thread.
--
-- `nvkms_timer_t` is `Timer`, named by its address. The kernel is the part of the state that the
-- code's calls change: `armed` are the timers that `add_timer` was called for and that have neither
-- fired nor been cancelled, `queued` the callbacks that wait in the DPC queue, `running` the one
-- that its thread is in. A function gives nothing where the code would touch a deleted timer or
-- reference.
pub mod System
pub mod Timers
pub mod References
pub mod Kept
pub mod Owners
pub mod Running
pub mod Counting
pub mod Spares
pub mod Created
pub mod Delayed
pub mod Immediate
mod Examples
use mathlib.Core.Option
use nvidia_haiku.Prelude.{
  ℕ, zero, suc, ◌+◌, ◌≡◌, Bool, true, false, ◌||◌, List, [], ◌∷◌, ◌++◌, Option, none, some, ◌==◌,
  if◌then◌else◌,
}
use nvidia_haiku.Modeset.RefPtr.{RefPtrs, inc_ref, dec_ref}

pub record Timer : Type 0 where
  pub address : ℕ
  pub timer_scheduled : Bool
  pub dpc_scheduled : Bool
  pub proc : ℕ
  pub data_ptr : ℕ
  pub data_u32 : ℕ
  pub is_ref_ptr : Bool

-- A call of a timer's procedure, with the timer that it is made for.
pub record Call : Type 0 where
  pub timer : ℕ
  pub proc : ℕ
  pub data_ptr : ℕ
  pub data_u32 : ℕ

pub record State : Type 0 where
  pub timers : List Timer
  pub armed : List ℕ
  pub queued : List ℕ
  pub running : Option ℕ
  pub refs : RefPtrs
  pub calls : List Call

unfoldable pub find : ℕ → List Timer → Option Timer
find a [] = none
find a (t ∷ ts) = if t.address == a then some t else find a ts

unfoldable pub remove : ℕ → List Timer → List Timer
remove a [] = []
remove a (t ∷ ts) = if t.address == a then ts else t ∷ remove a ts

-- Write the fields of the timer at an address.
unfoldable pub store : ℕ → Timer → List Timer → List Timer
store a u [] = []
store a u (t ∷ ts) = if t.address == a then u ∷ ts else t ∷ store a u ts

unfoldable pub contains : ℕ → List ℕ → Bool
contains a [] = false
contains a (x ∷ xs) = x == a || contains a xs

-- `DPCQueue::Add` puts a callback in the queue once.
unfoldable pub add : ℕ → List ℕ → List ℕ
unfolding contains
add a xs = if contains a xs then xs else xs ++ a ∷ []

-- `cancel_timer`, `DPCQueue::Cancel`, and the removal of what runs.
unfoldable pub cancel : ℕ → List ℕ → List ℕ
cancel a [] = []
cancel a (x ∷ xs) = if x == a then cancel a xs else x ∷ cancel a xs

abbrev pub new_timer : (address proc data_ptr data_u32 : ℕ) → Bool → Timer
new_timer address proc data_ptr data_u32 is_ref_ptr = record {
  address = address;
  timer_scheduled = false;
  dpc_scheduled = false;
  proc = proc;
  data_ptr = data_ptr;
  data_u32 = data_u32;
  is_ref_ptr = is_ref_ptr;
}

-- `fQueue.fTimerList.Insert`.
abbrev pub insert : Timer → State → RefPtrs → State
insert t s refs = record s { timers = s.timers ++ t ∷ []; refs = refs }

-- The constructor, at the address that the allocator gave.
unfoldable pub create : (address proc data_ptr data_u32 : ℕ) → Bool → State → Option State
create address proc data_ptr data_u32 is_ref_ptr s =
    Option.map (insert (new_timer address proc data_ptr data_u32 is_ref_ptr) s)
      (if is_ref_ptr then inc_ref data_ptr s.refs else some s.refs)

-- `nvkms_timer_t::Schedule`.
unfoldable pub schedule : (address usec : ℕ) → State → Option State
unfolding find store add
schedule address usec s = elim (find address s.timers) [
  | none ↦ none
  | some t ↦ some (
      if usec == 0
      then record s {
        timers = store address (record t { dpc_scheduled = true }) s.timers;
        queued = add address s.queued;
      }
      else record s {
        timers = store address (record t { timer_scheduled = true }) s.timers;
        armed = add address s.armed;
      })
]

-- `NvTimerQueue::Alloc`, where `new` gives an object.
unfoldable pub alloc : (address proc data_ptr data_u32 usec : ℕ) → State → Option State
unfolding create schedule
alloc address proc data_ptr data_u32 usec s =
    Option.bind (create address proc data_ptr data_u32 false s) (schedule address usec)

-- `NvTimerQueue::AllocWithRefPtr`, where `new` gives an object.
unfoldable pub alloc_with_ref_ptr : (address proc ref_ptr data_u32 usec : ℕ) → State → Option State
unfolding create schedule
alloc_with_ref_ptr address proc ref_ptr data_u32 usec s =
    Option.bind (create address proc ref_ptr data_u32 true s) (schedule address usec)

-- `NvTimerQueue::Free`: nothing for a null handle; `nvkms_timer_t::Free` and the destructor.
unfoldable pub free : Option ℕ → State → Option State
unfolding find remove cancel
free none s = some s
free (some address) s = elim (find address s.timers) [
  | none ↦ none
  | some t ↦ some (record s {
    timers = remove address s.timers;
    armed = if t.timer_scheduled then cancel address s.armed else s.armed;
    queued = if t.dpc_scheduled then cancel address s.queued else s.queued;
  })
]

-- `nvkms_timer_t::TimerHook`, on a one-shot timer that has fired.
unfoldable pub timer_hook : ℕ → State → Option State
unfolding find store add cancel
timer_hook address s = elim (find address s.timers) [
  | none ↦ none
  | some t ↦
      let fired = record s { armed = cancel address s.armed } in
      some (
        if t.timer_scheduled
        then record fired {
          timers = store address (record t { timer_scheduled = false }) s.timers;
          queued = add address s.queued;
        }
        else fired)
]

-- `fProc(dataPtr, fDataU32)`: the procedure begins to run.
unfoldable pub call_proc : Timer → ℕ → State → State
call_proc t data_ptr s = record s {
  running = some t.address;
  calls =
      s.calls
      ++ record { timer = t.address; proc = t.proc; data_ptr = data_ptr; data_u32 = t.data_u32 }
        ∷ [];
}

-- `fDpcScheduled = false`.
unfoldable pub clear_dpc : Timer → State → State
unfolding store
clear_dpc t s = record s { timers = store t.address (record t { dpc_scheduled = false }) s.timers }

-- The branch of `DoDPC` for a timer with a reference: it is deleted if the owner has gone, and
-- otherwise its procedure is called with the owner's pointer.
unfoldable pub dpc_with_ref : Timer → State → Option State
unfolding remove clear_dpc call_proc
dpc_with_ref t s = elim (dec_ref t.data_ptr s.refs) [
  | none ↦ none
  | some (none, refs) ↦ some (record s { timers = remove t.address s.timers; refs = refs })
  | some (some ptr, refs) ↦ some (call_proc t ptr (record (clear_dpc t s) { refs = refs }))
]

-- `nvkms_timer_t::DoDPC` under its spinlock, and up to the call of the procedure.
unfoldable pub do_dpc : ℕ → State → Option State
unfolding find cancel clear_dpc call_proc dpc_with_ref
do_dpc address s = elim (find address s.timers) [
  | none ↦ none
  | some t ↦
      let taken = record s { queued = cancel address s.queued } in
      let with_ref = dpc_with_ref t taken in
      if t.dpc_scheduled
      then if t.is_ref_ptr then with_ref else some (call_proc t t.data_ptr (clear_dpc t taken))
      else some taken
]

-- The end of `DoDPC`, after the procedure has returned: it reads `fIsRefPtr`.
unfoldable pub end_dpc : ℕ → State → Option State
unfolding find remove
end_dpc address s = elim (find address s.timers) [
  | none ↦ none
  | some t ↦ some (record s {
    timers = if t.is_ref_ptr then remove address s.timers else s.timers;
    running = none;
  })
]
