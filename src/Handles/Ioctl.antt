-- ===== src/Handles/Ioctl.antt =====
-- The rest of `Control` in nvidia_gsp/nvidia/BaseDevice.cpp, and what calls it: `NvRmIoctl` of
-- nvrm_cpp_sdk/NvRmApi.cpp, and `FromFd`. The numbers that system headers define, and the calls of the
-- resource manager, are parameters.
use nvidia_haiku.Prelude.{
  ℕ, ◌+◌, ◌-◌, ◌%◌, ◌^◌, ◌<◌, ◌≡◌, ◌≢◌, ◌⊎◌, inl, inr, refl, ap, ◌∙◌, sym, subst, Bool, Bool-cases,
  true, false, not, Option, none, some, List, ltb, ◌==◌, if◌then◌else◌, if_true, if_false, arith,
}

-- B_GET_ACCELERANT_SIGNATURE, NV_HAIKU_BASE and NV_ESC_CARD_INFO.
pub record Codes : Type 0 where
  pub signature : ℕ
  pub base : ℕ
  pub card_info : ℕ

pub data Request : Type 0 where
  get_signature : Request
  unknown : Request
  get_cookie : Request
  map_memory : Request
  get_card_info : Request
  call_rm : ℕ → Request

-- `cmd`, by the switch over it.
abbrev pub command : Codes → ℕ → Request
command c cmd =
    if cmd == 0
    then get_cookie
    else if cmd == 1
    then map_memory
    else if cmd == c.card_info
    then get_card_info
    else call_rm cmd

-- The first switch over `op`, and the base.
unfoldable pub decode : Codes → ℕ → Request
decode c op =
    if op == c.signature
    then get_signature
    else if ltb op c.base
    then unknown
    else command c (op - c.base)

-- The `op` that `NvRmIoctl` makes of a command.
abbrev pub encode : Codes → ℕ → ℕ
encode c cmd = (cmd + c.base) % 2 ^ 32

pub data Status : Type 0 where
  b_ok : Status
  einval : Status
  b_dev_invalid_ioctl : Status
  b_bad_address : Status
  b_no_memory : Status

-- NV_HAIKU_GET_COOKIE, for an address of the kernel and a length, on a file; the cookie that it
-- stores.
unfoldable pub control_get_cookie : Bool → ℕ → ℕ → Status × Option ℕ
control_get_cookie is_kernel_address len file =
    if not is_kernel_address
    then (b_dev_invalid_ioctl, none)
    else if not (len == 8)
    then (einval, none)
    else (b_ok, some file)

-- The end of `Control`: the copy of the user's data, the call, and the copy back. `rm_ioctl` gives what
-- the call makes of the data, none where it fails.
unfoldable pub control_rm :
    (memory can_read can_write : Bool) → (List ℕ → Option (List ℕ)) → List ℕ → Status × List ℕ
control_rm memory can_read can_write rm_ioctl user =
    if not memory
    then (b_no_memory, user)
    else if not can_read
    then (b_bad_address, user)
    else elim (rm_ioctl user) [
      | none ↦ (einval, user)
      | some kernel ↦ if can_write then (b_ok, kernel) else (b_bad_address, user)
    ]

-- A file, for what `Control` asks of it.
pub record Handle : Type 0 where
  pub closed : Bool
  pub id : ℕ

-- `Control` up to the switch: a closed file answers nothing.
abbrev pub unless_closed {ℓ} : {A : Type ℓ} → Handle → Status × A → A → Status × A
unless_closed h answer nothing = if h.closed then (einval, nothing) else answer

-- `FromFd`: the descriptor is that of a file of this driver or of none.
unfoldable pub from_fd : Option Handle → Option ℕ
from_fd none = none
from_fd (some h) =
    let (status, cookie) = unless_closed h (control_get_cookie true 8 h.id) none in
    elim status [
      | b_ok ↦ cookie
      | einval ↦ none
      | b_dev_invalid_ioctl ↦ none
      | b_bad_address ↦ none
      | b_no_memory ↦ none
    ]

decode-encode_lem :
    (c : Codes) (cmd : ℕ)
    → cmd + c.base ≢ c.signature
    → cmd + c.base < 2 ^ 32
    → decode c (encode c cmd) ≡ command c cmd
unfolding decode
decode-encode_lem c cmd other fits =
    ap (decode c) no_wrap
    ∙ if_false _ _ no_signature
    ∙ if_false _ _ no_unknown
    ∙ ap (command c) back
  where
    no_wrap : encode c cmd ≡ cmd + c.base
    no_wrap = omega (arith, fits)

    no_signature : (cmd + c.base == c.signature) ≡ false
    no_signature = ground (arith, other)

    no_unknown : ltb (cmd + c.base) c.base ≡ false
    no_unknown = ground arith

    back : cmd + c.base - c.base ≡ cmd
    back = omega arith

-- What a command asks for: NV_HAIKU_GET_COOKIE is 0, NV_HAIKU_MAP is 1, NV_ESC_CARD_INFO is its own
-- number, and any other number is a call of the resource manager.
abbrev pub Asks : Codes → ℕ → Request → Type 0
Asks c cmd get_signature = ⊥
Asks c cmd unknown = ⊥
Asks c cmd get_cookie = cmd ≡ 0
Asks c cmd map_memory = cmd ≡ 1
Asks c cmd get_card_info = cmd ≡ c.card_info
Asks c cmd (call_rm n) = (cmd ≢ 0) × (cmd ≢ 1) × (cmd ≢ c.card_info) × (n ≡ cmd)

command-Asks : (c : Codes) (cmd : ℕ) → Asks c cmd (command c cmd)
command-Asks c cmd = elim (Bool-cases (cmd == 0)) [
  | inl e ↦ subst (Asks c cmd) (sym (if_true _ _ e)) (ground (arith, e))
  | inr no_cookie ↦
      subst (Asks c cmd) (sym (if_false _ _ no_cookie)) (elim (Bool-cases (cmd == 1)) [
        | inl e ↦ subst (Asks c cmd) (sym (if_true _ _ e)) (ground (arith, e))
        | inr no_map ↦
            subst (Asks c cmd) (sym (if_false _ _ no_map)) (elim (Bool-cases (cmd == c.card_info)) [
              | inl e ↦ subst (Asks c cmd) (sym (if_true _ _ e)) (ground (arith, e))
              | inr no_info ↦
                  subst (Asks c cmd) (sym (if_false _ _ no_info)) (
                    ground (arith, no_cookie),
                    ground (arith, no_map),
                    ground (arith, no_info),
                    refl,
                  )
            ])
      ])
]

-- The command that `NvRmIoctl` sends is the one that `Control` serves, where the sum with the base does
-- not pass 2 ^ 32 and is not the code of the signature: `Control` takes the branch for the cookie only
-- for 0, that for the map only for 1, that for the card info only for its number, and that for the
-- resource manager for every other command, which goes there as it is; never that for the signature
-- or for an unknown code.
pub decode-encode :
    (c : Codes) (cmd : ℕ)
    → cmd + c.base ≢ c.signature
    → cmd + c.base < 2 ^ 32
    → Asks c cmd (decode c (encode c cmd))
decode-encode c cmd other fits =
    subst (Asks c cmd) (sym (decode-encode_lem c cmd other fits)) (command-Asks c cmd)

-- `FromFd` gives the file of an open descriptor of this driver, and null for a closed file and for
-- a descriptor of no such file.
pub from_fd-open :
    (h : Handle)
    → (from_fd none ≡ none)
      × (((h.closed ≡ false) × (from_fd (some h) ≡ some h.id))
          ⊎ ((h.closed ≡ true) × (from_fd (some h) ≡ none)))
unfolding from_fd control_get_cookie
from_fd-open h = (refl, of_closed h.closed)
  where
    of_closed :
        (closed : Bool)
        → ((closed ≡ false) × (from_fd (some (record { closed = closed; id = h.id })) ≡ some h.id))
          ⊎ ((closed ≡ true) × (from_fd (some (record { closed = closed; id = h.id })) ≡ none))
    of_closed false = inl (refl, refl)
    of_closed true = inr (refl, refl)
