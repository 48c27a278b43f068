-- ===== src/Handles/Cards.antt =====
-- `NV_ESC_CARD_INFO` of `Control` in nvidia_gsp/nvidia/BaseDevice.cpp: the list of GPUs that the control
-- device gives.
use mathlib.Core.List.{append_assoc}
use nvidia_haiku.Prelude.{
  ℕ, suc, ◌+◌, ◌-◌, ◌≤◌, ◌<◌, ◌≡◌, ◌⊎◌, inl, inr, refl, ap, sym, ◌∙◌, Bool, true, false, not, List,
  [], ◌∷◌, ◌++◌, map, length, length-append, set, set-append, replicate, ltb, if◌then◌else◌,
  if_true, if_false, Bool-cases, arith,
}

-- What the state of a GPU gives to its entry.
pub record PciAddress : Type 0 where
  pub domain : ℕ
  pub bus : ℕ
  pub slot : ℕ
  pub vendor_id : ℕ
  pub device_id : ℕ

pub record Aperture : Type 0 where
  pub cpu_address : ℕ
  pub size : ℕ

pub record NvState : Type 0 where
  pub excluded : Bool
  pub pci_info : PciAddress
  pub gpu_id : ℕ
  pub interrupt_line : ℕ
  pub regs : Aperture
  pub fb : Aperture
  pub device_index : ℕ

pub record CardInfo : Type 0 where
  pub valid : Bool
  pub pci_info : PciAddress
  pub gpu_id : ℕ
  pub interrupt_line : ℕ
  pub reg_address : ℕ
  pub reg_size : ℕ
  pub minor_number : ℕ
  pub fb_address : ℕ
  pub fb_size : ℕ

abbrev pub zero_info : CardInfo
zero_info = record {
  valid = false;
  pci_info = record { domain = 0; bus = 0; slot = 0; vendor_id = 0; device_id = 0 };
  gpu_id = 0;
  interrupt_line = 0;
  reg_address = 0;
  reg_size = 0;
  minor_number = 0;
  fb_address = 0;
  fb_size = 0;
}

abbrev pub card_info : NvState → CardInfo
card_info nv = record {
  valid = true;
  pci_info = nv.pci_info;
  gpu_id = nv.gpu_id;
  interrupt_line = nv.interrupt_line;
  reg_address = nv.regs.cpu_address;
  reg_size = nv.regs.size;
  minor_number = nv.device_index;
  fb_address = nv.fb.cpu_address;
  fb_size = nv.fb.size;
}

pub data CardStatus : Type 0 where
  b_ok : CardStatus
  einval : CardStatus
  bad_address : CardStatus

-- The loop over the devices, from number `i` on. `can_write` is whether a write to an entry of the
-- user's array succeeds.
unfoldable pub write_cards :
    (ℕ → Bool) → ℕ → List NvState → List CardInfo → CardStatus × List CardInfo
write_cards can_write i [] infos = (b_ok, infos)
write_cards can_write i (nv ∷ devices) infos =
    let skipped = write_cards can_write (i + 1) devices infos in
    let written = write_cards can_write (i + 1) devices (set infos i (card_info nv)) in
    if nv.excluded then skipped else if can_write i then written else (bad_address, infos)

-- The whole command, on an array with as many entries as fit into its length.
unfoldable pub control_card_info :
    Bool → Bool → (ℕ → Bool) → List NvState → List CardInfo → CardStatus × List CardInfo
unfolding write_cards
control_card_info is_ctl can_clear can_write devices infos =
    if not is_ctl
    then (einval, infos)
    else if not can_clear
    then (bad_address, infos)
    else let cleared = replicate (length infos) zero_info in
      if ltb (length infos) (length devices)
      then (einval, cleared)
      else write_cards can_write 0 devices cleared

-- An entry for each device, 0 for one that is excluded.
abbrev pub entry : NvState → CardInfo
entry nv = if nv.excluded then zero_info else card_info nv

write_cards-entry :
    (can_write : ℕ → Bool) (done : List CardInfo) (devices : List NvState) (k : ℕ)
    → ((i : ℕ) → can_write i ≡ true)
    → write_cards can_write (length done) devices (done ++ replicate (length devices + k) zero_info)
      ≡ (b_ok, done ++ (map entry devices ++ replicate k zero_info))
unfolding write_cards
write_cards-entry can_write done [] k w =
    ap (λ (n : ℕ). (b_ok, done ++ replicate n zero_info)) (omega arith)
write_cards-entry can_write done (nv ∷ devices) k w =
    write_card (λ x. write_cards-entry can_write (done ++ (x ∷ [])) devices k w)
  where
    zeros : List CardInfo
    zeros = replicate (length devices + k) zero_info

    rest : List CardInfo
    rest = map entry devices ++ replicate k zero_info

    write_from : List CardInfo → CardStatus × List CardInfo
    write_from = write_cards can_write (length done + 1) devices

    Writes : Type 0
    Writes =
        (x : CardInfo)
        → write_cards can_write (length (done ++ (x ∷ []))) devices ((done ++ (x ∷ [])) ++ zeros)
          ≡ (b_ok, (done ++ (x ∷ [])) ++ rest)

    step : Writes → (x : CardInfo) → write_from (done ++ (x ∷ zeros)) ≡ (b_ok, done ++ (x ∷ rest))
    step ih x =
        ap write_from (sym (append_assoc done (x ∷ []) zeros))
        ∙ ap (λ (n : ℕ). write_cards can_write n devices ((done ++ (x ∷ [])) ++ zeros))
            (sym (length-append done (x ∷ [])))
        ∙ ih x
        ∙ ap (λ (l : List CardInfo). (b_ok, l)) (append_assoc done (x ∷ []) rest)

    with_zeros :
        done ++ replicate (length (nv ∷ devices) + k) zero_info ≡ done ++ (zero_info ∷ zeros)
    with_zeros =
        let e : length (nv ∷ devices) + k ≡ suc (length devices + k) = omega arith in
        ap (λ (n : ℕ). done ++ replicate n zero_info) e

    write_card :
        Writes
        → write_cards can_write
            (length done)
            (nv ∷ devices)
            (done ++ replicate (length (nv ∷ devices) + k) zero_info)
          ≡ (b_ok, done ++ (entry nv ∷ rest))
    write_card ih = elim (Bool-cases nv.excluded) [
      | inl e ↦
          if_true _ _ e
          ∙ ap write_from with_zeros
          ∙ step ih zero_info
          ∙ ap (λ (x : CardInfo). (b_ok, done ++ (x ∷ rest)))
              (sym (if_true zero_info (card_info nv) e))
      | inr e ↦
          if_false _ _ e
          ∙ if_true _ _ (w (length done))
          ∙ ap (λ (l : List CardInfo). write_from (set l (length done) (card_info nv))) with_zeros
          ∙ ap write_from (set-append done zeros zero_info (card_info nv))
          ∙ step ih (card_info nv)
          ∙ ap (λ (x : CardInfo). (b_ok, done ++ (x ∷ rest)))
              (sym (if_false zero_info (card_info nv) e))
    ]

-- The control device gives an array that is long enough an entry for each device in order, all 0 for
-- one that is excluded, and clears the rest; an array that is too short is cleared and refused. A device
-- that is no control device refuses and writes nothing.
pub control_card_info-entry :
    (devices : List NvState) (infos : List CardInfo) (can_write : ℕ → Bool)
    → ((i : ℕ) → can_write i ≡ true)
    → (control_card_info false true can_write devices infos ≡ (einval, infos))
      × (((length infos < length devices)
            × (control_card_info true true can_write devices infos
                ≡ (einval, replicate (length infos) zero_info)))
          ⊎ ((length devices ≤ length infos)
              × (control_card_info true true can_write devices infos ≡ (
                b_ok,
                map entry devices ++ replicate (length infos - length devices) zero_info,
              ))))
unfolding control_card_info
control_card_info-entry devices infos can_write w = (
  refl,
  elim (Bool-cases (ltb (length infos) (length devices))) [
    | inl short ↦ inl (ground (arith, short), if_true _ _ short)
    | inr long ↦
        let h : length devices ≤ length infos = ground (arith, long) in
        inr (
          h,
          if_false _ _ long
              ∙ ap (λ (n : ℕ). write_cards can_write 0 devices (replicate n zero_info)) (split h)
              ∙ write_cards-entry can_write [] devices (length infos - length devices) w,
        )
  ],
)
  where
    split :
        length devices ≤ length infos
        → length infos ≡ length devices + (length infos - length devices)
    split h = omega (arith, h)
