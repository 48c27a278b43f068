-- ===== src/Os/Pci.antt =====
-- PCI devices in nvidia_gsp/nvidia/os-haiku.cpp. The kernel's list of devices and its access to their
-- registers are parameters.
use nvidia_haiku.Prelude.{
  ℕ, ◌≡◌, ◌⊎◌, inl, inr, refl, ap, ◌∙◌, Bool, true, false, not, ◌&&◌, Option, none, some, List, [],
  ◌∷◌, ◌++◌, ◌==◌, if◌then◌else◌, Bool-cases, if_true, if_false, arith,
}

pub record PciInfo : Type 0 where
  pub bus : ℕ
  pub device : ℕ
  pub function : ℕ
  pub vendor_id : ℕ
  pub device_id : ℕ

abbrev pub is_at : (bus slot function : ℕ) → PciInfo → Bool
is_at bus slot function i = (i.bus == bus) && (i.device == slot) && (i.function == function)

-- The loop over `get_nth_pci_info`. `memory` is whether `malloc` gives room for the copy.
unfoldable pub find_pci : Bool → (bus slot function : ℕ) → List PciInfo → Option PciInfo
find_pci memory bus slot function [] = none
find_pci memory bus slot function (i ∷ infos) =
    if is_at bus slot function i
    then (if memory then some i else none)
    else find_pci memory bus slot function infos

-- `os_pci_init_handle`: the handle is a copy of the device's information, from which `vendor` and
-- `device` are.
unfoldable pub os_pci_init_handle :
    Bool → (domain bus slot function : ℕ) → List PciInfo → Option PciInfo
unfolding find_pci
os_pci_init_handle memory domain bus slot function infos =
    if not (domain == 0) then none else find_pci memory bus slot function infos

abbrev pub NoneAt : (bus slot function : ℕ) → List PciInfo → Type 0
NoneAt bus slot function [] = Unit {0}
NoneAt bus slot function (i ∷ infos) =
    (is_at bus slot function i ≡ false) × NoneAt bus slot function infos

-- The first device of a list that is at an address.
pub record IsFirstAt (bus slot function : ℕ) (infos : List PciInfo) (i : PciInfo) : Type 0 where
  pub before : List PciInfo
  pub behind : List PciInfo
  pub split : infos ≡ before ++ (i ∷ behind)
  pub others : NoneAt bus slot function before
  pub here : is_at bus slot function i ≡ true

find_pci-first :
    (memory : Bool) (bus slot function : ℕ) (infos : List PciInfo)
    → ((find_pci memory bus slot function infos ≡ none) × NoneAt bus slot function infos)
      ⊎ ((i : PciInfo) × (find_pci memory bus slot function infos
            ≡ (if memory then some i else none))
          × IsFirstAt bus slot function infos i)
unfolding find_pci
find_pci-first memory bus slot function [] = inl (refl, tt)
find_pci-first memory bus slot function (i ∷ infos) =
    elim (Bool-cases (is_at bus slot function i)) [
      | inl e ↦ inr (
        i,
        if_true {b = is_at bus slot function i} _ _ e,
        record { before = []; behind = infos; split = refl; others = tt; here = e },
      )
      | inr e ↦ elim (find_pci-first memory bus slot function infos) [
        | inl f ↦ inl (if_false {b = is_at bus slot function i} _ _ e ∙ f.0, (e, f.1))
        | inr f ↦ inr (
          f.0,
          if_false {b = is_at bus slot function i} _ _ e ∙ f.1,
          record {
            before = i ∷ f.2.before;
            behind = f.2.behind;
            split = ap (λ l. i ∷ l) f.2.split;
            others = (e, f.2.others);
            here = f.2.here;
          },
        )
      ]
    ]

-- In domain 0 and with memory a call gives the first device that is at the bus, slot and function, and
-- null exactly where no device is there. In another domain, or with no memory, it gives null.
pub os_pci_init_handle-first :
    (bus slot function : ℕ) (infos : List PciInfo)
    → (((os_pci_init_handle true 0 bus slot function infos ≡ none) × NoneAt bus slot function infos)
        ⊎ ((i : PciInfo) × (os_pci_init_handle true 0 bus slot function infos ≡ some i)
            × IsFirstAt bus slot function infos i))
      × (os_pci_init_handle false 0 bus slot function infos ≡ none)
      × ((domain : ℕ)
          → (domain ≡ 0)
            ⊎ ((memory : Bool) → os_pci_init_handle memory domain bus slot function infos ≡ none))
unfolding os_pci_init_handle
os_pci_init_handle-first bus slot function infos = (
  find_pci-first true bus slot function infos,
  elim (find_pci-first false bus slot function infos) [ inl f ↦ f.0 | inr f ↦ f.1 ],
  λ domain. elim (Bool-cases (domain == 0)) [
    | inl e ↦ inl (ground (arith, e))
    | inr e ↦ inr (λ memory. rw e refl)
  ],
)
