-- ===== src/Accelerant/Dpms.antt =====
-- The power states of a display in accelerant/Accelerant.cpp. The numbers B_DPMS_ON and B_DPMS_OFF of
-- the system are parameters, and so is whether the driver takes an attribute.
use nvidia_haiku.Prelude.{
  ℕ, ◌≡◌, ◌⊎◌, Bool, true, false, sym, ==_iff, ◌==◌, if◌then◌else◌, Option, none, some, Bool-cases,
  inl, inr, if_true, if_false, ◌∙◌, ap,
}

-- `NvKmsDpyAttributeDpmsValue`.
pub data DpmsValue : Type 0 where
  dpms_on : DpmsValue
  dpms_standby : DpmsValue
  dpms_suspend : DpmsValue
  dpms_off : DpmsValue

module _ (b_dpms_on b_dpms_off : ℕ) where
  unfoldable pub dpms_mode : DpmsValue → ℕ
  dpms_mode dpms_on = b_dpms_on
  dpms_mode dpms_standby = b_dpms_off
  dpms_mode dpms_suspend = b_dpms_off
  dpms_mode dpms_off = b_dpms_off

  abbrev pub dpms_value : ℕ → Option DpmsValue
  dpms_value flags =
      if flags == b_dpms_on
      then some dpms_on
      else if flags == b_dpms_off
      then some dpms_off
      else none

  -- From the value on: whether the call returns, and `fDpmsState`.
  abbrev pub store_dpms : Bool → Option DpmsValue → DpmsValue → Bool × DpmsValue
  store_dpms taken none state = (false, state)
  store_dpms false (some v) state = (false, state)
  store_dpms true (some v) state = (true, v)

  unfoldable pub set_dpms_mode : Bool → ℕ → DpmsValue → Bool × DpmsValue
  set_dpms_mode taken flags state = store_dpms taken (dpms_value flags) state

  -- A call that sets the power state and returns leaves a state that reads back as the flags that were
  -- set, and one that raises leaves the state as it was.
  pub set_dpms_mode_reads_back :
      (taken : Bool) (flags : ℕ) (state : DpmsValue)
      → (((set_dpms_mode taken flags state).0 ≡ true)
          × (dpms_mode (set_dpms_mode taken flags state).1 ≡ flags))
        ⊎ (set_dpms_mode taken flags state ≡ (false, state))
  unfolding set_dpms_mode dpms_mode
  set_dpms_mode_reads_back taken flags state = elim (Bool-cases (flags == b_dpms_on)) [
    | inl e ↦
        stored taken (dpms_value flags) dpms_on (if_true _ _ e) (sym ((==_iff flags b_dpms_on).0 e))
    | inr e ↦ elim (Bool-cases (flags == b_dpms_off)) [
      | inl f ↦
          stored taken (dpms_value flags) dpms_off (if_false _ _ e ∙ if_true _ _ f)
            (sym ((==_iff flags b_dpms_off).0 f))
      | inr f ↦ inr (ap (λ o. store_dpms taken o state) (if_false _ _ e ∙ if_false _ _ f))
    ]
  ]
    where
      stored :
          (taken : Bool) (o : Option DpmsValue) (v : DpmsValue)
          → o ≡ some v
          → dpms_mode v ≡ flags
          → (((store_dpms taken o state).0 ≡ true)
              × (dpms_mode (store_dpms taken o state).1 ≡ flags))
            ⊎ (store_dpms taken o state ≡ (false, state))
      stored true o v p q = inl (
        ap (λ (x : Option DpmsValue). (store_dpms true x state).0) p,
        ap (λ (x : Option DpmsValue). dpms_mode (store_dpms true x state).1) p ∙ q,
      )
      stored false o v p q = inr (ap (λ x. store_dpms false x state) p)
