-- ===== src/Device/System.antt =====
-- The handles of one device of nvidia_gsp/nvidia/Device.cpp, opened and closed one call at a time.
use nvidia_haiku.Prelude.{
  ℕ, suc, ◌+◌, ◌^◌, ◌<◌, ◌≡◌, ◌≢◌, ◌⊎◌, inl, inr, refl, sym, ap, ◌∙◌, subst, Bool, true, false,
  ◌==◌, ltb, arith, Bool-cases, not, ◌&&◌, ◌||◌, if◌then◌else◌, if_true,
}
use nvidia_haiku.Device.{
  Device, Answers, Status, b_ok, b_io_error, new_device, install, start, stop, settle, acquire_ref,
  release_ref, open_device, close_device, count_up,
}

-- Whether one of the calls that set up the interrupt fails.
abbrev pub is_unwired : Answers → Bool
is_unwired a = not (a.msi_configured && (a.msi_enabled && a.handler_installed))

-- A device, the handles on it that are open, and whether the interrupt could not be set up in some call.
pub record System : Type 0 where
  pub device : Device
  pub handles : ℕ
  pub unwired : Bool

-- An interrupt number that the bus gives is not 0. The number of handles is bounded by memory.
pub data Step (s : System) : System → Type 0 where
  opens :
      (memory : Bool) (a : Answers) {d : Device}
      → a.msi_irq ≢ 0
      → s.handles + 1 < 2 ^ 31
      → open_device memory a s.device ≡ (b_ok, d)
      → Step s (record { device = d; handles = s.handles + 1; unwired = s.unwired || is_unwired a })
  fails :
      (memory : Bool) (a : Answers) {status : Status} {d : Device}
      → a.msi_irq ≢ 0
      → s.handles + 1 < 2 ^ 31
      → status ≢ b_ok
      → open_device memory a s.device ≡ (status, d)
      → Step s (record s { device = d; unwired = s.unwired || is_unwired a })
  closes :
      {n : ℕ}
      → s.handles ≡ suc n
      → Step s (record s { device = close_device s.device; handles = n })

pub data Reach : System → Type 0 where
  initial : Reach (record { device = new_device; handles = 0; unwired = false })
  next : {s t : System} → Reach s → Step s t → Reach t

-- The count is the number of handles; the adapter is up while there is one, and down otherwise. While it
-- is up the interrupt is, unless a call to set it up failed.
pub record IsOpenFor (unwired : Bool) (n : ℕ) (d : Device) : Type 0 where
  pub counted : d.open_count ≡ n
  pub up :
      0 < n
      → (d.init_hardware ≡ true)
        × (d.master ≡ true)
        × ((unwired ≡ true) ⊎ ((d.msi ≡ true) × (0 < d.handlers) × (d.irq ≢ 0)))
  pub down : n ≡ 0 → d.init_hardware ≡ false

or_true : (u : Bool) → (u || true) ≡ true
or_true true = refl
or_true false = refl

or_left : (u b : Bool) → u ≡ true → (u || b) ≡ true
or_left true b e = refl
or_left false b e = absurd (false≢true e)
  where
    false≢true : false ≡ true → ⊥
    false≢true f = cc

lifted : (u b : Bool) {n : ℕ} {d : Device} → IsOpenFor u n d → IsOpenFor (u || b) n d
lifted u b v = record {
  counted = v.counted;
  up = λ h.
      let (adapter, master, wired) = v.up h in
      (adapter, master, elim wired [ inl e ↦ inl (or_left u b e) | inr w ↦ inr w ]);
  down = v.down;
}

-- The calls set up the interrupt or one of them fails.
install-wired :
    (u : Bool) (a : Answers) (d : Device)
    → a.msi_irq ≢ 0
    → ((u || is_unwired a) ≡ true)
      ⊎ (((install a d).msi ≡ true) × (0 < (install a d).handlers) × ((install a d).irq ≢ 0))
install-wired u a d irq = by_cases a.msi_configured a.msi_enabled a.handler_installed
  where
    by_cases :
        (c e i : Bool)
        → ((u || not (c && (e && i))) ≡ true)
          ⊎ (((if e then true else d.msi) ≡ true)
              × (0 < (if i then d.handlers + 1 else d.handlers))
              × ((if c then a.msi_irq else d.irq) ≢ 0))
    by_cases true true true = inr (refl, omega arith, irq)
    by_cases true true false = inl (or_true u)
    by_cases true false i = inl (or_true u)
    by_cases false e i = inl (or_true u)

-- What a call that takes a reference may end in, with `n` handles before.
abbrev Acquired : Bool → ℕ → Status × Device → Type 0
Acquired u n r = ((r.0 ≡ b_ok) × IsOpenFor u (n + 1) r.1) ⊎ ((r.0 ≢ b_ok) × IsOpenFor u n r.1)

module _ (u₀ : Bool) (n : ℕ) (d : Device) (v₀ : IsOpenFor u₀ n d) (few : n + 1 < 2 ^ 31)
    (a : Answers) (irq : a.msi_irq ≢ 0) where
  v : IsOpenFor (u₀ || is_unwired a) n d
  v = lifted u₀ (is_unwired a) v₀

  started : d.open_count ≡ 0 → Acquired (u₀ || is_unwired a) n (settle (start a (count_up d)))
  unfolding start
  started e =
      let none_open : n ≡ 0 = sym v.counted ∙ e in
      elim (Bool-cases (ltb a.msi_count 1)) [
        | inl no_msi ↦
            rw (no_msi, start)
              (inr (
                λ q. cc,
                record {
                  counted = omega (arith, v.counted, few);
                  up = λ h. absurd (omega (arith, h, none_open));
                  down = v.down;
                },
              ))
        | inr msi ↦ elim (Bool-cases a.init_adapter) [
          | inl up ↦
              rw (msi, start)
                (rw up (
                  inl (
                    refl,
                    record {
                      counted = omega (arith, v.counted, few);
                      up = λ h. (
                        refl,
                        refl,
                        install-wired u₀ a (record (count_up d) { master = true }) irq,
                      );
                      down = λ h. absurd (omega (arith, h));
                    },
                  )))
          | inr broken ↦
              rw (msi, start)
                (rw broken (
                  inr (
                    λ q. cc,
                    record {
                      counted = omega (arith, v.counted, few);
                      up = λ h. absurd (omega (arith, h, none_open));
                      down = v.down;
                    },
                  )))
        ]
      ]

  acquire_ref-IsOpenFor : Acquired (u₀ || is_unwired a) n (acquire_ref a d)
  unfolding acquire_ref
  acquire_ref-IsOpenFor = elim (Bool-cases (d.open_count == 0)) [
    | inl e ↦ rw (e, acquire_ref) (started (ground (arith, e)))
    | inr e ↦
        let running : 0 < n = ground (arith, e, v.counted) in
        rw (e, acquire_ref)
          (inl (
            refl,
            record {
              counted = omega (arith, v.counted, few);
              up = λ h. v.up running;
              down = λ h. absurd (omega (arith, h));
            },
          ))
  ]

  open_device-IsOpenFor : (memory : Bool) → Acquired (u₀ || is_unwired a) n (open_device memory a d)
  unfolding open_device
  open_device-IsOpenFor true = acquire_ref-IsOpenFor
  open_device-IsOpenFor false = inr (λ q. cc, v)

release_ref-IsOpenFor :
    (u : Bool) (n : ℕ) (d : Device)
    → suc n < 2 ^ 31
    → IsOpenFor u (suc n) d
    → IsOpenFor u n (release_ref d)
unfolding release_ref stop
release_ref-IsOpenFor u n d few v = elim (Bool-cases (d.open_count == 1)) [
  | inl e ↦
      let last : n ≡ 0 = ground (arith, e, v.counted) in
      rw (e, release_ref)
        (elim (Bool-cases (d.irq == 0)) [
          | inl no_irq ↦
              rw (no_irq, stop)
                (record {
                  counted = omega (arith, v.counted, few);
                  up = λ h. absurd (omega (arith, h, last));
                  down = λ h. refl;
                })
          | inr irq ↦
              rw (irq, stop)
                (record {
                  counted = omega (arith, v.counted, few);
                  up = λ h. absurd (omega (arith, h, last));
                  down = λ h. refl;
                })
        ])
  | inr e ↦
      let running : 0 < n = ground (arith, e, v.counted) in
      rw (e, release_ref)
        (record {
          counted = omega (arith, v.counted, few);
          up = λ h. v.up (omega arith);
          down = λ h. absurd (omega (arith, h, running));
        })
]

Step-IsOpenFor :
    {s t : System}
    → Step s t
    → s.handles < 2 ^ 31
    → IsOpenFor s.unwired s.handles s.device
    → (t.handles < 2 ^ 31) × IsOpenFor t.unwired t.handles t.device
unfolding close_device
Step-IsOpenFor {s} (opens memory a {d} irq few e) _ v =
    elim (open_device-IsOpenFor s.unwired s.handles s.device v few a irq memory) [
      | inl ok ↦ (
        few,
        subst (IsOpenFor (s.unwired || is_unwired a) (s.handles + 1)) (ap (λ r. r.1) e) ok.1,
      )
      | inr failed ↦ absurd (failed.0 (ap (λ r. r.0) e))
    ]
Step-IsOpenFor {s} (fails memory a irq few bad e) b v =
    elim (open_device-IsOpenFor s.unwired s.handles s.device v few a irq memory) [
      | inl ok ↦ absurd (bad (sym (ap (λ r. r.0) e) ∙ ok.0))
      | inr failed ↦
          (b, subst (IsOpenFor (s.unwired || is_unwired a) s.handles) (ap (λ r. r.1) e) failed.1)
    ]
Step-IsOpenFor {s} (closes {n} e) b v = (
  omega (arith, b, e),
  release_ref-IsOpenFor s.unwired n s.device (omega (arith, b, e))
      (subst (λ m. IsOpenFor s.unwired m s.device) e v),
)

Reach-bounded :
    {s : System} → Reach s → (s.handles < 2 ^ 31) × IsOpenFor s.unwired s.handles s.device
Reach-bounded initial =
    (omega arith, record { counted = refl; up = λ h. absurd (omega (arith, h)); down = λ h. refl })
Reach-bounded (next r st) = let (b, v) = Reach-bounded r in Step-IsOpenFor st b v

-- Through any sequence of opens, failed opens and closes of whole calls, the open count is the number
-- of open handles; while there is one the adapter is up and the device is a bus master, and while there
-- is none the adapter is down. While there is one, the interrupt is on and a handler is installed, unless
-- configuring or enabling the interrupt or installing the handler failed in some call, which the code
-- does not look at.
pub Reach-IsOpenFor : {s : System} → Reach s → IsOpenFor s.unwired s.handles s.device
Reach-IsOpenFor r = (Reach-bounded r).1

-- A reference that is refused because the adapter does not start leaves the interrupt handler
-- installed and the interrupt on, where these calls succeeded, for any closed device and any interrupt.
pub refused_stays_installed :
    (d : Device) (a : Answers)
    → d.open_count ≡ 0
    → 0 < a.msi_count
    → a.init_adapter ≡ false
    → a.handler_installed ≡ true
    → a.msi_enabled ≡ true
    → ((acquire_ref a d).0 ≡ b_io_error)
      × ((acquire_ref a d).1.open_count ≡ 0)
      × ((acquire_ref a d).1.handlers ≡ d.handlers + 1)
      × ((acquire_ref a d).1.msi ≡ true)
unfolding acquire_ref start
refused_stays_installed d a closed some_msi broken installed enabled =
    let first : (d.open_count == 0) ≡ true = ground (arith, closed) in
    let msi : ltb a.msi_count 1 ≡ false = ground (arith, some_msi) in
    rw (first, acquire_ref)
      (rw (msi, start)
        (rw broken (refl, omega (arith, closed), if_true _ _ installed, if_true _ _ enabled)))
