-- ===== src/Device/Race.antt =====
-- Two threads in `NvHaikuDevice::AcquireRef` of nvidia_gsp/nvidia/Device.cpp at once. The call is cut
-- where the count has been read and raised, and where `Start` has returned.
use nvidia_haiku.Prelude.{
  ◌+◌, ◌%◌, ◌^◌, ◌≡◌, refl, sym, ◌∙◌, Bool, true, false, ◌==◌, ltb, if◌then◌else◌, arith,
  Bool-cases, if_true, if_false, inl, inr,
}
use nvidia_haiku.Device.{
  Device, Answers, Status, b_ok, b_error, start, settle, count_up, acquire_ref,
}

-- `fOpenCount.fetch_add(1)`: whether the caller is the first.
unfoldable pub begin_acquire : Device → Bool × Device
begin_acquire d = (d.open_count == 0, count_up d)

-- The rest of the call: the first caller starts the device.
unfoldable pub end_acquire : Answers → Bool → Device → Status × Device
unfolding start
end_acquire a first d = if first then settle (start a d) else (b_ok, d)

-- The two parts are the call.
pub acquire_parts :
    (a : Answers) (d : Device)
    → acquire_ref a d ≡ end_acquire a (begin_acquire d).0 (begin_acquire d).1
unfolding acquire_ref begin_acquire end_acquire
acquire_parts a d = elim (Bool-cases (d.open_count == 0)) [
  | inl q ↦ if_true _ _ q ∙ sym (if_true _ _ q)
  | inr q ↦ if_false _ _ q ∙ sym (if_false _ _ q)
]

-- If a second thread calls `AcquireRef` on a closed device while the first is about to start it, the
-- second gets its reference at once, with the adapter down. If the start then fails for want of an
-- interrupt, the second thread is left with its reference on a device that was never started.
pub second_acquires_early :
    (a : Answers) (b : Answers) (d : Device)
    → d.open_count ≡ 0
    → d.init_hardware ≡ false
    → a.msi_count ≡ 0
    → let (first, d₁) = begin_acquire d in
      let (second, d₂) = begin_acquire d₁ in
      let (status, d₃) = end_acquire b second d₂ in
      let (status', d₄) = end_acquire a first d₃ in
      (status ≡ b_ok)
      × (d₃.init_hardware ≡ false)
      × (status' ≡ b_error)
      × (d₄.open_count ≡ 1)
      × (d₄.init_hardware ≡ false)
unfolding begin_acquire end_acquire start
second_acquires_early a b d closed down no_msi =
    let one_before : (d.open_count == 0) ≡ true = ground (arith, closed) in
    let two_before : ((d.open_count + 1) % 2 ^ 32 == 0) ≡ false = ground (arith, closed) in
    let none : ltb a.msi_count 1 ≡ true = ground (arith, no_msi) in
    rw (two_before, end_acquire)
      (rw (one_before, end_acquire)
        (rw (none, start) (refl, down, refl, omega (arith, closed), down)))
