-- ===== src/Modeset/Examples.antt =====
-- Runs of the driver of nvidia_gsp/nvidia-modeset.
use nvidia_haiku.Prelude.{◌≡◌, ◌≢◌, ◌⊎◌, inl, inr, refl, true, false, none, [], ◌∷◌}
use nvidia_haiku.Modeset.Client.{Client, event_queue_changed, select}
use nvidia_haiku.Modeset.Client.Level.{IsIn, Reach, initial, next, arrives, selects, waiters_told}
use nvidia_haiku.Modeset.Setup
use nvidia_haiku.Modeset.Semaphore

abbrev waiting : Client
waiting = record {
  cookie = none;
  pool = 6 ∷ 5 ∷ [];
  events_available = true;
  notified = 6 ∷ 5 ∷ [];
}

waiting-Reach : Reach waiting
unfolding select event_queue_changed
waiting-Reach =
    next (next (next initial (selects true true 5 refl)) arrives) (selects true true 6 refl)

waiters_told_example : IsIn 5 waiting.notified
waiters_told_example = waiters_told 5 waiting-Reach refl (inr (inl refl))

abbrev answers : Setup.Answers
answers = record { module_found = true; queue_starts = true; kms_loads = false }

abbrev machine : Setup.Machine
machine = record { module_refs = 1; kms_loaded = false; dpc_queues = 0 }

driver_balanced_example :
    (((Setup.init_driver true answers machine).0 ≡ Setup.b_ok)
      × (Setup.uninit_driver true
            (Setup.init_driver true answers machine).1
            (Setup.init_driver true answers machine).2
          ≡ Setup.released true answers machine))
    ⊎ (((Setup.init_driver true answers machine).0 ≢ Setup.b_ok)
        × ((Setup.init_driver true answers machine).2 ≡ Setup.released true answers machine))
driver_balanced_example = Setup.driver_balanced true answers machine refl

abbrev given_back : Semaphore.Use
given_back = record { count = 1; taken = 2; given = 1 }

given_back-Reach :
    Semaphore.Reach Semaphore.os_acquire_semaphore Semaphore.os_release_semaphore 2 given_back
unfolding Semaphore.os_acquire_semaphore Semaphore.os_release_semaphore
given_back-Reach = Semaphore.gives (Semaphore.takes (Semaphore.takes Semaphore.made refl) refl) refl

abbrev downed : Semaphore.Use
downed = record { count = 1; taken = 1; given = 0 }

downed-Reach : Semaphore.Reach Semaphore.nvkms_sema_down Semaphore.nvkms_sema_up 0 downed
unfolding Semaphore.nvkms_sema_down
downed-Reach = Semaphore.takes Semaphore.made refl
