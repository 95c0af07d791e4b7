-- ===== src/Watch/Tests.antt =====
-- watch_inbox.rs: rounds that fail.
use vivi_mail.Common.{[], ◌∷◌, none, ◌≡◌, refl, ok, err, VivariumError}
use vivi_mail.Watch.{State, round, poll}

abbrev fresh : State (λ from. none)
fresh = record { backoff = 1; slept = []; emitted = [] }

-- Failed waits double the delay; a failed sync after a wait is always followed by one second.
waits_run :
    (let a =
        round
          (λ from. none)
          "work"
          (err (VivariumError.io "down"))
          (ok (record { new = 0; cataloged_entries = [] }))
          fresh in
      let b =
        round
          (λ from. none)
          "work"
          (err (VivariumError.io "down"))
          (ok (record { new = 0; cataloged_entries = [] }))
          a in
      let c = round (λ from. none) "work" (ok poll) (err (VivariumError.io "down")) b in
      (round (λ from. none) "work" (ok poll) (err (VivariumError.io "down")) c).slept)
    ≡ 1 ∷ 1 ∷ 2 ∷ 1 ∷ []
unfolding round
waits_run = refl
