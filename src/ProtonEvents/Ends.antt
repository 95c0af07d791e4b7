-- ===== src/ProtonEvents/Ends.antt =====
-- proton_events.rs: the loop over the events ends where the server's events do.
use vivi_mail.Common.{
  ℕ, zero, suc, ◌-◌, ◌≤◌, ◌<◌, String, Bool, true, false, ◌||◌, ◌==◌, ◌≡◌, refl, inl, inr, ◌⊎◌, ltb,
  subst, arith, Bool-cases, Result, ok, err, is_empty,
}
use vivi_mail.Common.Table.{is_some}
use vivi_mail.ProtonEvents.{
  ProtonEvent, ProtonEventSyncReport, Env, State, Save, written, untouched, torn, unsynced, Outcome,
  event_loop, after_event, after_session, after_apply, after_save, apply_event, counted_event,
}

module _ (env : Env) where
  -- A reply after which the server has no more events, or an error.
  abbrev pub IsLast : Result (ProtonEvent × Bool) → Type 0
  IsLast (err e) = Unit
  IsLast (ok (event, more)) = more ≡ false

  -- The further rounds end, where there are any.
  abbrev Ends : Bool → (ProtonEventSyncReport → State → Outcome env) → Type 0
  Ends more next =
      more ≡ true → (report : ProtonEventSyncReport) (s : State) → is_some (next report s) ≡ true

  after_save-Ends :
      (save : Save) (more : Bool) (id : String) (report : ProtonEventSyncReport) (s : State)
      (next : ProtonEventSyncReport → State → Outcome env)
      → Ends more next
      → is_some (after_save env save more id report s next) ≡ true
  after_save-Ends (untouched e) more id report s next h = refl
  after_save-Ends (torn e) more id report s next h = refl
  after_save-Ends (unsynced e) more id report s next h = refl
  after_save-Ends written more id report s next h = elim (Bool-cases more) [
    | inl m ↦ rw m (h m _ _)
    | inr m ↦ rw m refl
  ]

  after_apply-Ends :
      (n : ℕ) (result : Result ProtonEventSyncReport) (more : Bool) (id : String) (s : State)
      (next : ProtonEventSyncReport → State → Outcome env)
      → Ends more next
      → is_some (after_apply env n result more id s next) ≡ true
  after_apply-Ends n (err e) more id s next h = refl
  after_apply-Ends n (ok report) more id s next h =
      after_save-Ends (env.save_cursor n) more id report _ next h

  after_session-Ends :
      (n : ℕ) (session : Result (Unit {0})) (event : ProtonEvent) (more : Bool) (cursor : String)
      (report : ProtonEventSyncReport) (s : State)
      (next : ProtonEventSyncReport → State → Outcome env)
      → Ends more next
      → is_some (after_session env n session event more cursor report s next) ≡ true
  after_session-Ends n (err e) event more cursor report s next h = refl
  after_session-Ends n (ok saved) event more cursor report s next h =
      elim (Bool-cases (is_empty event.event_id || event.event_id == cursor)) [
        | inl up_to_date ↦ rw up_to_date refl
        | inr new ↦ rw new (
            after_apply-Ends n (apply_event env n event (counted_event env report)) more
              event.event_id s next h)
      ]

  after_event-Ends :
      (n : ℕ) (reply : Result (ProtonEvent × Bool)) (cursor : String)
      (report : ProtonEventSyncReport) (s : State)
      (next : String → ProtonEventSyncReport → State → Outcome env)
      → ((id : String) (report : ProtonEventSyncReport) (s : State)
          → is_some (next id report s) ≡ true)
        ⊎ IsLast reply
      → is_some (after_event env n reply cursor report s next) ≡ true
  after_event-Ends n (err e) cursor report s next h = refl
  after_event-Ends n (ok (event, more)) cursor report s next (inl h) =
      after_session-Ends n (env.save_session n) event more cursor report s (next event.event_id)
        (λ m. h event.event_id)
  after_event-Ends n (ok (event, more)) cursor report s next (inr last) =
      after_session-Ends n (env.save_session n) event more cursor report s (next event.event_id)
        (λ m. absurd (ground arith))

  -- Where the server has no more events, or fails, in some round at the latest, the loop of a sync
  -- ends within the fuel of one more than the rounds up to that one.
  pub event_loop-ends :
      (last : ℕ)
      → ((cursor : String) → IsLast (env.event last cursor))
      → (fuel n : ℕ) (cursor : String) (report : ProtonEventSyncReport) (s : State) → n ≤ last
      → last - n < fuel
      → is_some (event_loop env fuel n cursor report s) ≡ true
  unfolding event_loop
  event_loop-ends last stops zero n cursor report s l f = absurd (omega (arith, f))
  event_loop-ends last stops (suc fuel) n cursor report s l f = elim (Bool-cases (ltb n last)) [
    | inl before ↦
        after_event-Ends n (env.event n cursor) cursor report s (event_loop env fuel (suc n)) (
          inl (λ id report' s'.
            event_loop-ends last stops fuel (suc n) id report' s' (ground arith) (ground arith)))
    | inr there ↦
        let now : last ≡ n = ground arith in
        after_event-Ends n (env.event n cursor) cursor report s (event_loop env fuel (suc n))
          (inr (subst (λ k. IsLast (env.event k cursor)) now (stops cursor)))
  ]
