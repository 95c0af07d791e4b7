-- ===== src/ProtonEvents/Resume.antt =====
-- proton_events.rs: where the next sync resumes, however one ends.
use mathlib.Core.List.{append-nil, append_assoc}
use vivi_mail.Common.{
  ℕ, zero, suc, String, List, [], ◌∷◌, ◌++◌, Option, none, some, Bool, ◌||◌, ◌==◌, ◌≡◌, refl, sym,
  ap, ◌∙◌, subst, inl, inr, ◌⊎◌, arith, Bool-cases, Result, ok, err, is_empty,
}
use vivi_mail.ProtonEvents.{
  ProtonEvent, ProtonEventSyncReport, Env, State, CursorFile, holds, unreadable, Save, written,
  untouched, torn, unsynced, Outcome, event_loop, after_event, after_session, after_apply,
  after_save, apply_event, counted_event,
}

-- The last event of some, or the cursor before them.
abbrev pub last_of : String → List String → String
last_of cursor [] = cursor
last_of cursor (id ∷ ids) = last_of id ids

-- The events are those that the server gives one after the other, from a round and a cursor on.
abbrev pub IsChain : Env → ℕ → String → List String → Type 0
IsChain env n cursor [] = Unit
IsChain env n cursor (id ∷ ids) =
    ((event : ProtonEvent) × (more : Bool) × (env.event n cursor ≡ ok (event, more))
      × (event.event_id ≡ id))
    × IsChain env (suc n) id ids

-- The file holds the cursor before the last event.
abbrev pub IsBehind : String → List String → CursorFile → Type 0
IsBehind cursor [] file = ⊥
IsBehind cursor (id ∷ []) file = file ≡ holds cursor
IsBehind cursor (id ∷ jd ∷ ids) file = IsBehind id (jd ∷ ids) file

-- All events are saved, or all but the last, or the file was torn.
abbrev pub Resumes : String → List String → CursorFile → Type 0
Resumes cursor ids file =
    (file ≡ holds (last_of cursor ids)) ⊎ (IsBehind cursor ids file ⊎ (file ≡ unreadable))

-- What a loop did from a state on.
pub record Went (env : Env) (n : ℕ) (cursor : String) (s t : State) : Type 0 where
  pub ids : List String
  pub applied : t.applied ≡ s.applied ++ ids
  pub chain : IsChain env n cursor ids
  pub resumes : Resumes cursor ids t.file

-- It ended before anything was applied.
stayed :
    (env : Env) (n : ℕ) (cursor : String) (s : State)
    → s.file ≡ holds cursor
    → Went env n cursor s s
stayed env n cursor s h = record {
  ids = [];
  applied = sym (append-nil s.applied);
  chain = tt;
  resumes = inl h;
}

Resumes-later :
    (cursor id : String) (ids : List String) (file : CursorFile)
    → Resumes id ids file
    → Resumes cursor (id ∷ ids) file
Resumes-later cursor id [] file (inl e) = inl e
Resumes-later cursor id [] file (inr (inl b)) = absurd b
Resumes-later cursor id [] file (inr (inr t)) = inr (inr t)
Resumes-later cursor id (jd ∷ ids) file (inl e) = inl e
Resumes-later cursor id (jd ∷ ids) file (inr (inl b)) = inr (inl b)
Resumes-later cursor id (jd ∷ ids) file (inr (inr t)) = inr (inr t)

state_of : State → Option (Result ProtonEventSyncReport × State) → State
state_of s none = s
state_of s (some (r, t)) = t

ended :
    (r q : Result ProtonEventSyncReport) (s t : State)
    → ◌≡◌ {A = Option (Result ProtonEventSyncReport × State)} (some (r, s)) (some (q, t))
    → s ≡ t
unfolding state_of
ended r q s t e = ap (state_of s) e

module _ (env : Env) where
  -- Any further rounds.
  abbrev Next : ℕ → String → (ProtonEventSyncReport → State → Outcome env) → Type 0
  Next n id next =
      (report : ProtonEventSyncReport) (s : State) (r : Result ProtonEventSyncReport) (t : State)
      → s.file ≡ holds id
      → next report s ≡ some (r, t)
      → Went env n id s t

  module _ (n : ℕ) (cursor id : String) (more : Bool)
      (next : ProtonEventSyncReport → State → Outcome env) (later : Next (suc n) id next)
      (came : (event : ProtonEvent) × (any_more : Bool) × (env.event n cursor
          ≡ ok (event, any_more))
        × (event.event_id ≡ id)) where
    applied_one : State → State
    applied_one s = record s { applied = s.applied ++ (id ∷ []) }

    after_save-Went :
        (save : Save) (report : ProtonEventSyncReport) (s t : State)
        (r : Result ProtonEventSyncReport)
        → s.file ≡ holds cursor
        → after_save env save more id report (applied_one s) next ≡ some (r, t)
        → Went env n cursor s t
    unfolding applied_one
    after_save-Went (untouched x) report s t r h e =
        let same : applied_one s ≡ t = ended (err x) r _ t e in
        subst (Went env n cursor s) same
          (record { ids = id ∷ []; applied = refl; chain = (came, tt); resumes = inr (inl h) })
    after_save-Went (torn x) report s t r h e =
        let same : record (applied_one s) { file = unreadable } ≡ t = ended (err x) r _ t e in
        subst (Went env n cursor s) same
          (record { ids = id ∷ []; applied = refl; chain = (came, tt); resumes = inr (inr refl) })
    after_save-Went (unsynced x) report s t r h e =
        let same : record (applied_one s) { file = holds id } ≡ t = ended (err x) r _ t e in
        subst (Went env n cursor s) same
          (record { ids = id ∷ []; applied = refl; chain = (came, tt); resumes = inl refl })
    after_save-Went written report s t r h e = elim (Bool-cases more) [
      | inr none_left ↦
          let same : record (applied_one s) { file = holds id } ≡ t =
            ended _ r _ t (rw none_left at e) in
          subst (Went env n cursor s) same
            (record { ids = id ∷ []; applied = refl; chain = (came, tt); resumes = inl refl })
      | inl more_left ↦
          let w = later (record report { event_id = some id }) _ r t refl (rw more_left at e) in
          record {
            ids = id ∷ w.ids;
            applied = w.applied ∙ append_assoc s.applied (id ∷ []) w.ids;
            chain = (came, w.chain);
            resumes = Resumes-later cursor id w.ids t.file w.resumes;
          }
    ]

    after_apply-Went :
        (result : Result ProtonEventSyncReport) (s t : State) (r : Result ProtonEventSyncReport)
        → s.file ≡ holds cursor
        → after_apply env n result more id s next ≡ some (r, t)
        → Went env n cursor s t
    unfolding applied_one
    after_apply-Went (err x) s t r h e =
        subst (Went env n cursor s) (ended (err x) r s t e) (stayed env n cursor s h)
    after_apply-Went (ok report) s t r h e = after_save-Went (env.save_cursor n) report s t r h e

  after_session-Went :
      (n : ℕ) (cursor : String) (session : Result (Unit {0})) (event : ProtonEvent) (more : Bool)
      (report : ProtonEventSyncReport) (s t : State) (r : Result ProtonEventSyncReport)
      (next : ProtonEventSyncReport → State → Outcome env)
      → Next (suc n) event.event_id next
      → env.event n cursor ≡ ok (event, more)
      → s.file ≡ holds cursor
      → after_session env n session event more cursor report s next ≡ some (r, t)
      → Went env n cursor s t
  after_session-Went n cursor (err x) event more report s t r next later came h e =
      subst (Went env n cursor s) (ended (err x) r s t e) (stayed env n cursor s h)
  after_session-Went n cursor (ok saved) event more report s t r next later came h e =
      elim (Bool-cases (is_empty event.event_id || event.event_id == cursor)) [
        | inl up_to_date ↦
            subst (Went env n cursor s) (ended _ r s t (rw up_to_date at e))
              (stayed env n cursor s h)
        | inr new ↦
            after_apply-Went n cursor event.event_id more next later (event, more, came, refl)
              (apply_event env n event (counted_event env report)) s t r h (rw new at e)
      ]

  after_event-Went :
      (n : ℕ) (cursor : String) (reply : Result (ProtonEvent × Bool))
      (report : ProtonEventSyncReport) (s t : State) (r : Result ProtonEventSyncReport)
      (next : String → ProtonEventSyncReport → State → Outcome env)
      → ((id : String) → Next (suc n) id (next id))
      → env.event n cursor ≡ reply
      → s.file ≡ holds cursor
      → after_event env n reply cursor report s next ≡ some (r, t)
      → Went env n cursor s t
  after_event-Went n cursor (err x) report s t r next later came h e =
      subst (Went env n cursor s) (ended (err x) r s t e) (stayed env n cursor s h)
  after_event-Went n cursor (ok (event, more)) report s t r next later came h e =
      after_session-Went n cursor (env.save_session n) event more report s t r (next event.event_id)
        (later event.event_id) came h e

  -- However a sync of events ends, after an error of any call too: the events that it applied are
  -- those that the server gives one after the other from the saved cursor on, and the file then
  -- holds the last of them, or the one before it, or was torn by the failure of its own save. So a
  -- sync that resumes from the file passes over no event.
  pub event_loop-Went :
      (fuel n : ℕ) (cursor : String) (report : ProtonEventSyncReport) (s t : State)
      (r : Result ProtonEventSyncReport)
      → s.file ≡ holds cursor
      → event_loop env fuel n cursor report s ≡ some (r, t)
      → Went env n cursor s t
  unfolding event_loop
  event_loop-Went zero n cursor report s t r h e = absurd (ground arith)
  event_loop-Went (suc fuel) n cursor report s t r h e =
      after_event-Went n cursor (env.event n cursor) report s t r (event_loop env fuel (suc n))
        (λ id report' s' r' t'. event_loop-Went fuel (suc n) id report' s' t' r') refl h e
