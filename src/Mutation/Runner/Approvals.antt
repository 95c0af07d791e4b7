-- ===== src/Mutation/Runner/Approvals.antt =====
-- mutation_runner.rs: the audit entries of the sessions with the server, through each step of a run.
use vivi_mail.Common.{
  ℕ, suc, ◌≤◌, String, List, [], ◌∷◌, Option, none, some, Bool, true, false, ◌==◌, length, Result,
  ok, err, arith, to_string, if◌then◌else◌, ok_or, message, ◌≡◌,
}
use vivi_mail.Config.{Account}
use vivi_mail.Catalog.{Row, RemoteIdentity, update_local_state, update_remote_binding, remove_entry}
use vivi_mail.Mutation.Plan.{MutationCapabilities, MutationAction}
use vivi_mail.Mutation.Remote.{MutationResult}
use vivi_mail.Mutation.World.{
  Env, State, Exec, lift, continue, outside, in_session, MutationAuditRecord,
}
use vivi_mail.Mutation.Discovery.{DiscoveryLog}
use vivi_mail.Mutation.Prepare.{PreparedMutation}
use vivi_mail.Mutation.Command.{
  prepare_mutation, append_audit, audit_record, reconcile_success, reconcile_move,
  reconcile_expunge, reconcile_flag, update_message_state, with_rows, append_record,
  reconcile_action, updated_read_state, updated_starred_state,
}
use vivi_mail.Mutation.Runner.{
  MutationRunOptions, ActionFor, execute_remote, remote_action, reconciled, conclude,
  run_prepared_mutation, run_each_mutation,
}
use vivi_mail.Mutation.Runner.Effects.{bind-Keeps}

-- The approvals that the audit file holds.
unfoldable pub approvals : List MutationAuditRecord → ℕ
approvals [] = 0
approvals (r ∷ rs) = let n = approvals rs in if r.status == "approved" then suc n else n

-- No more sessions of mutations than approvals, and the sessions of discovery as given.
pub record Audited (logs : List DiscoveryLog) (s : State) : Type 0 where
  pub approved : length s.sessions ≤ approvals s.audit
  pub discovered : s.discoveries ≡ logs

approvals-cons :
    (r : MutationAuditRecord) (rs : List MutationAuditRecord) → approvals rs ≤ approvals (r ∷ rs)
unfolding approvals
approvals-cons r rs = ground arith

module _ (env : Env) (logs : List DiscoveryLog) where
  abbrev IsAudited : State → Type 0
  IsAudited s = Audited logs s

  outside-IsAudited : (s : State) → IsAudited s → IsAudited (outside env s).1
  unfolding outside
  outside-IsAudited s h = record { approved = h.approved; discovered = h.discovered }

  append_audit-IsAudited :
      (p : PreparedMutation) (status : String) (d : Bool) (e : Option String) (s : State)
      → IsAudited s
      → IsAudited (append_audit env p status d e s).1
  unfolding append_audit
  append_audit-IsAudited p status d e s h =
      bind-Keeps IsAudited (outside env) _ s (outside-IsAudited s h) (λ a t k. record {
        approved = omega (
          arith,
          k.approved,
          approvals-cons (audit_record p status d e (env.now t.calls)) t.audit,
        );
        discovered = k.discovered;
      })

  with_rows-IsAudited :
      (r : Result (List Row)) (s : State) → IsAudited s → IsAudited (with_rows r s).1
  with_rows-IsAudited (ok rows) s h = record { approved = h.approved; discovered = h.discovered }
  with_rows-IsAudited (err e) s h = h

  update-IsAudited :
      (account handle role : String) (r star : Bool) (remote : Option RemoteIdentity) (s : State)
      → IsAudited s
      → IsAudited (update_message_state env account handle role r star remote s).1
  unfolding update_message_state
  update-IsAudited account handle role r star remote s h =
      bind-Keeps IsAudited (outside env) _ s (outside-IsAudited s h) (λ a t k.
        bind-Keeps IsAudited
          (λ u. with_rows (update_local_state account handle role r star u.rows) u) _ t
          (with_rows-IsAudited (update_local_state account handle role r star t.rows) t k)
          (λ b t2 k2. bind-Keeps IsAudited (outside env) _ t2 (outside-IsAudited t2 k2) (λ c t3 k3.
            with_rows-IsAudited (ok (update_remote_binding handle remote t3.rows)) t3 k3)))

  lift-IsAudited {ℓ} :
      {A : Type ℓ} (r : Result A) (s : State) → IsAudited s → IsAudited (lift r s).1
  lift-IsAudited r s h = h

  reconcile_move-IsAudited :
      (p : PreparedMutation) (s : State) → IsAudited s → IsAudited (reconcile_move env p s).1
  unfolding reconcile_move
  reconcile_move-IsAudited p s h =
      bind-Keeps IsAudited
        (lift (
          ok_or p.preview.target_local_folder
            (message "mutation has no supported local mirror target")))
        _ s h
        (λ target t k.
          update-IsAudited p.preview.account p.preview.handle target p.entry.read_state
            p.entry.starred none t k)

  reconcile_action-IsAudited :
      (p : PreparedMutation) (action : MutationAction) (s : State)
      → IsAudited s
      → IsAudited (reconcile_action env p action s).1
  unfolding reconcile_expunge reconcile_flag
  reconcile_action-IsAudited p MutationAction.expunge s h =
      bind-Keeps IsAudited (outside env) _ s (outside-IsAudited s h)
        (λ a t k. with_rows-IsAudited (remove_entry p.preview.account p.preview.handle t.rows) t k)
  reconcile_action-IsAudited p (MutationAction.flag m) s h =
      update-IsAudited p.preview.account p.preview.handle p.entry.local_role
        (updated_read_state p.entry m) (updated_starred_state p.entry m) p.entry.remote s h
  reconcile_action-IsAudited p MutationAction.archive s h = reconcile_move-IsAudited p s h
  reconcile_action-IsAudited p MutationAction.trash s h = reconcile_move-IsAudited p s h
  reconcile_action-IsAudited p (MutationAction.move name) s h = reconcile_move-IsAudited p s h

  reconcile_success-IsAudited :
      (p : PreparedMutation) (s : State) → IsAudited s → IsAudited (reconcile_success env p s).1
  unfolding reconcile_success
  reconcile_success-IsAudited p s h =
      bind-Keeps IsAudited (outside env) _ s (outside-IsAudited s h)
        (λ a t k. reconcile_action-IsAudited p p.action t k)

  reconciled-IsAudited :
      (acct : Account) (p : PreparedMutation) (x : Result (Unit {0}) × State)
      → IsAudited x.1
      → IsAudited (reconciled env acct p x).1
  reconciled-IsAudited acct p (ok a, s) h = append_audit-IsAudited p "reconciled" false none s h
  reconciled-IsAudited acct p (err e, s) h =
      append_audit-IsAudited p "failed" false (some (to_string e)) s h

  conclude-IsAudited :
      (acct : Account) (p : PreparedMutation) (x : Result MutationResult × State)
      → IsAudited x.1
      → IsAudited (conclude env acct p x).1
  conclude-IsAudited acct p (ok r, s) h =
      bind-Keeps IsAudited (append_audit env p "executed" false none) _ s
        (append_audit-IsAudited p "executed" false none s h)
        (λ a t k.
          reconciled-IsAudited acct p (reconcile_success env p t)
            (reconcile_success-IsAudited p t k))
  conclude-IsAudited acct p (err e, s) h =
      bind-Keeps IsAudited (append_audit env p "failed" false (some (to_string e))) _ s
        (append_audit-IsAudited p "failed" false (some (to_string e)) s h) (λ a t k. k)

  -- A mutation opens one session, which the approval before it pays for.
  remote_action-IsAudited :
      (acct : Account) (p : PreparedMutation) (c : MutationCapabilities) (action : MutationAction)
      (s : State)
      → suc (length s.sessions) ≤ approvals s.audit
      → s.discoveries ≡ logs
      → IsAudited (remote_action env acct p c action s).1
  unfolding in_session
  remote_action-IsAudited acct p c MutationAction.archive s h k = record {
    approved = h;
    discovered = k;
  }
  remote_action-IsAudited acct p c MutationAction.trash s h k = record {
    approved = h;
    discovered = k;
  }
  remote_action-IsAudited acct p c MutationAction.expunge s h k = record {
    approved = h;
    discovered = k;
  }
  remote_action-IsAudited acct p c (MutationAction.move name) s h k = record {
    approved = h;
    discovered = k;
  }
  remote_action-IsAudited acct p c (MutationAction.flag m) s h k = record {
    approved = h;
    discovered = k;
  }

  -- The end of the approval: room for one session where it was entered.
  Approves : Result (Unit {0}) × State → Type 0
  Approves (ok a, s) = (suc (length s.sessions) ≤ approvals s.audit) × (s.discoveries ≡ logs)
  Approves (err e, s) = IsAudited s

  entered-Approves :
      (p : PreparedMutation) (x : Result (Unit {0}) × State)
      → IsAudited x.1
      → Approves (
          continue x
            (λ a s. append_record env (audit_record p "approved" false none (env.now s.calls)) s))
  unfolding Approves approvals audit_record
  entered-Approves p (ok a, s) h = (ground (arith, h.approved), h.discovered)
  entered-Approves p (err e, s) h = h

  append_audit-Approves :
      (p : PreparedMutation) (s : State)
      → IsAudited s
      → Approves (append_audit env p "approved" false none s)
  unfolding append_audit
  append_audit-Approves p s h = entered-Approves p (outside env s) (outside-IsAudited s h)

  Approves-Keeps :
      (x : Result (Unit {0}) × State) (k : Exec (Unit {0}))
      → Approves x
      → ((t : State)
          → suc (length t.sessions) ≤ approvals t.audit
          → t.discoveries ≡ logs
          → IsAudited (k t).1)
      → IsAudited (continue x (λ a. k)).1
  unfolding Approves
  Approves-Keeps (ok a, s) k h f = f s h.0 h.1
  Approves-Keeps (err e, s) k h f = h

  either-IsAudited :
      (b : Bool) (m n : Exec (Unit {0})) (s : State)
      → IsAudited (m s).1
      → IsAudited (n s).1
      → IsAudited ((if b then m else n) s).1
  either-IsAudited true m n s h k = h
  either-IsAudited false m n s h k = k

  run_prepared-IsAudited :
      (acct : Account) (p : PreparedMutation) (c : MutationCapabilities)
      (options : MutationRunOptions) (s : State)
      → IsAudited s
      → IsAudited (run_prepared_mutation env acct p c options s).1
  unfolding run_prepared_mutation execute_remote
  run_prepared-IsAudited acct p c options s h =
      either-IsAudited options.dry_run (append_audit env p "planned" true none) _ s
        (append_audit-IsAudited p "planned" true none s h)
        (Approves-Keeps (append_audit env p "approved" false none s) _ (append_audit-Approves p s h)
          (λ t k d.
            conclude-IsAudited acct p (execute_remote env acct p c t)
              (remote_action-IsAudited acct p c p.action t k d)))

  pub run_each-IsAudited :
      (acct : Account) (inputs : List String) (f : ActionFor) (c : MutationCapabilities)
      (options : MutationRunOptions) (s : State)
      → IsAudited s
      → IsAudited (run_each_mutation env acct inputs f c options s).1
  unfolding run_each_mutation prepare_mutation
  run_each-IsAudited acct [] f c options s h = h
  run_each-IsAudited acct (input ∷ inputs) f c options s h =
      bind-Keeps IsAudited (lift (f input)) _ s h (λ action t k.
        bind-Keeps IsAudited (prepare_mutation env acct input action c options.dry_run) _ t
          (bind-Keeps IsAudited (outside env) _ t (outside-IsAudited t k) (λ a t1 k1. k1))
          (λ p t2 k2.
            bind-Keeps IsAudited (run_prepared_mutation env acct p c options) _ t2
              (run_prepared-IsAudited acct p c options t2 k2)
              (λ b t3 k3. run_each-IsAudited acct inputs f c options t3 k3)))
