-- ===== src/Mutation/Runner/Audited.antt =====
-- mutation_runner.rs: the audit entries of the sessions with the server, after a whole command.
use vivi_mail.Common.{
  ◌≤◌, String, List, [], ◌∷◌, Bool, false, length, Result, ok, err, if◌then◌else◌, refl, inl, inr,
}
use vivi_mail.Config.{Account}
use vivi_mail.Queue.Item.{QueuedCommand}
use vivi_mail.Mutation.Plan.{MutationCapabilities, MutationAction, FlagMutation}
use vivi_mail.Mutation.World.{Env, State, lift, continue, ◌>>=◌, discover, keep_discovery}
use vivi_mail.Mutation.Discovery.{DiscoveryLog, discover_folders}
use vivi_mail.Mutation.Runner.{
  MutationRunOptions, ActionFor, flag_mutation, validate_mutation_confirmation, run_each_mutation,
  run_mutations, run_queued_mutation,
}
use vivi_mail.Mutation.Runner.Effects.{Discovers}
use vivi_mail.Mutation.Runner.Approvals.{approvals, run_each-IsAudited}

-- No more sessions of mutations than approvals, and at most one session of discovery more.
record IsPaid (before : List DiscoveryLog) (s : State) : Type 0 where
  approved : length s.sessions ≤ approvals s.audit
  discovers : Discovers before s.discoveries

module _ (env : Env) (acct : Account) where
  discovered-IsPaid :
      (inputs : List String) (f : ActionFor) (options : MutationRunOptions) (s : State)
      → length s.sessions ≤ approvals s.audit
      → (x : Result MutationCapabilities × DiscoveryLog)
      → IsPaid s.discoveries
          (continue (keep_discovery x s) λ c. run_each_mutation env acct inputs f c options).1
  discovered-IsPaid inputs f options s h (err e, log) = record {
    approved = h;
    discovers = inr (log, refl);
  }
  discovered-IsPaid inputs f options s h (ok c, log) =
      let k =
        run_each-IsAudited env (log ∷ s.discoveries) acct inputs f c options
          (keep_discovery (ok c, log) s).1 (record { approved = h; discovered = refl }) in
      record { approved = k.approved; discovers = inr (log, k.discovered) }

  paid : (s : State) → length s.sessions ≤ approvals s.audit → IsPaid s.discoveries s
  paid s h = record { approved = h; discovers = inl refl }

  confirmed-IsPaid :
      (inputs : List String) (f : ActionFor) (options : MutationRunOptions) (s : State)
      → length s.sessions ≤ approvals s.audit
      → (r : Result (Unit {0}))
      → IsPaid s.discoveries
          ((lift r >>= λ a. discover env >>= λ c. run_each_mutation env acct inputs f c options)
            s).1
  unfolding discover
  confirmed-IsPaid inputs f options s h (err e) = paid s h
  confirmed-IsPaid inputs f options s h (ok a) =
      discovered-IsPaid inputs f options s h (discover_folders (env.discovery s.calls))

  run_mutations-IsPaid :
      (inputs : List String) (f : ActionFor) (options : MutationRunOptions) (s : State)
      → length s.sessions ≤ approvals s.audit
      → IsPaid s.discoveries (run_mutations env acct inputs f options s).1
  unfolding run_mutations
  run_mutations-IsPaid inputs f options s h =
      confirmed-IsPaid inputs f options s h (validate_mutation_confirmation inputs f options)

  flagged-IsPaid :
      (handle : String) (d : Bool) (s : State)
      → length s.sessions ≤ approvals s.audit
      → (r : Result FlagMutation)
      → IsPaid s.discoveries
          ((lift r >>= λ m.
              run_mutations env acct
                (handle ∷ [])
                (λ input. ok (MutationAction.flag m))
                (record { dry_run = d; confirm = false }))
            s).1
  flagged-IsPaid handle d s h (err e) = paid s h
  flagged-IsPaid handle d s h (ok m) =
      run_mutations-IsPaid (handle ∷ []) (λ input. ok (MutationAction.flag m))
        (record { dry_run = d; confirm = false }) s h

  command-IsPaid :
      (command : QueuedCommand) (dry_run : Bool) (s : State)
      → length s.sessions ≤ approvals s.audit
      → IsPaid s.discoveries (run_queued_mutation env acct command dry_run s).1
  unfolding run_queued_mutation
  command-IsPaid (QueuedCommand.archive handles) d s h =
      run_mutations-IsPaid handles (λ input. ok MutationAction.archive)
        (record { dry_run = d; confirm = false }) s h
  command-IsPaid (QueuedCommand.delete handles expunge confirm) d s h =
      run_mutations-IsPaid handles
        (λ input. ok (if expunge then MutationAction.expunge else MutationAction.trash))
        (record { dry_run = d; confirm = confirm }) s h
  command-IsPaid (QueuedCommand.move handle folder) d s h =
      run_mutations-IsPaid (handle ∷ []) (λ input. ok (MutationAction.move folder))
        (record { dry_run = d; confirm = false }) s h
  command-IsPaid (QueuedCommand.flag handle read unread star unstar) d s h =
      flagged-IsPaid handle d s h (flag_mutation read unread star unstar)
  command-IsPaid (QueuedCommand.send path from) d s h = paid s h
  command-IsPaid (QueuedCommand.reply handle body) d s h = paid s h

-- A queued mutation never leaves more sessions of mutations with the server than approvals in the
-- audit file, where that held before it, whatever fails in between. The session of discovery, whose
-- requests only ask for the capabilities and the folders and log out, needs no approval, and there is
-- at most one more of them.
pub run_queued_mutation-audited :
    (env : Env) (acct : Account) (command : QueuedCommand) (dry_run : Bool) (s : State)
    → length s.sessions ≤ approvals s.audit
    → let t = (run_queued_mutation env acct command dry_run s).1 in
      (length t.sessions ≤ approvals t.audit) × Discovers s.discoveries t.discoveries
run_queued_mutation-audited env acct command dry_run s h =
    let p = command-IsPaid env acct command dry_run s h in (p.approved, p.discovers)
