-- ===== src/Mutation/Runner/Effects.antt =====
-- mutation_runner.rs: what a run of mutations may have changed when it ends, however it ends.
use vivi_mail.Common.{
  String, List, [], ◌∷◌, Option, none, Bool, true, false, ◌≡◌, refl, ◌⊎◌, inl, inr, Result, ok, err,
  message, if◌then◌else◌,
}
use vivi_mail.Config.{Account}
use vivi_mail.Queue.Item.{QueuedCommand}
use vivi_mail.Mutation.Plan.{MutationCapabilities, MutationAction, FlagMutation}
use vivi_mail.Mutation.World.{
  Env, State, Exec, ◌>>=◌, lift, continue, outside, discover, keep_discovery,
}
use vivi_mail.Mutation.Discovery.{DiscoveryLog, discover_folders}
use vivi_mail.Mutation.Prepare.{PreparedMutation}
use vivi_mail.Mutation.Command.{prepare_mutation, append_audit}
use vivi_mail.Mutation.Runner.{
  MutationRunOptions, ActionFor, flag_mutation, validate_mutation_confirmation, confirm_each,
  run_prepared_mutation, run_each_mutation, run_mutations, run_queued_mutation,
}

-- A property of the state that holds at the end of a step, and of what follows if it returns.
continue-Keeps {ℓ κ} :
    (Q : State → Type 0) {A : Type ℓ} {B : Type κ} (x : Result A × State) (f : A → Exec B)
    → Q x.1
    → ((a : A) (s : State) → Q s → Q (f a s).1)
    → Q (continue x f).1
continue-Keeps Q (ok a, s) f h k = k a s h
continue-Keeps Q (err e, s) f h k = h

pub bind-Keeps {ℓ κ} :
    (Q : State → Type 0) {A : Type ℓ} {B : Type κ} (m : Exec A) (f : A → Exec B) (s : State)
    → Q (m s).1
    → ((a : A) (t : State) → Q t → Q (f a t).1)
    → Q ((m >>= f) s).1
bind-Keeps Q m f s h k = continue-Keeps Q (m s) f h k

first-Keeps :
    (Q : State → Type 0) (b : Bool) (m n : Exec (Unit {0})) (s : State)
    → b ≡ true
    → Q (m s).1
    → Q ((if b then m else n) s).1
first-Keeps Q true m n s e h = h
first-Keeps Q false m n s e h = cc

-- The sessions of discovery after a command: those before it, and at most one more.
abbrev pub Discovers : List DiscoveryLog → List DiscoveryLog → Type 0
Discovers before after = (after ≡ before) ⊎ ((log : DiscoveryLog) × (after ≡ log ∷ before))

-- The rows and the sessions of the mutations are those of the beginning, and those of discovery as
-- given.
record Untouched (before : State) (logs : List DiscoveryLog) (after : State) : Type 0 where
  same_rows : after.rows ≡ before.rows
  same_sessions : after.sessions ≡ before.sessions
  discovered : after.discoveries ≡ logs

-- The same, with the sessions of discovery of the beginning and at most one more.
record IsPlanned (before after : State) : Type 0 where
  same_rows : after.rows ≡ before.rows
  same_sessions : after.sessions ≡ before.sessions
  discovers : Discovers before.discoveries after.discoveries

module _ (env : Env) (acct : Account) (before : State) (logs : List DiscoveryLog) where
  abbrev IsUntouched : State → State → Type 0
  IsUntouched s t = Untouched s logs t

  ticked : (s : State) → IsUntouched before s → IsUntouched before (outside env s).1
  unfolding outside
  ticked s h = record {
    same_rows = h.same_rows;
    same_sessions = h.same_sessions;
    discovered = h.discovered;
  }

  prepare-IsUntouched :
      (input : String) (action : MutationAction) (c : MutationCapabilities) (dry_run : Bool)
      (s : State)
      → IsUntouched before s
      → IsUntouched before (prepare_mutation env acct input action c dry_run s).1
  unfolding prepare_mutation outside
  prepare-IsUntouched input action c dry_run s h =
      bind-Keeps (IsUntouched before) (outside env) _ s (ticked s h) (λ a t k. k)

  append_audit-IsUntouched :
      (p : PreparedMutation) (status : String) (d : Bool) (e : Option String) (s : State)
      → IsUntouched before s
      → IsUntouched before (append_audit env p status d e s).1
  unfolding append_audit outside
  append_audit-IsUntouched p status d e s h =
      bind-Keeps (IsUntouched before) (outside env) _ s (ticked s h) (λ a t k. record {
        same_rows = k.same_rows;
        same_sessions = k.same_sessions;
        discovered = k.discovered;
      })

  -- The one branch of a prepared mutation that a dry run takes.
  prepared-IsUntouched :
      (p : PreparedMutation) (c : MutationCapabilities) (options : MutationRunOptions) (s : State)
      → options.dry_run ≡ true
      → IsUntouched before s
      → IsUntouched before (run_prepared_mutation env acct p c options s).1
  unfolding run_prepared_mutation
  prepared-IsUntouched p c options s d h =
      first-Keeps (IsUntouched before) options.dry_run _ _ s d
        (append_audit-IsUntouched p "planned" true none s h)

  run_each-IsUntouched :
      (inputs : List String) (f : ActionFor) (c : MutationCapabilities)
      (options : MutationRunOptions) (s : State)
      → options.dry_run ≡ true
      → IsUntouched before s
      → IsUntouched before (run_each_mutation env acct inputs f c options s).1
  unfolding run_each_mutation
  run_each-IsUntouched [] f c options s d h = h
  run_each-IsUntouched (input ∷ inputs) f c options s d h =
      bind-Keeps (IsUntouched before) (lift (f input)) _ s h (λ action t k.
        bind-Keeps (IsUntouched before) (prepare_mutation env acct input action c options.dry_run) _
          t (prepare-IsUntouched input action c options.dry_run t k)
          (λ p t2 k2.
            bind-Keeps (IsUntouched before) (run_prepared_mutation env acct p c options) _ t2
              (prepared-IsUntouched p c options t2 d k2)
              (λ b t3 k3. run_each-IsUntouched inputs f c options t3 d k3)))

planned : (s : State) → IsPlanned s s
planned s = record { same_rows = refl; same_sessions = refl; discovers = inl refl }

module _ (env : Env) (acct : Account) where
  -- After the session of discovery, a dry run of the handles leaves everything as it is.
  discovered-IsPlanned :
      (inputs : List String) (f : ActionFor) (options : MutationRunOptions) (s : State)
      → options.dry_run ≡ true
      → (x : Result MutationCapabilities × DiscoveryLog)
      → IsPlanned s
          (continue (keep_discovery x s) λ c. run_each_mutation env acct inputs f c options).1
  discovered-IsPlanned inputs f options s d (err e, log) = record {
    same_rows = refl;
    same_sessions = refl;
    discovers = inr (log, refl);
  }
  discovered-IsPlanned inputs f options s d (ok c, log) =
      let t = (keep_discovery (ok c, log) s).1 in
      let h =
        run_each-IsUntouched env acct s (log ∷ s.discoveries) inputs f c options t d
          (record { same_rows = refl; same_sessions = refl; discovered = refl }) in
      record {
        same_rows = h.same_rows;
        same_sessions = h.same_sessions;
        discovers = inr (log, h.discovered);
      }

  confirmed-IsPlanned :
      (inputs : List String) (f : ActionFor) (options : MutationRunOptions) (s : State)
      → options.dry_run ≡ true
      → (r : Result (Unit {0}))
      → IsPlanned s
          ((lift r >>= λ a. discover env >>= λ c. run_each_mutation env acct inputs f c options)
            s).1
  unfolding discover
  confirmed-IsPlanned inputs f options s d (err e) = planned s
  confirmed-IsPlanned inputs f options s d (ok a) =
      discovered-IsPlanned inputs f options s d (discover_folders (env.discovery s.calls))

  run_mutations-IsPlanned :
      (inputs : List String) (f : ActionFor) (options : MutationRunOptions) (s : State)
      → options.dry_run ≡ true
      → IsPlanned s (run_mutations env acct inputs f options s).1
  unfolding run_mutations
  run_mutations-IsPlanned inputs f options s d =
      confirmed-IsPlanned inputs f options s d (validate_mutation_confirmation inputs f options)

  flagged-IsPlanned :
      (handle : String) (s : State) (r : Result FlagMutation)
      → IsPlanned s
          ((lift r >>= λ m.
              run_mutations env acct
                (handle ∷ [])
                (λ input. ok (MutationAction.flag m))
                (record { dry_run = true; confirm = false }))
            s).1
  flagged-IsPlanned handle s (err e) = planned s
  flagged-IsPlanned handle s (ok m) =
      run_mutations-IsPlanned (handle ∷ []) (λ input. ok (MutationAction.flag m))
        (record { dry_run = true; confirm = false }) s refl

dry_run-IsPlanned :
    (env : Env) (acct : Account) (command : QueuedCommand) (s : State)
    → IsPlanned s (run_queued_mutation env acct command true s).1
unfolding run_queued_mutation
dry_run-IsPlanned env acct (QueuedCommand.archive handles) s =
    run_mutations-IsPlanned env acct handles (λ input. ok MutationAction.archive)
      (record { dry_run = true; confirm = false }) s refl
dry_run-IsPlanned env acct (QueuedCommand.delete handles expunge confirm) s =
    run_mutations-IsPlanned env acct handles
      (λ input. ok (if expunge then MutationAction.expunge else MutationAction.trash))
      (record { dry_run = true; confirm = confirm }) s refl
dry_run-IsPlanned env acct (QueuedCommand.move handle folder) s =
    run_mutations-IsPlanned env acct (handle ∷ []) (λ input. ok (MutationAction.move folder))
      (record { dry_run = true; confirm = false }) s refl
dry_run-IsPlanned env acct (QueuedCommand.flag handle read unread star unstar) s =
    flagged-IsPlanned env acct handle s (flag_mutation read unread star unstar)
dry_run-IsPlanned env acct (QueuedCommand.send path from) s = planned s
dry_run-IsPlanned env acct (QueuedCommand.reply handle body) s = planned s

-- A dry run of any queued mutation opens no session of a mutation and at most one session of
-- discovery, whose requests only ask for the capabilities and the folders and log out, and leaves
-- every row as it was, whether it returns or fails.
pub run_queued_mutation-dry_run :
    (env : Env) (acct : Account) (command : QueuedCommand) (s : State)
    → let t = (run_queued_mutation env acct command true s).1 in
      (t.rows ≡ s.rows) × (t.sessions ≡ s.sessions) × Discovers s.discoveries t.discoveries
run_queued_mutation-dry_run env acct command s =
    let h = dry_run-IsPlanned env acct command s in (h.same_rows, h.same_sessions, h.discovers)

-- A hard expunge of at least one message that is neither confirmed nor a dry run fails before
-- anything is asked of the server, and changes nothing.
pub run_queued_mutation-unconfirmed :
    (env : Env) (acct : Account) (handle : String) (handles : List String) (s : State)
    → run_queued_mutation env acct (QueuedCommand.delete (handle ∷ handles) true false) false s
      ≡ (err (message "hard expunge requires --confirm; use --dry-run to preview"), s)
unfolding run_queued_mutation run_mutations validate_mutation_confirmation confirm_each
run_queued_mutation-unconfirmed env acct handle handles s = refl
