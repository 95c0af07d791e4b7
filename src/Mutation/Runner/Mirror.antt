-- ===== src/Mutation/Runner/Mirror.antt =====
-- mutation_runner.rs and catalog/local.rs: the local row of a message after a move.
use vivi_mail.Common.{
  String, List, [], ◌∷◌, Option, none, some, Bool, true, false, any, ◌≡◌, refl, ap, sym, ◌∙◌,
  Result, ok, err, arith, ok_or, Bool-cases, inl, inr, if◌then◌else◌, subst, ok-injective,
  VivariumError, to_string,
}
use vivi_mail.Catalog.{
  Row, CatalogEntry, selects, entry, update_where, update_local_state, update_remote_binding,
  set_local, set_binding, catalog_entry_from_row,
}
use vivi_mail.Mutation.World.{Env, State, Exec, ◌>>=◌, continue, outside, lift}
use vivi_mail.Config.{Account}
use vivi_mail.Mutation.Plan.{MutationAction, MutationCapabilities}
use vivi_mail.Mutation.Remote.{MutationResult}
use vivi_mail.Mutation.Runner.{
  MutationRunOptions, run_prepared_mutation, execute_remote, conclude, reconciled,
}
use vivi_mail.Mutation.Prepare.{PreparedMutation}
use vivi_mail.Mutation.Command.{
  update_message_state, reconcile_move, reconcile_action, reconcile_success, append_audit,
  with_rows,
}

-- The local row of a message after its move: in the folder of the role, with no remote binding.
record IsMirrored (account handle role : String) (rows : List Row) : Type 0 where
  row : CatalogEntry
  found : entry rows account handle ≡ some row
  moved : row.local_role ≡ role
  unbound : row.remote ≡ none

module _ (account handle role : String) (read star : Bool) where
  abbrev after : List Row → List Row
  after rows =
      update_remote_binding handle none
        (update_where (selects account handle) (set_local role read star) rows)

  after-found :
      (rows : List Row)
      → any (selects account handle) rows ≡ true
      → IsMirrored account handle role (after rows)
  unfolding update_remote_binding update_where entry catalog_entry_from_row
  after-found [] h = absurd (ground arith)
  after-found (r ∷ rows) h = elim (Bool-cases (selects account handle r)) [
    | inl e ↦ record {
      row = catalog_entry_from_row (set_binding none (set_local role read star r));
      found = ground arith;
      moved = refl;
      unbound = refl;
    }
    | inr e ↦
        let rest = after-found rows (ground arith) in
        record {
          row = rest.row;
          found = ground (arith, rest.found);
          moved = rest.moved;
          unbound = rest.unbound;
        }
  ]

continue-ok {ℓ κ} :
    {A : Type ℓ} {B : Type κ} (x : Result A × State) (f : A → Exec B) (b : B) (last : State)
    → continue x f ≡ (ok b, last)
    → (a : A) × (later : State) × (x ≡ (ok a, later)) × (f a later ≡ (ok b, last))
continue-ok (ok a, s) f b last h = (a, s, refl, h)
continue-ok (err e, s) f b last h = cc

-- Inversion of a step that returns.
bind-ok {ℓ κ} :
    {A : Type ℓ} {B : Type κ} (m : Exec A) (f : A → Exec B) (s : State) (b : B) (last : State)
    → (m >>= f) s ≡ (ok b, last)
    → (a : A) × (later : State) × (m s ≡ (ok a, later)) × (f a later ≡ (ok b, last))
bind-ok m f s b last h = continue-ok (m s) f b last h

with_rows-ok : (r : Result (List Row)) (s t : State) → with_rows r s ≡ (ok tt, t) → r ≡ ok t.rows
with_rows-ok (ok rows) s t h = ap ok (ap (λ x. x.1.rows) h)
with_rows-ok (err e) s t h = cc

outside-rows : (env : Env) (s t : State) → outside env s ≡ (ok tt, t) → t.rows ≡ s.rows
unfolding outside
outside-rows env s t h = sym (ap (λ x. x.1.rows) h)

taken-ok :
    (b : Bool) (x : List Row) (e : VivariumError) (y : List Row)
    → (if b then ok x else err e) ≡ ok y
    → (b ≡ true) × (x ≡ y)
taken-ok true x e y h = (refl, ok-injective h)
taken-ok false x e y h = cc

update_local_state-after :
    (account handle role : String) (read star : Bool) (rows later : List Row)
    → update_local_state account handle role read star rows ≡ ok later
    → IsMirrored account handle role (update_remote_binding handle none later)
unfolding update_local_state
update_local_state-after account handle role read star rows later h =
    let (some_row, updated) = taken-ok _ _ _ later h in
    subst (λ l. IsMirrored account handle role (update_remote_binding handle none l)) updated
      (after-found account handle role read star rows some_row)

update-IsMirrored :
    (env : Env) (account handle role : String) (read star : Bool) (s t : State)
    → update_message_state env account handle role read star none s ≡ (ok tt, t)
    → IsMirrored account handle role t.rows
unfolding update_message_state
update-IsMirrored env account handle role read star s t h =
    let (a, s1, e1, h1) = bind-ok (outside env) _ s tt t h in
    let (b, s2, e2, h2) =
      bind-ok (λ u. with_rows (update_local_state account handle role read star u.rows) u) _ s1 tt t
        h1 in
    let (c, s3, e3, h3) = bind-ok (outside env) _ s2 tt t h2 in
    let updated =
      with_rows-ok (update_local_state account handle role read star s1.rows) s1 s2 e2 in
    let mirrored = update_local_state-after account handle role read star s1.rows s2.rows updated in
    let bound = with_rows-ok (ok (update_remote_binding handle none s3.rows)) s3 t h3 in
    let same = outside-rows env s2 s3 e3 in
    subst (IsMirrored account handle role)
      (ap (update_remote_binding handle none) (sym same) ∙ ok-injective bound) mirrored

append_audit-rows :
    (env : Env) (p : PreparedMutation) (status : String) (d : Bool) (e : Option String)
    (s t : State)
    → append_audit env p status d e s ≡ (ok tt, t)
    → t.rows ≡ s.rows
unfolding append_audit
append_audit-rows env p status d e s t h =
    let (a, s1, e1, h1) = bind-ok (outside env) _ s tt t h in
    sym (ap (λ x. x.1.rows) h1) ∙ outside-rows env s s1 e1

ok_or-some :
    {x y : String} (o : Option String) (e : VivariumError) → o ≡ some y → ok_or o e ≡ ok x → x ≡ y
ok_or-some none e h k = cc
ok_or-some (some z) e h k = cc

-- The actions that move a message.
abbrev pub moves : MutationAction → Bool
moves MutationAction.expunge = false
moves (MutationAction.flag mutation) = false
moves _ = true

module _ (env : Env) (acct : Account) (p : PreparedMutation) (target : String)
    (at : p.preview.target_local_folder ≡ some target) where
  abbrev Mirrored : State → Type 0
  Mirrored t = IsMirrored p.preview.account p.preview.handle target t.rows

  reconcile_move-mirrors : (s t : State) → reconcile_move env p s ≡ (ok tt, t) → Mirrored t
  unfolding reconcile_move
  reconcile_move-mirrors s t h =
      let (place, s1, e1, h1) = bind-ok (lift (ok_or p.preview.target_local_folder _)) _ s tt t h in
      let same = ok_or-some p.preview.target_local_folder _ at (ap (λ x. x.0) e1) in
      subst (λ role. IsMirrored p.preview.account p.preview.handle role t.rows) same
        (update-IsMirrored env p.preview.account p.preview.handle place p.entry.read_state
          p.entry.starred s1 t h1)

  reconcile_action-mirrors :
      (action : MutationAction) (s t : State)
      → moves action ≡ true
      → reconcile_action env p action s ≡ (ok tt, t)
      → Mirrored t
  reconcile_action-mirrors MutationAction.archive s t m h = reconcile_move-mirrors s t h
  reconcile_action-mirrors MutationAction.trash s t m h = reconcile_move-mirrors s t h
  reconcile_action-mirrors (MutationAction.move name) s t m h = reconcile_move-mirrors s t h
  reconcile_action-mirrors MutationAction.expunge s t m h = cc
  reconcile_action-mirrors (MutationAction.flag mutation) s t m h = cc

  reconcile_success-mirrors :
      (s t : State) → moves p.action ≡ true → reconcile_success env p s ≡ (ok tt, t) → Mirrored t
  unfolding reconcile_success
  reconcile_success-mirrors s t m h =
      let (a, s1, e1, h1) = bind-ok (outside env) _ s tt t h in
      reconcile_action-mirrors p.action s1 t m h1

  reconciled-mirrors :
      (x : Result (Unit {0}) × State) (t : State)
      → ((s : State) → x ≡ (ok tt, s) → Mirrored s)
      → reconciled env acct p x ≡ (ok tt, t)
      → Mirrored t
  reconciled-mirrors (ok a, s) t f h =
      subst (IsMirrored p.preview.account p.preview.handle target)
        (sym (append_audit-rows env p "reconciled" false none s t h)) (f s refl)
  reconciled-mirrors (err e, s) t f h = cc

  conclude-mirrors :
      (x : Result MutationResult × State) (t : State)
      → moves p.action ≡ true
      → conclude env acct p x ≡ (ok tt, t)
      → Mirrored t
  conclude-mirrors (ok r, s) t m h =
      let (a, s1, e1, h1) = bind-ok (append_audit env p "executed" false none) _ s tt t h in
      reconciled-mirrors (reconcile_success env p s1) t (λ u e. reconcile_success-mirrors s1 u m e)
        h1
  conclude-mirrors (err e, s) t m h =
      let (a, s1, e1, h1) =
        bind-ok (append_audit env p "failed" false (some (to_string e))) _ s tt t h in
      absurd cc

-- A prepared move that is no dry run and returns has left the row of the message in the folder of
-- its target, with no remote binding.
pub run_prepared_mutation-mirrors :
    (env : Env) (acct : Account) (p : PreparedMutation) (c : MutationCapabilities)
    (options : MutationRunOptions) (target : String) (s t : State)
    → p.preview.target_local_folder ≡ some target
    → moves p.action ≡ true
    → options.dry_run ≡ false
    → run_prepared_mutation env acct p c options s ≡ (ok tt, t)
    → (row : CatalogEntry) × (entry t.rows p.preview.account p.preview.handle ≡ some row)
      × (row.local_role ≡ target)
      × (row.remote ≡ none)
unfolding run_prepared_mutation
run_prepared_mutation-mirrors env acct p c options target s t at m d h =
    let (a, s1, e1, h1) =
      bind-ok (append_audit env p "approved" false none) _ s tt t
        (second options.dry_run _ _ d h) in
    let mirrored = conclude-mirrors env acct p target at (execute_remote env acct p c s1) t m h1 in
    (mirrored.row, mirrored.found, mirrored.moved, mirrored.unbound)
  where
    second :
        (b : Bool) (m n : Exec (Unit {0}))
        → b ≡ false
        → (if b then m else n) s ≡ (ok tt, t)
        → n s ≡ (ok tt, t)
    second true m n e k = cc
    second false m n e k = k
