-- ===== src/Mutation/Plan/Laws.antt =====
-- imap/mutate.rs, mutation_command.rs and policy.rs: what a planned change may touch.
use vivi_mail.Common.{
  ◌≡◌, refl, ap, ◌⊎◌, inl, inr, String, Option, none, some, Bool, true, false, ◌==◌, eq_iff, arith,
  Result, ok, err, >>=-eq-ok, ok-injective, to_ascii_lowercase, if◌then◌else◌, Option-cases, sym,
  ◌∙◌, ◌||◌,
}
use vivi_mail.Config.{Account, MutationPolicy}
use vivi_mail.Config.Resolve.{
  inbox_folder, archive_folder, trash_folder, sent_folder, drafts_folder,
}
use vivi_mail.Policy.{authorize, authorize_mutation, classify, classifies_as_trash, policy_allows}
use vivi_mail.Queue.Item.{QueuedCommand}
use vivi_mail.Mutation.Plan.{
  MutationCapabilities, MutationTarget, MutationAction, MutationPlan, uid_move,
  copy_store_deleted_uid_expunge, hard_expunge, plan_move, destination, mutation_plan,
  target_folders, unsupported_folder, remote_folder, local_folder_for_move, TargetFolders,
}

-- The places that a message can move to.
pub data Role : Type 0 where
  inbox all_mail bin outgoing unsent : Role

-- The role that the local rows carry, and the remote folder behind it.
unfoldable pub role_text : Role → String
role_text inbox = "inbox"
role_text all_mail = "archive"
role_text bin = "trash"
role_text outgoing = "sent"
role_text unsent = "drafts"

unfoldable pub role_folder : Account → Role → String
role_folder a inbox = inbox_folder a
role_folder a all_mail = archive_folder a
role_folder a bin = trash_folder a
role_folder a outgoing = sent_folder a
role_folder a unsent = drafts_folder a

-- The commands of a plan are ones the server offers, and a removal is scoped to one UID.
abbrev pub Supported : MutationCapabilities → MutationPlan → Type 0
Supported c (MutationPlan.move d uid_move) = c.move_supported ≡ true
Supported c (MutationPlan.move d copy_store_deleted_uid_expunge) = c.uidplus ≡ true
Supported c (MutationPlan.flag m q) = Unit
Supported c hard_expunge = c.uidplus ≡ true

-- The destination of a plan that moves.
abbrev pub plan_destination : MutationPlan → Option String
plan_destination (MutationPlan.move d path) = some d
plan_destination _ = none

plan_move-Supported :
    (t : MutationTarget) (c : MutationCapabilities) (p : MutationPlan)
    → plan_move t c ≡ ok p
    → Supported c p × (plan_destination p ≡ some (destination t))
unfolding plan_move
plan_move-Supported t c (MutationPlan.move d uid_move) h = ground arith
plan_move-Supported t c (MutationPlan.move d copy_store_deleted_uid_expunge) h = ground arith
plan_move-Supported t c (MutationPlan.flag m q) h = ground arith
plan_move-Supported t c hard_expunge h = ground arith

-- A plan is made of commands that the server offers, and where it moves the message its
-- destination is the remote folder of the targets that `target_folders` gives.
pub mutation_plan-Supported :
    (a : Account) (act : MutationAction) (c : MutationCapabilities) (p : MutationPlan)
    (t : TargetFolders)
    → mutation_plan a act c ≡ ok p
    → target_folders a act ≡ ok t
    → Supported c p × (plan_destination p ≡ t.remote)
unfolding mutation_plan target_folders destination
mutation_plan-Supported a MutationAction.archive c p t h k =
    ground (arith, plan_move-Supported (MutationTarget.archive (archive_folder a)) c p)
mutation_plan-Supported a MutationAction.trash c p t h k =
    ground (arith, plan_move-Supported (MutationTarget.trash (trash_folder a)) c p)
mutation_plan-Supported a MutationAction.expunge c hard_expunge t h k = ground arith
mutation_plan-Supported a MutationAction.expunge c (MutationPlan.move d path) t h k = ground arith
mutation_plan-Supported a MutationAction.expunge c (MutationPlan.flag m q) t h k = ground arith
mutation_plan-Supported a (MutationAction.move f) c p t h k =
    let (remote, hr, hp) = >>=-eq-ok (remote_folder a f) _ h in
    let (remote', hr', k') = >>=-eq-ok (remote_folder a f) _ k in
    let (local, hl, ht) = >>=-eq-ok (local_folder_for_move a f) _ k' in
    let (hs, hd) = plan_move-Supported (MutationTarget.folder remote) c p hp in (hs, cc)
mutation_plan-Supported a (MutationAction.flag m) c (MutationPlan.flag m2 q) t h k = ground arith
mutation_plan-Supported a (MutationAction.flag m) c (MutationPlan.move d path) t h k = ground arith
mutation_plan-Supported a (MutationAction.flag m) c hard_expunge t h k = ground arith

-- The place whose configured folder has this name.
unfoldable role_configured : Account → String → Option Role
role_configured a f =
    if f == inbox_folder a
    then some inbox
    else if f == archive_folder a
    then some all_mail
    else if f == trash_folder a
    then some bin
    else if f == sent_folder a
    then some outgoing
    else if f == drafts_folder a
    then some unsent
    else none

-- The place that a name of a folder stands for.
unfoldable role_of : Account → String → Option Role
role_of a f =
    let lower = to_ascii_lowercase f in
    if lower == "inbox"
    then some inbox
    else if lower == "archive" || lower == "all"
    then some all_mail
    else if lower == "trash" || lower == "deleted"
    then some bin
    else if lower == "sent"
    then some outgoing
    else if lower == "draft" || lower == "drafts"
    then some unsent
    else role_configured a f

found : String → (Role → String) → Option Role → Result String
found f g none = err (unsupported_folder f)
found f g (some r) = ok (g r)

found-if :
    (f : String) (g : Role → String) (b : Bool) (x y : Option Role)
    → found f g (if b then x else y) ≡ (if b then found f g x else found f g y)
unfolding found
found-if f g true x y = refl
found-if f g false x y = refl

remote_folder-role_of :
    (a : Account) (f : String) → remote_folder a f ≡ found f (role_folder a) (role_of a f)
unfolding remote_folder role_of role_configured role_folder found
remote_folder-role_of a f = simp found-if

local_folder-role_of :
    (a : Account) (f : String) → local_folder_for_move a f ≡ found f role_text (role_of a f)
unfolding local_folder_for_move role_of role_configured role_text found
local_folder-role_of a f = simp found-if

-- Where a move to a name of a folder has targets, the local role and the remote folder are those
-- of one and the same place.
pub target_folders-agree :
    (a : Account) (f : String) (t : TargetFolders)
    → target_folders a (MutationAction.move f) ≡ ok t
    → (r : Role) × (t.remote ≡ some (role_folder a r)) × (t.local ≡ some (role_text r))
unfolding target_folders found
target_folders-agree a f t h = elim (Option-cases (role_of a f)) [
  | inl e ↦ ground (arith, remote_folder-role_of a f, local_folder-role_of a f)
  | inr (r, e) ↦ (
    r,
    ground (arith, remote_folder-role_of a f, local_folder-role_of a f),
    ground (arith, remote_folder-role_of a f, local_folder-role_of a f),
  )
]

trash_folder-Trash :
    (a : Account) (f : String) → f ≡ trash_folder a → classifies_as_trash a f ≡ true
unfolding classifies_as_trash
trash_folder-Trash a f same =
    let lower = ap to_ascii_lowercase same in
    ground (arith, (eq_iff (to_ascii_lowercase f) (to_ascii_lowercase (trash_folder a))).1 lower)

role_configured-bin :
    (a : Account) (f : String) → role_configured a f ≡ some bin → (f == trash_folder a) ≡ true
unfolding role_configured
role_configured-bin a f h = ground arith

role_of-cases :
    (a : Account) (f : String)
    → role_of a f ≡ some bin
    → (to_ascii_lowercase f == "trash" ≡ true)
      ⊎ ((to_ascii_lowercase f == "deleted" ≡ true) ⊎ (role_configured a f ≡ some bin))
unfolding role_of
role_of-cases a f h = ground arith

role_of-bin : (a : Account) (f : String) → role_of a f ≡ some bin → classifies_as_trash a f ≡ true
unfolding classifies_as_trash
role_of-bin a f h = elim (role_of-cases a f h) [
  | inl e ↦ ground arith
  | inr (inl e) ↦ ground arith
  | inr (inr e) ↦ trash_folder-Trash a f ((eq_iff f (trash_folder a)).0 (role_configured-bin a f e))
]

role_text-bin : (r : Role) → role_text r ≡ "trash" → r ≡ bin
unfolding role_text
role_text-bin inbox h = ground (arith, eq_iff "inbox" "trash")
role_text-bin all_mail h = ground (arith, eq_iff "archive" "trash")
role_text-bin bin h = refl
role_text-bin outgoing h = ground (arith, eq_iff "sent" "trash")
role_text-bin unsent h = ground (arith, eq_iff "drafts" "trash")

found-bin : (f : String) (o : Option Role) → found f role_text o ≡ ok "trash" → o ≡ some bin
unfolding found
found-bin f none h = cc
found-bin f (some r) h = ap some (role_text-bin r (ok-injective h))

local_trash-bin :
    (a : Account) (f : String) → local_folder_for_move a f ≡ ok "trash" → role_of a f ≡ some bin
local_trash-bin a f h = found-bin f (role_of a f) (sym (local_folder-role_of a f) ∙ h)

-- Under the archive policy, a move that is authorised does not go to the local trash.
pub authorize-not_trash :
    (a : Account) (h f : String)
    → a.policy ≡ MutationPolicy.archive
    → authorize a (QueuedCommand.move h f) ≡ ok tt
    → ¬ local_folder_for_move a f ≡ ok "trash"
unfolding authorize authorize_mutation classify policy_allows
authorize-not_trash a h f hp ha hl = ground (arith, role_of-bin a f (local_trash-bin a f hl))
