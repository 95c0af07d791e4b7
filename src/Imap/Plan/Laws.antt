-- ===== src/Imap/Plan/Laws.antt =====
-- imap/sync/plan.rs: what a plan of named folders holds.
use vivi_mail.Common.{
  String, List, [], ◌∷◌, ◌++◌, some, Bool, true, false, not, ◌&&◌, ◌==◌, ◌≡◌, refl, inl, inr, arith,
  Result, ok, err, ◌>>=◌, ◌>>◌, All, All-append, Bool-cases, is_ok, all as every, subst, >>=-eq-ok,
  any-append, if◌then◌else◌,
}
use text.Mathlib.TextPositions.{eq_refl}
use vivi_mail.Config.{Account}
use vivi_mail.Config.Resolve.{inbox_folder}
use vivi_mail.Imap.Folders.{is_virtual_mailbox, mailbox_names_eq}
use vivi_mail.Imap.Plan.{
  FolderPlan, default, named, inbox_plan, plan_for_name, refuse_virtual, already_selected,
  collect_plans, named_plans, plans_for, default_plans,
}

-- No two plans share a local folder or name the same mailbox.
abbrev pub Apart : FolderPlan → FolderPlan → Type 0
Apart p q =
    ((p.local_folder == q.local_folder) ≡ false)
    × (mailbox_names_eq p.remote_folder q.remote_folder ≡ false)

abbrev pub IsDistinct : List FolderPlan → Type 0
IsDistinct [] = Unit
IsDistinct (p ∷ ps) = All (Apart p) ps × IsDistinct ps

abbrev pub IsReal : FolderPlan → Type 0
IsReal p = is_virtual_mailbox p.remote_folder ≡ false

IsDistinct-append_one :
    (ps : List FolderPlan) (q : FolderPlan)
    → IsDistinct ps
    → already_selected ps q ≡ false
    → IsDistinct (ps ++ q ∷ [])
unfolding already_selected
IsDistinct-append_one [] q d h = (tt, tt)
IsDistinct-append_one (p ∷ ps) q d h = (
  All-append (Apart p) ps (q ∷ []) d.0 (ground arith),
  IsDistinct-append_one ps q d.1 (ground arith),
)

refuse_virtual-ok :
    (p : FolderPlan) (name : String) (u : Unit {0}) → refuse_virtual p name ≡ ok u → IsReal p
unfolding refuse_virtual
refuse_virtual-ok p name u e = ground arith

abbrev with_plan : List FolderPlan → FolderPlan → List FolderPlan
with_plan plans plan = if not (already_selected plans plan) then plans ++ plan ∷ [] else plans

with_plan-IsReal :
    (plans : List FolderPlan) (plan : FolderPlan)
    → IsReal plan
    → All IsReal plans
    → All IsReal (with_plan plans plan)
with_plan-IsReal plans plan h v = elim (Bool-cases (already_selected plans plan)) [
  | inl old ↦ rw old v
  | inr new ↦ rw new (All-append IsReal plans (plan ∷ []) v (h, tt))
]

with_plan-IsDistinct :
    (plans : List FolderPlan) (plan : FolderPlan)
    → IsDistinct plans
    → IsDistinct (with_plan plans plan)
with_plan-IsDistinct plans plan d = elim (Bool-cases (already_selected plans plan)) [
  | inl old ↦ rw old d
  | inr new ↦ rw new (IsDistinct-append_one plans plan d new)
]

-- What the loop keeps, from one name to the next.
module _ (a : Account) (P : List FolderPlan → Type 0) where
  collect_plans_inv :
      ((plans : List FolderPlan) (plan : FolderPlan) (name : String)
        → plan_for_name a name ≡ ok plan
        → IsReal plan
        → P plans
        → P (with_plan plans plan))
      → (plans : List FolderPlan) (names : List String) (r : List FolderPlan) → P plans
      → collect_plans a plans names ≡ ok r
      → P r
  unfolding collect_plans
  collect_plans_inv keep plans [] r h e = subst P (ok_inj e) h
    where
      ok_inj : ok plans ≡ ok r → plans ≡ r
      ok_inj x = cc
  collect_plans_inv keep plans (name ∷ names) r h e =
      let (plan, found, e') = >>=-eq-ok (plan_for_name a name) _ e in
      let (u, real, e'') = >>=-eq-ok (refuse_virtual plan name) _ e' in
      collect_plans_inv keep (with_plan plans plan) names r
        (keep plans plan name found (refuse_virtual-ok plan name u real) h) e''

already_selected-append :
    (xs ys : List FolderPlan) (p : FolderPlan)
    → already_selected xs p ≡ true
    → already_selected (xs ++ ys) p ≡ true
unfolding already_selected
already_selected-append xs ys p h = rw any-append (ground arith)

with_plan_keeps :
    (plans : List FolderPlan) (q p : FolderPlan)
    → already_selected plans p ≡ true
    → already_selected (with_plan plans q) p ≡ true
with_plan_keeps plans q p h = elim (Bool-cases (already_selected plans q)) [
  | inl old ↦ rw old h
  | inr new ↦ rw new (already_selected-append plans (q ∷ []) p h)
]

with_plan_selects :
    (plans : List FolderPlan) (p : FolderPlan) → already_selected (with_plan plans p) p ≡ true
with_plan_selects plans p = elim (Bool-cases (already_selected plans p)) [
  | inl old ↦ rw old old
  | inr new ↦
      rw new (unfold already_selected in rw any-append (ground (arith, eq_refl p.local_folder)))
]

-- Every name is covered: its plan shares a local folder or a mailbox with a plan of the result.
abbrev pub Covers : Account → List FolderPlan → String → Type 0
Covers a r name = (p : FolderPlan) × (plan_for_name a name ≡ ok p) × (already_selected r p ≡ true)

collect_plans-Covers :
    (a : Account) (plans : List FolderPlan) (names : List String) (r : List FolderPlan)
    → collect_plans a plans names ≡ ok r
    → All (Covers a r) names
unfolding collect_plans
collect_plans-Covers a plans [] r e = tt
collect_plans-Covers a plans (name ∷ names) r e =
    let (plan, found, e') = >>=-eq-ok (plan_for_name a name) _ e in
    let (u, real, e'') = >>=-eq-ok (refuse_virtual plan name) _ e' in
    (
      (
        plan,
        found,
        collect_plans_inv a (λ ps. already_selected ps plan ≡ true)
            (λ ps q n f v h. with_plan_keeps ps q plan h) (with_plan plans plan) names r
            (with_plan_selects plans plan) e'',
      ),
      collect_plans-Covers a (with_plan plans plan) names r e'',
    )

-- A plan of named folders names no virtual mailbox, has no two plans for one local folder or one
-- mailbox, and covers every name.
pub named_plans-lem :
    (a : Account) (names : List String) (r : List FolderPlan)
    → named_plans a names ≡ ok r
    → All IsReal r × IsDistinct r × All (Covers a r) names
unfolding named_plans
named_plans-lem a names r e = (
  collect_plans_inv a (All IsReal) (λ ps q n f v h. with_plan-IsReal ps q v h) [] names r tt e,
  collect_plans_inv a IsDistinct (λ ps q n f v h. with_plan-IsDistinct ps q h) [] names r tt e,
  collect_plans-Covers a [] names r e,
)

-- Whether one name is accepted, by itself.
abbrev pub acceptable : Account → String → Bool
acceptable a name = is_ok (plan_for_name a name >>= λ p. refuse_virtual p name)

collect_plans-is_ok :
    (a : Account) (plans : List FolderPlan) (names : List String)
    → is_ok (collect_plans a plans names) ≡ every (acceptable a) names
unfolding collect_plans
collect_plans-is_ok a plans [] = refl
collect_plans-is_ok a plans (name ∷ names) =
    step (plan_for_name a name) (λ p. collect_plans-is_ok a (with_plan plans p) names)
  where
    step :
        (r : Result FolderPlan)
        → ((p : FolderPlan)
            → is_ok (collect_plans a (with_plan plans p) names) ≡ every (acceptable a) names)
        → is_ok
            (do plan ← r; refuse_virtual plan name; collect_plans a (with_plan plans plan) names)
          ≡ (is_ok (r >>= λ p. refuse_virtual p name) && every (acceptable a) names)
    step (err x) ih = refl
    step (ok p) ih = refused (refuse_virtual p name)
      where
        refused :
            (r : Result (Unit {0}))
            → is_ok (r >>= λ _. collect_plans a (with_plan plans p) names)
              ≡ (is_ok r && every (acceptable a) names)
        refused (ok u) = ih p
        refused (err x) = refl

-- A list of names is accepted exactly when each of its names is, by itself.
pub named_plans-is_ok :
    (a : Account) (names : List String) → is_ok (named_plans a names) ≡ every (acceptable a) names
unfolding named_plans
named_plans-is_ok a names = collect_plans-is_ok a [] names

plan_for_name-inbox : (a : Account) → plan_for_name a "inbox" ≡ ok (inbox_plan a)
unfolding plan_for_name is_virtual_mailbox
plan_for_name-inbox a = refl

-- Where the account's inbox is configured as a virtual mailbox, the folder "inbox" is refused as a
-- name, and the default plan covers that mailbox all the same.
pub default_plans-unchecked :
    (a : Account) (v : String)
    → a.inbox_folder ≡ some v
    → is_virtual_mailbox v ≡ true
    → (is_ok (plans_for a (named ("inbox" ∷ []))) ≡ false)
      × (plans_for a default ≡ ok (default_plans a))
      × ¬ All IsReal (default_plans a)
unfolding plans_for inbox_folder refuse_virtual
default_plans-unchecked a v e h =
    (ground (arith, plan_for_name-inbox a), refl, λ all_real. ground arith)
