-- ===== src/Imap/Sync/Totals.antt =====
-- imap/sync.rs: how many messages a run downloads.
use vivi_mail.Common.{
  ℕ, ◌+◌, ◌*◌, ◌≤◌, String, List, [], ◌∷◌, some, ◌≡◌, refl, arith, ok, length, length-append,
  length-take, take, >>=-eq-ok, ok-injective, inl, inr, Bool-cases, subst, if◌then◌else◌,
}
use vivi_mail.Config.{Account}
use vivi_mail.Config.Resolve.{resolved_storage_mode}
use vivi_mail.Imap.Plan.{FolderPlan, SyncSelection, plans_for}
use vivi_mail.Imap.Sync.{
  RemoteMessage, SyncResult, default_result, Remote, is_nil, find_missing, truncate_missing,
  sync_folder, sync_each, sync_plans, sync_messages, merged, is_proton_api, is_proxy,
}

-- A result with no more than `n` new messages, each with its catalog entry.
pub record Counts (n : ℕ) (r : SyncResult) : Type 0 where
  pub bounded : r.new ≤ n
  pub cataloged : length r.cataloged_entries ≡ r.new

module _ (remote : Remote)
    (download : (folder role : String) (ms : List RemoteMessage) (r : SyncResult)
      → remote.download_missing folder role ms ≡ ok r
      → Counts (length ms) r)
    (limit : ℕ) where
  downloaded :
      (plan : FolderPlan) (missing : List RemoteMessage) (r : SyncResult)
      → remote.download_missing plan.remote_folder plan.local_folder (take limit missing) ≡ ok r
      → Counts limit r
  downloaded plan missing r e = ground (
    arith,
    download plan.remote_folder plan.local_folder (take limit missing) r e,
    length-take limit missing,
  )

  from_missing :
      (plan : FolderPlan) (missing : List RemoteMessage) (r : SyncResult)
      → (if is_nil missing
          then ok default_result
          else if is_nil (truncate_missing missing (some limit))
          then ok default_result
          else remote.download_missing plan.remote_folder plan.local_folder
              (truncate_missing missing (some limit)))
        ≡ ok r
      → Counts limit r
  unfolding truncate_missing
  from_missing plan missing r e = ground (arith, downloaded plan missing r)

  sync_folder-Counts :
      (plan : FolderPlan) (r : SyncResult)
      → sync_folder remote plan (some limit) ≡ ok r
      → Counts limit r
  unfolding sync_folder
  sync_folder-Counts plan r e =
      let (messages, m, e₁) = >>=-eq-ok (remote.fetch_remote_messages plan.remote_folder) _ e in
      elim (Bool-cases (is_nil messages)) [
        | inl empty ↦ ground arith
        | inr listed ↦
            let (u, f, e₂) =
              >>=-eq-ok (remote.refresh_remote_flags plan.remote_folder messages) _
                (rw listed at e₁) in
            let (missing, s, e₃) =
              >>=-eq-ok (find_missing messages remote.store plan.local_folder plan.dedupe_scope) _
                e₂ in
            from_missing plan missing r e₃
      ]

  sync_each-Counts :
      (plans : List FolderPlan) (n : ℕ) (result r : SyncResult)
      → Counts n result
      → sync_each remote result plans (some limit) ≡ ok r
      → Counts (n + limit * length plans) r
  unfolding sync_each
  sync_each-Counts [] n result r h e =
      subst (Counts _) (ok-injective e)
        (record { bounded = omega (arith, h.bounded); cataloged = h.cataloged })
  sync_each-Counts (plan ∷ plans) n result r h e =
      let (part, p, e') = >>=-eq-ok (sync_folder remote plan (some limit)) _ e in
      let c = sync_folder-Counts plan part p in
      let rest =
        sync_each-Counts plans (n + limit) (merged remote result part) r
          (record {
            bounded = omega (arith, h.bounded, c.bounded);
            cataloged = omega (
              arith,
              length-append result.cataloged_entries part.cataloged_entries,
              h.cataloged,
              c.cataloged,
            );
          })
          e' in
      record { bounded = omega (arith, rest.bounded); cataloged = rest.cataloged }

  -- A run over a selection of folders brings in at most `limit` messages for each folder, so no
  -- folder uses up the share of another, and has one catalog entry for each new message, where the
  -- download of a folder counts no more messages than it is given and catalogues each.
  pub sync_messages-Counts :
      (account : Account) (selection : SyncSelection) (plans : List FolderPlan) (r : SyncResult)
      → plans_for account selection ≡ ok plans
      → sync_messages remote account (some limit) selection ≡ ok r
      → Counts (limit * length plans) r
  unfolding sync_messages sync_plans
  sync_messages-Counts account selection plans r p e =
      let (found, f, e') = >>=-eq-ok (plans_for account selection) _ e in
      let same : found ≡ plans = ok-injective (ground arith) in
      elim (Bool-cases (is_proton_api remote account.provider)) [
        | inl direct ↦ absurd (ground arith)
        | inr bridge ↦ elim (Bool-cases (is_proxy remote (resolved_storage_mode account))) [
          | inl no_store ↦ absurd (ground arith)
          | inr stored ↦
              let counts =
                sync_each-Counts found 0 default_result r
                  (record { bounded = omega arith; cataloged = refl }) (ground arith) in
              subst (λ ps. Counts (limit * length ps) r) same
                (record { bounded = omega (arith, counts.bounded); cataloged = counts.cataloged })
        ]
      ]
