-- ===== src/Mutation/Remote/Moves.antt =====
-- imap/mutate.rs: the copy and the expunge of a move, and what a session that returns has asked.
use vivi_mail.Common.{
  ℕ, String, [], ◌∷◌, ◌++◌, Bool, true, false, ◌&&◌, nat_eq, ◌==◌, ◌≡◌, refl, any, Result, ok, err,
  arith, ap, sym, ◌∙◌, subst, eq_iff,
}
use vivi_mail.Mutation.Plan.{
  MutationPlan, hard_expunge, CommandPath, uid_move, copy_store_deleted_uid_expunge,
}
use vivi_mail.Catalog.{RemoteIdentity}
use vivi_mail.Mutation.Remote.{
  MutationResult, Request, select, uid_mv, uid_copy, uid_store, uid_expunge, logout, Reply,
  completed, Log, Server, verify_uidvalidity, execute_plan, execute_selected, execute_move,
  move_requests, log_out, lift, request,
}
use vivi_mail.Mutation.Remote.Safety.{
  bind-Keeps, bind-ok, request-ok, verify_uidvalidity-Current, Current,
}

-- The exchange is a completed copy of this UID to this mailbox.
unfoldable pub is_copy : ℕ → String → Request × Reply → Bool
is_copy uid d (uid_copy u e, completed) = nat_eq u uid && e == d
is_copy uid d _ = false

-- Every expunge of the log names the UID, and a copy of it to the mailbox was completed before.
abbrev pub ExpungesCopied : ℕ → String → Log → Type 0
ExpungesCopied uid d [] = Unit
ExpungesCopied uid d ((uid_expunge u, a) ∷ log) =
    (u ≡ uid) × (any (is_copy uid d) log ≡ true) × ExpungesCopied uid d log
ExpungesCopied uid d ((_, a) ∷ log) = ExpungesCopied uid d log

module _ (server : Server) (remote : RemoteIdentity) where
  copy-is_copy :
      (d : String) (log : Log)
      → any (is_copy remote.uid d) (
          (uid_store remote.uid "+FLAGS.SILENT (\\Deleted)", completed)
          ∷ (uid_copy remote.uid d, completed)
          ∷ log)
        ≡ true
  unfolding is_copy
  copy-is_copy d log = ground (arith, (eq_iff d d).1 refl)

  stored-is_copy :
      (d : String) (log l1 l2 : Log)
      → request server "UID COPY" (uid_copy remote.uid d) log ≡ (ok tt, l1)
      → request server "UID STORE deleted" (uid_store remote.uid "+FLAGS.SILENT (\\Deleted)") l1
        ≡ (ok tt, l2)
      → any (is_copy remote.uid d) l2 ≡ true
  stored-is_copy d log l1 l2 e1 e2 =
      let copied = request-ok server "UID COPY" (uid_copy remote.uid d) log l1 e1 in
      let stored =
        request-ok server "UID STORE deleted" (uid_store remote.uid "+FLAGS.SILENT (\\Deleted)") l1
          l2 e2 in
      let marked : Request × Reply =
        (uid_store remote.uid "+FLAGS.SILENT (\\Deleted)", completed) in
      subst (λ l. any (is_copy remote.uid d) l ≡ true) (sym (stored ∙ ap (◌∷◌ marked) copied))
        (copy-is_copy d log)

  move_requests-ExpungesCopied :
      (d : String) (path : CommandPath) (log : Log)
      → ExpungesCopied remote.uid d log
      → ExpungesCopied remote.uid d (move_requests server remote d path log).1
  unfolding move_requests
  move_requests-ExpungesCopied d uid_move log h = h
  move_requests-ExpungesCopied d copy_store_deleted_uid_expunge log h =
      bind-Keeps (ExpungesCopied remote.uid d) (request server "UID COPY" (uid_copy remote.uid d)) _
        log h
        (λ a l1 e1 h1.
          bind-Keeps (ExpungesCopied remote.uid d)
            (request server "UID STORE deleted" (uid_store remote.uid "+FLAGS.SILENT (\\Deleted)"))
            _ l1 h1 (λ b l2 e2 h2. (refl, stored-is_copy d log l1 l2 e1 e2, h2)))

  -- However a session that moves a message ends, an expunge it asked for names the UID of the
  -- reference, and the copy of that message to the destination was completed before.
  pub execute_plan-ExpungesCopied :
      (d : String) (path : CommandPath)
      → ExpungesCopied remote.uid d (execute_plan server remote (MutationPlan.move d path) []).1
  unfolding execute_plan execute_selected execute_move
  execute_plan-ExpungesCopied d path =
      bind-Keeps (ExpungesCopied remote.uid d) (lift server.connect) _ [] tt (λ a l0 e0 k0.
        bind-Keeps (ExpungesCopied remote.uid d)
          (request server "select" (select remote.remote_mailbox)) _ l0 k0
          (λ b l1 e1 k1.
            bind-Keeps (ExpungesCopied remote.uid d)
              (lift (verify_uidvalidity remote (server.uid_validity remote.remote_mailbox))) _ l1 k1
              (λ c l2 e2 k2.
                bind-Keeps (ExpungesCopied remote.uid d) (move_requests server remote d path) _ l2
                  (move_requests-ExpungesCopied d path l2 k2) (λ u l3 e3 k3. k3))))

  -- The completed requests of a plan, the latest first.
  abbrev pub trace : MutationPlan → Log
  trace (MutationPlan.move d uid_move) = (uid_mv remote.uid d, completed) ∷ []
  trace (MutationPlan.move d copy_store_deleted_uid_expunge) =
      (uid_expunge remote.uid, completed)
      ∷ (uid_store remote.uid "+FLAGS.SILENT (\\Deleted)", completed)
      ∷ (uid_copy remote.uid d, completed)
      ∷ []
  trace (MutationPlan.flag m q) = (uid_store remote.uid q, completed) ∷ []
  trace hard_expunge = (uid_expunge remote.uid, completed) ∷ []

  move_requests-trace :
      (d : String) (path : CommandPath) (log last : Log)
      → move_requests server remote d path log ≡ (ok tt, last)
      → last ≡ trace (MutationPlan.move d path) ++ log
  unfolding move_requests
  move_requests-trace d uid_move log last h =
      request-ok server "UID MOVE" (uid_mv remote.uid d) log last h
  move_requests-trace d copy_store_deleted_uid_expunge log last h =
      let (a, l1, e1, h1) =
        bind-ok (request server "UID COPY" (uid_copy remote.uid d)) _ log tt last h in
      let (b, l2, e2, h2) =
        bind-ok
          (request server "UID STORE deleted" (uid_store remote.uid "+FLAGS.SILENT (\\Deleted)")) _
          l1 tt last h1 in
      let h2' =
        request-ok server "UID STORE deleted" (uid_store remote.uid "+FLAGS.SILENT (\\Deleted)") l1
          l2 e2 in
      let h1' = request-ok server "UID COPY" (uid_copy remote.uid d) log l1 e1 in
      let h3 = request-ok server "UID EXPUNGE" (uid_expunge remote.uid) l2 last h2 in cc

  execute_selected-trace :
      (p : MutationPlan) (log last : Log) (r : MutationResult)
      → execute_selected server remote p log ≡ (ok r, last)
      → last ≡ trace p ++ log
  unfolding execute_selected execute_move
  execute_selected-trace (MutationPlan.move d path) log last r h =
      let (a, l1, e1, h1) = bind-ok (move_requests server remote d path) _ log r last h in
      sym (ap (λ x. x.1) h1) ∙ move_requests-trace d path log l1 e1
  execute_selected-trace (MutationPlan.flag m q) log last r h =
      let (a, l1, e1, h1) =
        bind-ok (request server "UID STORE" (uid_store remote.uid q)) _ log r last h in
      sym (ap (λ x. x.1) h1) ∙ request-ok server "UID STORE" (uid_store remote.uid q) log l1 e1
  execute_selected-trace hard_expunge log last r h =
      let (a, l1, e1, h1) =
        bind-ok (request server "UID EXPUNGE" (uid_expunge remote.uid)) _ log r last h in
      sym (ap (λ x. x.1) h1) ∙ request-ok server "UID EXPUNGE" (uid_expunge remote.uid) log l1 e1

  log_out-ok :
      (x : Result MutationResult × Log) (r : MutationResult) (last : Log)
      → log_out server remote x ≡ (ok r, last)
      → (a : Reply) × (log : Log) × (x ≡ (ok r, log)) × (last ≡ (logout, a) ∷ log)
  log_out-ok (ok q, log) r last h = (server.reply log logout, log, cc, cc)
  log_out-ok (err e, log) r last h = cc

  -- A session that returns has found the UIDVALIDITY of the reference, and its requests are the
  -- selection of the mailbox, the requests of the plan, all completed and in their order, and the
  -- logout.
  pub execute_plan-ok :
      (p : MutationPlan) (r : MutationResult) (last : Log)
      → execute_plan server remote p [] ≡ (ok r, last)
      → Current server remote
        × ((a : Reply) × (last
              ≡ (logout, a) ∷ trace p ++ (select remote.remote_mailbox, completed) ∷ []))
  unfolding execute_plan
  execute_plan-ok p r last h =
      let (a, l0, e0, h0) = bind-ok (lift server.connect) _ [] r last h in
      let (b, l1, e1, h1) =
        bind-ok (request server "select" (select remote.remote_mailbox)) _ l0 r last h0 in
      let (c, l2, e2, h2) =
        bind-ok (lift (verify_uidvalidity remote (server.uid_validity remote.remote_mailbox))) _ l1
          r last h1 in
      let (out, l3, e3, h3) = log_out-ok (execute_selected server remote p l2) r last h2 in
      let start : l0 ≡ [] = sym (ap (λ x. x.1) e0) in
      let selected = request-ok server "select" (select remote.remote_mailbox) l0 l1 e1 in
      let verified : l2 ≡ l1 = sym (ap (λ x. x.1) e2) in
      let traced = execute_selected-trace p l2 l3 r e3 in
      (verify_uidvalidity-Current server remote (ap (λ x. x.0) e2), (out, cc))
