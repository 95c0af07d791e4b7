-- ===== src/Imap/Sync/Missing.antt =====
-- imap/sync.rs: what `find_missing` keeps and what it leaves out.
use vivi_mail.Common.{
  String, List, [], ◌∷◌, ◌++◌, Option, none, some, Bool, false, not, ◌||◌, ◌≡◌, refl, arith, Result,
  ok, err, retain, any-append, ◌==◌, >>=-eq-ok, ◌∙◌, ap, sym, ok-injective,
}
use vivi_mail.Imap.Plan.{DedupeScope, local_folder, all_folders}
use vivi_mail.Imap.Sync.{
  RemoteMessage, Sizes, RfcIndex, LocalIndex, by_rfc, by_size, missing_in, find_missing,
  scoped_index, rfc_index_contains,
}

-- A message that is known by its Message-ID, or by its remote key at the same size.
abbrev pub known : String → Sizes → RfcIndex → RemoteMessage → Bool
known folder sizes index m = by_rfc index m.rfc_message_id || by_size folder sizes m m.uidvalidity

pub missing_in-eq-retain :
    (folder : String) (sizes : Sizes) (index : RfcIndex) (ms : List RemoteMessage)
    → missing_in folder sizes index ms ≡ retain (λ m. not (known folder sizes index m)) ms
unfolding missing_in
missing_in-eq-retain folder sizes index [] = refl
missing_in-eq-retain folder sizes index (m ∷ ms) =
    ground (arith, missing_in-eq-retain folder sizes index ms)

abbrev listed : Result RfcIndex → String → Bool
listed (ok index) id = rfc_index_contains index id
listed (err e) id = false

abbrev at_scope : LocalIndex → String → DedupeScope → String → Bool
at_scope store folder local_folder id = listed (store.build_rfc_index folder) id
at_scope store folder all_folders id =
    listed (store.build_rfc_index folder) id
    || listed (store.build_rfc_index "inbox") id
    || listed (store.build_rfc_index "sent") id
    || listed (store.build_rfc_index "drafts") id

-- The index of a scope holds the Message-IDs of the folder itself and, across all folders, those of
-- the inbox, the sent folder and the drafts.
pub scoped_index-contains :
    (store : LocalIndex) (folder : String) (scope : DedupeScope) (index : RfcIndex) (id : String)
    → scoped_index store folder scope ≡ ok index
    → rfc_index_contains index id ≡ at_scope store folder scope id
unfolding scoped_index rfc_index_contains
scoped_index-contains store folder local_folder index id e = ground arith
scoped_index-contains store folder all_folders index id e =
    let (own, o, e₁) = >>=-eq-ok (store.build_rfc_index folder) _ e in
    let (inbox, i, e₂) = >>=-eq-ok (store.build_rfc_index "inbox") _ e₁ in
    let (sent, s, e₃) = >>=-eq-ok (store.build_rfc_index "sent") _ e₂ in
    let (drafts, d, e₄) = >>=-eq-ok (store.build_rfc_index "drafts") _ e₃ in
    ground (
      arith,
      any-append (λ entry. entry.0 == id) ((own ++ inbox) ++ sent) drafts,
      any-append (λ entry. entry.0 == id) (own ++ inbox) sent,
      any-append (λ entry. entry.0 == id) own inbox,
    )

retain-ext :
    {A : Type 0} (p q : A → Bool)
    → ((x : A) → p x ≡ q x)
    → (xs : List A) → retain p xs ≡ retain q xs
retain-ext p q h [] = refl
retain-ext p q h (x ∷ xs) = ground (arith, h x, retain-ext p q h xs)

abbrev by_scope : LocalIndex → String → DedupeScope → Option String → Bool
by_scope store folder scope none = false
by_scope store folder scope (some id) = at_scope store folder scope id

by_rfc-scope :
    (store : LocalIndex) (folder : String) (scope : DedupeScope) (index : RfcIndex)
    (id : Option String)
    → scoped_index store folder scope ≡ ok index
    → by_rfc index id ≡ by_scope store folder scope id
by_rfc-scope store folder scope index none e = refl
by_rfc-scope store folder scope index (some id) e =
    scoped_index-contains store folder scope index id e

-- A message that the store has: under its Message-ID in the folders of the scope, or under its
-- remote key in the folder itself, at the same size.
abbrev pub is_local : LocalIndex → String → DedupeScope → Sizes → RemoteMessage → Bool
is_local store folder scope sizes m =
    by_scope store folder scope m.rfc_message_id || by_size folder sizes m m.uidvalidity

-- A search that succeeds returns, in order, exactly the remote messages that the store does not
-- have: none with a Message-ID found in the folder (or, across all folders, in the inbox, the sent
-- folder or the drafts), and none whose remote key has the same size in the folder.
pub find_missing-lem :
    (ms : List RemoteMessage) (store : LocalIndex) (folder : String) (scope : DedupeScope)
    (missing : List RemoteMessage)
    → find_missing ms store folder scope ≡ ok missing
    → (sizes : Sizes) × (store.local_sizes folder ≡ ok sizes)
      × (missing ≡ retain (λ m. not (is_local store folder scope sizes m)) ms)
unfolding find_missing
find_missing-lem ms store folder scope missing e =
    let (sizes, s, e₁) = >>=-eq-ok (store.local_sizes folder) _ e in
    let (index, i, e₂) = >>=-eq-ok (scoped_index store folder scope) _ e₁ in
    (
      sizes,
      s,
      ok-injective (sym e₂)
          ∙ (missing_in-eq-retain folder sizes index ms
              ∙ retain-ext _ _
                  (λ m.
                    ap (λ b. not (b || by_size folder sizes m m.uidvalidity))
                      (by_rfc-scope store folder scope index m.rfc_message_id i))
                  ms),
    )
