-- ===== src/Catalog/Handles/Laws.antt =====
-- storage/handles.rs: the messages that a token resolves to.
use text.Mathlib.Text.{starts_with}
use text.Mathlib.TextPositions.{eq_refl}
use vivi_mail.Common.{
  String, List, [], ◌∷◌, Bool, true, false, ◌&&◌, ◌||◌, ◌==◌, ◌≡◌, sym, ap, ◌⊎◌, inl, inr, any,
  retain, format, Result, ok, arith, if◌then◌else◌, Bool-cases, ok-injective, subst,
}
use vivi_mail.Catalog.{Row, active}
use vivi_mail.Catalog.Handles.{
  short_handle, id_of, active_message_ids, content_prefix_matches, resolve_message_token, one_of,
  resolve_content,
}

taken-true {ℓ} : {A : Type ℓ} {b : Bool} (x y z : A) → b ≡ true → (if b then x else y) ≡ z → x ≡ z
taken-true {b = true} x y z e h = h
taken-true {b = false} x y z e h = cc

taken-false {ℓ} : {A : Type ℓ} {b : Bool} (x y z : A) → b ≡ false → (if b then x else y) ≡ z → y ≡ z
taken-false {b = true} x y z e h = cc
taken-false {b = false} x y z e h = h

module _ (like : String → String → Bool) where
  -- The token is the id of the row, its handle, a prefix of its id, or a prefix of its content id.
  unfoldable pub names : String → Row → Bool
  names token r =
      id_of r == token
      || short_handle (id_of r) == token
      || starts_with (id_of r) token
      || like r.content_id (format (token ∷ "%" ∷ []))

  unfoldable pub stands_for : String → String → Row → Bool
  stands_for token id r = active r && id_of r == id && names token r

  one_of-ok :
      (what token id : String) (ids : List String) (next : Result String)
      → one_of what token ids next ≡ ok id
      → (ids ≡ id ∷ []) ⊎ (next ≡ ok id)
  one_of-ok what token id [] next h = inr h
  one_of-ok what token id (i ∷ []) next h = inl (ap (λ x. x ∷ []) (ok-injective h))
  one_of-ok what token id (i ∷ j ∷ ids) next h = cc

  resolve_content-ok :
      (token id : String) (ids : List String) → resolve_content token ids ≡ ok id → ids ≡ id ∷ []
  resolve_content-ok token id [] h = cc
  resolve_content-ok token id (i ∷ []) h = ap (λ x. x ∷ []) (ok-injective h)
  resolve_content-ok token id (i ∷ j ∷ ids) h = cc

  -- An id found by a test of ids, or of rows, is that of an active row that passes.
  kept_id :
      (token id : String) (q : String → Bool) (rows : List Row)
      → ((r : Row) → q (id_of r) ≡ true → names token r ≡ true)
      → any (λ j. j == id) (retain q (active_message_ids rows)) ≡ true
      → any (stands_for token id) rows ≡ true
  unfolding active_message_ids stands_for
  kept_id token id q [] f h = h
  kept_id token id q (r ∷ rows) f h = ground (arith, kept_id token id q rows f, f r)

  kept_content :
      (token id : String) (rows : List Row)
      → any (λ j. j == id) (content_prefix_matches like rows token) ≡ true
      → any (stands_for token id) rows ≡ true
  unfolding content_prefix_matches stands_for names
  kept_content token id [] h = h
  kept_content token id (r ∷ rows) h = ground (arith, kept_content token id rows)

  only-any : (id : String) (ids : List String) → ids ≡ id ∷ [] → any (λ j. j == id) ids ≡ true
  only-any id ids e = subst (λ l. any (λ j. j == id) l ≡ true) (sym e) (ground (arith, eq_refl id))

  exact_id :
      (id : String) (rows : List Row)
      → any (λ j. j == id) (active_message_ids rows) ≡ true
      → any (stands_for id id) rows ≡ true
  unfolding active_message_ids stands_for names
  exact_id id [] h = h
  exact_id id (r ∷ rows) h = ground (arith, exact_id id rows)

  searched-ok :
      (token id : String) (rows : List Row)
      → one_of "handle" token (retain (λ j. short_handle j == token) (active_message_ids rows)) (
          one_of "message_id prefix" token
            (retain (λ j. starts_with j token) (active_message_ids rows))
            (resolve_content token (content_prefix_matches like rows token)))
        ≡ ok id
      → any (stands_for token id) rows ≡ true
  unfolding names
  searched-ok token id rows h = elim (one_of-ok _ token id _ _ h) [
    | inl e ↦
        kept_id token id (λ j. short_handle j == token) rows (λ r k. ground arith) (only-any id _ e)
    | inr h2 ↦ elim (one_of-ok _ token id _ _ h2) [
      | inl e ↦
          kept_id token id (λ j. starts_with j token) rows (λ r k. ground arith) (only-any id _ e)
      | inr h3 ↦ kept_content token id rows (only-any id _ (resolve_content-ok token id _ h3))
    ]
  ]

  -- Where a token resolves to an id, there is a row with that id that is not deleted, and the token
  -- is its id, its short handle, a prefix of its id, or, by the database's LIKE, a prefix of its
  -- content id.
  pub resolve_message_token-stands_for :
      (rows : List Row) (token id : String)
      → resolve_message_token like rows token ≡ ok id
      → any (stands_for token id) rows ≡ true
  unfolding resolve_message_token
  resolve_message_token-stands_for rows token id h =
      elim (Bool-cases (any (λ j. j == token) (active_message_ids rows))) [
        | inl e ↦
            let same = ok-injective (taken-true _ _ _ e h) in
            subst (λ i. any (stands_for token i) rows ≡ true) same (exact_id token rows e)
        | inr e ↦ searched-ok token id rows (taken-false _ _ _ e h)
      ]
