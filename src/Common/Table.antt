-- ===== src/Common/Table.antt =====
-- Tables with a text as primary key, and the SQL statements that the program runs on them.
use Prim.Native.String.{String}
use Prim.Native.Nat.{ℕ, suc}
use mathlib.Core.Path.{◌≡◌, refl, sym, ap, ◌∙◌}
use mathlib.Core.Logic.{◌⊎◌, inl, inr}
use mathlib.Core.Bool.{Bool, true, false}
use mathlib.Core.List.{List, [], ◌∷◌}
use mathlib.Core.Option.{Option, none, some}
use native.Mathlib.Omega.{arith}
use text.Mathlib.Text.{◌==◌}
use text.Mathlib.TextEquality.{eq_iff}
use vivi_mail.Common.Tests.{if◌then◌else◌, Bool-cases}

abbrev pub Table {ℓ} : Type ℓ → Type ℓ
Table V = List (String × V)

-- Two keys are found equal whichever is asked of.
pub ==-symmetric : (s t : String) → (s == t) ≡ (t == s)
==-symmetric s t = elim (Bool-cases (s == t)) [
  | inl e ↦ e ∙ sym ((eq_iff t s).1 (sym ((eq_iff s t).0 e)))
  | inr e ↦ elim (Bool-cases (t == s)) [
    | inl f ↦ (eq_iff s t).1 (sym ((eq_iff t s).0 f)) ∙ sym f
    | inr f ↦ e ∙ sym f
  ]
]

module _ {ℓ} {V : Type ℓ} where
  -- SELECT by the primary key.
  abbrev pub get : String → Table V → Option V
  get k [] = none
  get k ((j, v) ∷ t) = if j == k then some v else get k t

  -- INSERT with ON CONFLICT of the primary key DO UPDATE.
  abbrev pub upsert : String → V → (V → V) → Table V → Table V
  upsert k new update [] = (k, new) ∷ []
  upsert k new update ((j, v) ∷ t) =
      let rest = upsert k new update t in if j == k then (j, update v) ∷ t else (j, v) ∷ rest

  -- UPDATE of the rows that a test selects, and the count of these.
  abbrev pub update_rows : (String → V → Bool) → (V → V) → Table V → Table V
  update_rows p f [] = []
  update_rows p f ((k, v) ∷ t) =
      let rest = update_rows p f t in if p k v then (k, f v) ∷ rest else (k, v) ∷ rest

  abbrev pub count_rows : (String → V → Bool) → Table V → ℕ
  count_rows p [] = 0
  count_rows p ((k, v) ∷ t) = let rest = count_rows p t in if p k v then suc rest else rest

  abbrev pub is_some : Option V → Bool
  is_some none = false
  is_some (some v) = true

  -- What an upsert leaves under its key.
  abbrev pub upserted : V → (V → V) → Option V → V
  upserted new update none = new
  upserted new update (some v) = update v

  pub get-upsert :
      (k : String) (new : V) (update : V → V) (t : Table V)
      → get k (upsert k new update t) ≡ some (upserted new update (get k t))
  get-upsert k new update [] = let e : (k == k) ≡ true = (eq_iff k k).1 refl in rw e refl
  get-upsert k new update ((j, v) ∷ t) = elim (Bool-cases (j == k)) [
    | inl e ↦ rw e (rw e refl)
    | inr e ↦ rw e (rw e (get-upsert k new update t))
  ]

  pub get-upsert_other :
      (i k : String) (new : V) (update : V → V) (t : Table V)
      → (k == i) ≡ false
      → get i (upsert k new update t) ≡ get i t
  get-upsert_other i k new update [] d = rw d refl
  get-upsert_other i k new update ((j, v) ∷ t) d = elim (Bool-cases (j == k)) [
    | inl e ↦
        let other : (j == i) ≡ false = ap (λ s. s == i) ((eq_iff j k).0 e) ∙ d in
        rw e (rw other refl)
    | inr e ↦ rw e (ground (arith, get-upsert_other i k new update t d))
  ]

  -- An upsert takes no key away.
  pub upsert-is_some :
      (i k : String) (new : V) (update : V → V) (t : Table V)
      → is_some (get i t) ≡ true
      → is_some (get i (upsert k new update t)) ≡ true
  upsert-is_some i k new update t h = elim (Bool-cases (k == i)) [
    | inl e ↦ rw (sym ((eq_iff k i).0 e)) (ap is_some (get-upsert k new update t))
    | inr e ↦ ap is_some (get-upsert_other i k new update t e) ∙ h
  ]

  -- The rows of a table have a property.
  abbrev pub Rows {κ} : (String → V → Type κ) → Table V → Type κ
  Rows P [] = Unit
  Rows P ((k, v) ∷ t) = P k v × Rows P t

  -- Every two rows of a table have a relation.
  abbrev pub Pairs {κ} : (String → V → String → V → Type κ) → Table V → Type κ
  Pairs R [] = Unit
  Pairs R ((k, v) ∷ t) = Rows (R k v) t × Pairs R t

  pub Rows-upsert {κ} :
      (P : String → V → Type κ) (k : String) (new : V) (update : V → V) (t : Table V)
      → P k new
      → ((v : V) → P k v → P k (update v))
      → Rows P t
      → Rows P (upsert k new update t)
  Rows-upsert P k new update [] n u h = (n, tt)
  Rows-upsert P k new update ((j, v) ∷ t) n u h = elim (Bool-cases (j == k)) [
    | inl e ↦ let same = (eq_iff j k).0 e in rw e (rw same (u v (rw (← same) h.0), h.1))
    | inr e ↦ rw e (h.0, Rows-upsert P k new update t n u h.1)
  ]

  pub Rows-map {κ λ₂} :
      {P : String → V → Type κ} {Q : String → V → Type λ₂}
      → ((k : String) (v : V) → P k v → Q k v)
      → (t : Table V) → Rows P t
      → Rows Q t
  Rows-map f [] h = tt
  Rows-map f ((k, v) ∷ t) h = (f k v h.0, Rows-map f t h.1)

  pub Rows-both {κ λ₂ μ} :
      {P : String → V → Type κ} {Q : String → V → Type λ₂} {S : String → V → Type μ}
      → ((k : String) (v : V) → P k v → Q k v → S k v)
      → (t : Table V) → Rows P t
      → Rows Q t
      → Rows S t
  Rows-both f [] h q = tt
  Rows-both f ((k, v) ∷ t) h q = (f k v h.0 q.0, Rows-both f t h.1 q.1)

  pub Rows-update {κ} :
      (P : String → V → Type κ) (p : String → V → Bool) (f : V → V)
      → ((k : String) (v : V) → P k v → P k (f v))
      → (t : Table V) → Rows P t
      → Rows P (update_rows p f t)
  Rows-update P p f keep [] h = tt
  Rows-update P p f keep ((k, v) ∷ t) h = elim (Bool-cases (p k v)) [
    | inl e ↦ rw e (keep k v h.0, Rows-update P p f keep t h.1)
    | inr e ↦ rw e (h.0, Rows-update P p f keep t h.1)
  ]

  -- The primary key is unique.
  abbrev pub IsOther : String → V → String → V → Type 0
  IsOther k v j w = (k == j) ≡ false

  pub Keys-upsert :
      (k : String) (new : V) (update : V → V) (t : Table V)
      → Pairs IsOther t
      → Pairs IsOther (upsert k new update t)
  Keys-upsert k new update [] h = (tt, tt)
  Keys-upsert k new update ((j, v) ∷ t) h = elim (Bool-cases (j == k)) [
    | inl e ↦ rw e (Rows-map (λ i w d. d) t h.0, h.1)
    | inr e ↦
        rw e (
          Rows-upsert (IsOther j v) k new update t e (λ w d. d) h.0,
          Keys-upsert k new update t h.1,
        )
  ]

  -- A relation of a new row to those under other keys extends to the table.
  pub Pairs-put :
      (R : String → V → String → V → Type 0) (k : String) (new : V) (t : Table V)
      → ((i : String) (v : V) (j : String) (w : V) → R i v j w → R j w i v)
      → Rows (λ i v. (i == k) ≡ false → R k new i v) t
      → Pairs IsOther t
      → Pairs R t
      → Pairs R (upsert k new (λ old. new) t)
  Pairs-put R k new [] symmetric h d r = (tt, tt)
  Pairs-put R k new ((j, v) ∷ t) symmetric h d r = elim (Bool-cases (j == k)) [
    | inl e ↦
        let same = (eq_iff j k).0 e in
        let others : Rows (λ i w. R k new i w) t =
          Rows-both {Q = λ i w. (i == k) ≡ false → R k new i w}
            (λ i w o q. q (==-symmetric i k ∙ (ap (λ s. s == i) (sym same) ∙ o))) t d.0 h.1 in
        rw e (rw same others, r.1)
    | inr e ↦ rw e (
      Rows-upsert (R j v) k new (λ old. new) t (symmetric _ _ _ _ (h.0 e))
          (λ w q. symmetric _ _ _ _ (h.0 e)) r.0,
      Pairs-put R k new t symmetric h.1 d.1 r.1,
    )
  ]

  -- An update that a relation does not see keeps it.
  pub Pairs-update :
      (R : String → V → String → V → Type 0) (p : String → V → Bool) (f : V → V)
      → ((i : String) (v : V) (j : String) (w : V) → R i v j w → R i (f v) j w)
      → ((i : String) (v : V) (j : String) (w : V) → R i v j w → R i v j (f w))
      → (t : Table V) → Pairs R t
      → Pairs R (update_rows p f t)
  Pairs-update R p f l r [] h = tt
  Pairs-update R p f l r ((k, v) ∷ t) h =
      let first = Rows-update (R k v) p f (r k v) t h.0 in
      let rest = Pairs-update R p f l r t h.1 in
      elim (Bool-cases (p k v)) [
        | inl e ↦ rw e (Rows-map (λ j w. l k v j w) (update_rows p f t) first, rest)
        | inr e ↦ rw e (first, rest)
      ]

  -- What an update leaves under a key.
  pub get-update :
      (k : String) (p : String → V → Bool) (f : V → V) (t : Table V)
      → (get k (update_rows p f t) ≡ get k t)
        ⊎ ((v : V) × (get k t ≡ some v) × (get k (update_rows p f t) ≡ some (f v)))
  get-update k p f [] = inl refl
  get-update k p f ((j, v) ∷ t) = elim (Bool-cases (p j v)) [
    | inl e ↦ elim (Bool-cases (j == k)) [
      | inl same ↦ inr (rw e (rw same (v, refl, refl)))
      | inr other ↦ rw e (rw other (get-update k p f t))
    ]
    | inr e ↦ elim (Bool-cases (j == k)) [
      | inl same ↦ inl (rw e (rw same refl))
      | inr other ↦ rw e (rw other (get-update k p f t))
    ]
  ]
