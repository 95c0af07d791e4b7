-- ===== src/Reset/Containment.antt =====
-- sync.rs: what a validated reset can delete.
use vivi_mail.Common.{
  String, List, [], ◌∷◌, some, Bool, true, false, not, ◌&&◌, ◌||◌, ◌==◌, eq_iff, any, All, ◌≡◌,
  refl, ok, ◌>>◌, >>=-eq-ok, arith, VivariumError, to_ascii_lowercase, if◌then◌else◌,
}
use text.Mathlib.TextPositions.{eq_refl}
use vivi_mail.Reset.{
  Component, root_dir, normal, PathBuf, root, component_eq, path_eq, starts_with, parent, display,
  Places, refuse_if, repo_from, find_repo_root, cwd, repo, dangerous, is_parent,
  reject_dangerous_target, validate_custom_reset, validate_managed_reset, validate_managed_root,
  validate_reset,
}

component_eq_trans :
    (a b c : Component)
    → component_eq a b ≡ true
    → component_eq b c ≡ true
    → component_eq a c ≡ true
unfolding component_eq
component_eq_trans root_dir root_dir root_dir h k = refl
component_eq_trans (normal a) (normal b) (normal c) h k =
    ground (arith, eq_iff a b, eq_iff b c, eq_iff a c)
component_eq_trans root_dir (normal b) c h k = cc
component_eq_trans (normal a) root_dir c h k = cc
component_eq_trans root_dir root_dir (normal c) h k = cc
component_eq_trans (normal a) (normal b) root_dir h k = cc

-- A base of a base is a base.
starts_with_trans :
    (p q r : PathBuf) → starts_with p q ≡ true → starts_with q r ≡ true → starts_with p r ≡ true
unfolding starts_with
starts_with_trans p q [] h k = refl
starts_with_trans p [] (c ∷ r) h k = cc
starts_with_trans [] (b ∷ q) (c ∷ r) h k = cc
starts_with_trans (a ∷ p) (b ∷ q) (c ∷ r) h k =
    ground (arith, component_eq_trans a b c, starts_with_trans p q r)

refuse_if-ok : (b : Bool) (e : VivariumError) → refuse_if b e ≡ ok tt → b ≡ false
refuse_if-ok true e h = cc
refuse_if-ok false e h = refl

All-of_any :
    {A : Type 0} (p : A → Bool) (xs : List A) → any p xs ≡ false → All (λ x. p x ≡ false) xs
All-of_any p [] h = tt
All-of_any p (x ∷ xs) h = (ground arith, All-of_any p xs (ground arith))

-- The deletion of this path deletes the other one.
abbrev pub Deletes : PathBuf → PathBuf → Type 0
Deletes path d = starts_with d path ≡ true

module _ (canonical managed_root : PathBuf) where
  spared :
      (ds : List PathBuf)
      → starts_with canonical managed_root ≡ true
      → All (λ d. path_eq managed_root d ≡ false) ds
      → All (λ d. (starts_with d managed_root && not (path_eq managed_root d)) ≡ false) ds
      → All (λ d. ¬ Deletes canonical d) ds
  spared [] s h k = tt
  spared (d ∷ ds) s h k = (
    (λ del. ground (arith, starts_with_trans d canonical managed_root del s, h.0, k.0)),
    spared ds s h.1 k.1,
  )

module _ (places : Places) (canonical managed_root : PathBuf) where
  -- The three checks that every reset passes.
  validate_reset-above :
      (is_custom confirm_custom : Bool)
      → validate_reset places canonical managed_root is_custom confirm_custom ≡ ok tt
      → (¬ Deletes canonical managed_root)
        × ((if is_custom
              then reject_dangerous_target places canonical
                >> validate_custom_reset places confirm_custom
              else validate_managed_root places managed_root
                >> validate_managed_reset places canonical managed_root)
            ≡ ok tt)
  unfolding validate_reset
  validate_reset-above is_custom confirm_custom h =
      let (a, h1, k1) = >>=-eq-ok (refuse_if (path_eq canonical root) _) _ h in
      let (b, h2, k2) = >>=-eq-ok (refuse_if (path_eq canonical managed_root) _) _ k1 in
      let (c, h3, k3) =
        >>=-eq-ok
          (refuse_if (starts_with managed_root canonical && not (path_eq canonical managed_root)) _)
          _ k2 in
      ((λ del. ground (arith, del, refuse_if-ok _ _ h2, refuse_if-ok _ _ h3)), k3)

  validate_managed_root-ok :
      validate_managed_root places managed_root ≡ ok tt
      → All (λ d. path_eq managed_root d ≡ false) (dangerous places)
        × All
            (λ d. (starts_with d managed_root && not (path_eq managed_root d)) ≡ false)
            (dangerous places)
  unfolding validate_managed_root
  validate_managed_root-ok h =
      let (a, h1, k1) = >>=-eq-ok (refuse_if (path_eq managed_root root) _) _ h in
      let (b, h2, k2) =
        >>=-eq-ok (refuse_if (any (λ d. path_eq managed_root d) (dangerous places)) _) _ k1 in
      let (c, h3, k3) =
        >>=-eq-ok (refuse_if (any (λ d. starts_with managed_root d) (cwd places ∷ repo places)) _) _
          k2 in
      (
        All-of_any (path_eq managed_root) (dangerous places) (refuse_if-ok _ _ h2),
        All-of_any (λ d. starts_with d managed_root && not (path_eq managed_root d))
            (dangerous places) (refuse_if-ok _ _ k3),
      )

  validate_managed_reset-ok :
      validate_managed_reset places canonical managed_root ≡ ok tt
      → starts_with canonical managed_root ≡ true
  unfolding validate_managed_reset
  validate_managed_reset-ok h =
      let (a, h1, k1) = >>=-eq-ok (refuse_if (path_eq canonical managed_root) _) _ h in
      ground (arith, refuse_if-ok _ _ k1)

  -- A reset of a managed cache that is let through deletes neither the mail root, nor the home
  -- directory, nor the working directory, nor the repository around it, and deletes only within the
  -- mail root.
  pub validate_reset-managed :
      (confirm_custom : Bool)
      → validate_reset places canonical managed_root false confirm_custom ≡ ok tt
      → (¬ Deletes canonical managed_root)
        × All (λ d. ¬ Deletes canonical d) (dangerous places)
        × (starts_with canonical managed_root ≡ true)
  validate_reset-managed confirm_custom h =
      let (above, k) = validate_reset-above false confirm_custom h in
      let (a, k1, k2) = >>=-eq-ok (validate_managed_root places managed_root) _ k in
      let within = validate_managed_reset-ok k2 in
      let (no_root, no_ancestor) = validate_managed_root-ok k1 in
      (above, spared canonical managed_root (dangerous places) within no_root no_ancestor, within)

  -- A reset of a custom cache that is let through was confirmed, does not delete the mail root, and
  -- is for a path that is neither in nor the parent of the home directory, the working directory
  -- and the repository around it.
  pub validate_reset-custom :
      (confirm_custom : Bool)
      → validate_reset places canonical managed_root true confirm_custom ≡ ok tt
      → (confirm_custom ≡ true)
        × (¬ Deletes canonical managed_root)
        × All (λ d. (path_eq canonical d || starts_with canonical d) ≡ false) (dangerous places)
        × All (λ d. is_parent places canonical d ≡ false) (dangerous places)
  unfolding reject_dangerous_target validate_custom_reset
  validate_reset-custom confirm_custom h =
      let (above, k) = validate_reset-above true confirm_custom h in
      let (a, k1, k2) = >>=-eq-ok (reject_dangerous_target places canonical) _ k in
      let (b, h1, h2) =
        >>=-eq-ok
          (refuse_if (path_eq canonical root || to_ascii_lowercase (display canonical) == "/") _) _
          k1 in
      let (c, h3, h4) =
        >>=-eq-ok
          (refuse_if (any (λ d. path_eq canonical d || starts_with canonical d) (dangerous places))
            _)
          _ h2 in
      (
        ground (arith, k2),
        above,
        All-of_any (λ d. path_eq canonical d || starts_with canonical d) (dangerous places)
            (refuse_if-ok _ _ h3),
        All-of_any (is_parent places canonical) (dangerous places) (refuse_if-ok _ _ h4),
      )

-- A home directory `/h`, a working directory `/a/b/c` outside of any repository.
abbrev pub places_at : String → String → String → String → Places
places_at h a b c = record {
  home_dir = some (root_dir ∷ normal h ∷ []);
  current_dir = some (root_dir ∷ normal a ∷ normal b ∷ normal c ∷ []);
  canonical = λ p. some p;
  has_git = λ p. false;
}

-- The parent is refused but not what lies above it: a confirmed reset of the custom cache `/a` is let
-- through, and deletes the working directory `/a/b/c`, where neither the home directory `/h` nor the
-- mail root `/m` is `/a`, and the text of the path `/a` in lower case is not "/".
pub validate_reset-Deletes-cwd :
    (h a b c m : String)
    → (a == h) ≡ false
    → (a == m) ≡ false
    → (m == a) ≡ false
    → (to_ascii_lowercase (display (root_dir ∷ normal a ∷ [])) == "/") ≡ false
    → (validate_reset
          (places_at h a b c)
          (root_dir ∷ normal a ∷ [])
          (root_dir ∷ normal m ∷ [])
          true
          true
        ≡ ok tt)
      × Deletes (root_dir ∷ normal a ∷ []) (cwd (places_at h a b c))
unfolding validate_reset reject_dangerous_target find_repo_root repo_from path_eq starts_with parent
    component_eq validate_custom_reset
validate_reset-Deletes-cwd h a b c m e1 e2 e3 e4 = (ground arith, ground (arith, eq_refl a))
