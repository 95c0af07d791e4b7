-- ===== src/Reset/Tests.antt =====
-- Resets of concrete paths, and the instances of their theorems.
use vivi_mail.Common.{[], ◌∷◌, true, false, ◌||◌, All, ok, ◌≡◌, refl, to_ascii_lowercase}
use vivi_mail.Reset.{
  root_dir, normal, PathBuf, component_eq, path_eq, starts_with, display, cwd, dangerous, is_parent,
  validate_reset, find_repo_root,
}
use vivi_mail.Reset.Containment.{
  Deletes, places_at, validate_reset-managed, validate_reset-custom, validate_reset-Deletes-cwd,
}

abbrev mail_root : PathBuf
mail_root = root_dir ∷ normal "h" ∷ normal ".vivarium" ∷ []

abbrev cache : PathBuf
cache = root_dir ∷ normal "h" ∷ normal ".vivarium" ∷ normal "me" ∷ []

managed_run : validate_reset (places_at "h" "a" "b" "c") cache mail_root false false ≡ ok tt
unfolding validate_reset find_repo_root component_eq to_ascii_lowercase
managed_run = refl

validate_reset-managed_example :
    (¬ Deletes cache mail_root)
    × All (λ d. ¬ Deletes cache d) (dangerous (places_at "h" "a" "b" "c"))
    × (starts_with cache mail_root ≡ true)
validate_reset-managed_example =
    validate_reset-managed (places_at "h" "a" "b" "c") cache mail_root false managed_run

abbrev custom : PathBuf
custom = root_dir ∷ normal "data" ∷ []

custom_run : validate_reset (places_at "h" "a" "b" "c") custom mail_root true true ≡ ok tt
unfolding validate_reset find_repo_root component_eq to_ascii_lowercase
custom_run = refl

validate_reset-custom_example :
    (true ≡ true)
    × (¬ Deletes custom mail_root)
    × All
        (λ d. (path_eq custom d || starts_with custom d) ≡ false)
        (dangerous (places_at "h" "a" "b" "c"))
    × All
        (λ d. is_parent (places_at "h" "a" "b" "c") custom d ≡ false)
        (dangerous (places_at "h" "a" "b" "c"))
validate_reset-custom_example =
    validate_reset-custom (places_at "h" "a" "b" "c") custom mail_root true custom_run

validate_reset-Deletes-cwd_example :
    (validate_reset
        (places_at "h" "a" "b" "c")
        (root_dir ∷ normal "a" ∷ [])
        (root_dir ∷ normal "m" ∷ [])
        true
        true
      ≡ ok tt)
    × Deletes (root_dir ∷ normal "a" ∷ []) (cwd (places_at "h" "a" "b" "c"))
unfolding display to_ascii_lowercase
validate_reset-Deletes-cwd_example =
    validate_reset-Deletes-cwd "h" "a" "b" "c" "m" refl refl refl refl
