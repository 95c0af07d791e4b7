-- ===== src/Reset.antt =====
-- sync.rs: the checks before the local cache of an account is deleted. A path is the list of its
-- components, as Rust compares them, and `Places` is what the system tells of the process.
pub mod Containment
mod Tests
use vivi_mail.Common.{
  String, List, [], ◌∷◌, ◌++◌, Option, none, some, Bool, true, false, not, ◌&&◌, ◌||◌, ◌==◌, any,
  format, VivariumError, other, Result, ok, err, ◌>>=◌, ◌>>◌, to_ascii_lowercase, if◌then◌else◌,
}
use vivi_mail.Config.Resolve.{unwrap_or}

pub data Component : Type 0 where
  root_dir : Component
  normal : String → Component

abbrev pub PathBuf : Type 0
PathBuf = List Component

abbrev pub root : PathBuf
root = root_dir ∷ []

unfoldable pub component_eq : Component → Component → Bool
component_eq root_dir root_dir = true
component_eq (normal a) (normal b) = a == b
component_eq _ _ = false

unfoldable pub path_eq : PathBuf → PathBuf → Bool
unfolding component_eq
path_eq [] [] = true
path_eq (a ∷ p) (b ∷ q) = component_eq a b && path_eq p q
path_eq _ _ = false

-- `path.starts_with(base)`, by whole components.
unfoldable pub starts_with : PathBuf → PathBuf → Bool
unfolding component_eq
starts_with path [] = true
starts_with [] (b ∷ base) = false
starts_with (a ∷ path) (b ∷ base) = component_eq a b && starts_with path base

-- `path.parent()`: a root and the empty path have none.
unfoldable pub parent : PathBuf → Option PathBuf
parent [] = none
parent (root_dir ∷ []) = none
parent (normal name ∷ []) = some []
parent (a ∷ b ∷ path) = elim (parent (b ∷ path)) [ none ↦ none | some base ↦ some (a ∷ base) ]

abbrev names : PathBuf → String
names [] = ""
names (root_dir ∷ path) = names path
names (normal name ∷ []) = name
names (normal name ∷ path) = format (name ∷ "/" ∷ names path ∷ [])

unfoldable pub display : PathBuf → String
display (root_dir ∷ path) = format ("/" ∷ names path ∷ [])
display path = names path

-- The home directory, the working directory, its canonical form, and where `.git` exists.
pub record Places : Type 0 where
  pub home_dir : Option PathBuf
  pub current_dir : Option PathBuf
  pub canonical : PathBuf → Option PathBuf
  pub has_git : PathBuf → Bool

unfoldable pub reset_refusal : PathBuf → String → VivariumError
unfolding display
reset_refusal path reason =
    other (format ("reset target " ∷ display path ∷ " is " ∷ reason ∷ "; refusing to delete" ∷ []))

unfoldable pub is_mail_root : PathBuf → VivariumError
unfolding display
is_mail_root path =
    other (format ("reset target " ∷ display path ∷ " is the mail root itself; refusing" ∷ []))

abbrev pub refuse_if : Bool → VivariumError → Result (Unit {0})
refuse_if true e = err e
refuse_if false e = ok tt

module _ (places : Places) where
  abbrev or_outer : Option PathBuf → PathBuf → Option PathBuf
  or_outer (some p) before = some p
  or_outer none before = if places.has_git before then some before else none

  -- The loop of `find_repo_root`, from the path inwards: the innermost repository answers.
  unfoldable pub repo_from : PathBuf → PathBuf → Option PathBuf
  repo_from before [] = or_outer none before
  repo_from before (c ∷ rest) = or_outer (repo_from (before ++ c ∷ []) rest) before

  abbrev from_canonical : Option PathBuf → Option PathBuf
  from_canonical none = none
  from_canonical (some []) = none
  from_canonical (some (c ∷ rest)) = repo_from (c ∷ []) rest

  unfoldable pub find_repo_root : PathBuf → Option PathBuf
  unfolding repo_from
  find_repo_root cwd = from_canonical (places.canonical cwd)

  abbrev pub home : PathBuf
  home = unwrap_or places.home_dir []

  abbrev pub cwd : PathBuf
  cwd = unwrap_or places.current_dir []

  abbrev pub repo : List PathBuf
  repo = elim (find_repo_root cwd) [ none ↦ [] | some p ↦ p ∷ [] ]

  -- `[&home, &cwd].into_iter().chain(repo_root.iter())`
  abbrev pub dangerous : List PathBuf
  dangerous = home ∷ cwd ∷ repo

  abbrev pub is_parent : PathBuf → PathBuf → Bool
  is_parent path d = elim (parent d) [ none ↦ false | some p ↦ path_eq path p ]

  unfoldable pub reject_dangerous_target : PathBuf → Result (Unit {0})
  unfolding path_eq starts_with parent display find_repo_root reset_refusal
  reject_dangerous_target path = do
    refuse_if (path_eq path root || to_ascii_lowercase (display path) == "/")
        (reset_refusal path "the filesystem root")
    refuse_if (any (λ d. path_eq path d || starts_with path d) dangerous)
        (reset_refusal path "inside a system or repository directory")
    refuse_if (any (is_parent path) dangerous) (reset_refusal path "a parent of a system directory")

  unfoldable pub validate_custom_reset : Bool → Result (Unit {0})
  validate_custom_reset confirm_custom =
      if not confirm_custom
      then err (other "custom mail_dir requires --confirm-reset to proceed")
      else ok tt

  unfoldable pub validate_managed_reset : PathBuf → PathBuf → Result (Unit {0})
  unfolding path_eq starts_with display is_mail_root
  validate_managed_reset canonical managed_root = do
    refuse_if (path_eq canonical managed_root) (is_mail_root canonical)
    refuse_if (not (starts_with canonical managed_root)) (
        other (
          format (
            "managed reset path "
            ∷ display canonical
            ∷ " is outside the mail root "
            ∷ display managed_root
            ∷ "; refusing"
            ∷ [])))

  unfoldable pub validate_managed_root : PathBuf → Result (Unit {0})
  unfolding path_eq starts_with find_repo_root reset_refusal
  validate_managed_root managed_root = do
    refuse_if (path_eq managed_root root) (reset_refusal managed_root "the filesystem root")
    refuse_if (any (λ d. path_eq managed_root d) dangerous)
        (reset_refusal managed_root "a system or repository directory")
    refuse_if (any (λ d. starts_with managed_root d) (cwd ∷ repo))
        (reset_refusal managed_root "inside cwd or a repository")
    refuse_if (any (λ d. starts_with d managed_root && not (path_eq managed_root d)) dangerous)
        (reset_refusal managed_root "an ancestor of a system or repository directory")

  unfoldable pub validate_reset : PathBuf → PathBuf → Bool → Bool → Result (Unit {0})
  unfolding path_eq starts_with display reset_refusal is_mail_root reject_dangerous_target
      validate_custom_reset validate_managed_root validate_managed_reset
  validate_reset canonical managed_root is_custom confirm_custom = do
    refuse_if (path_eq canonical root) (reset_refusal canonical "the filesystem root")
    refuse_if (path_eq canonical managed_root) (is_mail_root canonical)
    refuse_if (starts_with managed_root canonical && not (path_eq canonical managed_root)) (
        other (
          format (
            "reset target "
            ∷ display canonical
            ∷ " is an ancestor of the mail root "
            ∷ display managed_root
            ∷ "; refusing"
            ∷ [])))
    if is_custom
        then (do reject_dangerous_target canonical; validate_custom_reset confirm_custom)
        else (do validate_managed_root managed_root; validate_managed_reset canonical managed_root)
