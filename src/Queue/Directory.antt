-- ===== src/Queue/Directory.antt =====
-- The files of the queue directory: one item to a file, under its own identifier.
use vivi_mail.Common.{
  String, [], ◌∷◌, none, some, Bool, true, false, ◌||◌, eq_iff, ◌≡◌, refl, arith,
}
use vivi_mail.Queue.Item.{blocks_key}
use vivi_mail.Queue.World.{File, valid, torn, Directory, lookup, remove, put}

-- A file under its item's identifier.
abbrev pub Named : String → File → Type 0
Named id (valid item) = item.id ≡ id
Named id torn = Unit

abbrev pub IsDirectory : Directory → Type 0
IsDirectory [] = Unit
IsDirectory ((j, f) ∷ fs) = Named j f × (lookup j fs ≡ none) × IsDirectory fs

lookup-remove-none :
    (i j : String) (fs : Directory) → lookup i fs ≡ none → lookup i (remove j fs) ≡ none
unfolding lookup remove
lookup-remove-none i j [] h = refl
lookup-remove-none i j ((l, f) ∷ fs) h = ground (arith, lookup-remove-none i j fs)

lookup-remove_self : (i : String) (fs : Directory) → lookup i (remove i fs) ≡ none
unfolding lookup remove
lookup-remove_self i [] = refl
lookup-remove_self i ((l, f) ∷ fs) = ground (arith, lookup-remove_self i fs)

remove-IsDirectory : (i : String) (fs : Directory) → IsDirectory fs → IsDirectory (remove i fs)
unfolding remove
remove-IsDirectory i [] d = tt
remove-IsDirectory i ((l, f) ∷ fs) d =
    ground (arith, remove-IsDirectory i fs d.2, lookup-remove-none l i fs d.1)

pub put-IsDirectory :
    (i : String) (f : File) (fs : Directory) → Named i f → IsDirectory fs → IsDirectory (put i f fs)
unfolding put
put-IsDirectory i f fs n d = (n, lookup-remove_self i fs, remove-IsDirectory i fs d)

remove-remove : (i : String) (fs : Directory) → remove i (remove i fs) ≡ remove i fs
unfolding remove
remove-remove i [] = refl
remove-remove i ((l, f) ∷ fs) = ground (arith, remove-remove i fs)

pub remove-put : (i : String) (f : File) (fs : Directory) → remove i (put i f fs) ≡ remove i fs
unfolding put remove
remove-put i f fs = ground (arith, remove-remove i fs, eq_iff i i)

-- A file that does not parse blocks every send, since the history can no longer be read.
abbrev pub blocks : String → File → Bool
blocks key torn = true
blocks key (valid item) = blocks_key key item

abbrev pub blocked : String → Directory → Bool
blocked key [] = false
blocked key ((j, f) ∷ fs) = blocks key f || blocked key fs

pub remove_absent : (i : String) (fs : Directory) → lookup i fs ≡ none → remove i fs ≡ fs
unfolding lookup remove
remove_absent i [] h = refl
remove_absent i ((l, f) ∷ fs) h = ground (arith, remove_absent i fs)

-- Taking out a file that does not block leaves the rest as blocked as before.
pub blocked-remove :
    (key i : String) (f : File) (fs : Directory)
    → IsDirectory fs
    → lookup i fs ≡ some f
    → blocks key f ≡ false
    → blocked key (remove i fs) ≡ blocked key fs
unfolding lookup remove
blocked-remove key i f [] d e b = refl
blocked-remove key i f ((l, g) ∷ fs) d e b =
    ground (arith, blocked-remove key i f fs d.2, remove_absent l fs d.1, eq_iff l i)

pub lookup-Named :
    (i : String) (f : File) (fs : Directory) → IsDirectory fs → lookup i fs ≡ some f → Named i f
unfolding lookup
lookup-Named i f [] d e = absurd (cc)
lookup-Named i (valid item) ((l, g) ∷ fs) d e =
    ground (arith, lookup-Named i (valid item) fs d.2, eq_iff l i)
lookup-Named i torn ((l, g) ∷ fs) d e = tt

-- Taking a file out blocks no more than before.
pub blocked_of_remove :
    (key i : String) (fs : Directory) → blocked key (remove i fs) ≡ true → blocked key fs ≡ true
unfolding remove
blocked_of_remove key i [] h = h
blocked_of_remove key i ((l, g) ∷ fs) h = ground (arith, blocked_of_remove key i fs)

pub blocked-put :
    (key i : String) (f : File) (fs : Directory)
    → blocked key (put i f fs) ≡ (blocks key f || blocked key (remove i fs))
unfolding put
blocked-put key i f fs = refl
