-- ===== src/Queue/History.antt =====
-- What a reading of the whole queue directory tells of the files in it.
use vivi_mail.Common.{
  String, List, [], ◌∷◌, Bool, true, not, ◌&&◌, ◌||◌, ◌==◌, eq_iff, any, ◌≡◌, refl, arith, ok, err,
  Result, inl, inr, ◌⊎◌, ◌∙◌,
}
use vivi_mail.Queue.Item.{QueueItem, blocks_key, send_already_attempted}
use vivi_mail.Queue.World.{valid, torn, Directory, remove, Env, insert, sort_items, read_items}
use vivi_mail.Queue.Directory.{IsDirectory, blocked}

any-insert :
    (p : QueueItem → Bool) (a : QueueItem) (xs : List QueueItem)
    → any p (insert a xs) ≡ (p a || any p xs)
unfolding insert
any-insert p a [] = refl
any-insert p a (x ∷ xs) = ground (arith, any-insert p a xs)

-- Sorting changes no search.
pub any-sort_items : (p : QueueItem → Bool) (xs : List QueueItem) → any p (sort_items xs) ≡ any p xs
unfolding sort_items
any-sort_items p [] = refl
any-sort_items p (x ∷ xs) = ground (arith, any-insert p x (sort_items xs), any-sort_items p xs)

abbrev attempted : String → String → QueueItem → Bool
attempted key id item = not (item.id == id) && blocks_key key item

-- What the loop over the files returns, without the error.
Result-cases :
    (r : Result (List QueueItem)) → ((e : _) × (r ≡ err e)) ⊎ ((xs : List QueueItem) × (r ≡ ok xs))
Result-cases (ok xs) = inr (xs, refl)
Result-cases (err e) = inl (e, refl)

read_items-blocked :
    (env : Env) (key id : String) (fs : Directory) (items : List QueueItem)
    → IsDirectory fs
    → read_items env true fs ≡ ok items
    → any (attempted key id) items ≡ blocked key (remove id fs)
unfolding read_items remove
read_items-blocked env key id [] items d e = ground arith
read_items-blocked env key id ((j, torn) ∷ fs) items d e = absurd (cc)
read_items-blocked env key id ((j, valid item) ∷ fs) items d e =
    elim (Result-cases (read_items env true fs)) [
      | inl (x, failed) ↦ absurd (ground arith)
      | inr (xs, read) ↦
          ground
            (arith, read_items-blocked env key id fs xs d.2 read, eq_iff item.id id, eq_iff j id)
    ]

-- The duplicate test over the whole listing is a test of the other files.
pub attempted-blocked :
    (env : Env) (key id : String) (fs : Directory) (items : List QueueItem)
    → IsDirectory fs
    → read_items env true fs ≡ ok items
    → send_already_attempted (sort_items items) key id ≡ blocked key (remove id fs)
unfolding send_already_attempted
attempted-blocked env key id fs items d e =
    any-sort_items (attempted key id) items ∙ read_items-blocked env key id fs items d e
