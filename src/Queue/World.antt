-- ===== src/Queue/World.antt =====
-- queue.rs: the queue directory and what surrounds a run: the clock, the disk, the mail transport.
-- An `Env` fixes how every outside call ends, by the count of outside calls made before it, so a
-- theorem for every `Env` is one for every behaviour of the outside, crashes included.
use Prim.Native.String.{compare}
use Prim.Native.Nat.{Ordering}
use vivi_mail.Common.{
  ℕ, suc, String, List, [], ◌∷◌, Option, none, some, Bool, true, false, ◌==◌, ◌||◌, format,
  VivariumError, Result, ok, err, parse, other, if◌then◌else◌,
}
use vivi_mail.Queue.Item.{QueueItem, QueueStatus, QueuedCommand, is_pending, mark}

abbrev pub Bytes : Type 0
Bytes = List ℕ

-- How a call ends: it returns, it fails, or the process dies in it.
pub data Outcome {ℓ} (A : Type ℓ) : Type ℓ where
  done : A → Outcome A
  fail : VivariumError → Outcome A
  died : Outcome A

-- `write_item` opens with truncation and writes in place, so a failure or a death can leave the old
-- file, a torn one, or the new one.
pub data SaveOutcome : Type 0 where
  written died_before died_torn died_after : SaveOutcome
  refused torn_write : VivariumError → SaveOutcome

-- A lost reply is an error that the transport reports although the message was accepted.
pub data SendOutcome : Type 0 where
  accepted died_unsent died_sent : SendOutcome
  rejected lost_reply : VivariumError → SendOutcome

pub record Env : Type 0 where
  pub now : ℕ → String
  pub save : ℕ → SaveOutcome
  pub transport : ℕ → SendOutcome
  pub reconcile_sent : ℕ → Outcome (Unit {0})
  pub run_mutation : ℕ → Outcome (Unit {0})
  pub reply : ℕ → Outcome (Unit {0})
  pub read_file : String → Result Bytes
  pub message_id_from_bytes : Bytes → Option String
  pub sha256_hex : Bytes → String
  pub replace_from_header : Bytes → String → Result Bytes
  pub extension : String → Option String
  pub not_found : String
  pub invalid : String

-- A file of the queue directory: an item, or a file that no longer parses.
pub data File : Type 0 where
  valid : QueueItem → File
  torn : File

abbrev pub Directory : Type 0
Directory = List (String × File)

-- The queue directory, the paths whose message the transport accepted, the mutations performed.
pub record State : Type 0 where
  pub files : Directory
  pub sent : List String
  pub performed : List QueuedCommand
  pub calls : ℕ

unfoldable pub lookup : String → Directory → Option File
lookup id [] = none
lookup id ((j, f) ∷ fs) = if j == id then some f else lookup id fs

unfoldable pub remove : String → Directory → Directory
remove id [] = []
remove id ((j, f) ∷ fs) = let rest = remove id fs in if j == id then rest else (j, f) ∷ rest

unfoldable pub put : String → File → Directory → Directory
unfolding remove
put id f fs = (id, f) ∷ remove id fs

abbrev pub Exec {ℓ} : Type ℓ → Type ℓ
Exec A = State → Outcome A × State

abbrev continue {ℓ} : {A B : Type ℓ} → Outcome A × State → (A → Exec B) → Outcome B × State
continue (done a, s) f = f a s
continue (fail e, s) f = (fail e, s)
continue (died, s) f = (died, s)

infixl 5 ◌>>=◌ ◌>>◌
abbrev pub ◌>>=◌ {ℓ} : {A B : Type ℓ} → Exec A → (A → Exec B) → Exec B
◌>>=◌ m f s = continue (m s) f

abbrev pub ◌>>◌ {ℓ} : {A B : Type ℓ} → Exec A → Exec B → Exec B
m >> n = m >>= λ _. n

abbrev pub pure {ℓ} : {A : Type ℓ} → A → Exec A
pure a s = (done a, s)

abbrev pub raise {ℓ} : {A : Type ℓ} → VivariumError → Exec A
raise e s = (fail e, s)

abbrev pub lift {ℓ} : {A : Type ℓ} → Result A → Exec A
lift (ok a) s = (done a, s)
lift (err e) s = (fail e, s)

-- What `load` makes of the file that it finds.
abbrev pub parsed : Env → String → Option File → Result QueueItem
parsed env id none =
    err (other (format ("queued item '" ∷ id ∷ "' not found: " ∷ env.not_found ∷ [])))
parsed env id (some torn) =
    err (parse (format ("queued item '" ∷ id ∷ "' is invalid: " ∷ env.invalid ∷ [])))
parsed env id (some (valid item)) = ok item

unfoldable pub load : Env → String → Exec QueueItem
unfolding lookup
load env id s = lift (parsed env id (lookup id s.files)) s

-- The order of `sort_by`: by `created_at`, then by `id`.
abbrev then_by : Ordering → Ordering → Bool
then_by Ordering.lt o = true
then_by Ordering.eq Ordering.gt = false
then_by Ordering.eq _ = true
then_by Ordering.gt o = false

abbrev precedes : QueueItem → QueueItem → Bool
precedes a b = then_by (compare a.created_at b.created_at) (compare a.id b.id)

unfoldable pub insert : QueueItem → List QueueItem → List QueueItem
insert a [] = a ∷ []
insert a (b ∷ bs) = let rest = insert a bs in if precedes a b then a ∷ b ∷ bs else b ∷ rest

unfoldable pub sort_items : List QueueItem → List QueueItem
unfolding insert
sort_items [] = []
sort_items (a ∷ rest) = insert a (sort_items rest)

abbrev keep_if : Bool → QueueItem → Result (List QueueItem) → Result (List QueueItem)
keep_if shown item (ok items) = ok (if shown then item ∷ items else items)
keep_if shown item (err e) = err e

-- The loop of `list`: one file that does not parse fails the whole listing. No other failure of a read
-- is modelled.
unfoldable pub read_items : Env → Bool → Directory → Result (List QueueItem)
read_items env include_all [] = ok []
read_items env include_all ((j, torn) ∷ fs) =
    err (parse (format ("invalid queue item: " ∷ env.invalid ∷ [])))
read_items env include_all ((j, valid item) ∷ fs) =
    keep_if (include_all || is_pending item.status) item (read_items env include_all fs)

abbrev pub sorted : Result (List QueueItem) → Result (List QueueItem)
sorted (ok items) = ok (sort_items items)
sorted (err e) = err e

unfoldable pub list : Env → Bool → Exec (List QueueItem)
unfolding read_items sort_items
list env include_all s = lift (sorted (read_items env include_all s.files)) s

abbrev tick : State → State
tick s = record s { calls = suc s.calls }

abbrev save_as : SaveOutcome → QueueItem → Exec (Unit {0})
save_as written item s = (done tt, record s { files = put item.id (valid item) s.files })
save_as (refused e) item s = (fail e, s)
save_as (torn_write e) item s = (fail e, record s { files = put item.id torn s.files })
save_as died_before item s = (died, s)
save_as died_torn item s = (died, record s { files = put item.id torn s.files })
save_as died_after item s = (died, record s { files = put item.id (valid item) s.files })

-- `save`, and `enqueue`: the write of an item to its file.
unfoldable pub save : Env → QueueItem → Exec (Unit {0})
unfolding put
save env item s = save_as (env.save s.calls) item (tick s)

-- `item.mark(status, error)` followed by `queue::save`.
unfoldable pub mark_and_save : Env → QueueItem → QueueStatus → Option String → Exec (Unit {0})
unfolding save mark
mark_and_save env item status error s = save env (mark item status error (env.now s.calls)) (tick s)

abbrev transmit_as : SendOutcome → String → Exec (Unit {0})
transmit_as accepted path s = (done tt, record s { sent = path ∷ s.sent })
transmit_as (rejected e) path s = (fail e, s)
transmit_as (lost_reply e) path s = (fail e, record s { sent = path ∷ s.sent })
transmit_as died_unsent path s = (died, s)
transmit_as died_sent path s = (died, record s { sent = path ∷ s.sent })

-- The call of the transport, SMTP or Proton.
unfoldable pub transmit : Env → String → Exec (Unit {0})
transmit env path s = transmit_as (env.transport s.calls) path (tick s)

-- An outside call that leaves the queue alone.
unfoldable pub outside : (ℕ → Outcome (Unit {0})) → Exec (Unit {0})
outside ends s = (ends s.calls, tick s)

-- A remote mutation that succeeds is entered into `performed`.
abbrev performed_as : Outcome (Unit {0}) → QueuedCommand → Exec (Unit {0})
performed_as (done a) c s = (done tt, record s { performed = c ∷ s.performed })
performed_as (fail e) c s = (fail e, s)
performed_as died c s = (died, s)

unfoldable pub run_mutation : Env → QueuedCommand → Exec (Unit {0})
run_mutation env c s = performed_as (env.run_mutation s.calls) c (tick s)
