-- ===== src/Ledger/Repository.antt =====
-- pcag/apps/evidence_ledger/repository.py and routes.py over the table `evidence_events` of
-- pcag/core/database/models.py, in the order of its autoincremented ids.
use pcag.Base.{
  ℕ, String, Bool, true, false, ◌&&◌, Option, none, some, List, [], ◌∷◌, ◌++◌, ◌==◌, leb, str_eq,
  if◌then◌else◌,
}
use pcag.Core.Json.{Json}
use pcag.Core.Hash.{Hashing, genesis_hash, compute_event_hash}

pub record Event (F : Type 0) : Type 0 where
  pub transaction_id : String
  pub sequence_no : ℕ
  pub stage : String
  pub timestamp_ms : ℕ
  pub payload : Json F
  pub input_hash : String
  pub prev_hash : String
  pub event_hash : String

-- The response of the handler of POST /v1/events/append.
pub data Appended : Type 0 where
  created duplicate_event : Appended

module _ {F : Type 0} where
  abbrev same_key : Event F → Event F → Bool
  same_key e f = str_eq e.transaction_id f.transaction_id && (e.sequence_no == f.sequence_no)

  -- The constraint `uq_tx_seq` on the pair of transaction and sequence number.
  unfoldable pub is_taken : Event F → List (Event F) → Bool
  is_taken e [] = false
  is_taken e (f ∷ fs) = if same_key f e then true else is_taken e fs

  -- A row that breaks the constraint raises at the commit, and the handler answers 409.
  unfoldable pub append_event : Event F → List (Event F) → Appended × List (Event F)
  append_event e table =
      if is_taken e table then (duplicate_event, table) else (created, table ++ e ∷ [])

  -- `order_by(sequence_no)`, one row at a time.
  unfoldable pub insert_by_seq : Event F → List (Event F) → List (Event F)
  insert_by_seq e [] = e ∷ []
  insert_by_seq e (f ∷ fs) =
      if leb e.sequence_no f.sequence_no then e ∷ f ∷ fs else f ∷ insert_by_seq e fs

  unfoldable pub get_transaction_events : String → List (Event F) → List (Event F)
  get_transaction_events tx [] = []
  get_transaction_events tx (e ∷ es) =
      let rest = get_transaction_events tx es in
      if str_eq e.transaction_id tx then insert_by_seq e rest else rest

module _ {F : Type 0} (h : Hashing F) (loads : String → Option (Json F)) where
  -- `events[i].prev_hash != events[i-1].event_hash`, from the second event on.
  unfoldable pub links : String → List (Event F) → Bool
  links last [] = true
  links last (e ∷ es) = str_eq e.prev_hash last && links e.event_hash es

  -- A payload that the database returns as a text is parsed, if it parses.
  abbrev pub parsed : Json F → Json F
  parsed (Json.str s) = elim (loads s) [ none ↦ Json.str s | some j ↦ j ]
  parsed j = j

  unfoldable pub rehashes : List (Event F) → Bool
  rehashes [] = true
  rehashes (e ∷ es) =
      str_eq e.event_hash (compute_event_hash h e.prev_hash (parsed e.payload)) && rehashes es

  -- `verify_chain` on the events that it has read.
  unfoldable pub verify_events : List (Event F) → Bool
  verify_events [] = true
  verify_events (e ∷ es) =
      if str_eq e.prev_hash (genesis_hash h)
      then (if links e.event_hash es then rehashes (e ∷ es) else false)
      else false

  unfoldable pub verify_chain : String → List (Event F) → Bool
  verify_chain tx table = verify_events (get_transaction_events tx table)

  -- The handler of GET /v1/transactions/{transaction_id}: the events, and `chain_valid`.
  unfoldable pub get_transaction : String → List (Event F) → List (Event F) × Bool
  get_transaction tx table = (get_transaction_events tx table, verify_chain tx table)
