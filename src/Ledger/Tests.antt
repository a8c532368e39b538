-- ===== src/Ledger/Tests.antt =====
-- A ledger of two events.
use pcag.Base.{
  Option, ◌+◌, ℕ, ◌≡◌, ◌⊎◌, ◌↔◌, refl, true, List, [], ◌∷◌, none, String, str_eq, Bool-cases, inl,
  inr,
}
use Prim.Native.String.{count}
use pcag.Core.Json.{Json, null}
use pcag.Core.Hash.{genesis_hash, compute_hash, compute_event_hash}
use pcag.Core.Canonicalize.{canonicalize}
use pcag.Core.Samples.{hashing, hash_of}
use pcag.Ledger.Repository.{
  Event, get_transaction_events, verify_chain, links, rehashes, verify_events,
}
use pcag.Ledger.Store.{append_all, stored-chain}
use pcag.Ledger.Chain.{Chain, Collision, SamePayloads, verify_events_iff, tampering_shows}

abbrev no_text : String → Option (Json ℕ)
no_text s = none

abbrev event : ℕ → String → String → Event ℕ
event n stage prev = record {
  transaction_id = "tx-1";
  sequence_no = n;
  stage = stage;
  timestamp_ms = 1000 + n;
  payload = null;
  input_hash = "1";
  prev_hash = prev;
  event_hash = "1";
}

abbrev received : Event ℕ
received = event 0 "RECEIVED" "0"

abbrev validated : Event ℕ
validated = event 1 "SCHEMA_VALIDATED" "1"

abbrev events : List (Event ℕ)
events = received ∷ validated ∷ []

events_verify : verify_events hashing no_text events ≡ true
unfolding verify_events links rehashes genesis_hash compute_event_hash compute_hash canonicalize
events_verify = refl

fixed : (a b : String) → count (hash_of a) ≡ count (hash_of b)
fixed a b = elim (Bool-cases (str_eq a "")) [
  | inl e ↦ elim (Bool-cases (str_eq b "")) [ inl d ↦ rw (e, d) refl | inr d ↦ rw (e, d) refl ]
  | inr e ↦ elim (Bool-cases (str_eq b "")) [ inl d ↦ rw (e, d) refl | inr d ↦ rw (e, d) refl ]
]

verify_events_iff_example :
    (verify_events hashing no_text events ≡ true)
    ↔ Chain hashing no_text (genesis_hash hashing) events
verify_events_iff_example = verify_events_iff hashing no_text events

tampering_shows_example : SamePayloads hashing no_text events events ⊎ Collision hashing no_text
tampering_shows_example =
    tampering_shows hashing no_text fixed events events tt events_verify events_verify refl

stored-chain_example :
    (get_transaction_events "tx-1" (append_all events []) ≡ events)
    × (verify_chain hashing no_text "tx-1" (append_all events []) ≡ true)
stored-chain_example =
    stored-chain "tx-1" hashing no_text events [] tt (refl, refl, (refl, refl, tt)) events_verify
