-- ===== src/Ledger/Chain.antt =====
-- What `verify_chain` decides: the events form one hash chain from the genesis hash. What it
-- detects, up to collisions of SHA-256, and what it cannot see.
use Prim.Native.String.{◌++◌ as text_append, count}
use text.Mathlib.TextLemmas.{append_inj}
use pcag.Base.{
  ℕ, String, ◌≡◌, ◌≢◌, ◌↔◌, ◌⊎◌, inl, inr, refl, true, Option, List, [], ◌∷◌, ◌++◌, arith, str_eq,
  eq_iff, Bool-cases, sym, ◌∙◌,
}
use pcag.Core.Json.{Json}
use pcag.Core.Canonicalize.{canonicalize}
use pcag.Core.Hash.{Hashing, genesis_hash, compute_event_hash}
use pcag.Ledger.Repository.{Event, parsed, links, rehashes, verify_events}

module _ {F : Type 0} (h : Hashing F) (loads : String → Option (Json F)) where
  -- Each event names the hash before it, and its own hash is that of its payload behind it.
  abbrev pub Chain : String → List (Event F) → Type 0
  Chain prev [] = Unit {0}
  Chain prev (e ∷ es) =
      (e.prev_hash ≡ prev)
      × (e.event_hash ≡ compute_event_hash h e.prev_hash (parsed h loads e.payload))
      × Chain e.event_hash es

  links-Chain :
      (prev : String) (es : List (Event F))
      → links h loads prev es ≡ true
      → rehashes h loads es ≡ true
      → Chain prev es
  unfolding links rehashes
  links-Chain prev [] l r = tt
  links-Chain prev (e ∷ es) l r = grind (
    arith,
    eq_iff e.prev_hash prev,
    eq_iff e.event_hash (compute_event_hash h e.prev_hash (parsed h loads e.payload)),
    links-Chain e.event_hash es,
  )

  Chain-links :
      (prev : String) (es : List (Event F))
      → Chain prev es
      → (links h loads prev es ≡ true) × (rehashes h loads es ≡ true)
  unfolding links rehashes
  Chain-links prev [] c = (refl, refl)
  Chain-links prev (e ∷ es) c = grind (
    arith,
    eq_iff e.prev_hash prev,
    eq_iff e.event_hash (compute_event_hash h e.prev_hash (parsed h loads e.payload)),
    Chain-links e.event_hash es,
  )

  -- The three passes of `verify_chain` together accept exactly the chains from the genesis hash.
  pub verify_events_iff :
      (es : List (Event F)) → (verify_events h loads es ≡ true) ↔ Chain (genesis_hash h) es
  unfolding verify_events links
  verify_events_iff [] = (λ _. tt, λ _. refl)
  verify_events_iff (e ∷ es) = (sound, complete)
    where
      sound : verify_events h loads (e ∷ es) ≡ true → Chain (genesis_hash h) (e ∷ es)
      sound v = links-Chain (genesis_hash h) (e ∷ es) (ground arith) (ground arith)

      complete : Chain (genesis_hash h) (e ∷ es) → verify_events h loads (e ∷ es) ≡ true
      complete c = ground (arith, Chain-links (genesis_hash h) (e ∷ es) c)

  -- The hash that the next event would name.
  abbrev pub last_hash : String → List (Event F) → String
  last_hash prev [] = prev
  last_hash prev (e ∷ es) = last_hash e.event_hash es

  -- Two texts with one hash.
  abbrev pub Collision : Type 0
  Collision = (a b : String) × (a ≢ b) × (h.sha256 a ≡ h.sha256 b)

  -- What the hashes cover: the canonical texts of the payloads.
  abbrev pub SamePayloads : List (Event F) → List (Event F) → Type 0
  SamePayloads [] [] = Unit {0}
  SamePayloads (e ∷ es) (f ∷ fs) =
      (canonicalize h.format3 (parsed h loads e.payload)
        ≡ canonicalize h.format3 (parsed h loads f.payload))
      × SamePayloads es fs
  SamePayloads _ _ = ⊥

  abbrev SameLength : List (Event F) → List (Event F) → Type 0
  SameLength [] [] = Unit {0}
  SameLength (e ∷ es) (f ∷ fs) = SameLength es fs
  SameLength _ _ = ⊥

  module _ (fixed : (a b : String) → count (h.sha256 a) ≡ count (h.sha256 b)) where
    tampered_from :
        (p q : String) (es fs : List (Event F))
        → count p ≡ count q
        → Chain p es
        → Chain q fs
        → SameLength es fs
        → last_hash p es ≡ last_hash q fs
        → ((p ≡ q) × SamePayloads es fs) ⊎ Collision
    unfolding compute_event_hash
    tampered_from p q [] [] n c d l e = inl (e, tt)
    tampered_from p q [] (f ∷ fs) n c d l e = absurd l
    tampered_from p q (e ∷ es) [] n c d l k = absurd l
    tampered_from p q (e ∷ es) (f ∷ fs) n c d l k =
        go (tampered_from e.event_hash f.event_hash es fs (rw (c.1, d.1) (fixed _ _)) c.2 d.2 l k)
      where
        left : String
        left = text_append e.prev_hash (canonicalize h.format3 (parsed h loads e.payload))

        right : String
        right = text_append f.prev_hash (canonicalize h.format3 (parsed h loads f.payload))

        go :
            ((e.event_hash ≡ f.event_hash) × SamePayloads es fs) ⊎ Collision
            → ((p ≡ q) × SamePayloads (e ∷ es) (f ∷ fs)) ⊎ Collision
        go (inr x) = inr x
        go (inl (same, rest)) = elim (Bool-cases (str_eq left right)) [
          | inl eq ↦
              let (prevs, texts) = append_inj ((eq_iff left right).0 eq) (rw (c.0, d.0) n) in
              inl (sym c.0 ∙ prevs ∙ d.0, (texts, rest))
          | inr ne ↦
              inr (left, right, (λ eq. cc ((eq_iff left right).1 eq, ne)), sym c.1 ∙ same ∙ d.1)
        ]

    -- Two ledgers with as many events and the same last hash, both of which `verify_chain`
    -- accepts, have the same payloads, as canonical texts, or show two texts with one SHA-256 hash.
    pub tampering_shows :
        (es fs : List (Event F))
        → SameLength es fs
        → verify_events h loads es ≡ true
        → verify_events h loads fs ≡ true
        → last_hash (genesis_hash h) es ≡ last_hash (genesis_hash h) fs
        → SamePayloads es fs ⊎ Collision
    tampering_shows es fs l v w k = go (
        tampered_from (genesis_hash h) (genesis_hash h) es fs refl ((verify_events_iff es).0 v)
          ((verify_events_iff fs).0 w) l k)
      where
        go :
            ((genesis_hash h ≡ genesis_hash h) × SamePayloads es fs) ⊎ Collision
            → SamePayloads es fs ⊎ Collision
        go (inl x) = inl x.1
        go (inr x) = inr x

  -- The events with other stages and times.
  unfoldable pub relabel : (Event F → String) → (Event F → ℕ) → List (Event F) → List (Event F)
  relabel stage time [] = []
  relabel stage time (e ∷ es) =
      record e { stage = stage e; timestamp_ms = time e } ∷ relabel stage time es

  relabel-Chain :
      (stage : Event F → String) (time : Event F → ℕ) (prev : String) (es : List (Event F))
      → Chain prev es
      → Chain prev (relabel stage time es)
  unfolding relabel
  relabel-Chain stage time prev [] c = tt
  relabel-Chain stage time prev (e ∷ es) c =
      (c.0, c.1, relabel-Chain stage time e.event_hash es c.2)

  Chain-prefix : (prev : String) (es fs : List (Event F)) → Chain prev (es ++ fs) → Chain prev es
  Chain-prefix prev [] fs c = tt
  Chain-prefix prev (e ∷ es) fs c = (c.0, c.1, Chain-prefix e.event_hash es fs c.2)

  -- No hash covers the stage or the time of an event, and nothing marks the end of a chain: a
  -- valid chain stays valid with any stages and times written into it, and with its last events
  -- removed.
  unseen :
      (stage : Event F → String) (time : Event F → ℕ) (es fs : List (Event F))
      → verify_events h loads (es ++ fs) ≡ true
      → (verify_events h loads (relabel stage time es) ≡ true) × (verify_events h loads es ≡ true)
  unseen stage time es fs v =
      let c : Chain (genesis_hash h) es =
        Chain-prefix (genesis_hash h) es fs ((verify_events_iff (es ++ fs)).0 v) in
      (
        (verify_events_iff (relabel stage time es)).1 (relabel-Chain stage time _ es c),
        (verify_events_iff es).1 c,
      )
