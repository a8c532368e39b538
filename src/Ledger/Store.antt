-- ===== src/Ledger/Store.antt =====
-- The ledger as a store: numbered events of a new transaction, appended one after another, are read
-- back in their order.
use pcag.Base.{
  ℕ, ◌+◌, ◌<◌, String, ◌≡◌, refl, true, false, Option, List, [], ◌∷◌, ◌++◌, str_eq, eq_iff, arith,
  sym, ◌∙◌, ap,
}
use pcag.Core.Json.{Json}
use pcag.Core.Hash.{Hashing}
use pcag.Ledger.Repository.{
  Event, is_taken, append_event, insert_by_seq, get_transaction_events, verify_events, verify_chain,
}

-- Events of one transaction, numbered from `n` on.
abbrev pub Numbered : {F : Type 0} → String → ℕ → List (Event F) → Type 0
Numbered tx n [] = Unit {0}
Numbered tx n (e ∷ es) = (e.transaction_id ≡ tx) × (e.sequence_no ≡ n) × Numbered tx (n + 1) es

-- One POST for each event.
unfoldable pub append_all : {F : Type 0} → List (Event F) → List (Event F) → List (Event F)
append_all [] table = table
append_all (e ∷ es) table = append_all es (append_event e table).1

module _ {F : Type 0} (tx : String) where
  -- The transaction has no event.
  abbrev pub IsNew : List (Event F) → Type 0
  IsNew [] = Unit {0}
  IsNew (f ∷ fs) = (str_eq f.transaction_id tx ≡ false) × IsNew fs

  -- The transaction's events have numbers below `n`.
  abbrev Below : ℕ → List (Event F) → Type 0
  Below n [] = Unit {0}
  Below n (f ∷ fs) = (str_eq f.transaction_id tx ≡ true → f.sequence_no < n) × Below n fs

  IsNew-Below : (n : ℕ) (t : List (Event F)) → IsNew t → Below n t
  IsNew-Below n [] new = tt
  IsNew-Below n (f ∷ fs) new = ((λ own. cc (own, new.0)), IsNew-Below n fs new.1)

  Below-not_taken :
      (e : Event F) (t : List (Event F))
      → e.transaction_id ≡ tx
      → Below e.sequence_no t
      → is_taken e t ≡ false
  unfolding is_taken
  Below-not_taken e [] own b = refl
  Below-not_taken e (f ∷ fs) own b = ground (
    arith,
    b.0,
    Below-not_taken e fs own b.1,
    eq_iff f.transaction_id e.transaction_id,
    eq_iff f.transaction_id tx,
  )

  Below-append :
      (n : ℕ) (e : Event F) (t : List (Event F))
      → e.sequence_no ≡ n
      → Below n t
      → Below (n + 1) (t ++ e ∷ [])
  Below-append n e [] s b = ((λ own. omega (arith, s)), tt)
  Below-append n e (f ∷ fs) s b = ((λ own. omega (arith, b.0 own)), Below-append n e fs s b.1)

  snoc-append : (e : Event F) (t es : List (Event F)) → (t ++ e ∷ []) ++ es ≡ t ++ e ∷ es
  snoc-append e [] es = refl
  snoc-append e (f ∷ t) es = ap (λ l. f ∷ l) (snoc-append e t es)

  append-empty : (t : List (Event F)) → t ++ [] ≡ t
  append-empty [] = refl
  append-empty (f ∷ t) = ap (λ l. f ∷ l) (append-empty t)

  append_all-append :
      (n : ℕ) (es t : List (Event F)) → Numbered tx n es → Below n t → append_all es t ≡ t ++ es
  unfolding append_all append_event
  append_all-append n [] t k b = sym (append-empty t)
  append_all-append n (e ∷ es) t (own, s, k) b =
      rw (Below-not_taken e t own (rw s b))
        (append_all-append (n + 1) es (t ++ e ∷ []) k (Below-append n e t s b) ∙ snoc-append e t es)

  insert-first :
      (e : Event F) (es : List (Event F))
      → Numbered tx (e.sequence_no + 1) es
      → insert_by_seq e es ≡ e ∷ es
  unfolding insert_by_seq
  insert-first e [] k = refl
  insert-first e (f ∷ es) k = ground (arith, k.1)

  get-Numbered :
      (n : ℕ) (es : List (Event F)) → Numbered tx n es → get_transaction_events tx es ≡ es
  unfolding get_transaction_events
  get-Numbered n [] k = refl
  get-Numbered n (e ∷ es) (own, s, k) =
      rw ((eq_iff e.transaction_id tx).1 own)
        (rw (get-Numbered (n + 1) es k) (insert-first e es (rw s k)))

  get-append :
      (t es : List (Event F))
      → IsNew t
      → get_transaction_events tx (t ++ es) ≡ get_transaction_events tx es
  unfolding get_transaction_events
  get-append [] es new = refl
  get-append (f ∷ t) es new = rw new.0 (get-append t es new.1)

  -- Events that are numbered from 0 and that `verify_events` accepts, appended one after another to
  -- a ledger without events of their transaction, are read back as they are, and `verify_chain`
  -- accepts the transaction.
  pub stored-chain :
      (h : Hashing F) (loads : String → Option (Json F)) (es table : List (Event F))
      → IsNew table
      → Numbered tx 0 es
      → verify_events h loads es ≡ true
      → (get_transaction_events tx (append_all es table) ≡ es)
        × (verify_chain h loads tx (append_all es table) ≡ true)
  unfolding verify_chain
  stored-chain h loads es table new k v =
      let read : get_transaction_events tx (append_all es table) ≡ es =
        rw (append_all-append 0 es table k (IsNew-Below 0 table new))
          (get-append table es new ∙ get-Numbered 0 es k) in
      (read, rw read v)
