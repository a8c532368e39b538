-- ===== src/Ot/Serve/Once.antt =====
-- A transaction is acknowledged at most once, in the runs of Ot/Serve: pcag/apps/ot_interface.
use pcag.Base.{
  ◌++◌, ◌⊎◌, inr, inl, eq_iff, Bool-cases, ◌≤◌, ℕ, ◌+◌, String, ◌≡◌, refl, Bool, true, false,
  Option, some, List, [], ◌∷◌, arith, weight,
}
use pcag.Ot.Repository.{TxStatus, Table}
use pcag.Ot.Service.{finalize_commit, check_commit_ready, FinalStatus}
use pcag.Ot.Routes
use pcag.Ot.Routes.{
  Executor, Ot, Http, ok, http_error, PrepareResponse, CommitStatus, ack, CommitResponse, CommitRun,
  AbortResponse, EstopResponse, commit,
}
use pcag.Ot.Commit.{commit-ack}
use pcag.Ot.Status.{status_of, finalize-committed}
use pcag.Ot.Permanent.{prepare-final, finalize_commit-final, abort-final, estop-final}
use pcag.Ot.Serve.{
  Op, apply_op, apply_ops, Interleaving, run_of, Request, Response, committed, finalized, is_ack,
  acks, answers, is_ready, meanwhile, handle, serve, prepares, finalizes, aborts, estops,
}

module _ (tx asset : String) where
  abbrev IsCommitted : Table → Type 0
  IsCommitted t = status_of tx asset t ≡ some TxStatus.committed

  apply_ops-final : (ops : List Op) (t : Table) → IsCommitted t → IsCommitted (apply_ops ops t)
  unfolding apply_ops apply_op
  apply_ops-final [] t h = h
  apply_ops-final (prepares fault now j b ttl ∷ ops) t h =
      apply_ops-final ops _ (prepare-final tx asset TxStatus.committed refl t h fault now j b ttl)
  apply_ops-final (finalizes fault j b ∷ ops) t h =
      apply_ops-final ops _ (finalize_commit-final tx asset TxStatus.committed refl t h fault j b)
  apply_ops-final (aborts fault j b ∷ ops) t h =
      apply_ops-final ops _ (abort-final tx asset TxStatus.committed refl t h fault j b)
  apply_ops-final (estops fault b ∷ ops) t h =
      apply_ops-final ops _ (estop-final tx asset TxStatus.committed refl t h fault b)

  module _ {W A : Type 0} (x : Executor W A) where
    commit-final :
        (i : Interleaving) (j b : String) (actions : List A) (s : Ot W)
        → IsCommitted s.table
        → IsCommitted (commit x (run_of i) j b actions s).1.table
    unfolding commit
    commit-final i j b actions s h =
        let t : Table = apply_ops i.others s.table in
        let h' : IsCommitted t = apply_ops-final i.others s.table h in
        ground (
          arith,
          finalize_commit-final tx asset TxStatus.committed refl t h' i.final_fault j b,
          abort-final tx asset TxStatus.committed refl t h' i.abort_fault j b,
        )

    handle-final :
        (q : Request A) (s : Ot W) → IsCommitted s.table → IsCommitted (handle x q s).1.table
    unfolding handle Routes.prepare Routes.abort Routes.estop
    handle-final (Request.prepares fault now j b ttl) s h =
        prepare-final tx asset TxStatus.committed refl s.table h fault now j b ttl
    handle-final (Request.commits i j b actions) s h = commit-final i j b actions s h
    handle-final (Request.aborts fault j b) s h =
        ground (arith, abort-final tx asset TxStatus.committed refl s.table h fault j b)
    handle-final (Request.estops fault now b) s h =
        estop-final tx asset TxStatus.committed refl s.table h fault b

    -- When a COMMIT is acknowledged, the row has been LOCKED at its start and after the others.
    commit-acked :
        (i : Interleaving) (j b : String) (actions : List A) (s : Ot W)
        → is_ack tx asset (committed j b (commit x (run_of i) j b actions s).0) ≡ true
        → (status_of tx asset s.table ≡ some TxStatus.locked)
          × (status_of tx asset (apply_ops i.others s.table) ≡ some TxStatus.locked)
          × IsCommitted (commit x (run_of i) j b actions s).1.table
    commit-acked i j b actions s h = go (commit x (run_of i) j b actions s).0 refl h
      where
        go :
            (r : Http CommitResponse)
            → (commit x (run_of i) j b actions s).0 ≡ r
            → is_ack tx asset (committed j b r) ≡ true
            → (status_of tx asset s.table ≡ some TxStatus.locked)
              × (status_of tx asset (apply_ops i.others s.table) ≡ some TxStatus.locked)
              × IsCommitted (commit x (run_of i) j b actions s).1.table
        go (Http.ok c) e k =
            ground (arith, eq_iff j tx, eq_iff b asset, commit-ack x (run_of i) j b actions s c e)
        go (Http.http_error n d) e k = cc

    -- What the others have committed stays so to the end of a COMMIT that is ready.
    commit-over :
        (i : Interleaving) (j b : String) (actions : List A) (s : Ot W)
        → is_ready (check_commit_ready i.ready_fault i.ready_now j b s.table).status ≡ true
        → IsCommitted (apply_ops i.others s.table)
        → IsCommitted (commit x (run_of i) j b actions s).1.table
    unfolding commit
    commit-over i j b actions s r h =
        let t : Table = apply_ops i.others s.table in
        ground (
          arith,
          finalize_commit-final tx asset TxStatus.committed refl t h i.final_fault j b,
          abort-final tx asset TxStatus.committed refl t h i.abort_fault j b,
        )

  acks-append :
      (rs qs : List Response) → acks tx asset (rs ++ qs) ≡ acks tx asset rs + acks tx asset qs
  unfolding acks
  acks-append [] qs = omega arith
  acks-append (r ∷ rs) qs = omega (arith, acks-append rs qs)

  -- What some calls acknowledge: nothing, or one commit, after which the row is COMMITTED.
  abbrev Once : ℕ → Table → Type 0
  Once n t = (n ≡ 0) ⊎ ((n ≡ 1) × IsCommitted t)

  finalized-locked :
      (fault : Option String) (j b : String) (t : Table)
      → is_ack tx asset (finalized j b (finalize_commit fault j b t).0.status) ≡ true
      → (status_of tx asset t ≡ some TxStatus.locked) × IsCommitted (finalize_commit fault j b t).1
  finalized-locked fault j b t h = go (finalize_commit fault j b t).0.status refl h
    where
      go :
          (f : FinalStatus)
          → (finalize_commit fault j b t).0.status ≡ f
          → is_ack tx asset (finalized j b f) ≡ true
          → (status_of tx asset t ≡ some TxStatus.locked)
            × IsCommitted (finalize_commit fault j b t).1
      go FinalStatus.committed e k =
          ground (arith, eq_iff j tx, eq_iff b asset, finalize-committed fault j b t e)
      go FinalStatus.already_committed e k = ground (arith, k)
      go FinalStatus.rejected e k = ground (arith, k)

  answers-committed :
      (ops : List Op) (t : Table) → IsCommitted t → acks tx asset (answers ops t) ≡ 0
  unfolding answers acks apply_op
  answers-committed [] t h = refl
  answers-committed (prepares fault now j b ttl ∷ ops) t h =
      answers-committed ops _ (prepare-final tx asset TxStatus.committed refl t h fault now j b ttl)
  answers-committed (aborts fault j b ∷ ops) t h =
      answers-committed ops _ (abort-final tx asset TxStatus.committed refl t h fault j b)
  answers-committed (estops fault b ∷ ops) t h =
      answers-committed ops _ (estop-final tx asset TxStatus.committed refl t h fault b)
  answers-committed (finalizes fault j b ∷ ops) t h =
      let rest =
        answers-committed ops _
          (finalize_commit-final tx asset TxStatus.committed refl t h fault j b) in
      elim (Bool-cases (is_ack tx asset (finalized j b (finalize_commit fault j b t).0.status))) [
        | inl again ↦ cc (h, (finalized-locked fault j b t again).0)
        | inr silent ↦ rw silent (omega (arith, rest))
      ]

  Once-silent : (n : ℕ) (t : Table) → Once n t → Once (weight false + n) t
  Once-silent n t (inl zero) = inl (omega (arith, zero))
  Once-silent n t (inr (one, c)) = inr (omega (arith, one), c)

  answers-Once :
      (ops : List Op) (t : Table) → Once (acks tx asset (answers ops t)) (apply_ops ops t)
  unfolding answers acks apply_op apply_ops
  answers-Once [] t = inl refl
  answers-Once (prepares fault now j b ttl ∷ ops) t = answers-Once ops _
  answers-Once (aborts fault j b ∷ ops) t = answers-Once ops _
  answers-Once (estops fault b ∷ ops) t = answers-Once ops _
  answers-Once (finalizes fault j b ∷ ops) t =
      elim (Bool-cases (is_ack tx asset (finalized j b (finalize_commit fault j b t).0.status))) [
        | inl first ↦
            let c = (finalized-locked fault j b t first).1 in
            rw first (inr (omega (arith, answers-committed ops _ c), apply_ops-final ops _ c))
        | inr silent ↦ rw silent (Once-silent _ _ (answers-Once ops _))
      ]

  Once-one :
      (n : ℕ) (b : Bool) (t : Table) → n ≡ 0 → (b ≡ true → IsCommitted t) → Once (n + weight b) t
  Once-one n true t h k = inr (omega (arith, h), k refl)
  Once-one n false t h k = inl (omega (arith, h))

  module _ {W A : Type 0} (x : Executor W A) where
    -- All that is acknowledged while a request is handled.
    abbrev turn_acks : Request A → Ot W → ℕ
    turn_acks q s = acks tx asset (meanwhile q s.table) + weight (is_ack tx asset (handle x q s).0)

    ready-Once :
        (i : Interleaving) (j b : String) (actions : List A) (s : Ot W)
        → is_ready (check_commit_ready i.ready_fault i.ready_now j b s.table).status ≡ true
        → Once
            (acks tx asset (answers i.others s.table)
              + weight (is_ack tx asset (committed j b (commit x (run_of i) j b actions s).0)))
            (commit x (run_of i) j b actions s).1.table
    ready-Once i j b actions s r = elim (answers-Once i.others s.table) [
      | inl zero ↦ Once-one _ _ _ zero (λ k. (commit-acked x i j b actions s k).2)
      | inr (one, c) ↦
          elim (Bool-cases
            (is_ack tx asset (committed j b (commit x (run_of i) j b actions s).0))) [
              | inl again ↦ cc (c, (commit-acked x i j b actions s again).1)
              | inr silent ↦ rw silent (inr (omega (arith, one), commit-over x i j b actions s r c))
            ]
    ]

    turn-Once : (q : Request A) (s : Ot W) → Once (turn_acks q s) (handle x q s).1.table
    unfolding handle meanwhile acks
    turn-Once (Request.prepares fault now j b ttl) s = inl refl
    turn-Once (Request.aborts fault j b) s = inl refl
    turn-Once (Request.estops fault now b) s = inl refl
    turn-Once (Request.commits i j b actions) s =
        elim (Bool-cases
          (is_ready (check_commit_ready i.ready_fault i.ready_now j b s.table).status)) [
            | inl r ↦ rw r (ready-Once i j b actions s r)
            | inr r ↦ rw r (Once-one 0 _ _ refl (λ k. (commit-acked x i j b actions s k).2))
          ]

    turn-committed : (q : Request A) (s : Ot W) → IsCommitted s.table → turn_acks q s ≡ 0
    unfolding handle meanwhile acks
    turn-committed (Request.prepares fault now j b ttl) s h = refl
    turn-committed (Request.aborts fault j b) s h = refl
    turn-committed (Request.estops fault now b) s h = refl
    turn-committed (Request.commits i j b actions) s h =
        elim (Bool-cases (is_ack tx asset (committed j b (commit x (run_of i) j b actions s).0))) [
          | inl again ↦ cc (h, (commit-acked x i j b actions s again).0)
          | inr silent ↦ rw silent (ground (arith, answers-committed i.others s.table h))
        ]

    acks-serve :
        (q : Request A) (qs : List (Request A)) (s : Ot W)
        → acks tx asset (serve x (q ∷ qs) s)
          ≡ turn_acks q s + acks tx asset (serve x qs (handle x q s).1)
    unfolding serve acks
    acks-serve q qs s =
        omega (
          arith,
          acks-append (meanwhile q s.table) ((handle x q s).0 ∷ serve x qs (handle x q s).1),
        )

    acks-committed :
        (qs : List (Request A)) (s : Ot W) → IsCommitted s.table → acks tx asset (serve x qs s) ≡ 0
    unfolding serve acks
    acks-committed [] s h = refl
    acks-committed (q ∷ qs) s h = omega (
      arith,
      acks-serve q qs s,
      turn-committed q s h,
      acks-committed qs (handle x q s).1 (handle-final x q s h),
    )

    -- However the requests are ordered, whichever methods the sessions of others call while a COMMIT
    -- executes, whatever the executor does and whichever sessions raise: if each session runs as a
    -- whole, a transaction is acknowledged for an asset at most once, counting the COMMITs and the
    -- finalizations among the calls of others.
    pub ack_once : (qs : List (Request A)) (s : Ot W) → acks tx asset (serve x qs s) ≤ 1
    unfolding serve acks
    ack_once [] s = omega arith
    ack_once (q ∷ qs) s = elim (turn-Once q s) [
      | inl zero ↦ omega (arith, acks-serve q qs s, zero, ack_once qs (handle x q s).1)
      | inr (one, c) ↦ omega (arith, acks-serve q qs s, one, acks-committed qs (handle x q s).1 c)
    ]
