-- ===== src/Transaction/Machine/Step/Keeps.antt =====
-- The handlers of commits, rollbacks, replies, and closings keep the durable part the owner's and
-- its phases apart (step.rs, `consume`).
use Prim.Native.String.{String}
use mathlib.Core.Path.{subst}
use policysql.Prelude.{
  ℕ, ◌≡◌, refl, sym, Bool, true, false, Option, none, some, arith, if-rule, is_none, leb,
  Bool-cases, inl, inr, if◌then◌else◌, ◌>>=◌,
}
use policysql.Transaction.Machine.Connection.{Connection, WorkLane, is_open, is_client}
use policysql.Transaction.Machine.Io.{Effect, Reply, Code}
use policysql.Transaction.Machine.State.{Phase, Durable}
use policysql.Transaction.Machine.State.Wire.{is_discarded}
use policysql.Transaction.Machine.Step.Answers.{
  respond_to, plain_reply, internal_failure, or_own, is_busy,
}
use policysql.Transaction.Machine.Step.Closing.{given_up, close, persist_phase}
use policysql.Transaction.Machine.Step.Commit.{commit_persisted, send_commit, commit_unpersisted}
use policysql.Transaction.Machine.Step.Context.{
  Context, Step, Outcome, Handler, branch, continue, demand, ◌>>◌, act,
}
use policysql.Transaction.Machine.Step.Ends.{IsPhased, durable-wait}
use policysql.Transaction.Machine.Step.Safety.{KeepsPhased}
use policysql.Transaction.Machine.Step.Committing.{given_up-same}
use policysql.Transaction.Machine.Step.Plumbing.{
  live_record, rollback_requested, wait, durable_in_phase, own_request_id, clear_work, connection,
  set_connection, set_phase,
}
use policysql.Transaction.Machine.Volatile.{Task}

-- What is done to the step without touching its durable part.
act-KeepsPhased :
    (o : String) (f : Step → Step)
    → ((s : Step) → (f s).durable ≡ s.durable)
    → KeepsPhased o (act f)
act-KeepsPhased o f same s phased = subst (IsPhased o) (sym (same s)) phased

then-KeepsPhased :
    (o : String) (m n : Handler) → KeepsPhased o m → KeepsPhased o n → KeepsPhased o (m >> n)
then-KeepsPhased o m n p q s phased = go (m s) (p s phased)
  where
    go : (r : Outcome × Step) → IsPhased o r.1.durable → IsPhased o (continue r.0 n r.1).1.durable
    go (Outcome.done, t) h = q t h
    go (Outcome.fault reason, t) h = h

branch-KeepsPhased :
    (o : String) (test : Step → Bool) (m n : Handler)
    → KeepsPhased o m
    → KeepsPhased o n
    → KeepsPhased o (branch test m n)
branch-KeepsPhased o test m n p q s phased = elim (Bool-cases (test s)) [
  | inl e ↦ rw (e, branch) (p s phased)
  | inr e ↦ rw (e, branch) (q s phased)
]

demand-KeepsPhased {ℓ} :
    {A : Type ℓ} (o : String) (d : Option A) (reason : String) (next : A → Handler) (s : Step)
    → ((a : A) → d ≡ some a → IsPhased o (next a s).1.durable)
    → IsPhased o s.durable
    → IsPhased o (demand d reason next s).1.durable
demand-KeepsPhased o none reason next s keeps phased = phased
demand-KeepsPhased o (some a) reason next s keeps phased = keeps a refl

module _ (ctx : Context) where
  pub phase-IsPhased :
      (phase : Phase) (d : Option Durable)
      → is_discarded phase ≡ false
      → IsPhased ctx.owner d
      → IsPhased ctx.owner (durable_in_phase ctx phase d)
  unfolding durable_in_phase
  phase-IsPhased phase none e h = ground arith
  phase-IsPhased phase (some (Durable.tombstone name)) e h = ground arith
  phase-IsPhased phase (some (Durable.live r)) e h = ground arith

  pub wait-KeepsPhased :
      (lane : WorkLane) (request_id : Option String) (task : Task) (effect : ℕ → Effect)
      → KeepsPhased ctx.owner (wait ctx lane request_id task effect)
  wait-KeepsPhased lane request_id task effect s phased =
      subst (IsPhased ctx.owner) (sym (durable-wait ctx lane request_id task effect s)) phased

  cleared-same :
      (reply : Option Reply) (s : Step) → (clear_work (respond_to reply s)).durable ≡ s.durable
  cleared-same none s = ground arith
  cleared-same (some r) s = ground arith

  -- The durable part may enter the phase.
  abbrev Enters : Phase → Option Durable → Type 0
  Enters phase d = IsPhased ctx.owner (durable_in_phase ctx phase d)

  persist_phase-IsPhased :
      (lane : WorkLane) (request_id : Option String) (phase : Phase) (reply : Option Reply)
      (s : Step)
      → Enters phase s.durable
      → IsPhased ctx.owner s.durable
      → IsPhased ctx.owner (persist_phase ctx lane request_id phase reply s).1.durable
  unfolding persist_phase
  persist_phase-IsPhased lane request_id phase reply s enters phased =
      if-rule (λ (o : Outcome × Step). IsPhased ctx.owner o.1.durable) (is_none s.durable) _ _
        (subst (IsPhased ctx.owner) (sym (cleared-same reply s)) phased)
        (wait-KeepsPhased lane request_id (plain_reply reply (internal_failure reply))
          Effect.persist (set_phase ctx phase s) enters)

  pub close-IsPhased :
      (lane : WorkLane) (phase : Phase) (reply : Option Reply) (s : Step)
      → Enters phase s.durable
      → IsPhased ctx.owner s.durable
      → IsPhased ctx.owner (close ctx lane phase reply s).1.durable
  unfolding close
  close-IsPhased lane phase reply s enters phased =
      let t = given_up ctx s in
      let request_id : Option String =
        if is_client lane then or_own t.request (own_request_id ctx) else none in
      let same : IsPhased ctx.owner t.durable =
        subst (IsPhased ctx.owner) (sym (given_up-same ctx s).1) phased in
      if-rule (λ (o : Outcome × Step). IsPhased ctx.owner o.1.durable) (is_busy s.volatile) _ _
        phased
        (if-rule (λ (o : Outcome × Step). IsPhased ctx.owner o.1.durable) (is_open (connection t)) _
          _
          (wait-KeepsPhased lane request_id (Task.close_rollback phase reply) Effect.rollback
            (set_connection ctx Connection.closing t) same)
          (persist_phase-IsPhased lane request_id phase reply (set_connection ctx Connection.none t)
            (subst (Enters phase) (sym (given_up-same ctx s).1) enters) same))

  pub close-KeepsPhased :
      (lane : WorkLane) (phase : Phase) (reply : Option Reply)
      → is_discarded phase ≡ false
      → KeepsPhased ctx.owner (close ctx lane phase reply)
  close-KeepsPhased lane phase reply e s phased =
      close-IsPhased lane phase reply s (phase-IsPhased phase s.durable e phased) phased

  connection-KeepsPhased : (c : Connection) → KeepsPhased ctx.owner (act (set_connection ctx c))
  connection-KeepsPhased c s phased = phased

  set_phase-KeepsPhased :
      (phase : Phase)
      → is_discarded phase ≡ false
      → KeepsPhased ctx.owner (act (set_phase ctx phase))
  set_phase-KeepsPhased phase e s phased = phase-IsPhased phase s.durable e phased

  send_commit-KeepsPhased :
      (lane : WorkLane) (request_id : Option String) (sequence : ℕ) (digest : String)
      (passed : Bool)
      → KeepsPhased ctx.owner (send_commit ctx lane request_id sequence digest passed)
  send_commit-KeepsPhased lane request_id sequence digest passed =
      let send : Handler =
        wait ctx lane request_id (Task.commit_send sequence digest passed) Effect.commit in
      then-KeepsPhased ctx.owner (act (set_connection ctx Connection.closing)) send
        (connection-KeepsPhased Connection.closing)
        (wait-KeepsPhased lane request_id (Task.commit_send sequence digest passed) Effect.commit)

  -- The outcome of the persist before COMMIT, whichever it is, keeps the durable part the owner's.
  pub commit_persisted-KeepsPhased :
      (lane : WorkLane) (request_id : Option String) (sequence : ℕ) (digest : String)
      (passed : Bool)
      → KeepsPhased ctx.owner (commit_persisted ctx lane request_id sequence digest passed)
  unfolding commit_persisted
  commit_persisted-KeepsPhased lane request_id sequence digest passed s phased =
      let next : ℕ → Handler = λ expires.
        branch (λ t. if leb expires ctx.host.now_ms then true else rollback_requested t)
          (close ctx lane Phase.expired (some (Reply.error Code.unavailable)))
          (send_commit ctx lane request_id sequence digest passed) in
      demand-KeepsPhased ctx.owner (live_record s.durable >>= λ r. r.expires_at_ms)
        "committing_record" next s
        (λ at e.
          branch-KeepsPhased ctx.owner
            (λ (t : Step). if leb at ctx.host.now_ms then true else rollback_requested t)
            (close ctx lane Phase.expired (some (Reply.error Code.unavailable)))
            (send_commit ctx lane request_id sequence digest passed)
            (close-KeepsPhased lane Phase.expired (some (Reply.error Code.unavailable)) refl)
            (send_commit-KeepsPhased lane request_id sequence digest passed) s phased)
        phased

  pub commit_unpersisted-KeepsPhased :
      (lane : WorkLane) → KeepsPhased ctx.owner (commit_unpersisted ctx lane)
  unfolding commit_unpersisted
  commit_unpersisted-KeepsPhased lane =
      close-KeepsPhased lane Phase.failed (some (Reply.error Code.internal)) refl
