-- ===== src/Transaction/Machine/State/Settled.antt =====
-- A consistent record stays consistent when it is moved to a phase with no deadline whose replies
-- are not replayed (state.rs, `is_consistent`; step.rs, `set_phase`).
use policysql.Prelude.{◌≡◌, ◌⊎◌, Bool, true, false, none, arith}
use policysql.Transaction.Machine.State.{
  Record, Phase, Kind, is_consistent, kind_holds, deadline_holds, terminal_reply_holds,
  is_atomic_phase, atomic_holds,
}

-- A phase in which a record can be left: terminal, with no reply to replay.
abbrev pub settles : Phase → Bool
settles Phase.failed = true
settles Phase.expired = true
settles Phase.commit_unknown = true
settles _ = false

-- An atomic record is not left in an unknown commit.
abbrev pub Admits : Record → Phase → Type 0
Admits r p = (r.kind ≡ Kind.interactive) ⊎ (is_atomic_phase p ≡ true)

-- A consistent record stays consistent when it is moved, without its deadline, to a failed, an
-- expired, or, if it is interactive, an unknown-commit phase.
pub settled-is_consistent :
    (r : Record) (p : Phase)
    → is_consistent r ≡ true
    → settles p ≡ true
    → Admits r p
    → is_consistent (record r { phase = p; expires_at_ms = none }) ≡ true
unfolding is_consistent kind_holds deadline_holds terminal_reply_holds atomic_holds
settled-is_consistent r p h t k = ground arith

-- Only an interactive record is `committing` or `validating`.
pub committing-interactive :
    (r : Record)
    → is_consistent r ≡ true
    → is_atomic_phase r.phase ≡ false
    → r.kind ≡ Kind.interactive
unfolding is_consistent kind_holds
committing-interactive r h p = ground arith
