-- ===== src/Lib.antt =====
-- The transaction machine of PolicySQL: a pure transition function that an owner runs for each
-- event, over a durable record and a volatile part that the engine keeps as texts. One step
-- reads both texts, the event, and the facts of the host, and returns the new texts and a batch
-- of effects; the engine runs the effects and brings their outcomes back as events.
--
-- Parts, with paths from the repository's root:
-- Transaction/Bounds: crates/policysql-transaction/src/bounds.rs, the byte bounds.
-- Transaction/Machine/Limits, Io, Compiler: crates/policysql-transaction/src/machine/mod.rs,
-- io.rs, and compiler.rs beside it: limits, events, effects, codes, and the compiler that the
-- machine calls. The compiler is a parameter; its answers may depend on the calls made before.
-- Transaction/Machine/State, State/Wire, Connection, Volatile:
-- crates/policysql-transaction/src/machine/state.rs, the durable record with
-- `Record::is_consistent`, its wire form (`from_wire`, `to_json`, `parse`), and the volatile
-- part with `Volatile::is_consistent`.
-- Transaction/Machine/Time: crates/policysql-transaction/src/machine/time.rs, the civil date.
-- Transaction/Machine/Step: crates/policysql-transaction/src/machine/step.rs. Context is `Step`
-- and `Result<()>`: a handler maps a step to an outcome (done, or a fault) and the step as it
-- then is. Plumbing is `wait`, `release`, `set_phase`, and their like; Closing and Answers are
-- `close`, `abandon`, `fail_closed`, and `discard`; Driver is `run`, `run_dispatch`,
-- `check_output`, and `finish_output`; Begin, Statement, Commit, and Replies are the arms of
-- `consume`, with `begin`, `executed`, `complete`, and `stale`; Timer is `timer`, over the timer
-- of atomic execution and the expiry of a validation.
-- Transaction/Machine/Step, of machine/step/checks.rs: Tokens is the decision, the capability
-- tokens, and the callback session; Checks and Verdicts are `start_checks`, `issue`, the verdicts,
-- and the expiry of a validation; Callbacks, CallbackQuery, and CallbackOutcome are the callback
-- lane. Of machine/step/atomic.rs, Verdicts has `atomic_commit_binding`.
-- Transaction/Canonical and Canonical/Writer: crates/policysql-transaction/src/canonical.rs, JSON
-- values, their reading from serde_json's events, and their canonical text as code points.
-- Transaction/Strict: strict.rs beside it, the strict check of a body, over the same events.
-- Transaction/Identity and Identity/Session: identity.rs, fingerprints and digests, over SHA-256
-- as a parameter.
-- Transaction/Cost: cost.rs, the evaluation of an envelope's cost.
-- Tests: sample states, and the theorems applied to them.
--
-- A `u64` is a number, with the saturating and checked arithmetic of the source written out, and so
-- are a `u32`, which wraps, and a `usize`, which is that of wasm32, the target that is deployed; an
-- `f64` is its bit pattern; a JSON text is a String and a parsed value a Value. serde_json is a
-- parameter (State/Wire `Codec`, Step/Context `Serde`), and so is `f64` arithmetic. A reply is
-- kept as the data that its text is written from. No function needs fuel but loops that count
-- down: the digits and the bytes of the entropy (12 and 32) and the handles of an unreadable text
-- (64), the numbers that the source has; the digits of a 64-bit word, at most 20; the prefixes of
-- an owner's name, at most as many as it has characters.
--
-- Not modelled: the dispatch of an event to the arms of `consume` (an argument of `run`), client
-- commands after begin, and atomic execution (step/atomic.rs) but for its last check of the
-- binding. Begin and Statement still take what they use of canonical.rs, identity.rs, and
-- strict.rs from Step/Services. The compiler crates; the bindings and the engine, which only run
-- effects.
pub mod Prelude
pub mod Tests
pub mod Transaction
