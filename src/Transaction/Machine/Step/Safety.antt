-- ===== src/Transaction/Machine/Step/Safety.antt =====
-- Every step ends safely, whatever its handlers do: the output either drops the memory of the
-- owner (`Reset`), or keeps the batch rule and a durable record that reads back (step.rs, `run`).
use Prim.Native.String.{String}
use policysql.Prelude.{
  ◌≡◌, refl, inl, inr, Bool, true, false, none, some, List, [], arith, if◌then◌else◌, Bool-cases,
}
use policysql.Transaction.Machine.Compiler.{Call}
use policysql.Transaction.Machine.Io.{Event}
use policysql.Transaction.Machine.State.{owner_name, durable_owner}
use policysql.Transaction.Machine.State.RoundTrip.{IsStorable}
use policysql.Transaction.Machine.Step.Closing.{discarded_record}
use policysql.Transaction.Machine.Step.Context.{Context, Step, Outcome, Handler}
use policysql.Transaction.Machine.Step.Driver.{
  check_output, run_dispatch, recover, checked, freed, start, is_atomic_input, step_read, Stored,
  Held,
}
use policysql.Transaction.Machine.Step.Plumbing.{release_calls, log}
use policysql.Transaction.Machine.Step.Ends.{
  IsKept, IsEnd, IsPhased, IsPhased-of, IsKept-of, fail_closed-IsEnd, discard-IsEnd,
}

module _ (ctx : Context) where
  -- What `check_output` passes.
  check_output-IsEnd :
      (s : Step)
      → check_output ctx s ≡ Outcome.done
      → IsPhased ctx.owner s.durable
      → IsEnd ctx.owner s
  unfolding check_output
  check_output-IsEnd s h phased = elim (Bool-cases s.reset) [
    | inl e ↦ inl e
    | inr e ↦ inr (ground arith, ground arith, IsKept-of ctx.owner s.durable phased (ground arith))
  ]

  -- A fault of the handler or of the check fails closed on the state the step started from.
  recover-IsEnd :
      (event : Event) (before after : Step) (r : Outcome)
      → (r ≡ Outcome.done → IsEnd ctx.owner after)
      → IsKept ctx.owner before.durable
      → IsEnd ctx.owner (recover ctx event before r after)
  recover-IsEnd event before after Outcome.done h kept = h refl
  recover-IsEnd event before after (Outcome.fault reason) h kept =
      fail_closed-IsEnd ctx reason event false
        (record after {
          durable = before.durable;
          volatile = before.volatile;
          effects = [];
          reset = false;
          allocated = [];
          calls = release_calls after.allocated after.calls;
        })
        kept

  checked-IsEnd :
      (event : Event) (before : Step) (o : Outcome × Step)
      → IsPhased ctx.owner o.1.durable
      → IsKept ctx.owner before.durable
      → IsEnd ctx.owner (recover ctx event before (checked ctx o).0 (checked ctx o).1)
  checked-IsEnd event before (Outcome.done, t) phased kept =
      recover-IsEnd event before t (check_output ctx t) (λ e. check_output-IsEnd t e phased) kept
  checked-IsEnd event before (Outcome.fault reason, t) phased kept =
      recover-IsEnd event before t (Outcome.fault reason) (λ e. cc) kept

  pub run_dispatch-IsEnd :
      (handler : Handler) (event : Event) (s : Step)
      → IsPhased ctx.owner (handler s).1.durable
      → IsKept ctx.owner s.durable
      → IsEnd ctx.owner (run_dispatch ctx handler event s)
  unfolding run_dispatch
  run_dispatch-IsEnd handler event s phased kept = checked-IsEnd event s (handler s) phased kept

-- What was read for an owner: a record that can be stored, or an unreadable one of a named owner.
abbrev pub IsRead : String → Stored → Type 0
IsRead owner Stored.absent = Unit
IsRead owner (Stored.unreadable reason) = owner_name owner ≡ true
IsRead owner (Stored.readable d) = IsStorable d × (durable_owner d ≡ owner)

-- A handler that keeps the durable part phased.
abbrev pub KeepsPhased : String → Handler → Type 0
KeepsPhased owner handler =
    (s : Step) → IsPhased owner s.durable → IsPhased owner (handler s).1.durable

if-step-IsEnd :
    (owner : String) (b : Bool) (s t : Step)
    → IsEnd owner s
    → IsEnd owner t
    → IsEnd owner (if b then s else t)
if-step-IsEnd owner true s t p q = p
if-step-IsEnd owner false s t p q = q

module _ (ctx : Context) (dispatch : Event → Handler) (calls : List Call) (event : Event)
    (keeps : KeepsPhased ctx.owner (dispatch event)) where
  dispatched-IsEnd :
      (s : Step)
      → IsKept ctx.owner s.durable
      → IsEnd ctx.owner (run_dispatch ctx (dispatch event) event s)
  dispatched-IsEnd s kept =
      run_dispatch-IsEnd ctx (dispatch event) event s
        (keeps s (IsPhased-of ctx.owner s.durable kept)) kept

  -- Whatever was read, the step resets, or leaves a batch with at most one awaited effect, the last
  -- and the pending one, and a durable part that is absent or can be stored.
  pub step_read-IsEnd :
      (stored : Stored) (held : Held)
      → IsRead ctx.owner stored
      → IsEnd ctx.owner (step_read ctx dispatch calls stored held event)
  unfolding step_read
  step_read-IsEnd (Stored.unreadable reason) Held.absent read =
      if-step-IsEnd ctx.owner (is_atomic_input event) _ _
        (dispatched-IsEnd (log (discarded_record ctx reason) (start none none calls)) tt)
        (discard-IsEnd ctx reason event (start none none calls) read refl)
  step_read-IsEnd (Stored.unreadable reason) (Held.invalid text) read =
      discard-IsEnd ctx reason event (start none none calls) read refl
  step_read-IsEnd (Stored.unreadable reason) (Held.valid v) read =
      discard-IsEnd ctx reason event (start none (some v) calls) read refl
  step_read-IsEnd Stored.absent (Held.invalid text) read =
      fail_closed-IsEnd ctx "volatile_invalid" event true (start none none (freed ctx text calls))
        tt
  step_read-IsEnd (Stored.readable d) (Held.invalid text) read =
      fail_closed-IsEnd ctx "volatile_invalid" event true
        (start (some d) none (freed ctx text calls)) read
  step_read-IsEnd Stored.absent Held.absent read = dispatched-IsEnd (start none none calls) tt
  step_read-IsEnd Stored.absent (Held.valid v) read =
      dispatched-IsEnd (start none (some v) calls) tt
  step_read-IsEnd (Stored.readable d) Held.absent read =
      dispatched-IsEnd (start (some d) none calls) read
  step_read-IsEnd (Stored.readable d) (Held.valid v) read =
      dispatched-IsEnd (start (some d) (some v) calls) read
