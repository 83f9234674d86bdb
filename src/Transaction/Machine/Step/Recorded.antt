-- ===== src/Transaction/Machine/Step/Recorded.antt =====
-- The record that a statement leaves (step.rs, `executed`).
use Prim.Native.String.{String}
use policysql.Prelude.{
  ℕ, ◌+◌, ◌≡◌, ◌≤◌, ◌<◌, refl, true, not, ◌&&◌, some, List, length, ltb, leb, arith, u32_max,
  is_none_or, ◌==◌, byte_len, Option-cases, Bool-cases, inl, inr,
}
use policysql.Transaction.Machine.Compiler.{Validated}
use policysql.Transaction.Machine.Limits.{max_safe_integer}
use policysql.Transaction.Machine.State.{
  Phase, Kind, Record, Usage, Mutation, max_mutations, max_resource_name_bytes, mutates, short_text,
  usage_is_valid, sequence_holds, last_holds, terminal_reply_holds, kind_holds, mutations_hold,
  versions_hold, is_consistent,
}
use policysql.Transaction.Machine.State.Mutations.{mutations_hold-suc, mutations_hold-snoc}
use policysql.Transaction.Machine.Step.Context.{Context}
use policysql.Transaction.Machine.Step.Services.{Services}
use policysql.Transaction.Machine.Step.Statement.{completed, pushed_mutation}
use policysql.Transaction.Machine.Volatile.{StatementTask}

module _ (ctx : Context) (services : Services) where
  pushed_mutation-hold :
      (t : StatementTask) (n : ℕ) (v : Validated) (ms : List Mutation)
      → mutations_hold ms n ≡ true
      → length ms < max_mutations
      → is_none_or t.resource
          (λ name. not (byte_len name == 0) && leb (byte_len name) max_resource_name_bytes)
        ≡ true
      → mutations_hold (pushed_mutation ctx services t n v ms) (n + 1) ≡ true
  pushed_mutation-hold t n v ms h room named = elim (Option-cases t.resource) [
    | inl e ↦ rw e (mutations_hold-suc ms n h)
    | inr (name, e) ↦ elim (Bool-cases (mutates t.operation && ltb 0 v.affected_rows)) [
      | inl b ↦
          rw (e, b)
            (mutations_hold-snoc ms n
              (record { index = n; operation = t.operation; resource = name }) h room refl
              (ground arith))
      | inr b ↦ rw (e, b) (mutations_hold-suc ms n h)
    ]
  ]

  -- A statement of an active transaction leaves a consistent record, if it is the next in sequence,
  -- its names, usage, and bytes are within their bounds, there is room for one more mutation, and the
  -- count of statements is not at the end of its 32 bits.
  pub completed-is_consistent :
      (r : Record) (t : StatementTask) (v : Validated) (result_bytes : ℕ) (usage : Usage)
      (response : String)
      → is_consistent r ≡ true
      → r.phase ≡ Phase.active
      → r.kind ≡ Kind.interactive
      → t.sequence ≡ r.next_sequence
      → r.next_sequence < max_safe_integer
      → r.counters.statements < u32_max
      → length r.mutations < max_mutations
      → is_none_or t.resource
          (λ name. not (byte_len name == 0) && leb (byte_len name) max_resource_name_bytes)
        ≡ true
      → last_holds (some (record { digest = t.digest; response = response })) ≡ true
      → short_text t.versions.schema ≡ true
      → short_text t.versions.policy ≡ true
      → usage_is_valid usage ≡ true
      → result_bytes ≤ max_safe_integer
      → is_consistent (completed ctx services r t v result_bytes usage response) ≡ true
  unfolding completed is_consistent kind_holds sequence_holds terminal_reply_holds versions_hold
  completed-is_consistent r t v result_bytes usage response h active interactive next small counted
        room named last schema policy used bytes =
      ground (arith, pushed_mutation-hold t r.counters.statements v r.mutations)
