-- ===== src/Transaction/Machine/State/Mutations.antt =====
-- The mutations of a record as its statements are counted (state.rs, `is_consistent`).
use policysql.Prelude.{
  ℕ, ◌+◌, ◌≡◌, ◌<◌, refl, true, List, [], ◌∷◌, ◌++◌, length, all, arith, length-append, all-append,
}
use policysql.Transaction.Machine.State.{
  Mutation, max_mutations, increasing, mutation_holds, mutations_hold,
}

increasing-snoc :
    (n : ℕ) (ms : List Mutation) (k : Mutation)
    → increasing ms ≡ true
    → all (mutation_holds n) ms ≡ true
    → k.index ≡ n
    → increasing (ms ++ (k ∷ [])) ≡ true
increasing-snoc n [] k up below e = refl
increasing-snoc n (m ∷ []) k up below e = ground arith
increasing-snoc n (m ∷ p ∷ ms) k up below e = ground (arith, increasing-snoc n (p ∷ ms) k)

all-weaken :
    (n : ℕ) (ms : List Mutation)
    → all (mutation_holds n) ms ≡ true
    → all (mutation_holds (n + 1)) ms ≡ true
all-weaken n [] h = refl
all-weaken n (m ∷ ms) h = ground (arith, all-weaken n ms)

-- A statement that mutates nothing keeps the mutations.
pub mutations_hold-suc :
    (ms : List Mutation) (n : ℕ) → mutations_hold ms n ≡ true → mutations_hold ms (n + 1) ≡ true
unfolding mutations_hold
mutations_hold-suc ms n h = ground (arith, all-weaken n ms)

-- A statement that mutates adds its own, the last.
pub mutations_hold-snoc :
    (ms : List Mutation) (n : ℕ) (k : Mutation)
    → mutations_hold ms n ≡ true
    → length ms < max_mutations
    → k.index ≡ n
    → mutation_holds (n + 1) k ≡ true
    → mutations_hold (ms ++ (k ∷ [])) (n + 1) ≡ true
unfolding mutations_hold
mutations_hold-snoc ms n k h room e holds = ground (
  arith,
  all-weaken n ms,
  increasing-snoc n ms k,
  length-append ms (k ∷ []),
  all-append (mutation_holds (n + 1)) ms (k ∷ []),
)
