-- ===== src/Transaction/Machine/Step/Quiet.antt =====
-- The batches that a step may leave: answers and logs first, then one awaited effect (step.rs,
-- `wait`, `check_output`).
use policysql.Prelude.{
  ℕ, ◌≡◌, refl, true, false, none, some, List, [], ◌∷◌, ◌++◌, count_if, count_if-append, last?,
  find_if, arith, Option, ◌⊎◌,
}
use Prim.Native.String.{String}
use policysql.Transaction.Machine.Connection.{WorkLane}
use policysql.Transaction.Machine.Io.{Effect, is_awaited, effect_id}
use policysql.Transaction.Machine.Step.Context.{Context, Step, is_fault}
use policysql.Transaction.Machine.Step.Driver.{batch_rule, pending_rule}
use policysql.Transaction.Machine.Step.Plumbing.{wait, emit, volatile_or_new}
use policysql.Transaction.Machine.Volatile.{Task}

-- No effect of the batch is awaited.
abbrev pub IsQuiet : List Effect → Type 0
IsQuiet effects = count_if is_awaited effects ≡ 0

pub emit-IsQuiet :
    (s : Step) (e : Effect) → is_awaited e ≡ false → IsQuiet s.effects → IsQuiet (emit e s).effects
emit-IsQuiet s e plain quiet = ground (arith, count_if-append is_awaited s.effects (e ∷ []))

pub last-snoc : (xs : List Effect) (e : Effect) → last? (xs ++ (e ∷ [])) ≡ some e
last-snoc [] e = refl
last-snoc (x ∷ []) e = refl
last-snoc (x ∷ y ∷ xs) e = last-snoc (y ∷ xs) e

pub find-snoc :
    (xs : List Effect) (e : Effect)
    → IsQuiet xs
    → is_awaited e ≡ true
    → find_if is_awaited (xs ++ (e ∷ [])) ≡ some e
find-snoc [] e quiet awaited = rw awaited
find-snoc (x ∷ xs) e quiet awaited = ground (arith, find-snoc xs e)

-- A quiet batch with one awaited effect behind it keeps the batch rule.
pub snoc-batch_rule :
    (xs : List Effect) (e : Effect)
    → IsQuiet xs
    → is_awaited e ≡ true
    → batch_rule (xs ++ (e ∷ [])) ≡ true
unfolding batch_rule
snoc-batch_rule xs e quiet awaited =
    ground (arith, last-snoc xs e, count_if-append is_awaited xs (e ∷ []))

pub quiet-batch_rule : (xs : List Effect) → IsQuiet xs → batch_rule xs ≡ true
unfolding batch_rule
quiet-batch_rule xs quiet = ground arith

quiet-find : (xs : List Effect) → IsQuiet xs → find_if is_awaited xs ≡ none
quiet-find [] quiet = refl
quiet-find (x ∷ xs) quiet = ground (arith, quiet-find xs)

pub quiet-pending_rule : (s : Step) → IsQuiet s.effects → pending_rule s ≡ true
unfolding pending_rule
quiet-pending_rule s quiet = ground (arith, quiet-find s.effects quiet)

-- `wait` on a quiet step: refused for want of ids, or the batch ends in its effect, whose id is
-- the pending one.
module _ (ctx : Context) (lane : WorkLane) (request_id : Option String) (task : Task)
    (effect : ℕ → Effect)
    (numbered : (id : ℕ)
      → (is_awaited (effect id) ≡ true) × (effect_id (effect id) ≡ some id)) where
  pub wait-batch_rule :
      (s : Step)
      → IsQuiet s.effects
      → (is_fault (wait ctx lane request_id task effect s).0 ≡ true)
        ⊎ ((batch_rule (wait ctx lane request_id task effect s).1.effects ≡ true)
            × (pending_rule (wait ctx lane request_id task effect s).1 ≡ true))
  unfolding wait pending_rule
  wait-batch_rule s quiet =
      let id : ℕ = (volatile_or_new ctx s).next_effect_id in
      ground (
        arith,
        numbered id,
        snoc-batch_rule s.effects (effect id) quiet,
        find-snoc s.effects (effect id) quiet,
      )
