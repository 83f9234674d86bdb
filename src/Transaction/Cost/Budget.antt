-- ===== src/Transaction/Cost/Budget.antt =====
-- The bounds of what the evaluation estimates (cost.rs, `evaluate`).
use mathlib.Core.Path.{subst}
use policysql.Prelude.{
  ℕ, zero, suc, ◌+◌, ◌≤◌, ◌≡◌, refl, sym, ap, Bool, true, false, ◌&&◌, Option, none, some, List, [],
  ◌∷◌, map, arith, leb, ltb, str_eq, length, all, if◌then◌else◌, Bool-cases, inl, inr, ◌||◌,
}
use policysql.Prelude.{◌>>=◌ as option_bind}
use policysql.Transaction.Machine.Value.{Value, Number, Members, get_member, as_object}
use policysql.Transaction.Cost.{
  Statement, PlanResult, Input, Estimate, CostError, Costed, ◌>>=◌, ok_or, positive, position_from,
  is_insert, default_estimate, planned_from, count_steps, upper_rows, with_bounds, priced,
  modify_at, bound, bound_all, evaluate, item_at,
}

next_index : (index at : ℕ) → index + 1 + at ≡ index + suc at
next_index index at = omega arith

plus_0 : (n : ℕ) → n + 0 ≡ n
plus_0 n = omega arith

-- Lower, expected, and upper rows in order, and within the catalog's bounds.
abbrev pub is_within : ℕ → ℕ → Estimate → Bool
is_within max_read max_written e =
    leb e.lower_rows_read e.expected_rows_read
    && leb e.expected_rows_read e.upper_rows_read
    && leb e.upper_rows_read max_read
    && leb e.lower_rows_written e.expected_rows_written
    && leb e.expected_rows_written e.upper_rows_written
    && leb e.upper_rows_written max_written

-- No row is certain to be read, and none to be written where an update is to come.
abbrev pub is_open : Estimate → Bool
is_open e = leb e.lower_rows_read 0 && leb e.lower_rows_written 0

-- One estimate for each statement, each within the bounds.
unfoldable pub fits : ℕ → ℕ → List Statement → List Estimate → Bool
fits max_read max_written [] [] = true
fits max_read max_written [] (e ∷ es) = false
fits max_read max_written (s ∷ ss) [] = false
fits max_read max_written (s ∷ ss) (e ∷ es) =
    is_within max_read max_written e
    && (is_insert s || is_open e)
    && fits max_read max_written ss es

-- What holds of a result, if there is one.
abbrev Returns {ℓ} : {A : Type ℓ} → Costed A → (A → Type 0) → Type 0
Returns (Costed.ok a) P = P a
Returns (Costed.err e) P = Unit {0}

bind-Returns {ℓ κ} :
    {A : Type ℓ} {B : Type κ} (m : Costed A) (next : A → Costed B) (Q : B → Type 0)
    → ((a : A) → Returns (next a) Q)
    → Returns (m >>= next) Q
bind-Returns (Costed.ok a) next Q h = h a
bind-Returns (Costed.err e) next Q h = tt

bind-Keeps {ℓ κ} :
    {A : Type ℓ} {B : Type κ} (m : Costed A) (P : A → Type 0) (next : A → Costed B) (Q : B → Type 0)
    → Returns m P
    → ((a : A) → P a → Returns (next a) Q)
    → Returns (m >>= next) Q
bind-Keeps (Costed.ok a) P next Q p h = h a p
bind-Keeps (Costed.err e) P next Q p h = tt

refuse-Returns {ℓ} :
    {A : Type ℓ} (b : Bool) (e : CostError) (m : Costed A) (Q : A → Type 0)
    → (b ≡ false → Returns m Q)
    → Returns (if b then Costed.err e else m) Q
refuse-Returns true e m Q h = tt
refuse-Returns false e m Q h = h refl

map-fits :
    (max_read max_written : ℕ) (ss : List Statement)
    → 1 ≤ max_written
    → fits max_read max_written ss (map default_estimate ss) ≡ true
unfolding fits default_estimate
map-fits max_read max_written [] h = refl
map-fits max_read max_written (s ∷ ss) h = ground (arith, h, map-fits max_read max_written ss)

-- The statement at an index, no insert.
abbrev Points : List Statement → ℕ × Statement → Type 0
Points ss p = (item_at ss p.0 ≡ some p.1) × (is_insert p.1 ≡ false)

abbrev AllPoint : List Statement → List (ℕ × Statement) → Type 0
AllPoint ss [] = Unit {0}
AllPoint ss (p ∷ ps) = Points ss p × AllPoint ss ps

planned_from-AllPoint :
    (all ss : List Statement) (index : ℕ)
    → ((at : ℕ) → item_at all (index + at) ≡ item_at ss at)
    → AllPoint all (planned_from index ss)
unfolding planned_from
planned_from-AllPoint all [] index h = tt
planned_from-AllPoint all (s ∷ ss) index h =
    let rest =
      planned_from-AllPoint all ss (index + 1) (λ at. rw (next_index index at) (h (suc at))) in
    elim (Bool-cases (is_insert s)) [
      | inl e ↦ rw e rest
      | inr e ↦ rw e ((rw (sym (plus_0 index)) (h zero), e), rest)
    ]

module _ (max_read max_written : ℕ) where
  abbrev Keeps : (Estimate → Estimate) → Type 0
  Keeps f =
      (e : Estimate)
      → is_open e ≡ true
      → is_within max_read max_written e ≡ true
      → (is_open (f e) ≡ true) × (is_within max_read max_written (f e) ≡ true)

  with_bounds-Keeps :
      (read written steps : ℕ)
      → ltb max_read read ≡ false
      → ltb max_written written ≡ false
      → Keeps (with_bounds read written steps)
  with_bounds-Keeps read written steps h k e o w = ground (arith, h, k, o, w)

  modify_at-fits :
      (ss : List Statement) (es : List Estimate) (index : ℕ) (s : Statement)
      (f : Estimate → Estimate)
      → item_at ss index ≡ some s
      → is_insert s ≡ false
      → Keeps f
      → fits max_read max_written ss es ≡ true
      → fits max_read max_written ss (modify_at index f es) ≡ true
  unfolding fits modify_at
  modify_at-fits [] [] index s f h n k w = refl
  modify_at-fits [] (e ∷ es) index s f h n k w = cc
  modify_at-fits (t ∷ ts) [] index s f h n k w = cc
  modify_at-fits (t ∷ ts) (e ∷ es) zero s f h n k w = ground (arith, h, n, k e, w)
  modify_at-fits (t ∷ ts) (e ∷ es) (suc index) s f h n k w =
      ground (arith, w, modify_at-fits ts es index s f h n k)

  abbrev Fits : List Statement → List Estimate → Type 0
  Fits ss es = fits max_read max_written ss es ≡ true

  module _ (resources : Members) where
    priced-Keeps :
        (s : Statement) (steps : ℕ) (o : Option ℕ)
        → Returns (priced max_read max_written resources s steps o) Keeps
    unfolding priced
    priced-Keeps s steps none = λ e o w. (o, w)
    priced-Keeps s steps (some resource) =
        bind-Returns (ok_or (upper_rows resources resource) CostError.unknown) _ Keeps λ upper.
          let written = if str_eq s.operation "select" then 0 else upper in
          refuse-Returns (ltb max_read upper) CostError.budget _ Keeps λ h.
            refuse-Returns (ltb max_written written) CostError.budget _ Keeps
              λ k. with_bounds-Keeps upper written steps h k

    bound-Keeps :
        (s : Statement) (r : PlanResult) → Returns (bound max_read max_written resources s r) Keeps
    unfolding bound
    bound-Keeps s r =
        bind-Returns (count_steps (position_from 0 r.columns) r.rows 0)
          (λ steps. priced max_read max_written resources s steps s.explain_resource) Keeps
          λ steps. priced-Keeps s steps s.explain_resource

    bound_all-Fits :
        (ss : List Statement) (rs : List PlanResult) (ps : List (ℕ × Statement))
        (es : List Estimate)
        → AllPoint ss ps
        → Fits ss es
        → Returns (bound_all max_read max_written resources rs ps es) (Fits ss)
    unfolding bound_all
    bound_all-Fits ss [] ps es a w = w
    bound_all-Fits ss (r ∷ rs) [] es a w = w
    bound_all-Fits ss (r ∷ rs) ((index, s) ∷ ps) es ((at, n), a) w =
        bind-Keeps (bound max_read max_written resources s r) Keeps _ (Fits ss) (bound-Keeps s r)
          λ f k.
            bound_all-Fits ss rs ps (modify_at index f es) a
              (modify_at-fits ss es index s f at n k w)

positive-least : (o : Option Value) (n : ℕ) → positive o ≡ some n → 1 ≤ n
unfolding positive
positive-least none n h = cc
positive-least (some (Value.number (Number.unsigned m))) n h = ground (arith, h)
positive-least (some (Value.number (Number.negative m))) n h = cc
positive-least (some (Value.number (Number.float m))) n h = cc
positive-least (some Value.null) n h = cc
positive-least (some (Value.bool b)) n h = cc
positive-least (some (Value.string t)) n h = cc
positive-least (some (Value.array vs)) n h = cc
positive-least (some (Value.object ms)) n h = cc

evaluate-Returns :
    (input : Input) (catalog : Members) (max_read max_written : ℕ)
    → input.catalog ≡ some catalog
    → positive (get_member catalog "maxEstimatedRowsRead") ≡ some max_read
    → positive (get_member catalog "maxEstimatedRowsWritten") ≡ some max_written
    → Returns (evaluate input) (Fits max_read max_written input.statements)
unfolding evaluate
evaluate-Returns input catalog max_read max_written c r w =
    let planned = planned_from 0 input.statements in
    let Q = Fits max_read max_written input.statements in
    simp (c, r, w)
      (bind-Returns
        (ok_or (option_bind (get_member catalog "resources") as_object) CostError.unavailable) _ Q
        λ resources.
          refuse-Returns (ltb (length planned) (length input.results)) CostError.unavailable _ Q
            λ h.
              bound_all-Fits max_read max_written resources input.statements input.results planned
                (map default_estimate input.statements)
                (planned_from-AllPoint input.statements input.statements 0
                  λ at. ap (item_at input.statements) (omega arith))
                (map-fits max_read max_written input.statements
                  (positive-least (get_member catalog "maxEstimatedRowsWritten") max_written w)))

-- What the evaluation returns is one estimate for each statement, in order: the rows read and the
-- rows written each go from the lower through the expected to the upper bound, the upper bounds are
-- at most the catalog's, and only an insert has a lower bound over 0.
pub evaluate-fits :
    (input : Input) (catalog : Members) (max_read max_written : ℕ) (out : List Estimate)
    → input.catalog ≡ some catalog
    → positive (get_member catalog "maxEstimatedRowsRead") ≡ some max_read
    → positive (get_member catalog "maxEstimatedRowsWritten") ≡ some max_written
    → evaluate input ≡ Costed.ok out
    → fits max_read max_written input.statements out ≡ true
unfolding evaluate
evaluate-fits input catalog max_read max_written out c r w h =
    subst (λ m. Returns m (Fits max_read max_written input.statements)) h
      (evaluate-Returns input catalog max_read max_written c r w)
