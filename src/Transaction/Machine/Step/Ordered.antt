-- ===== src/Transaction/Machine/Step/Ordered.antt =====
-- The checks that a commit runs stand in the order of their ids, each id once (step/checks.rs,
-- `sorted_checks`).
use Prim.Native.String.{String}
use text.Mathlib.TextEquality.{eq_iff}
use policysql.Prelude.{
  ◌≡◌, refl, Bool, true, false, ◌&&◌, not, List, [], ◌∷◌, arith, str_eq, find_if, ◌∙◌,
}
use policysql.Transaction.Canonical.{key_le}
use policysql.Transaction.Canonical.Order.{key_le-total}
use policysql.Transaction.Machine.Compiler.{TriggeredCheck}
use policysql.Transaction.Machine.Step.Checks.{
  CheckServices, insert_check, sort_checks, dedup_after, dedup_checks,
}
use policysql.Transaction.Machine.Step.Context.{Context}
use policysql.Transaction.Machine.Step.Verdicts.{sorted_checks}

abbrev pub has_id : String → TriggeredCheck → Bool
has_id id c = str_eq c.id id

-- In the order of the ids, the first of them not before `k`.
unfoldable follows : String → List TriggeredCheck → Bool
follows k [] = true
follows k (c ∷ cs) = key_le k c.id && follows c.id cs

-- As `follows`, each id after the one before it, the first after `k`.
unfoldable pub ascends : String → List TriggeredCheck → Bool
ascends k [] = true
ascends k (c ∷ cs) = key_le k c.id && not (str_eq k c.id) && ascends c.id cs

-- The ids of the list, each after the one before it.
abbrev pub ascending : List TriggeredCheck → Bool
ascending [] = true
ascending (c ∷ cs) = ascends c.id cs

in_order : List TriggeredCheck → Bool
in_order [] = true
in_order (c ∷ cs) = follows c.id cs

insert_check-follows :
    (k : String) (c : TriggeredCheck) (cs : List TriggeredCheck)
    → key_le k c.id ≡ true
    → follows k cs ≡ true
    → follows k (insert_check c cs) ≡ true
unfolding follows insert_check
insert_check-follows k c [] h hs = ground arith
insert_check-follows k c (d ∷ ds) h hs =
    ground (arith, key_le-total c.id d.id, insert_check-follows d.id c ds)

insert_check-in_order :
    (c : TriggeredCheck) (cs : List TriggeredCheck)
    → in_order cs ≡ true
    → in_order (insert_check c cs) ≡ true
unfolding follows insert_check in_order
insert_check-in_order c [] hs = ground arith
insert_check-in_order c (d ∷ ds) hs =
    ground (arith, key_le-total c.id d.id, insert_check-follows d.id c ds)

sort_checks-in_order : (cs : List TriggeredCheck) → in_order (sort_checks cs) ≡ true
unfolding sort_checks in_order
sort_checks-in_order [] = refl
sort_checks-in_order (c ∷ cs) = insert_check-in_order c (sort_checks cs) (sort_checks-in_order cs)

dedup_after-ascends :
    (k : String) (c : TriggeredCheck) (cs : List TriggeredCheck)
    → key_le k c.id ≡ true
    → str_eq k c.id ≡ false
    → follows c.id cs ≡ true
    → ascends k (dedup_after c cs) ≡ true
unfolding follows ascends dedup_after
dedup_after-ascends k c [] h apart hs = ground arith
dedup_after-ascends k c (d ∷ ds) h apart hs =
    ground (arith, eq_iff c.id d.id, dedup_after-ascends k c ds, dedup_after-ascends c.id d ds)

dedup_after-ascending :
    (c : TriggeredCheck) (cs : List TriggeredCheck)
    → follows c.id cs ≡ true
    → ascending (dedup_after c cs) ≡ true
unfolding follows ascends dedup_after
dedup_after-ascending c [] hs = refl
dedup_after-ascending c (d ∷ ds) hs =
    ground (arith, eq_iff c.id d.id, dedup_after-ascending c ds, dedup_after-ascends c.id d ds)

dedup_checks-ascending :
    (cs : List TriggeredCheck) → in_order cs ≡ true → ascending (dedup_checks cs) ≡ true
unfolding dedup_checks in_order
dedup_checks-ascending [] hs = refl
dedup_checks-ascending (c ∷ cs) hs = dedup_after-ascending c cs hs

-- The check that is found for an id is the one that stood first.
find_if-insert_check :
    (id : String) (c : TriggeredCheck) (cs : List TriggeredCheck)
    → find_if (has_id id) (insert_check c cs) ≡ find_if (has_id id) (c ∷ cs)
unfolding insert_check
find_if-insert_check id c [] = refl
find_if-insert_check id c (d ∷ ds) =
    ground
      (arith, eq_iff c.id id, eq_iff d.id id, key_le-total c.id d.id, find_if-insert_check id c ds)

find_if-sort_checks :
    (id : String) (cs : List TriggeredCheck)
    → find_if (has_id id) (sort_checks cs) ≡ find_if (has_id id) cs
unfolding sort_checks
find_if-sort_checks id [] = refl
find_if-sort_checks id (c ∷ cs) =
    ground (arith, find_if-insert_check id c (sort_checks cs), find_if-sort_checks id cs)

find_if-dedup_after :
    (id : String) (c : TriggeredCheck) (cs : List TriggeredCheck)
    → find_if (has_id id) (dedup_after c cs) ≡ find_if (has_id id) (c ∷ cs)
unfolding dedup_after
find_if-dedup_after id c [] = refl
find_if-dedup_after id c (d ∷ ds) = ground (
  arith,
  eq_iff c.id id,
  eq_iff d.id id,
  eq_iff c.id d.id,
  find_if-dedup_after id c ds,
  find_if-dedup_after id d ds,
)

find_if-dedup_checks :
    (id : String) (cs : List TriggeredCheck)
    → find_if (has_id id) (dedup_checks cs) ≡ find_if (has_id id) cs
unfolding dedup_checks
find_if-dedup_checks id [] = refl
find_if-dedup_checks id (c ∷ cs) = find_if-dedup_after id c cs

module _ (ctx : Context) (services : CheckServices) where
  -- The checks of a commit that changed some resource: their ids ascend, each once, and the check
  -- found for an id, if any, is the first that the compiler gave for it, in whatever order it gave them.
  pub sorted_checks-ascending :
      (resource : String) (resources : List String) (id : String)
      → (ascending (sorted_checks ctx services (resource ∷ resources)) ≡ true)
        × (find_if (has_id id) (sorted_checks ctx services (resource ∷ resources))
            ≡ find_if (has_id id) (ctx.compiler.triggered_checks (resource ∷ resources)))
  unfolding sorted_checks
  sorted_checks-ascending resource resources id =
      let given = ctx.compiler.triggered_checks (resource ∷ resources) in
      (
        dedup_checks-ascending (sort_checks given) (sort_checks-in_order given),
        find_if-dedup_checks id (sort_checks given) ∙ find_if-sort_checks id given,
      )
