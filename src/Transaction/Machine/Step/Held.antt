-- ===== src/Transaction/Machine/Step/Held.antt =====
-- How handlers are put together keeps the durable part the owner's, and the effects free of COMMIT.
use Prim.Native.String.{String}
use mathlib.Core.Path.{subst}
use policysql.Prelude.{
  ℕ, ◌≡◌, refl, sym, Bool, true, false, Option, none, some, [], ◌∷◌, arith, any, any-append,
  if◌then◌else◌, Option-cases, inl, inr, Bool-cases,
}
use policysql.Transaction.Machine.Connection.{WorkLane}
use policysql.Transaction.Machine.Io.{Effect, Reply}
use policysql.Transaction.Machine.State.{Phase, Durable}
use policysql.Transaction.Machine.State.Wire.{is_discarded}
use policysql.Transaction.Machine.Step.Closing.{close}
use policysql.Transaction.Machine.Step.Committing.{is_commit, wait-quiet, close-quiet}
use policysql.Transaction.Machine.Step.Context.{
  Context, Step, Outcome, Handler, branch, continue, demand, ◌>>◌, act, fail,
}
use policysql.Transaction.Machine.Step.Ends.{IsPhased}
use policysql.Transaction.Machine.Step.Keeps.{
  phase-IsPhased, wait-KeepsPhased, close-KeepsPhased, close-IsPhased,
}
use policysql.Transaction.Machine.Step.Plumbing.{
  phase_of, or_failed, durable_in_phase, wait, map_volatile, emit, set_phase,
}
use policysql.Transaction.Machine.Volatile.{Task, Volatile}

-- The durable part is the owner's, and no effect so far is a COMMIT.
abbrev pub IsHeld : String → Step → Type 0
IsHeld o s = IsPhased o s.durable × (any is_commit s.effects ≡ false)

-- A handler keeps it so.
pub record Holds (o : String) (m : Handler) : Type 0 where
  pub at : (s : Step) → IsHeld o s → IsHeld o (m s).1

pub then-Holds : (o : String) (m n : Handler) → Holds o m → Holds o n → Holds o (m >> n)
then-Holds o m n p q = record { at = λ s held. go (m s) (p.at s held) }
  where
    go : (r : Outcome × Step) → IsHeld o r.1 → IsHeld o (continue r.0 n r.1).1
    go (Outcome.done, t) h = q.at t h
    go (Outcome.fault reason, t) h = h

pub branch-Holds :
    (o : String) (test : Step → Bool) (m n : Handler)
    → Holds o m
    → Holds o n
    → Holds o (branch test m n)
branch-Holds o test m n p q = record {
  at = λ s held. elim (Bool-cases (test s)) [
    | inl e ↦ rw (e, branch) (p.at s held)
    | inr e ↦ rw (e, branch) (q.at s held)
  ];
}

-- A handler that is chosen by the state it starts from.
pub state-Holds :
    (o : String) (m : Step → Handler) → ((s : Step) → Holds o (m s)) → Holds o (λ s. m s s)
state-Holds o m keeps = record { at = λ s held. (keeps s).at s held }

pub if-Holds :
    (o : String) (b : Bool) (m n : Handler) → Holds o m → Holds o n → Holds o (if b then m else n)
if-Holds o true m n p q = p
if-Holds o false m n p q = q

pub option-Holds {ℓ} :
    {A : Type ℓ} (o : String) (d : Option A) (m : Handler) (next : A → Handler)
    → Holds o m
    → ((a : A) → Holds o (next a))
    → Holds o (elim d [ none ↦ m | some a ↦ next a ])
option-Holds o none m next p q = p
option-Holds o (some a) m next p q = q a

pub demand-Holds {ℓ} :
    {A : Type ℓ} (o : String) (d : Option A) (reason : String) (next : A → Handler)
    → ((a : A) → Holds o (next a))
    → Holds o (demand d reason next)
demand-Holds o none reason next p = record { at = λ s held. held }
demand-Holds o (some a) reason next p = record { at = λ s held. (p a).at s held }

pub fail-Holds : (o reason : String) → Holds o (fail reason)
fail-Holds o reason = record { at = λ s held. held }

pub emit-Holds : (o : String) (e : Effect) → is_commit e ≡ false → Holds o (act (emit e))
emit-Holds o e plain = record {
  at = λ s held. (held.0, rw (any-append is_commit s.effects (e ∷ [])) (rw (held.1, plain) refl));
}

-- What leaves the durable part and the effects alone.
pub plain-Holds :
    (o : String) (m : Handler)
    → ((s : Step) → ((m s).1.durable ≡ s.durable) × ((m s).1.effects ≡ s.effects))
    → Holds o m
plain-Holds o m same = record {
  at = λ s held. (
    subst (IsPhased o) (sym (same s).0) held.0,
    subst (λ es. any is_commit es ≡ false) (sym (same s).1) held.1,
  );
}

pub volatile-Holds : (o : String) (f : Volatile → Volatile) → Holds o (act (map_volatile f))
volatile-Holds o f = plain-Holds o (act (map_volatile f)) λ s. elim (Option-cases s.volatile) [
  | inl e ↦ rw e (refl, refl)
  | inr (v, e) ↦ rw e (refl, refl)
]

module _ (ctx : Context) where
  pub wait-Holds :
      (lane : WorkLane) (request_id : Option String) (task : Task) (effect : ℕ → Effect)
      → ((id : ℕ) → is_commit (effect id) ≡ false)
      → Holds ctx.owner (wait ctx lane request_id task effect)
  wait-Holds lane request_id task effect plain = record {
    at = λ s held. (
      wait-KeepsPhased ctx lane request_id task effect s held.0,
      wait-quiet ctx lane request_id task effect plain s held.1,
    );
  }

  pub close-Holds :
      (lane : WorkLane) (phase : Phase) (reply : Option Reply)
      → is_discarded phase ≡ false
      → Holds ctx.owner (close ctx lane phase reply)
  close-Holds lane phase reply e = record {
    at = λ s held. (
      close-KeepsPhased ctx lane phase reply e s held.0,
      close-quiet ctx lane phase reply s held.1,
    );
  }

  -- A close in the phase that the durable part is in.
  same_phase :
      (d : Option Durable)
      → IsPhased ctx.owner d
      → IsPhased ctx.owner (durable_in_phase ctx (or_failed (phase_of d)) d)
  unfolding durable_in_phase
  same_phase none h = ground arith
  same_phase (some (Durable.tombstone name)) h = ground (arith, h)
  same_phase (some (Durable.live r)) h = ground (arith, h)

  pub close_again-Holds :
      (lane : WorkLane) (reply : Option Reply)
      → Holds ctx.owner (λ s. close ctx lane (or_failed (phase_of s.durable)) reply s)
  close_again-Holds lane reply = record {
    at = λ s held. (
      close-IsPhased ctx lane (or_failed (phase_of s.durable)) reply s (same_phase s.durable held.0)
          held.0,
      close-quiet ctx lane (or_failed (phase_of s.durable)) reply s held.1,
    );
  }

  pub set_phase-Holds :
      (phase : Phase) → is_discarded phase ≡ false → Holds ctx.owner (act (set_phase ctx phase))
  set_phase-Holds phase e = record {
    at = λ s held. (phase-IsPhased ctx phase s.durable e held.0, held.1);
  }
