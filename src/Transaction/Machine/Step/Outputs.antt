-- ===== src/Transaction/Machine/Step/Outputs.antt =====
-- What `run` returns can be kept: a reset, or a batch with at most one awaited effect and a durable
-- text that the same owner reads back (step.rs, `run`, `finish_output`).
use Prim.Native.String.{String}
use mathlib.Core.Path.{subst}
use policysql.Prelude.{
  ◌≡◌, refl, ◌⊎◌, inl, inr, true, none, some, Option, List, [], ◌∷◌, ◌++◌, last?, arith, Bool-cases,
  is_none_or, sym, ap, ◌∙◌, bind-rule, then_some-eq-some, then_some, leb, byte_len,
}
use policysql.Transaction.Machine.Compiler.{Compiler, Call}
use policysql.Transaction.Machine.Io.{Event, Effect, HostFacts, host_is_valid}
use policysql.Transaction.Machine.Limits.{Limits, event_bound, volatile_bound}
use policysql.Transaction.Machine.State.{Durable, durable_owner, owner_name}
use policysql.Transaction.Machine.State.Wire.{Codec, Parsed, parse, to_json}
use policysql.Transaction.Machine.State.RoundTrip.{IsStorable, parse-IsStorable}
use policysql.Transaction.Machine.Step.Context.{Context, Step, Handler, Serde}
use policysql.Transaction.Machine.Step.Driver.{
  Output, durable_text, batch_rule, finish_output, run_event, run, owner_of, read_durable,
  stored_of, context_of, held_in,
}
use policysql.Transaction.Machine.Step.Ends.{IsKept, IsEnd}
use policysql.Transaction.Machine.Step.Plumbing.{release_all}
use policysql.Transaction.Machine.Step.Safety.{IsRead, KeepsPhased, step_read-IsEnd}

-- A durable text of the owner that its reader accepts.
abbrev pub IsStored : Codec → String → Option String → Type 0
IsStored codec owner none = Unit
IsStored codec owner (some text) =
    (d : Durable) × (text ≡ to_json codec d) × IsStorable d × (durable_owner d ≡ owner)

abbrev pub IsSafe : Codec → String → Output → Type 0
IsSafe codec owner out =
    ((out.durable ≡ none) × (out.volatile ≡ none) × (last? out.effects ≡ some Effect.reset))
    ⊎ ((batch_rule out.effects ≡ true) × IsStored codec owner out.durable)

abbrev pub owner_text : Option String → String
owner_text none = ""
owner_text (some name) = name

last-snoc : (xs : List Effect) (e : Effect) → last? (xs ++ (e ∷ [])) ≡ some e
last-snoc [] e = refl
last-snoc (x ∷ []) e = refl
last-snoc (x ∷ y ∷ xs) e = last-snoc (y ∷ xs) e

durable_text-IsStored :
    (serde : Serde) (owner : String) (d : Option Durable)
    → IsKept owner d
    → IsStored serde.codec owner (durable_text serde d)
durable_text-IsStored serde owner none kept = tt
durable_text-IsStored serde owner (some d) kept = (d, refl, kept.0, kept.1)

finish_output-IsSafe :
    (serde : Serde) (owner : String) (s : Step)
    → IsEnd owner s
    → IsSafe serde.codec owner (finish_output serde s)
unfolding finish_output
finish_output-IsSafe serde owner s end = elim (Bool-cases s.reset) [
  | inl e ↦
      rw e
        (inl (refl, refl, last-snoc (release_all (record s { reset = true })).effects Effect.reset))
  | inr e ↦ rw e (elim end [
    | inl r ↦ cc
    | inr rules ↦ inr (rules.0, durable_text-IsStored serde owner s.durable rules.2)
  ])
]

stored-IsRead :
    (serde : Serde) (text owner : String) (p : Parsed)
    → parse serde.codec text owner ≡ p
    → owner_name owner ≡ true
    → IsRead owner (stored_of p)
stored-IsRead serde text owner (Parsed.ok d) e named =
    let (storable, same, fits) = parse-IsStorable serde.codec text owner d e in (storable, same)
stored-IsRead serde text owner (Parsed.err reason) e named = named

-- What an owner's durable text is read as.
read_durable-IsRead :
    (serde : Serde) (host_owner durable : Option String) (owner : String)
    → is_none_or host_owner owner_name ≡ true
    → owner_of host_owner durable ≡ some owner
    → IsRead owner (read_durable serde durable owner)
read_durable-IsRead serde host_owner none owner named e = tt
read_durable-IsRead serde none (some text) owner named e = cc
read_durable-IsRead serde (some name) (some text) owner named e =
    stored-IsRead serde text owner (parse serde.codec text owner) refl
      (let same : name ≡ owner = cc in subst (λ o. owner_name o ≡ true) same named)

owner_of-text :
    (host_owner durable : Option String) (owner : String)
    → owner_of host_owner durable ≡ some owner
    → owner ≡ owner_text host_owner
owner_of-text none none owner e = cc
owner_of-text none (some text) owner e = cc
owner_of-text (some name) durable owner e = cc

run_event-IsSafe :
    (ctx : Context) (dispatch : Event → Handler) (calls : List Call)
    (durable volatile : Option String) (event : Event)
    → KeepsPhased ctx.owner (dispatch event)
    → IsRead ctx.owner (read_durable ctx.serde durable ctx.owner)
    → IsSafe ctx.serde.codec ctx.owner (run_event ctx dispatch calls durable volatile event)
unfolding run_event
run_event-IsSafe ctx dispatch calls durable volatile event keeps read =
    finish_output-IsSafe ctx.serde ctx.owner _ (
      step_read-IsEnd ctx dispatch calls event keeps (read_durable ctx.serde durable ctx.owner)
        (held_in ctx.serde (volatile_bound ctx.limits) ctx.host.owner volatile) read)

valid_host-owner : (h : HostFacts) → host_is_valid h ≡ true → is_none_or h.owner owner_name ≡ true
unfolding host_is_valid
valid_host-owner h v = ground arith

-- Whatever texts the engine passes and whatever the handlers do to a phased state, an output is a
-- reset with no state, or a batch whose one awaited effect is the last, with a durable text that is
-- absent or is the text of a consistent record of this owner.
pub run-IsSafe :
    (compiler : Compiler) (limits : Limits) (serde : Serde) (dispatch : Context → Event → Handler)
    (calls : List Call) (durable volatile : Option String) (event_text host_text : String)
    (host : HostFacts) (out : Output)
    → ((ctx : Context) (event : Event) → KeepsPhased ctx.owner (dispatch ctx event))
    → serde.read_host host_text ≡ some host
    → run compiler limits serde dispatch calls durable volatile event_text host_text ≡ some out
    → IsSafe serde.codec (owner_text host.owner) out
unfolding run
run-IsSafe compiler limits serde dispatch calls durable volatile event_text host_text host out keeps
      read e =
    bind-rule (serde.read_host host_text) e λ h rh e1.
      bind-rule (then_some (host_is_valid h) h) e1 λ v rv e2.
        bind-rule (owner_of v.owner durable) e2 λ owner ro e3.
          bind-rule (then_some (leb (byte_len event_text) (event_bound limits)) event_text) e3
            λ text rt e4. bind-rule (serde.read_event text) e4 λ event re e5.
              let ctx = context_of compiler limits serde v owner in
              let (valid, same) = then_some-eq-some (host_is_valid h) h rv in
              let host_same : h ≡ host = cc in
              let out_same : run_event ctx (dispatch ctx) calls durable volatile event ≡ out = cc in
              subst (IsSafe serde.codec (owner_text host.owner)) out_same (
                subst
                  (λ n.
                    IsSafe serde.codec n
                      (run_event ctx (dispatch ctx) calls durable volatile event))
                  (owner_of-text v.owner durable owner ro
                    ∙ ap (λ (x : HostFacts). owner_text x.owner) (sym same ∙ host_same))
                  (run_event-IsSafe ctx (dispatch ctx) calls durable volatile event
                    (keeps ctx event)
                    (read_durable-IsRead serde v.owner durable owner
                      (valid_host-owner v (subst (λ x. host_is_valid x ≡ true) same valid)) ro)))
