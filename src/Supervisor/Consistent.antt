-- ===== src/Supervisor/Consistent.antt =====
-- What holds of the supervisor whatever its callers and the adapter do: supervisor.ts.
pub mod Moves
use ai_block.Prelude.{
  ℕ, ◌+◌, ◌<◌, ◌≤◌, ◌≡◌, refl, ◌⊎◌, inl, inr, Bool, true, false, Option, none, some, arith, is_none,
  Bool-cases,
}
use ai_block.Protocol.{InvocationSpec, InvocationResult}
use ai_block.Supervisor.State.{
  SupervisorState, SupervisorErrorCode, SupervisorLifecycleError, AdapterStart, Completion,
  CompletionState, Invocation, Reservation, Supervisor, new_supervisor,
}
use ai_block.Supervisor.Operations.{is_busy, is_uninitialized, put_invocation, fail}

-- A result that is for the invocation that was asked for.
abbrev pub IsFor : InvocationSpec → InvocationResult → Type 0
IsFor spec result =
    (result.project_id ≡ spec.project_id)
    × (result.actor_id ≡ spec.actor_id)
    × (result.run_id ≡ spec.run_id)
    × (result.invocation_id ≡ spec.invocation_id)

-- The promises of a handle that is over: a result for its invocation and no failure, or a failure and
-- no result.
abbrev pub OneOutcome :
    InvocationSpec → Option (Option InvocationResult) → Option SupervisorLifecycleError → Type 0
OneOutcome spec (some (some result)) none = IsFor spec result
OneOutcome spec (some none) (some error) = Unit {0}
OneOutcome spec _ _ = ⊥

abbrev pub Outcome : Invocation → Type 0
Outcome i = OneOutcome i.spec i.result i.failure

pub record IsConsistent (sv : Supervisor) : Type 0 where
  pub idle : sv.active ≡ none → is_busy sv.state ≡ false
  pub busy :
      (r : ℕ)
      → sv.active ≡ some r
      → (is_busy sv.state ≡ true)
        × (r < sv.started)
        × ((sv.invocations r).settled ≡ false)
        × ((sv.invocations r).result ≡ none)
        × ((sv.invocations r).failure ≡ none)
  pub over : (r : ℕ) → (sv.active ≡ some r) ⊎ ((sv.invocations r).settled ≡ true)
  pub outcome :
      (r : ℕ) → r < sv.started → (sv.invocations r).settled ≡ true → Outcome (sv.invocations r)
  pub known : is_none sv.launch_spec ≡ is_uninitialized sv.state
  pub reserved_first : (r : ℕ) → sv.initialization ≡ some r → is_none sv.launch_spec ≡ true

pub new_supervisor-IsConsistent : (adapter_id : ℕ) → IsConsistent (new_supervisor adapter_id)
new_supervisor-IsConsistent adapter_id = record {
  idle = λ e. refl;
  busy = λ r e. cc;
  over = λ r. inr refl;
  outcome = λ r lt. absurd (omega arith);
  known = refl;
  reserved_first = λ r e. cc;
}

pub fail-IsConsistent :
    {sv : Supervisor}
    → IsConsistent sv
    → (r : ℕ) (code : SupervisorErrorCode) → IsConsistent (fail sv r code)
unfolding fail
fail-IsConsistent {sv} v r code = record {
  idle = λ e. ground (arith, v.busy r);
  busy = λ x e. ground (arith, v.busy x, v.busy r);
  over = λ x. ground (arith, v.over x, v.over r);
  outcome = λ x lt s. ground (arith, v.outcome x, v.busy r, v.busy x, v.over x);
  known = ground (arith, v.busy r, v.known);
  reserved_first = λ x e. ground (arith, v.reserved_first x);
}

-- A write to an invocation that leaves alone what the invariant reads.
pub put_invocation-IsConsistent :
    {sv : Supervisor}
    → IsConsistent sv
    → (r : ℕ) (i : Invocation) → i.spec ≡ (sv.invocations r).spec
    → i.settled ≡ (sv.invocations r).settled
    → i.result ≡ (sv.invocations r).result
    → i.failure ≡ (sv.invocations r).failure
    → IsConsistent (put_invocation sv r i)
put_invocation-IsConsistent {sv} v r i p s q f = record {
  idle = v.idle;
  busy = λ x e. ground (arith, v.busy x);
  over = λ x. ground (arith, v.over x);
  outcome = λ x lt t. ground (arith, v.outcome x);
  known = v.known;
  reserved_first = v.reserved_first;
}
