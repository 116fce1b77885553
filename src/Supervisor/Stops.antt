-- ===== src/Supervisor/Stops.antt =====
-- `stop` asks the backend to stop an invocation once: supervisor.ts.
use ai_block.Prelude.{ℕ, ◌≤◌, ◌≡◌, refl, Bool, false, Option, some, arith, returns, throws, Attempt}
use ai_block.Protocol.{ActorLaunchSpec, InvocationSpec}
use ai_block.Supervisor.State.{SupervisorErrorCode, AdapterStart, Completion, Supervisor}
use ai_block.Supervisor.Operations.{
  is_uninitialized, is_stopping, is_faulted, is_busy, is_foreign, put_invocation, fail, finish,
  initialize, adapter_refused, adapter_initialized, start, call_stop, stop, session_resolved,
  session_rejected, completion_resolved, completion_rejected, completion_resumed, stop_rejected,
}
use ai_block.Supervisor.Operations
use ai_block.Supervisor.Steps.{
  Step, initializes, refused, initialized, starts, stops, session_resolves, session_rejects,
  completion_resolves, completion_rejects, resumes, stop_rejects, Reach, begin, next,
}
use ai_block.Supervisor.Consistent.{IsConsistent, Moves.Reach-IsConsistent}

pub record IsStoppedOnce (sv : Supervisor) : Type 0 where
  pub once : (r : ℕ) → (sv.invocations r).stops ≤ 1
  pub untouched :
      (r : ℕ) → sv.active ≡ some r → is_stopping sv.state ≡ false → (sv.invocations r).stops ≡ 0
  pub unborn : (r : ℕ) → sv.started ≤ r → (sv.invocations r).stops ≡ 0

-- A step that starts nothing, stops nothing and leaves the state a stop has set.
abbrev IsQuiet : Supervisor → Supervisor → Type 0
IsQuiet sv tv =
    (tv.started ≡ sv.started)
    × ((r : ℕ) → (tv.invocations r).stops ≡ (sv.invocations r).stops)
    × ((r : ℕ) → tv.active ≡ some r → (sv.active ≡ some r) × (tv.state ≡ sv.state))

quiet-IsStoppedOnce : {sv tv : Supervisor} → IsQuiet sv tv → IsStoppedOnce sv → IsStoppedOnce tv
quiet-IsStoppedOnce {sv} {tv} q v = record {
  once = λ r. ground (arith, v.once r, q.1 r);
  untouched = λ r e s. ground (arith, v.untouched r, q.1 r, q.2 r e);
  unborn = λ r l. ground (arith, v.unborn r, q.1 r, q.0);
}

initialize-IsQuiet : (sv : Supervisor) (spec : ActorLaunchSpec) → IsQuiet sv (initialize sv spec).0
unfolding initialize
initialize-IsQuiet sv spec =
    (ground arith, (λ r. ground arith), λ r e. (ground arith, ground arith))

adapter_refused-IsQuiet : (sv : Supervisor) (r : ℕ) → IsQuiet sv (adapter_refused sv r)
unfolding adapter_refused
adapter_refused-IsQuiet sv r =
    (ground arith, (λ x. ground arith), λ x e. (ground arith, ground arith))

adapter_initialized-IsQuiet :
    {sv : Supervisor} → IsConsistent sv → (r : ℕ) → IsQuiet sv (adapter_initialized sv r)
unfolding adapter_initialized
adapter_initialized-IsQuiet {sv} v r = (
  ground arith,
  (λ x. ground arith),
  λ x e. (ground arith, ground (arith, v.busy x, v.known, v.reserved_first r)),
)

fail-IsQuiet : (sv : Supervisor) (r : ℕ) (code : SupervisorErrorCode) → IsQuiet sv (fail sv r code)
unfolding fail
fail-IsQuiet sv r code = (ground arith, (λ x. ground arith), λ x e. (ground arith, ground arith))

session_resolved-IsQuiet :
    (sv : Supervisor) (r : ℕ) (value : Option ℕ) → IsQuiet sv (session_resolved sv r value)
unfolding session_resolved
session_resolved-IsQuiet sv r value =
    (ground arith, (λ x. ground arith), λ x e. (ground arith, ground arith))

session_rejected-IsQuiet : (sv : Supervisor) (r : ℕ) → IsQuiet sv (session_rejected sv r)
unfolding session_rejected fail
session_rejected-IsQuiet sv r =
    (ground arith, (λ x. ground arith), λ x e. (ground arith, ground arith))

completion_resolved-IsQuiet :
    (sv : Supervisor) (r : ℕ) (value : Completion) → IsQuiet sv (completion_resolved sv r value)
unfolding completion_resolved
completion_resolved-IsQuiet sv r value =
    (ground arith, (λ x. ground arith), λ x e. (ground arith, ground arith))

completion_rejected-IsQuiet : (sv : Supervisor) (r : ℕ) → IsQuiet sv (completion_rejected sv r)
unfolding completion_rejected fail
completion_rejected-IsQuiet sv r =
    (ground arith, (λ x. ground arith), λ x e. (ground arith, ground arith))

completion_resumed-IsQuiet :
    (sv : Supervisor) (r : ℕ) (discovered : Option ℕ) (completion : Completion)
    → IsQuiet sv (completion_resumed sv r discovered completion)
unfolding completion_resumed finish
completion_resumed-IsQuiet sv r discovered completion =
    (ground arith, (λ x. ground arith), λ x e. (ground arith, ground arith))

start-IsStoppedOnce :
    {sv : Supervisor}
    → IsStoppedOnce sv
    → (spec : InvocationSpec) (answer : Attempt AdapterStart)
    → IsStoppedOnce (start sv spec answer).0
unfolding start Operations.begin
start-IsStoppedOnce v spec (throws e) = record {
  once = λ r. ground (arith, v.once r);
  untouched = λ r a s. ground (arith, v.untouched r);
  unborn = λ r l. ground (arith, v.unborn r);
}
start-IsStoppedOnce v spec (returns (AdapterStart.launch_failed error)) = record {
  once = λ r. ground (arith, v.once r);
  untouched = λ r a s. ground (arith, v.untouched r);
  unborn = λ r l. ground (arith, v.unborn r);
}
start-IsStoppedOnce v spec (returns AdapterStart.started) = record {
  once = λ r. ground (arith, v.once r);
  untouched = λ r a s. ground (arith, v.untouched r);
  unborn = λ r l. ground (arith, v.unborn r);
}

stop-IsStoppedOnce :
    {sv : Supervisor}
    → IsConsistent sv
    → IsStoppedOnce sv
    → (invocation_id : ℕ) (throws_now : Bool) → IsStoppedOnce (stop sv invocation_id throws_now).0
unfolding stop call_stop fail
stop-IsStoppedOnce {sv} c v invocation_id throws_now = record {
  once = λ r. ground (arith, v.once r, v.untouched r);
  untouched = λ r a s. ground (arith, v.untouched r);
  unborn = λ r l. ground (arith, v.unborn r, c.busy r);
}

Step-IsStoppedOnce :
    {sv tv : Supervisor} → Step sv tv → IsConsistent sv → IsStoppedOnce sv → IsStoppedOnce tv
unfolding stop_rejected
Step-IsStoppedOnce {sv} (initializes spec) c v = quiet-IsStoppedOnce (initialize-IsQuiet sv spec) v
Step-IsStoppedOnce {sv} (refused r o) c v = quiet-IsStoppedOnce (adapter_refused-IsQuiet sv r) v
Step-IsStoppedOnce (initialized r o) c v = quiet-IsStoppedOnce (adapter_initialized-IsQuiet c r) v
Step-IsStoppedOnce (starts spec answer) c v = start-IsStoppedOnce v spec answer
Step-IsStoppedOnce (stops invocation_id throws_now) c v =
    stop-IsStoppedOnce c v invocation_id throws_now
Step-IsStoppedOnce {sv} (session_resolves r value lt p) c v =
    quiet-IsStoppedOnce (session_resolved-IsQuiet sv r value) v
Step-IsStoppedOnce {sv} (session_rejects r lt p) c v =
    quiet-IsStoppedOnce (session_rejected-IsQuiet sv r) v
Step-IsStoppedOnce {sv} (completion_resolves r value lt p) c v =
    quiet-IsStoppedOnce (completion_resolved-IsQuiet sv r value) v
Step-IsStoppedOnce {sv} (completion_rejects r lt p) c v =
    quiet-IsStoppedOnce (completion_rejected-IsQuiet sv r) v
Step-IsStoppedOnce {sv} (resumes r discovered completion lt p q) c v =
    quiet-IsStoppedOnce (completion_resumed-IsQuiet sv r discovered completion) v
Step-IsStoppedOnce {sv} (stop_rejects r p) c v = quiet-IsStoppedOnce (fail-IsQuiet sv r _) v

Reach-IsStoppedOnce : {adapter_id : ℕ} {sv : Supervisor} → Reach adapter_id sv → IsStoppedOnce sv
Reach-IsStoppedOnce begin = record {
  once = λ r. omega arith;
  untouched = λ r e s. refl;
  unborn = λ r l. refl;
}
Reach-IsStoppedOnce (next r s) = Step-IsStoppedOnce s (Reach-IsConsistent r) (Reach-IsStoppedOnce r)

-- However the supervisor was used, it has called `execution.stop` of each invocation at most once.
pub stops_once :
    {adapter_id : ℕ} {sv : Supervisor}
    → Reach adapter_id sv
    → (r : ℕ) → (sv.invocations r).stops ≤ 1
stops_once reach r = (Reach-IsStoppedOnce reach).once r
