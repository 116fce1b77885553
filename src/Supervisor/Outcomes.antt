-- ===== src/Supervisor/Outcomes.antt =====
-- What the methods of the supervisor come to: supervisor.ts.
use ai_block.Prelude.{
  ℕ, ◌<◌, ◌≡◌, refl, false, if◌then◌else◌, is_none, inl, inr, true, Option, none, some, arith,
  returns, throws, Attempt, Option-cases,
}
use ai_block.Protocol.{InvocationSpec, InvocationResult, array, nil}
use ai_block.Supervisor.State.{
  SupervisorState, SupervisorErrorCode, StartResult, AdapterStart, Completion, Supervisor,
}
use ai_block.Supervisor.Operations.{
  is_busy, is_faulted, is_stale, fail, finish, initialize, adapter_refused, adapter_initialized,
  start, call_stop, stop, session_resolved, session_rejected, completion_resolved,
  completion_rejected, completion_resumed, stop_rejected, rejected_init, rejected_start,
  rejected_stop, is_foreign, result_for, or_else,
}
use ai_block.Supervisor.Operations
use ai_block.Supervisor.Steps.{Reach}
use ai_block.Supervisor.Consistent.{IsConsistent, Moves.Reach-IsConsistent}

start_idle :
    {sv : Supervisor} {r : ℕ}
    → IsConsistent sv
    → (spec : InvocationSpec) (answer : Attempt AdapterStart)
    → (start sv spec answer).1 ≡ returns (StartResult.started r)
    → (sv.active ≡ none)
      × ((start sv spec answer).0.active ≡ some r)
      × (((start sv spec answer).0.invocations r).spec ≡ spec)
unfolding start Operations.begin
start_idle v spec (throws e) q = ground (arith)
start_idle v spec (returns (AdapterStart.launch_failed e)) q = ground (arith)
start_idle {sv} v spec (returns AdapterStart.started) q = elim (Option-cases sv.active) [
  | inl e ↦ (e, ground arith, ground arith)
  | inr (x, e) ↦ ground (arith, (v.busy x e).0)
]

busy_start :
    {sv : Supervisor} {r : ℕ}
    → IsConsistent sv
    → sv.active ≡ some r
    → (spec : InvocationSpec) (answer : Attempt AdapterStart)
    → start sv spec answer ≡ (sv, returns (rejected_start SupervisorErrorCode.busy))
unfolding start
busy_start {sv} {r} v e spec answer = ground (arith, (v.busy r e).0, v.known)

-- One invocation at a time: a start that succeeds found no active invocation and leaves the new one
-- active, with its own specification; and a start while an invocation is active is refused as busy,
-- whatever the adapter would answer.
pub single_flight :
    {adapter_id : ℕ} {sv : Supervisor}
    → Reach adapter_id sv
    → (spec : InvocationSpec) (answer : Attempt AdapterStart) (r : ℕ)
    → ((start sv spec answer).1 ≡ returns (StartResult.started r)
        → (sv.active ≡ none)
          × ((start sv spec answer).0.active ≡ some r)
          × (((start sv spec answer).0.invocations r).spec ≡ spec))
      × (sv.active ≡ some r
          → start sv spec answer ≡ (sv, returns (rejected_start SupervisorErrorCode.busy)))
single_flight reach spec answer r = (
  start_idle (Reach-IsConsistent reach) spec answer,
  λ e. busy_start (Reach-IsConsistent reach) e spec answer,
)

-- The session that a result tells: the one that was discovered, and only without one that of the
-- completion.
abbrev pub IsSessionOf : Option ℕ → Completion → Option ℕ → Type 0
IsSessionOf (some session) completion told = told ≡ some session
IsSessionOf none completion told = told ≡ completion.session_id

-- What the completion of an invocation has to tell.
abbrev pub IsResultOf : InvocationSpec → Option ℕ → Completion → InvocationResult → Type 0
IsResultOf spec discovered completion result =
    (result.schema_version ≡ spec.schema_version)
    × (result.project_id ≡ spec.project_id)
    × (result.run_id ≡ spec.run_id)
    × (result.actor_id ≡ spec.actor_id)
    × (result.invocation_id ≡ spec.invocation_id)
    × (result.process ≡ completion.process)
    × IsSessionOf discovered completion result.session_id
    × (result.emitted_package_refs ≡ array nil)
    × (result.completion_requested ≡ false)

-- What the supervisor remembers of sessions: the one that a result tells, and else the one before.
abbrev pub Remembers : Option ℕ → Option ℕ → Option ℕ → Type 0
Remembers (some told) before after = after ≡ some told
Remembers none before after = after ≡ before

result_for-IsResultOf :
    (spec : InvocationSpec) (discovered : Option ℕ) (completion : Completion)
    → IsResultOf spec discovered completion
        (result_for spec (or_else discovered completion.session_id) completion.process)
result_for-IsResultOf spec none completion = (refl, refl, refl, refl, refl, refl, refl, refl, refl)
result_for-IsResultOf spec (some session) completion =
    (refl, refl, refl, refl, refl, refl, refl, refl, refl)

remembered :
    (told before : Option ℕ) → Remembers told before (if is_none told then before else told)
remembered none before = refl
remembered (some told) before = refl

completes :
    {sv : Supervisor} {r : ℕ}
    → IsConsistent sv
    → sv.active ≡ some r
    → (discovered : Option ℕ) (completion : Completion)
    → let tv = completion_resumed sv r discovered completion in
      let told = or_else discovered completion.session_id in
      (tv.state ≡ SupervisorState.ready)
      × (tv.active ≡ none)
      × (tv.session_id ≡ (if is_none told then sv.session_id else told))
      × ((tv.invocations r).result
          ≡ some (some (result_for (sv.invocations r).spec told completion.process)))
unfolding completion_resumed finish
completes {sv} {r} v e discovered completion = (
  ground (arith, v.busy r),
  ground (arith, v.busy r),
  ground (arith, v.busy r),
  ground (arith, v.busy r),
)

-- The completion of the active invocation, once its session is known, makes the supervisor ready for
-- the next one and settles the result: it has the invocation's identities, the process fact, and the
-- discovered session, or without one the session of the completion. The supervisor remembers the
-- session that the result tells, if it tells one.
pub completion_frees :
    {adapter_id : ℕ} {sv : Supervisor}
    → Reach adapter_id sv
    → (r : ℕ) (discovered : Option ℕ) (completion : Completion) → sv.active ≡ some r
    → let tv = completion_resumed sv r discovered completion in
      (tv.state ≡ SupervisorState.ready)
      × (tv.active ≡ none)
      × ((result : InvocationResult) × ((tv.invocations r).result ≡ some (some result))
          × IsResultOf (sv.invocations r).spec discovered completion result
          × Remembers result.session_id sv.session_id tv.session_id)
completion_frees {adapter_id} {sv} reach r discovered completion e =
    let (ready, idle, session, settled) =
      completes (Reach-IsConsistent reach) e discovered completion in
    let spec = (sv.invocations r).spec in
    let told = or_else discovered completion.session_id in
    (
      ready,
      idle,
      (
        result_for spec told completion.process,
        settled,
        result_for-IsResultOf spec discovered completion,
        rw session (remembered told sv.session_id),
      ),
    )

-- In every supervisor that can be reached, for an invocation that was started and is over: the end
-- or the rejection of its completion changes neither the supervisor's state, nor its active
-- invocation, nor the result of the handle; the rejection of its session changes neither the state
-- nor the active invocation; and the rejection of its stop changes nothing.
pub late_callbacks :
    {adapter_id : ℕ} {sv : Supervisor}
    → Reach adapter_id sv
    → (r : ℕ) (discovered : Option ℕ) (completion : Completion) → r < sv.started
    → (sv.invocations r).settled ≡ true
    → let resumed = completion_resumed sv r discovered completion in
      let stopped = stop_rejected sv r in
      let dropped = session_rejected sv r in
      let broken = completion_rejected sv r in
      (((resumed.state ≡ sv.state) × (resumed.active ≡ sv.active))
        × ((resumed.invocations r).result ≡ (sv.invocations r).result))
      × (stopped ≡ sv)
      × ((dropped.state ≡ sv.state) × (dropped.active ≡ sv.active))
      × (((broken.state ≡ sv.state) × (broken.active ≡ sv.active))
          × ((broken.invocations r).result ≡ (sv.invocations r).result))
unfolding completion_resumed stop_rejected session_rejected completion_rejected fail finish
late_callbacks {adapter_id} {sv} reach r discovered completion lt s =
    let v : IsConsistent sv = Reach-IsConsistent reach in
    (
      ((ground arith, ground arith), ground (arith, v.outcome r)),
      ground arith,
      (ground arith, ground arith),
      ((ground arith, ground arith), ground (arith, v.outcome r)),
    )
