-- ===== src/Supervisor/Quarantine.antt =====
-- A supervisor whose invocation has failed is out of use: supervisor.ts.
use ai_block.Prelude.{
  ℕ, ◌≡◌, ◌<◌, inl, inr, Bool, true, false, none, some, arith, returns, Attempt, Option-cases,
}
use ai_block.Protocol.{ActorLaunchSpec, InvocationSpec}
use ai_block.Supervisor.State.{
  SupervisorState, SupervisorErrorCode, CompletionState, InitializeReply, AdapterStart, Supervisor,
}
use ai_block.Supervisor.Operations.{
  is_faulted, fail, call_stop, finish, initialize, adapter_refused, adapter_initialized, start,
  stop, session_resolved, session_rejected, completion_resolved, completion_rejected,
  completion_resumed, stop_rejected, rejected_init, rejected_start, rejected_stop,
}
use ai_block.Supervisor.Steps.{
  Step, initializes, refused, initialized, starts, stops, session_resolves, session_rejects,
  completion_resolves, completion_rejects, resumes, stop_rejects, Reach, next,
}
use ai_block.Supervisor.Consistent.{IsConsistent, Moves.Reach-IsConsistent}

-- Any number of steps.
pub data Steps (sv : Supervisor) : Supervisor → Type 0 where
  stay : Steps sv sv
  after : {tv uv : Supervisor} → Steps sv tv → Step tv uv → Steps sv uv

-- A faulted supervisor is consistent only without an active invocation.
faulted_idle : {sv : Supervisor} → IsConsistent sv → is_faulted sv.state ≡ true → sv.active ≡ none
faulted_idle {sv} v f = elim (Option-cases sv.active) [
  | inl e ↦ e
  | inr (r, e) ↦ ground (arith, (v.busy r e).0)
]

Step-faulted :
    {sv tv : Supervisor}
    → Step sv tv
    → IsConsistent sv
    → is_faulted sv.state ≡ true
    → is_faulted tv.state ≡ true
unfolding initialize adapter_refused adapter_initialized start stop session_resolved
    session_rejected completion_resolved completion_rejected completion_resumed stop_rejected fail
    finish
Step-faulted (initializes spec) v f = ground arith
Step-faulted (refused r o) v f = ground arith
Step-faulted (initialized r o) v f = ground (arith, v.known, v.reserved_first r)
Step-faulted (starts spec answer) v f = ground arith
Step-faulted (stops invocation_id throws_now) v f = ground (arith, faulted_idle v f)
Step-faulted (session_resolves r value lt p) v f = ground arith
Step-faulted (session_rejects r lt p) v f = ground arith
Step-faulted (completion_resolves r value lt p) v f = ground arith
Step-faulted (completion_rejects r lt p) v f = ground arith
Step-faulted (resumes r discovered completion lt p q) v f = ground (arith, faulted_idle v f)
Step-faulted (stop_rejects r p) v f = ground arith

Steps-faulted :
    {adapter_id : ℕ} {sv tv : Supervisor}
    → Reach adapter_id sv
    → Steps sv tv
    → is_faulted sv.state ≡ true
    → Reach adapter_id tv × (is_faulted tv.state ≡ true)
Steps-faulted reach stay f = (reach, f)
Steps-faulted reach (after ss s) f =
    let (earlier, g) = Steps-faulted reach ss f in
    (next earlier s, Step-faulted s (Reach-IsConsistent earlier) g)

refusals :
    {sv : Supervisor}
    → IsConsistent sv
    → is_faulted sv.state ≡ true
    → (launch : ActorLaunchSpec) (spec : InvocationSpec) (answer : Attempt AdapterStart)
      (invocation_id : ℕ) (throws_now : Bool)
    → sv.adapter_id ≡ launch.backend.adapter_id
    → (initialize sv launch
        ≡ (sv, InitializeReply.settled (rejected_init SupervisorErrorCode.quarantined)))
      × (start sv spec answer ≡ (sv, returns (rejected_start SupervisorErrorCode.quarantined)))
      × (stop sv invocation_id throws_now
          ≡ (sv, rejected_stop SupervisorErrorCode.no_active_invocation))
unfolding initialize start stop
refusals {sv} v f launch spec answer invocation_id throws_now e =
    (ground (arith), ground (arith, v.known), ground (arith, v.known, faulted_idle v f))

-- How the active invocation `r` can fail: its session or its completion is rejected, or the call or
-- the promise of its stop is.
pub data Fails (sv : Supervisor) (r : ℕ) : Supervisor → Type 0 where
  by_session : (sv.invocations r).session ≡ none → Fails sv r (session_rejected sv r)
  by_completion :
      (sv.invocations r).completion ≡ CompletionState.unsettled
      → Fails sv r (completion_rejected sv r)
  by_stop_call :
      (invocation_id : ℕ)
      → (sv.invocations r).spec.invocation_id ≡ invocation_id
      → (sv.invocations r).completion_settled ≡ false
      → sv.state ≡ SupervisorState.running
      → Fails sv r (stop sv invocation_id true).0
  by_stop : 0 < (sv.invocations r).stops → Fails sv r (stop_rejected sv r)

Fails-Step :
    {sv : Supervisor} {r : ℕ} {fv : Supervisor}
    → IsConsistent sv
    → sv.active ≡ some r
    → Fails sv r fv
    → Step sv fv
Fails-Step {sv} {r} v e (by_session p) = session_rejects r (v.busy r e).1 p
Fails-Step {sv} {r} v e (by_completion p) = completion_rejects r (v.busy r e).1 p
Fails-Step v e (by_stop_call id p q s) = stops id true
Fails-Step {sv} {r} v e (by_stop p) = stop_rejects r p

Fails-faulted :
    {sv : Supervisor} {r : ℕ} {fv : Supervisor}
    → IsConsistent sv
    → sv.active ≡ some r
    → Fails sv r fv
    → (is_faulted fv.state ≡ true) × ((fv.invocations r).result ≡ some none)
unfolding session_rejected completion_rejected stop call_stop stop_rejected fail
Fails-faulted {sv} {r} v e (by_session p) = (ground (arith, v.busy r e), ground (arith, v.busy r e))
Fails-faulted {sv} {r} v e (by_completion p) =
    (ground (arith, v.busy r e), ground (arith, v.busy r e))
Fails-faulted {sv} {r} v e (by_stop_call id p q s) =
    (ground (arith, v.busy r e, v.known), ground (arith, v.busy r e, v.known))
Fails-faulted {sv} {r} v e (by_stop p) = (ground (arith, v.busy r e), ground (arith, v.busy r e))

-- When the session or the completion of the active invocation is rejected, or the call or the
-- promise of its stop is, its result settles without a value and the supervisor is faulted. It stays
-- so whatever happens afterwards, and it refuses each initialization for its own adapter and each
-- start as quarantined and each stop for want of an active invocation, without a change and without
-- asking the adapter.
pub quarantine_stays :
    {adapter_id : ℕ} {sv fv tv : Supervisor}
    → Reach adapter_id sv
    → (r : ℕ) → sv.active ≡ some r
    → Fails sv r fv
    → Steps fv tv
    → (launch : ActorLaunchSpec) (spec : InvocationSpec) (answer : Attempt AdapterStart)
      (invocation_id : ℕ) (throws_now : Bool)
    → tv.adapter_id ≡ launch.backend.adapter_id
    → ((fv.invocations r).result ≡ some none)
      × (is_faulted tv.state ≡ true)
      × (initialize tv launch
          ≡ (tv, InitializeReply.settled (rejected_init SupervisorErrorCode.quarantined)))
      × (start tv spec answer ≡ (tv, returns (rejected_start SupervisorErrorCode.quarantined)))
      × (stop tv invocation_id throws_now
          ≡ (tv, rejected_stop SupervisorErrorCode.no_active_invocation))
quarantine_stays reach r active failing ss launch spec answer invocation_id throws_now e =
    let v = Reach-IsConsistent reach in
    let (f, settled) = Fails-faulted v active failing in
    let (later, g) = Steps-faulted (next reach (Fails-Step v active failing)) ss f in
    let (a, b, c) =
      refusals (Reach-IsConsistent later) g launch spec answer invocation_id throws_now e in
    (settled, g, a, b, c)
