-- ===== src/Supervisor/Operations.antt =====
-- The methods of `BackendSupervisor` and the callbacks that it hangs on the adapter's promises:
-- apps/actor-host/src/backend/supervisor.ts.
use ai_block.Prelude.{
  ℕ, ◌+◌, Bool, true, false, ◌&&◌, ◌||◌, not, Option, none, some, ◌==◌, if◌then◌else◌, is_none,
  refers, update, Attempt, returns, throws,
}
use ai_block.Protocol.{
  ActorLaunchSpec, InvocationSpec, InvocationResult, InvocationProcessFact, array, nil,
}
use ai_block.Supervisor.State.{
  SupervisorState, SupervisorErrorCode, InitializeResult, InitializeReply, StartResult, StopResult,
  AdapterStart, Completion, CompletionState, Invocation, Reservation, Supervisor, new_invocation,
}
use ai_block.Supervisor.JsonValue.{same_configuration}

abbrev pub put_invocation : Supervisor → ℕ → Invocation → Supervisor
put_invocation sv r i = record sv { invocations = update sv.invocations r i }

-- `this.active !== active || active.settled`
abbrev pub is_stale : Supervisor → ℕ → Bool
is_stale sv r = not (refers sv.active r) || (sv.invocations r).settled

-- `Promise.race`: the first value that settles the handle's result stays.
abbrev pub race :
    Option (Option InvocationResult) → Option InvocationResult → Option (Option InvocationResult)
race none value = some value
race (some first) value = some first

-- `fail`. The resolved failure promise settles the race with no result.
unfoldable pub fail : Supervisor → ℕ → SupervisorErrorCode → Supervisor
fail sv r code =
    if is_stale sv r
    then sv
    else record (put_invocation sv r (record (sv.invocations r) {
      settled = true;
      completion_settled = true;
      failure = some (record { code = code });
      result = race (sv.invocations r).result none;
    })) { active = none; state = SupervisorState.faulted }

-- `finish`
unfoldable pub finish : Supervisor → ℕ → Supervisor
finish sv r =
    if is_stale sv r
    then sv
    else record (put_invocation sv r (record (sv.invocations r) { settled = true })) {
      active = none;
      state = SupervisorState.ready;
    }

abbrev pub rejected_init : SupervisorErrorCode → InitializeResult
rejected_init code = InitializeResult.rejected (record { code = code })

-- `new Promise` and the reservation in `initialize`
abbrev pub reserve : Supervisor → ActorLaunchSpec → Supervisor
reserve sv spec = record sv {
  initialization = some sv.reserved;
  reservations =
      update sv.reservations sv.reserved (some (record { launch_spec = spec; outcome = none }));
  reserved = sv.reserved + 1;
}

-- The launch specification of the reservation in flight decides.
abbrev pub join_reservation :
    Supervisor → ℕ → Option Reservation → ActorLaunchSpec → InitializeReply
join_reservation sv r none spec =
    InitializeReply.settled (rejected_init SupervisorErrorCode.identity_mismatch)
join_reservation sv r (some reservation) spec =
    if not (same_configuration reservation.launch_spec spec)
    then InitializeReply.settled (rejected_init SupervisorErrorCode.identity_mismatch)
    else InitializeReply.awaits r

abbrev pub is_faulted : SupervisorState → Bool
is_faulted SupervisorState.faulted = true
is_faulted _ = false

-- `initialize`, up to the call of the adapter, which a new reservation makes.
unfoldable pub initialize : Supervisor → ActorLaunchSpec → Supervisor × InitializeReply
initialize sv spec =
    if not (sv.adapter_id == spec.backend.adapter_id)
    then (sv, InitializeReply.settled (rejected_init SupervisorErrorCode.adapter_mismatch))
    else if is_faulted sv.state
    then (sv, InitializeReply.settled (rejected_init SupervisorErrorCode.quarantined))
    else elim sv.launch_spec [
      | some known ↦
          if not (same_configuration known spec)
          then (sv, InitializeReply.settled (rejected_init SupervisorErrorCode.identity_mismatch))
          else (sv, InitializeReply.settled InitializeResult.already_initialized)
      | none ↦ elim sv.initialization [
        | some r ↦ (sv, join_reservation sv r (sv.reservations r) spec)
        | none ↦ (reserve sv spec, InitializeReply.awaits sv.reserved)
      ]
    ]

abbrev pub resolve_reservation : Supervisor → ℕ → InitializeResult → Supervisor
resolve_reservation sv r value = record sv {
  reservations = λ j.
      if r == j
      then elim (sv.reservations j) [
        | none ↦ none
        | some reservation ↦ some (record reservation { outcome = some value })
      ]
      else sv.reservations j;
}

-- `runInitialization` after `adapter.initialize` has failed.
unfoldable pub adapter_refused : Supervisor → ℕ → Supervisor
adapter_refused sv r =
    resolve_reservation
      (if refers sv.initialization r then record sv { initialization = none } else sv) r
      (rejected_init SupervisorErrorCode.initialization_failed)

abbrev pub take_spec : Supervisor → Option Reservation → Supervisor
take_spec sv none = sv
take_spec sv (some reservation) = record sv {
  initialization = none;
  launch_spec = some reservation.launch_spec;
  session_id = none;
  state = SupervisorState.ready;
}

-- `runInitialization` after `adapter.initialize` has been done.
unfoldable pub adapter_initialized : Supervisor → ℕ → Supervisor
adapter_initialized sv r =
    if not (refers sv.initialization r)
    then resolve_reservation sv r (rejected_init SupervisorErrorCode.initialization_failed)
    else resolve_reservation (take_spec sv (sv.reservations r)) r InitializeResult.initialized

abbrev pub rejected_start : SupervisorErrorCode → StartResult
rejected_start code = StartResult.rejected (record { code = code })

-- A result for the invocation's identities, as `start` and the completion handler build it.
abbrev pub result_for : InvocationSpec → Option ℕ → InvocationProcessFact → InvocationResult
result_for spec session_id process = record {
  schema_version = spec.schema_version;
  project_id = spec.project_id;
  run_id = spec.run_id;
  actor_id = spec.actor_id;
  invocation_id = spec.invocation_id;
  session_id = session_id;
  process = process;
  emitted_package_refs = array nil;
  completion_requested = false;
}

-- `start` from the answer of `adapter.start` on; a throw leaves it as it is.
unfoldable pub begin :
    Supervisor → InvocationSpec → Attempt AdapterStart → Supervisor × Attempt StartResult
begin sv spec (throws e) = (sv, throws e)
begin sv spec (returns (AdapterStart.launch_failed error)) = (
  sv,
  returns (
      StartResult.launch_failed (result_for spec none (InvocationProcessFact.launch_failed error))),
)
begin sv spec (returns AdapterStart.started) = (
  record (put_invocation sv sv.started (new_invocation spec)) {
    active = some sv.started;
    started = sv.started + 1;
    state = SupervisorState.running;
  },
  returns (StartResult.started sv.started),
)

abbrev pub is_uninitialized : SupervisorState → Bool
is_uninitialized SupervisorState.uninitialized = true
is_uninitialized _ = false

abbrev pub is_busy : SupervisorState → Bool
is_busy SupervisorState.running = true
is_busy SupervisorState.stopping = true
is_busy _ = false

abbrev pub is_stopping : SupervisorState → Bool
is_stopping SupervisorState.stopping = true
is_stopping _ = false

-- `invocation.project_id !== this.launchSpec.project_id || …`
abbrev pub is_foreign : ActorLaunchSpec → InvocationSpec → Bool
is_foreign launch spec =
    not (spec.project_id == launch.project_id) || not (spec.actor_id == launch.actor_id)

-- `start`, with what `adapter.start` would answer
unfoldable pub start :
    Supervisor → InvocationSpec → Attempt AdapterStart → Supervisor × Attempt StartResult
start sv spec answer = elim sv.launch_spec [
  | none ↦ (sv, returns (rejected_start SupervisorErrorCode.not_initialized))
  | some launch ↦
      if is_uninitialized sv.state
      then (sv, returns (rejected_start SupervisorErrorCode.not_initialized))
      else if is_faulted sv.state
      then (sv, returns (rejected_start SupervisorErrorCode.quarantined))
      else if is_busy sv.state
      then (sv, returns (rejected_start SupervisorErrorCode.busy))
      else if is_foreign launch spec
      then (sv, returns (rejected_start SupervisorErrorCode.identity_mismatch))
      else begin sv spec answer
]

-- The call of `active.execution.stop()`; it may throw at once.
unfoldable pub call_stop : Supervisor → ℕ → Bool → Supervisor
unfolding fail
call_stop sv r throws_now =
    let called =
      record (put_invocation sv r
        (record (sv.invocations r) { stops = (sv.invocations r).stops + 1 })) {
          state = SupervisorState.stopping;
        } in
    if throws_now then fail called r SupervisorErrorCode.adapter_stop_failed else called

abbrev pub rejected_stop : SupervisorErrorCode → StopResult
rejected_stop code = StopResult.rejected (record { code = code })

-- `stop`
unfoldable pub stop : Supervisor → ℕ → Bool → Supervisor × StopResult
stop sv invocation_id throws_now =
    if is_uninitialized sv.state || is_none sv.launch_spec
    then (sv, rejected_stop SupervisorErrorCode.not_initialized)
    else elim sv.active [
      | none ↦ (sv, rejected_stop SupervisorErrorCode.no_active_invocation)
      | some r ↦
          if not ((sv.invocations r).spec.invocation_id == invocation_id)
          then (sv, rejected_stop SupervisorErrorCode.invocation_mismatch)
          else if (sv.invocations r).completion_settled
          then (sv, StopResult.accepted invocation_id)
          else if is_stopping sv.state
          then (sv, StopResult.accepted invocation_id)
          else (call_stop sv r throws_now, StopResult.accepted invocation_id)
    ]

-- `execution.session` is fulfilled.
unfoldable pub session_resolved : Supervisor → ℕ → Option ℕ → Supervisor
session_resolved sv r value =
    if (sv.invocations r).settled
    then put_invocation sv r (record (sv.invocations r) { session = some none })
    else record (put_invocation sv r (record (sv.invocations r) { session = some value })) {
      session_id = if not (is_none value) && refers sv.active r then value else sv.session_id;
    }

-- `execution.session` is rejected.
unfoldable pub session_rejected : Supervisor → ℕ → Supervisor
unfolding fail
session_rejected sv r =
    let failed = fail sv r SupervisorErrorCode.session_observation_failed in
    put_invocation failed r (record (failed.invocations r) { session = some none })

-- `execution.completion` is fulfilled: the handler runs up to `await session`.
unfoldable pub completion_resolved : Supervisor → ℕ → Completion → Supervisor
completion_resolved sv r value = put_invocation sv r (record (sv.invocations r) {
  completion_settled = true;
  completion = CompletionState.awaits_session value;
})

-- `execution.completion` is rejected.
unfoldable pub completion_rejected : Supervisor → ℕ → Supervisor
unfolding fail
completion_rejected sv r =
    let settled = put_invocation sv r (record (sv.invocations r) { completion_settled = true }) in
    let failed = fail settled r SupervisorErrorCode.completion_observation_failed in
    put_invocation failed r (record (failed.invocations r) {
      completion = CompletionState.done;
      result = race (failed.invocations r).result none;
    })

-- `discoveredSessionId ?? completion.sessionId`
abbrev pub or_else : Option ℕ → Option ℕ → Option ℕ
or_else none other = other
or_else (some x) other = some x

-- The completion handler after `await session`, with the discovered session.
unfoldable pub completion_resumed : Supervisor → ℕ → Option ℕ → Completion → Supervisor
unfolding finish
completion_resumed sv r discovered completion =
    if (sv.invocations r).settled
    then put_invocation sv r (record (sv.invocations r) {
      completion = CompletionState.done;
      result = race (sv.invocations r).result none;
    })
    else let session_id = or_else discovered completion.session_id in
      let noted = record sv {
        session_id = if is_none session_id then sv.session_id else session_id;
      } in
      let finished = finish noted r in
      put_invocation finished r (record (finished.invocations r) {
        completion = CompletionState.done;
        result =
            race (finished.invocations r).result
              (some (result_for (sv.invocations r).spec session_id completion.process));
      })

-- The promise of `execution.stop()` is rejected.
unfoldable pub stop_rejected : Supervisor → ℕ → Supervisor
unfolding fail
stop_rejected sv r = fail sv r SupervisorErrorCode.adapter_stop_failed
