-- ===== src/Supervisor/Tests.antt =====
-- Runs of the supervisor at fixed inputs: supervisor.ts.
use ai_block.Prelude.{◌≤◌, ◌≡◌, refl, true, false, none, some, arith, returns}
use ai_block.Protocol.{ActorLaunchSpec, InvocationResult, InvocationProcessFact, null}
use ai_block.Supervisor.State.{
  Supervisor, SupervisorState, SupervisorErrorCode, InitializeReply, StartResult, AdapterStart,
  Completion, new_supervisor, no_spec,
}
use ai_block.Supervisor.Operations.{
  is_faulted, rejected_init, rejected_start, rejected_stop, result_for, initialize,
  adapter_initialized, start, stop, fail, call_stop, completion_resumed, stop_rejected,
  session_rejected, completion_rejected,
}
use ai_block.Supervisor.Operations
use ai_block.Supervisor.Steps.{initializes, initialized, starts, stops, Reach, begin, next}
use ai_block.Supervisor.Consistent.{IsConsistent, Moves.Reach-IsConsistent}
use ai_block.Supervisor.Stops.{stops_once}
use ai_block.Supervisor.Quarantine.{stay, after, by_stop_call, quarantine_stays}
use ai_block.Supervisor.Outcomes.{
  IsResultOf, Remembers, single_flight, completion_frees, late_callbacks,
}

abbrev pub launch : ActorLaunchSpec
launch = record {
  schema_version = "1.0.0";
  project_id = 0;
  actor_id = 0;
  actor_config_snapshot_id = 5;
  system_prompts = null;
  working_directory = "/work";
  backend = record { adapter_id = 1; config = null };
  tool_providers = null;
}

abbrev asked : Supervisor
asked = (initialize (new_supervisor 1) launch).0

abbrev ready : Supervisor
ready = adapter_initialized asked 0

abbrev running : Supervisor
running = (start ready no_spec (returns AdapterStart.started)).0

abbrev stopping : Supervisor
stopping = (stop running 0 false).0

abbrev faulted : Supervisor
faulted = (stop running 0 true).0

ready-Reach : Reach 1 ready
unfolding initialize
ready-Reach = next (next begin (initializes launch)) (initialized 0 (_, refl, refl))

running-Reach : Reach 1 running
running-Reach = next ready-Reach (starts no_spec (returns AdapterStart.started))

stopping-Reach : Reach 1 stopping
stopping-Reach = next running-Reach (stops 0 false)

faulted-Reach : Reach 1 faulted
faulted-Reach = next running-Reach (stops 0 true)

Reach-IsConsistent_example : IsConsistent stopping
Reach-IsConsistent_example = Reach-IsConsistent stopping-Reach

stops_once_example : (stopping.invocations 0).stops ≤ 1
stops_once_example = stops_once stopping-Reach 0

quarantine_stays_example :
    let failing = (stop running 0 true).0 in
    let later = (stop failing 0 false).0 in
    ((failing.invocations 0).result ≡ some none)
    × (is_faulted later.state ≡ true)
    × (initialize later launch
        ≡ (later, InitializeReply.settled (rejected_init SupervisorErrorCode.quarantined)))
    × (start later no_spec (returns AdapterStart.started)
        ≡ (later, returns (rejected_start SupervisorErrorCode.quarantined)))
    × (stop later 0 false ≡ (later, rejected_stop SupervisorErrorCode.no_active_invocation))
unfolding initialize adapter_initialized start Operations.begin stop call_stop fail
quarantine_stays_example =
    quarantine_stays running-Reach 0 refl (by_stop_call 0 refl refl refl)
      (after stay (stops 0 false)) launch no_spec (returns AdapterStart.started) 0 false refl

single_flight_example :
    ((start ready no_spec (returns AdapterStart.started)).1 ≡ returns (StartResult.started 0)
      → (ready.active ≡ none)
        × (running.active ≡ some 0)
        × ((running.invocations 0).spec ≡ no_spec))
    × (ready.active ≡ some 0
        → start ready no_spec (returns AdapterStart.started)
          ≡ (ready, returns (rejected_start SupervisorErrorCode.busy)))
single_flight_example = single_flight ready-Reach no_spec (returns AdapterStart.started) 0

abbrev finished : Completion
finished = record { session_id = some 4; process = InvocationProcessFact.exited 0 }

completion_frees_example :
    let tv = completion_resumed running 0 (some 7) finished in
    (tv.state ≡ SupervisorState.ready)
    × (tv.active ≡ none)
    × ((result : InvocationResult) × ((tv.invocations 0).result ≡ some (some result))
        × IsResultOf (running.invocations 0).spec (some 7) finished result
        × Remembers result.session_id running.session_id tv.session_id)
unfolding initialize adapter_initialized start Operations.begin
completion_frees_example = completion_frees running-Reach 0 (some 7) finished refl

late_callbacks_example :
    let resumed = completion_resumed faulted 0 none finished in
    let stopped = stop_rejected faulted 0 in
    let dropped = session_rejected faulted 0 in
    let broken = completion_rejected faulted 0 in
    (((resumed.state ≡ faulted.state) × (resumed.active ≡ faulted.active))
      × ((resumed.invocations 0).result ≡ (faulted.invocations 0).result))
    × (stopped ≡ faulted)
    × ((dropped.state ≡ faulted.state) × (dropped.active ≡ faulted.active))
    × (((broken.state ≡ faulted.state) × (broken.active ≡ faulted.active))
        × ((broken.invocations 0).result ≡ (faulted.invocations 0).result))
unfolding initialize adapter_initialized start Operations.begin stop call_stop fail
late_callbacks_example = late_callbacks faulted-Reach 0 none finished (omega arith) refl
