-- ===== src/Supervisor/State.antt =====
-- The state of `BackendSupervisor` and the interface of the backend adapter:
-- apps/actor-host/src/backend/supervisor.ts and adapter.ts.
-- The objects that the code tells apart by identity, the initialization reservations and the active
-- invocations, are named by references into two stores.
use ai_block.Prelude.{ℕ, Bool, true, false, Option, none}
use ai_block.Protocol.{
  ActorLaunchSpec, InvocationSpec, InvocationResult, InvocationProcessFact, ContractErrorEnvelope,
  SessionDirective, null,
}

pub data SupervisorState : Type 0 where
  uninitialized ready running stopping faulted : SupervisorState

pub data SupervisorErrorCode : Type 0 where
  not_initialized busy no_active_invocation invocation_mismatch : SupervisorErrorCode
  already_initialized adapter_mismatch identity_mismatch initialization_failed : SupervisorErrorCode
  adapter_stop_failed session_observation_failed : SupervisorErrorCode
  completion_observation_failed quarantined : SupervisorErrorCode

-- The message of an error is text for people; the command processor replaces it by a fixed one.
pub record SupervisorLifecycleError : Type 0 where
  pub code : SupervisorErrorCode

pub data InitializeResult : Type 0 where
  initialized : InitializeResult
  already_initialized : InitializeResult
  rejected : SupervisorLifecycleError → InitializeResult

-- What the promise of `initialize` is: settled, or the promise of a reservation.
pub data InitializeReply : Type 0 where
  settled : InitializeResult → InitializeReply
  awaits : ℕ → InitializeReply

-- The `SupervisedInvocation` of a started invocation is named by its reference.
pub data StartResult : Type 0 where
  started : ℕ → StartResult
  launch_failed : InvocationResult → StartResult
  rejected : SupervisorLifecycleError → StartResult

pub data StopResult : Type 0 where
  accepted : ℕ → StopResult
  rejected : SupervisorLifecycleError → StopResult

-- `BackendAdapterStartResult`
pub data AdapterStart : Type 0 where
  started : AdapterStart
  launch_failed : ContractErrorEnvelope → AdapterStart

-- `BackendInvocationCompletion`; its process fact is never `launch_failed`.
pub record Completion : Type 0 where
  pub session_id : Option ℕ
  pub process : InvocationProcessFact

-- Where the handler of `execution.completion` stands.
pub data CompletionState : Type 0 where
  unsettled : CompletionState
  awaits_session : Completion → CompletionState
  done : CompletionState

-- `ActiveInvocation`. `session`, `result` and `failure` are the promises of its handle: `none` while
-- pending. `stops` counts the calls of `execution.stop`.
pub record Invocation : Type 0 where
  pub spec : InvocationSpec
  pub completion_settled : Bool
  pub settled : Bool
  pub session : Option (Option ℕ)
  pub completion : CompletionState
  pub result : Option (Option InvocationResult)
  pub failure : Option SupervisorLifecycleError
  pub stops : ℕ

-- `InitializationReservation`, and what its promise was resolved with.
pub record Reservation : Type 0 where
  pub launch_spec : ActorLaunchSpec
  pub outcome : Option InitializeResult

pub record Supervisor : Type 0 where
  pub adapter_id : ℕ
  pub state : SupervisorState
  pub launch_spec : Option ActorLaunchSpec
  pub initialization : Option ℕ
  pub active : Option ℕ
  pub session_id : Option ℕ
  pub reservations : ℕ → Option Reservation
  pub reserved : ℕ
  pub invocations : ℕ → Invocation
  pub started : ℕ

abbrev pub new_invocation : InvocationSpec → Invocation
new_invocation spec = record {
  spec = spec;
  completion_settled = false;
  settled = false;
  session = none;
  completion = CompletionState.unsettled;
  result = none;
  failure = none;
  stops = 0;
}

abbrev pub no_spec : InvocationSpec
no_spec = record {
  schema_version = "1.0.0";
  project_id = 0;
  run_id = 0;
  actor_id = 0;
  invocation_id = 0;
  input_package_refs = null;
  prompt = null;
  session = SessionDirective.create;
}

-- A reference that names no invocation yet.
abbrev unstarted : Invocation
unstarted = record (new_invocation no_spec) { settled = true; completion_settled = true }

-- `new BackendSupervisor(adapter)`
abbrev pub new_supervisor : ℕ → Supervisor
new_supervisor adapter_id = record {
  adapter_id = adapter_id;
  state = SupervisorState.uninitialized;
  launch_spec = none;
  initialization = none;
  active = none;
  session_id = none;
  reservations = λ r. none;
  reserved = 0;
  invocations = λ r. unstarted;
  started = 0;
}
