-- ===== src/Protocol/Actor.antt =====
-- actor/schemas.ts and error/error.ts
use ai_block.Prelude.{ℕ, String, Bool, Option}
use ai_block.Protocol.JsonData.{Json}

pub data ErrorCategory : Type 0 where
  validation compatibility authentication authorization not_found conflict : ErrorCategory
  unavailable timeout backend internal : ErrorCategory

pub record ContractErrorEnvelope : Type 0 where
  pub schema_version : String
  pub code : String
  pub category : ErrorCategory
  pub message : String
  pub retryable : Bool
  pub correlation_id : Option ℕ
  pub details : Option Json

pub record BackendAdapterLaunchConfig : Type 0 where
  pub adapter_id : ℕ
  pub config : Json

pub record ActorLaunchSpec : Type 0 where
  pub schema_version : String
  pub project_id : ℕ
  pub actor_id : ℕ
  pub actor_config_snapshot_id : ℕ
  pub system_prompts : Json
  pub working_directory : String
  pub backend : BackendAdapterLaunchConfig
  pub tool_providers : Json

pub data SessionDirective : Type 0 where
  create : SessionDirective
  resume : ℕ → SessionDirective

pub record InvocationSpec : Type 0 where
  pub schema_version : String
  pub project_id : ℕ
  pub run_id : ℕ
  pub actor_id : ℕ
  pub invocation_id : ℕ
  pub input_package_refs : Json
  pub prompt : Json
  pub session : SessionDirective

pub data InvocationProcessFact : Type 0 where
  exited : ℕ → InvocationProcessFact
  signaled : String → InvocationProcessFact
  stopped : InvocationProcessFact
  launch_failed : ContractErrorEnvelope → InvocationProcessFact

pub record InvocationResult : Type 0 where
  pub schema_version : String
  pub project_id : ℕ
  pub run_id : ℕ
  pub actor_id : ℕ
  pub invocation_id : ℕ
  pub session_id : Option ℕ
  pub process : InvocationProcessFact
  pub emitted_package_refs : Json
  pub completion_requested : Bool
