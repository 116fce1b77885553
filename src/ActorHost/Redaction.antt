-- ===== src/ActorHost/Redaction.antt =====
-- `redactOutboundPayload`, `toContractError` and `fixedHostFaultMessage`: command-processor.ts.
use ai_block.Prelude.{String, false, none, if◌then◌else◌}
use ai_block.Protocol.{
  ContractErrorEnvelope, ErrorCategory, InvocationProcessFact, HostToServerPayload,
}
use ai_block.Supervisor.State.{SupervisorErrorCode, SupervisorLifecycleError}
use text.Mathlib.Text.{◌==◌ as str_eq}

-- `fixedHostFaultMessage`
unfoldable pub fixed_host_fault_message : String → String
fixed_host_fault_message code =
    if str_eq code "actor_host.not_initialized"
    then "BackendSupervisor is not initialized."
    else if str_eq code "actor_host.busy"
    then "BackendSupervisor already has an active Invocation."
    else if str_eq code "actor_host.no_active_invocation"
    then "BackendSupervisor has no active Invocation."
    else if str_eq code "actor_host.invocation_mismatch"
    then "Stop targeted a different Invocation."
    else if str_eq code "actor_host.already_initialized"
    then "ActorHost is already initialized."
    else if str_eq code "actor_host.adapter_mismatch"
    then "Backend adapter does not match the ActorHost launch configuration."
    else if str_eq code "actor_host.identity_mismatch"
    then "ActorHost identity does not match the authenticated Host identity."
    else if str_eq code "actor_host.initialization_failed"
    then "Backend adapter initialization failed."
    else if str_eq code "actor_host.adapter_stop_failed"
    then "Backend adapter stop failed."
    else if str_eq code "actor_host.session_observation_failed"
    then "Backend session observation failed."
    else if str_eq code "actor_host.completion_observation_failed"
    then "Backend completion observation failed."
    else if str_eq code "actor_host.quarantined"
    then "BackendSupervisor is quarantined after an Invocation failure."
    else "ActorHost operation failed."

-- `actor_host.${error.code}`
abbrev pub contract_code : SupervisorErrorCode → String
contract_code SupervisorErrorCode.not_initialized = "actor_host.not_initialized"
contract_code SupervisorErrorCode.busy = "actor_host.busy"
contract_code SupervisorErrorCode.no_active_invocation = "actor_host.no_active_invocation"
contract_code SupervisorErrorCode.invocation_mismatch = "actor_host.invocation_mismatch"
contract_code SupervisorErrorCode.already_initialized = "actor_host.already_initialized"
contract_code SupervisorErrorCode.adapter_mismatch = "actor_host.adapter_mismatch"
contract_code SupervisorErrorCode.identity_mismatch = "actor_host.identity_mismatch"
contract_code SupervisorErrorCode.initialization_failed = "actor_host.initialization_failed"
contract_code SupervisorErrorCode.adapter_stop_failed = "actor_host.adapter_stop_failed"
contract_code SupervisorErrorCode.session_observation_failed =
    "actor_host.session_observation_failed"
contract_code SupervisorErrorCode.completion_observation_failed =
    "actor_host.completion_observation_failed"
contract_code SupervisorErrorCode.quarantined = "actor_host.quarantined"

abbrev pub contract_category : SupervisorErrorCode → ErrorCategory
contract_category SupervisorErrorCode.initialization_failed = ErrorCategory.backend
contract_category SupervisorErrorCode.adapter_stop_failed = ErrorCategory.backend
contract_category SupervisorErrorCode.session_observation_failed = ErrorCategory.backend
contract_category SupervisorErrorCode.completion_observation_failed = ErrorCategory.backend
contract_category SupervisorErrorCode.quarantined = ErrorCategory.backend
contract_category _ = ErrorCategory.conflict

-- `toContractError`
unfoldable pub to_contract_error : SupervisorLifecycleError → ContractErrorEnvelope
to_contract_error error = record {
  schema_version = "1.0.0";
  code = contract_code error.code;
  category = contract_category error.code;
  message = fixed_host_fault_message (contract_code error.code);
  retryable = false;
  correlation_id = none;
  details = none;
}

-- `redactContractError`
abbrev pub redact_contract_error : ContractErrorEnvelope → ContractErrorEnvelope
redact_contract_error error = record {
  schema_version = error.schema_version;
  code = error.code;
  category = error.category;
  message = fixed_host_fault_message error.code;
  retryable = error.retryable;
  correlation_id = error.correlation_id;
  details = none;
}

-- `safeError`
abbrev pub safe_error : ContractErrorEnvelope → ContractErrorEnvelope
safe_error error = record {
  schema_version = error.schema_version;
  code = error.code;
  category = error.category;
  message = "Backend process launch failed.";
  retryable = error.retryable;
  correlation_id = error.correlation_id;
  details = none;
}

abbrev pub redact_process : InvocationProcessFact → InvocationProcessFact
redact_process (InvocationProcessFact.launch_failed error) =
    InvocationProcessFact.launch_failed (safe_error error)
redact_process fact = fact

-- `redactOutboundPayload`
unfoldable pub redact_outbound_payload : HostToServerPayload → HostToServerPayload
redact_outbound_payload (HostToServerPayload.host_fault invocation_id error) =
    HostToServerPayload.host_fault invocation_id (redact_contract_error error)
redact_outbound_payload (HostToServerPayload.invocation_result result) =
    HostToServerPayload.invocation_result
      (record result { process = redact_process result.process })
redact_outbound_payload payload = payload
