-- ===== src/Protocol/Host.antt =====
-- host/schemas.ts: the payloads of the two directions and the envelope around them.
use ai_block.Prelude.{ℕ, String, Option}
use ai_block.Protocol.JsonData.{Json}
use ai_block.Protocol.Actor.{
  ContractErrorEnvelope, ActorLaunchSpec, InvocationSpec, InvocationResult,
}

abbrev pub host_protocol_version : String
host_protocol_version = "1.0.0"

pub data ServerToHostPayload : Type 0 where
  initialize_actor_host : ActorLaunchSpec → ServerToHostPayload
  start_invocation : InvocationSpec → ServerToHostPayload
  stop_invocation : (invocation_id : ℕ) (reason : String) → ServerToHostPayload
  shutdown_host : (reason : String) → ServerToHostPayload
  ack : (acknowledged_message_id : ℕ) → ServerToHostPayload

pub data HostToServerPayload : Type 0 where
  host_hello : (project_id host_instance_id actor_id : ℕ) → HostToServerPayload
  host_ready : (actor_id : ℕ) → HostToServerPayload
  heartbeat : HostToServerPayload
  session_report : (invocation_id session_id : ℕ) → HostToServerPayload
  invocation_result : InvocationResult → HostToServerPayload
  package_publish_request :
      (invocation_id : ℕ) (idempotency_key : String) (package_type : String)
      (body parent_refs : Json)
      → HostToServerPayload
  completion_request : (invocation_id : ℕ) (result_package_refs : Json) → HostToServerPayload
  host_fault : (invocation_id : Option ℕ) (error : ContractErrorEnvelope) → HostToServerPayload
  ack : (acknowledged_message_id : ℕ) → HostToServerPayload

pub record Envelope (P : Type 0) : Type 0 where
  pub protocol_version : String
  pub message_id : ℕ
  pub correlation_id : Option ℕ
  pub sender_sequence : ℕ
  pub connection_generation : ℕ
  pub sent_at : ℕ
  pub payload : P

abbrev pub ServerToHostMessage : Type 0
ServerToHostMessage = Envelope ServerToHostPayload

abbrev pub HostToServerMessage : Type 0
HostToServerMessage = Envelope HostToServerPayload

-- What `decodeContract` returns for an input.
pub data Decoded (A : Type 0) : Type 0 where
  decoded : A → Decoded A
  undecodable : ContractErrorEnvelope → Decoded A
