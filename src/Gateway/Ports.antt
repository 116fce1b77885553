-- ===== src/Gateway/Ports.antt =====
-- modules/host-gateway/ports.ts, and what the injected ports answer.
use ai_block.Prelude.{ℕ, String, Bool, Option, Attempt}
use ai_block.Protocol.{ContractErrorEnvelope, ServerToHostMessage, HostToServerMessage}

pub record AuthenticatedHostContext : Type 0 where
  pub project_id : ℕ
  pub actor_id : ℕ
  pub host_instance_id : ℕ

-- `code` is always "transport_failed".
pub record HostTransportFailure : Type 0 where
  pub message : String

-- The fact's message is one whose payload is neither a hello nor an ack.
pub record HostFact : Type 0 where
  pub identity : AuthenticatedHostContext
  pub message : HostToServerMessage

pub data HostConnectionState : Type 0 where
  pending live failed : HostConnectionState

pub data LocalErrorCode : Type 0 where
  transport_failed fact_sink_failed : LocalErrorCode

pub record HostGatewayLocalError : Type 0 where
  pub code : LocalErrorCode
  pub message : String

pub data SendRejection : Type 0 where
  not_live failed identity_mismatch : SendRejection

pub data HostGatewaySendResult : Type 0 where
  sent : ServerToHostMessage → HostGatewaySendResult
  rejected : SendRejection → HostGatewaySendResult
  transport_failed : HostGatewayLocalError → HostGatewaySendResult

-- The reference of the new connection object stands for it.
pub data HostGatewayOpenResult : Type 0 where
  accepted : ℕ → HostGatewayOpenResult
  connection_exists : HostGatewayOpenResult
  transport_failed : HostGatewayLocalError → HostGatewayOpenResult

pub data InboundRejection : Type 0 where
  not_started failed decode_failed generation_mismatch sequence_stale : InboundRejection
  sequence_gap wrong_first_payload identity_mismatch duplicate_hello : InboundRejection

pub data HostGatewayInboundResult : Type 0 where
  hello_registered : ServerToHostMessage → HostGatewayInboundResult
  acknowledged : ℕ → HostGatewayInboundResult
  ack_ignored : ℕ → HostGatewayInboundResult
  fact_delivered : HostFact → HostGatewayInboundResult
  fact_sink_failed : HostGatewayLocalError → HostGatewayInboundResult
  transport_failed : HostGatewayLocalError → HostGatewayInboundResult
  rejected : InboundRejection → Option ContractErrorEnvelope → HostGatewayInboundResult

-- A call of the transport: it may call the failure listener before it returns or throws.
pub record TransportCall : Type 0 where
  pub reports_failure : Bool
  pub result : Attempt (Unit {0})

-- What the ports answer to one `write`.
pub record WriteAnswers : Type 0 where
  pub next_message_id : Attempt ℕ
  pub now : Attempt ℕ
  pub contract_ok : Bool
  pub outbound_envelope_validator : Option (Attempt Bool)
  pub send : TransportCall

-- The ports. Each `write` has a sequence number of its own on its connection, and each fact one of
-- its own, so answers that depend on the connection and that number are as general as can be.
pub record PortAnswers : Type 0 where
  pub writes : ℕ → ℕ → WriteAnswers
  pub on_failure : ℕ → TransportCall
  pub accept : ℕ → ℕ → Attempt (Unit {0})
