-- ===== src/ActorHost/State.antt =====
-- The state of `ServerConnection` and `ActorHostCommandProcessor`, and the types of their results:
-- apps/actor-host/src/server-connection/server-connection.ts and command-processor.ts.
use ai_block.Prelude.{ℕ, String, Bool, Option, List, [], Attempt}
use ai_block.Protocol.{ContractErrorEnvelope, ServerToHostMessage, HostToServerMessage}
use ai_block.Gateway.Ports.{TransportCall}
use ai_block.Supervisor.State.{Supervisor, InitializeReply, AdapterStart}

pub record HostIdentity : Type 0 where
  pub project_id : ℕ
  pub host_instance_id : ℕ
  pub actor_id : ℕ

pub data ServerConnectionState : Type 0 where
  not_started live failed : ServerConnectionState

pub data SendErrorCode : Type 0 where
  transport_failed not_started already_started failed : SendErrorCode

pub record HostOutboundSendError : Type 0 where
  pub code : SendErrorCode
  pub message : String

pub data SendRejection : Type 0 where
  not_started already_started failed : SendRejection

pub data HostOutboundSendResult : Type 0 where
  sent : HostOutboundSendResult
  rejected : SendRejection → HostOutboundSendResult
  transport_failed : HostOutboundSendError → HostOutboundSendResult

pub data CommandDisposition : Type 0 where
  handled : CommandDisposition
  not_command : CommandDisposition
  transport_failed : HostOutboundSendError → CommandDisposition

pub data InboundRejection : Type 0 where
  not_started failed decode_failed generation_mismatch sequence_stale : InboundRejection
  sequence_gap : InboundRejection

pub data InboundResult : Type 0 where
  accepted : CommandDisposition → InboundResult
  rejected : InboundRejection → Option ContractErrorEnvelope → InboundResult

-- What the command processor has asked to be told of: the promise of an initialization, or the three
-- promises of the handle of an invocation. The first number is the causal message's.
pub data Subscription : Type 0 where
  to_initialization : (causal_message_id actor_id : ℕ) (reply : InitializeReply) → Subscription
  to_invocation : (causal_message_id invocation_id reference : ℕ) → Subscription

-- `ServerConnection`, its command processor and the supervisor of the process. `sent` is what the
-- transport took, `processed` what the command processor was given.
pub record ActorHost : Type 0 where
  pub identity : HostIdentity
  pub connection_generation : ℕ
  pub state : ServerConnectionState
  pub next_outbound_sequence : ℕ
  pub next_inbound_sequence : ℕ
  pub supervisor : Supervisor
  pub subscriptions : List Subscription
  pub sent : List HostToServerMessage
  pub processed : List ServerToHostMessage

-- What the injected providers and the transport answer to one `write`.
pub record WriteAnswers : Type 0 where
  pub next_message_id : Attempt ℕ
  pub now : Attempt ℕ
  pub contract_ok : Bool
  pub send : TransportCall

-- What the backend adapter does within one command.
pub record BackendAnswers : Type 0 where
  pub start : Attempt AdapterStart
  pub stop_throws : Bool

-- `new ServerConnection(options)`, with a generation that its guard lets through
abbrev pub new_actor_host : HostIdentity → ℕ → Supervisor → ActorHost
new_actor_host identity connection_generation supervisor = record {
  identity = identity;
  connection_generation = connection_generation;
  state = ServerConnectionState.not_started;
  next_outbound_sequence = 0;
  next_inbound_sequence = 0;
  supervisor = supervisor;
  subscriptions = [];
  sent = [];
  processed = [];
}
