-- ===== src/ActorHost/Commands.antt =====
-- `ActorHostCommandProcessor` and `ServerConnection.receive`: command-processor.ts and
-- server-connection.ts. The processor's sink is the connection, whose `send` throws nothing.
use ai_block.Prelude.{
  ℕ, ◌+◌, String, Bool, true, false, Option, none, some, [], ◌∷◌, ◌++◌, if◌then◌else◌, ◌==◌, not,
  ◌||◌, returns, throws, Attempt,
}
use ai_block.Protocol.{
  HostToServerPayload, ServerToHostPayload, ServerToHostMessage, ActorLaunchSpec, InvocationSpec,
  InvocationResult, Decoded, decoded, undecodable,
}
use ai_block.Supervisor.State.{
  SupervisorErrorCode, SupervisorLifecycleError, InitializeResult, StartResult, StopResult,
}
use ai_block.Supervisor.Operations as Supervised
use ai_block.ActorHost.State.{
  ActorHost, HostIdentity, ServerConnectionState, SendErrorCode, SendRejection,
  HostOutboundSendResult, CommandDisposition, InboundRejection, InboundResult, Subscription,
  WriteAnswers, BackendAnswers,
}
use ai_block.ActorHost.Redaction.{redact_outbound_payload, to_contract_error}
use ai_block.ActorHost.Connection.{send, envelope_error}

abbrev pub subscribe : ActorHost → Subscription → ActorHost
subscribe h s = record h { subscriptions = h.subscriptions ++ s ∷ [] }

-- `launchSpec.project_id !== this.identity.projectId || …`
abbrev pub is_foreign : HostIdentity → ℕ → ℕ → Bool
is_foreign identity project_id actor_id =
    not (project_id == identity.project_id) || not (actor_id == identity.actor_id)

abbrev pub rejection_code : SendRejection → SendErrorCode
rejection_code SendRejection.not_started = SendErrorCode.not_started
rejection_code SendRejection.already_started = SendErrorCode.already_started
rejection_code SendRejection.failed = SendErrorCode.failed

abbrev pub rejection_message : SendRejection → String
rejection_message SendRejection.not_started =
    "Host connection rejected outbound payload: not_started."
rejection_message SendRejection.already_started =
    "Host connection rejected outbound payload: already_started."
rejection_message SendRejection.failed = "Host connection rejected outbound payload: failed."

abbrev pub is_ack : ServerToHostPayload → Bool
is_ack (ServerToHostPayload.ack acknowledged_message_id) = true
is_ack _ = false

abbrev pub take_inbound : ActorHost → ServerToHostMessage → ActorHost
take_inbound h message = record h {
  next_inbound_sequence = h.next_inbound_sequence + 1;
  processed = h.processed ++ message ∷ [];
}

abbrev pub accepted : Attempt CommandDisposition → Attempt InboundResult
accepted (throws e) = throws e
accepted (returns disposition) = returns (InboundResult.accepted disposition)

module _ (writes : ℕ → WriteAnswers) where
  -- `emit`
  unfoldable pub emit : ActorHost → HostToServerPayload → ℕ → ActorHost × HostOutboundSendResult
  emit h payload causal_message_id =
      send writes h (redact_outbound_payload payload) causal_message_id

  -- `emitFault`
  unfoldable pub emit_fault : ActorHost → ℕ → SupervisorErrorCode → Option ℕ → ActorHost
  emit_fault h causal_message_id code invocation_id =
      (emit h
        (HostToServerPayload.host_fault invocation_id (to_contract_error (record { code = code })))
        causal_message_id).0

  -- The callback of `supervisor.initialize`
  unfoldable pub initialize_settled : ActorHost → ℕ → ℕ → InitializeResult → ActorHost
  initialize_settled h causal_message_id actor_id InitializeResult.initialized =
      (emit h (HostToServerPayload.host_ready actor_id) causal_message_id).0
  initialize_settled h causal_message_id actor_id InitializeResult.already_initialized =
      (emit h (HostToServerPayload.host_ready actor_id) causal_message_id).0
  initialize_settled h causal_message_id actor_id (InitializeResult.rejected error) =
      emit_fault h causal_message_id error.code none

  -- `initialize`
  unfoldable pub initialize : ActorHost → ℕ → ActorLaunchSpec → ActorHost
  initialize h causal_message_id launch_spec =
      if is_foreign h.identity launch_spec.project_id launch_spec.actor_id
      then emit_fault h causal_message_id SupervisorErrorCode.identity_mismatch none
      else let (supervisor, reply) = Supervised.initialize h.supervisor launch_spec in
        subscribe (record h { supervisor = supervisor })
          (Subscription.to_initialization causal_message_id launch_spec.actor_id reply)

  -- The callbacks of the handle of an invocation
  unfoldable pub session_settled : ActorHost → ℕ → ℕ → Option ℕ → ActorHost
  session_settled h causal_message_id invocation_id none = h
  session_settled h causal_message_id invocation_id (some session_id) =
      (emit h (HostToServerPayload.session_report invocation_id session_id) causal_message_id).0

  unfoldable pub result_settled : ActorHost → ℕ → Option InvocationResult → ActorHost
  result_settled h causal_message_id none = h
  result_settled h causal_message_id (some result) =
      (emit h (HostToServerPayload.invocation_result result) causal_message_id).0

  unfoldable pub failure_settled : ActorHost → ℕ → ℕ → SupervisorLifecycleError → ActorHost
  failure_settled h causal_message_id invocation_id error =
      emit_fault h causal_message_id error.code (some invocation_id)

  -- `start` after `supervisor.start`; a throw of the adapter passes through.
  unfoldable pub start_answered :
      ActorHost → ℕ → InvocationSpec → Attempt StartResult → ActorHost × Attempt (Unit {0})
  start_answered h causal_message_id invocation (throws e) = (h, throws e)
  start_answered h causal_message_id invocation (returns (StartResult.launch_failed result)) =
      ((emit h (HostToServerPayload.invocation_result result) causal_message_id).0, returns tt)
  start_answered h causal_message_id invocation (returns (StartResult.rejected error)) =
      (emit_fault h causal_message_id error.code (some invocation.invocation_id), returns tt)
  start_answered h causal_message_id invocation (returns (StartResult.started r)) = (
    subscribe h (Subscription.to_invocation causal_message_id invocation.invocation_id r),
    returns tt,
  )

  -- `start`
  unfoldable pub start :
      ActorHost → ℕ → InvocationSpec → BackendAnswers → ActorHost × Attempt (Unit {0})
  start h causal_message_id invocation backend =
      if is_foreign h.identity invocation.project_id invocation.actor_id
      then (
        emit_fault h causal_message_id SupervisorErrorCode.identity_mismatch
            (some invocation.invocation_id),
        returns tt,
      )
      else let (supervisor, result) = Supervised.start h.supervisor invocation backend.start in
        start_answered (record h { supervisor = supervisor }) causal_message_id invocation result

  unfoldable pub stop_answered : ActorHost → ℕ → ℕ → StopResult → ActorHost
  stop_answered h causal_message_id invocation_id (StopResult.accepted id) = h
  stop_answered h causal_message_id invocation_id (StopResult.rejected error) =
      emit_fault h causal_message_id error.code (some invocation_id)

  -- `stop`
  unfoldable pub stop : ActorHost → ℕ → ℕ → BackendAnswers → ActorHost
  stop h causal_message_id invocation_id backend =
      let (supervisor, result) = Supervised.stop h.supervisor invocation_id backend.stop_throws in
      stop_answered (record h { supervisor = supervisor }) causal_message_id invocation_id result

  -- The `switch` of `process`
  unfoldable pub dispatch :
      ActorHost → ServerToHostMessage → BackendAnswers → ActorHost × Attempt CommandDisposition
  dispatch h message backend = elim message.payload [
    | ServerToHostPayload.initialize_actor_host launch_spec ↦
        (initialize h message.message_id launch_spec, returns CommandDisposition.handled)
    | ServerToHostPayload.start_invocation invocation_spec ↦
        let (started, answer) = start h message.message_id invocation_spec backend in
        (
          started,
          elim answer [ throws e ↦ throws e | returns _ ↦ returns CommandDisposition.handled ],
        )
    | ServerToHostPayload.stop_invocation invocation_id reason ↦
        (stop h message.message_id invocation_id backend, returns CommandDisposition.handled)
    | ServerToHostPayload.shutdown_host reason ↦ (h, returns CommandDisposition.handled)
    | ServerToHostPayload.ack acknowledged_message_id ↦ (h, returns CommandDisposition.not_command)
  ]

  -- `process` after the acknowledgement of a command
  unfoldable pub acknowledged :
      ActorHost
      → HostOutboundSendResult
      → ServerToHostMessage
      → BackendAnswers
      → ActorHost × Attempt CommandDisposition
  acknowledged h HostOutboundSendResult.sent message backend = dispatch h message backend
  acknowledged h (HostOutboundSendResult.transport_failed error) message backend =
      (h, returns (CommandDisposition.transport_failed error))
  acknowledged h (HostOutboundSendResult.rejected reason) message backend = (
    h,
    returns (
        CommandDisposition.transport_failed
          (record { code = rejection_code reason; message = rejection_message reason })),
  )

  -- `process`
  unfoldable pub process :
      ActorHost → ServerToHostMessage → BackendAnswers → ActorHost × Attempt CommandDisposition
  process h message backend =
      if is_ack message.payload
      then (h, returns CommandDisposition.not_command)
      else let (acked, result) =
          emit h (HostToServerPayload.ack message.message_id) message.message_id in
        acknowledged acked result message backend

  -- `receive` on a connection that is up
  unfoldable pub receive_live :
      ActorHost → Decoded ServerToHostMessage → BackendAnswers → ActorHost × Attempt InboundResult
  receive_live h (undecodable error) backend =
      (h, returns (InboundResult.rejected InboundRejection.decode_failed (some error)))
  receive_live h (decoded message) backend = elim (envelope_error h message) [
    | some reason ↦ (h, returns (InboundResult.rejected reason none))
    | none ↦
        let (done, disposition) = process (take_inbound h message) message backend in
        (done, accepted disposition)
  ]

  -- `receive`
  unfoldable pub receive :
      ActorHost → Decoded ServerToHostMessage → BackendAnswers → ActorHost × Attempt InboundResult
  receive h input backend = elim h.state [
    | ServerConnectionState.not_started ↦
        (h, returns (InboundResult.rejected InboundRejection.not_started none))
    | ServerConnectionState.failed ↦
        (h, returns (InboundResult.rejected InboundRejection.failed none))
    | ServerConnectionState.live ↦ receive_live h input backend
  ]
