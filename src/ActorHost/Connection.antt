-- ===== src/ActorHost/Connection.antt =====
-- `ServerConnection`: `write`, `start`, `send` and the guards of `receive`: server-connection.ts.
use ai_block.Prelude.{
  ℕ, ◌+◌, String, Option, none, some, [], ◌∷◌, ◌++◌, if◌then◌else◌, ◌==◌, ltb, not, returns, throws,
  message_of,
}
use ai_block.Protocol.{
  HostToServerPayload, HostToServerMessage, ServerToHostMessage, host_protocol_version,
}
use ai_block.Gateway.Ports.{TransportCall}
use ai_block.ActorHost.State.{
  ActorHost, ServerConnectionState, SendErrorCode, SendRejection, HostOutboundSendResult,
  InboundRejection, WriteAnswers,
}

-- `failConnection`
abbrev pub fail_connection : ActorHost → ActorHost
fail_connection h = record h { state = ServerConnectionState.failed }

-- `fail`
abbrev pub fail : ActorHost → String → ActorHost × HostOutboundSendResult
fail h message = (
  fail_connection h,
  HostOutboundSendResult.transport_failed
      (record { code = SendErrorCode.transport_failed; message = message }),
)

-- The listener that the constructor installs, if the call `t` runs it.
abbrev pub listen : ActorHost → TransportCall → ActorHost
listen h t = if t.reports_failure then fail_connection h else h

-- `this.options.transport.send(envelope)` and what follows
unfoldable pub transmit :
    ActorHost → HostToServerMessage → TransportCall → ActorHost × HostOutboundSendResult
transmit h message t = elim t.result [
  | throws e ↦ fail (listen h t) (message_of e "Host transport send failed.")
  | returns _ ↦ (record (listen h t) { sent = h.sent ++ message ∷ [] }, HostOutboundSendResult.sent)
]

abbrev pub envelope : ActorHost → HostToServerPayload → Option ℕ → ℕ → ℕ → HostToServerMessage
envelope h payload causal_message_id message_id sent_at = record {
  protocol_version = host_protocol_version;
  message_id = message_id;
  correlation_id = causal_message_id;
  sender_sequence = h.next_outbound_sequence;
  connection_generation = h.connection_generation;
  sent_at = sent_at;
  payload = payload;
}

abbrev pub take_sequence : ActorHost → ActorHost
take_sequence h = record h { next_outbound_sequence = h.next_outbound_sequence + 1 }

-- `write`, with the answers of the ports
unfoldable pub write_with :
    ActorHost → HostToServerPayload → Option ℕ → WriteAnswers → ActorHost × HostOutboundSendResult
write_with h payload causal_message_id a = elim a.next_message_id [
  | throws e ↦ fail (take_sequence h) (message_of e "Deterministic envelope provider failed.")
  | returns id ↦ elim a.now [
    | throws e ↦ fail (take_sequence h) (message_of e "Deterministic envelope provider failed.")
    | returns at ↦
        if a.contract_ok
        then transmit (take_sequence h) (envelope h payload causal_message_id id at) a.send
        else fail (take_sequence h) "Generated Host envelope failed Runtime Contract validation."
  ]
]

-- The connection is up after `start` has sent its hello.
abbrev pub go_live : ActorHost × HostOutboundSendResult → ActorHost × HostOutboundSendResult
go_live (h, HostOutboundSendResult.sent) =
    (record h { state = ServerConnectionState.live }, HostOutboundSendResult.sent)
go_live (h, result) = (h, result)

-- Each `write` has a sequence number of its own, so the answers depend on that number.
module _ (writes : ℕ → WriteAnswers) where
  unfoldable pub write :
      ActorHost → HostToServerPayload → Option ℕ → ActorHost × HostOutboundSendResult
  write h payload causal_message_id =
      write_with h payload causal_message_id (writes h.next_outbound_sequence)

  -- `start`
  unfoldable pub start : ActorHost → ActorHost × HostOutboundSendResult
  start h = elim h.state [
    | ServerConnectionState.live ↦
        (h, HostOutboundSendResult.rejected SendRejection.already_started)
    | ServerConnectionState.failed ↦ (h, HostOutboundSendResult.rejected SendRejection.failed)
    | ServerConnectionState.not_started ↦ go_live (
        write h
          (HostToServerPayload.host_hello h.identity.project_id h.identity.host_instance_id
            h.identity.actor_id)
          none)
  ]

  -- `send`
  unfoldable pub send : ActorHost → HostToServerPayload → ℕ → ActorHost × HostOutboundSendResult
  send h payload causal_message_id = elim h.state [
    | ServerConnectionState.not_started ↦
        (h, HostOutboundSendResult.rejected SendRejection.not_started)
    | ServerConnectionState.failed ↦ (h, HostOutboundSendResult.rejected SendRejection.failed)
    | ServerConnectionState.live ↦ write h payload (some causal_message_id)
  ]

-- The checks of `receive` on a decoded message.
abbrev pub envelope_error : ActorHost → ServerToHostMessage → Option InboundRejection
envelope_error h message =
    if not (message.connection_generation == h.connection_generation)
    then some InboundRejection.generation_mismatch
    else if ltb message.sender_sequence h.next_inbound_sequence
    then some InboundRejection.sequence_stale
    else if ltb h.next_inbound_sequence message.sender_sequence
    then some InboundRejection.sequence_gap
    else none
