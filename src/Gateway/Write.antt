-- ===== src/Gateway/Write.antt =====
-- `GatewayConnection.write` and what it calls: host-gateway.ts.
use ai_block.Prelude.{
  ℕ, ◌+◌, String, Bool, true, false, Option, none, some, [], ◌∷◌, ◌++◌, if◌then◌else◌, insert,
  returns, throws, message_of,
}
use ai_block.Protocol.{ServerToHostPayload, ServerToHostMessage, host_protocol_version}
use ai_block.Gateway.Ports.{LocalErrorCode, HostGatewaySendResult, TransportCall, WriteAnswers}
use ai_block.Gateway.State.{
  HostGateway, core, transport, default_terminal_failure, host_connection_generation, put,
  fail_connection,
}

-- `GatewayConnection.transportFailure`
unfoldable pub transport_failure : HostGateway → ℕ → String → HostGateway × HostGatewaySendResult
unfolding fail_connection
transport_failure g r message = (
  fail_connection g r core (record { message = message }),
  HostGatewaySendResult.transport_failed
      (record { code = LocalErrorCode.transport_failed; message = message }),
)

-- The failure listener that `observeTransportFailures` installs, if the call `t` runs it.
unfoldable pub listen : HostGateway → ℕ → TransportCall → HostGateway
unfolding fail_connection
listen g r t =
    if t.reports_failure then fail_connection g r transport default_terminal_failure else g

-- The transport took the message: `pendingCommands.set` if the message is a command.
abbrev pub mark_sent : HostGateway → ℕ → ServerToHostMessage → Bool → HostGateway
mark_sent g r message track_pending = put g r (record (g.connections r) {
  pending_commands =
      if track_pending
      then insert (g.connections r).pending_commands message.message_id message
      else (g.connections r).pending_commands;
  transport = record ((g.connections r).transport) {
    sent = (g.connections r).transport.sent ++ message ∷ [];
  };
})

-- The end of `write`: the validated message goes to the transport.
unfoldable pub transmit :
    HostGateway
    → ℕ
    → ServerToHostMessage
    → Bool
    → TransportCall
    → HostGateway × HostGatewaySendResult
unfolding listen transport_failure
transmit g r message track_pending t = elim t.result [
  | throws e ↦ transport_failure (listen g r t) r (message_of e "Host transport send failed.")
  | returns _ ↦
      (mark_sent (listen g r t) r message track_pending, HostGatewaySendResult.sent message)
]

abbrev pub invalid_envelope : String
invalid_envelope = "Generated Host envelope failed Runtime Contract validation."

-- `write` from the check of the envelope on.
unfoldable pub check_and_transmit :
    HostGateway
    → ℕ
    → ServerToHostMessage
    → Bool
    → WriteAnswers
    → HostGateway × HostGatewaySendResult
unfolding transmit transport_failure
check_and_transmit g r message track_pending a =
    if a.contract_ok
    then elim a.outbound_envelope_validator [
      | none ↦ transmit g r message track_pending a.send
      | some (returns true) ↦ transmit g r message track_pending a.send
      | some (returns false) ↦ transport_failure g r invalid_envelope
      | some (throws e) ↦ transport_failure g r "Generated Host envelope validation failed."
    ]
    else transport_failure g r invalid_envelope

abbrev pub envelope : ServerToHostPayload → Option ℕ → ℕ → ℕ → ℕ → ServerToHostMessage
envelope payload causal_message_id sequence message_id sent_at = record {
  protocol_version = host_protocol_version;
  message_id = message_id;
  correlation_id = causal_message_id;
  sender_sequence = sequence;
  connection_generation = host_connection_generation;
  sent_at = sent_at;
  payload = payload;
}

-- The first two lines of `write`: the sequence number is taken.
abbrev pub take_sequence : HostGateway → ℕ → HostGateway
take_sequence g r = put g r (record (g.connections r) {
  next_outbound_sequence = (g.connections r).next_outbound_sequence + 1;
})

-- `GatewayConnection.write`, with the answers of the ports
unfoldable pub write_with :
    HostGateway
    → ℕ
    → ServerToHostPayload
    → Option ℕ
    → Bool
    → WriteAnswers
    → HostGateway × HostGatewaySendResult
unfolding check_and_transmit transport_failure
write_with g r payload causal_message_id track_pending a = elim a.next_message_id [
  | throws e ↦
      transport_failure (take_sequence g r) r (message_of e "Host envelope provider failed.")
  | returns id ↦ elim a.now [
    | throws e ↦
        transport_failure (take_sequence g r) r (message_of e "Host envelope provider failed.")
    | returns at ↦
        check_and_transmit (take_sequence g r) r
          (envelope payload causal_message_id (g.connections r).next_outbound_sequence id at)
          track_pending a
  ]
]
