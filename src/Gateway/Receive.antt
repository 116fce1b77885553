-- ===== src/Gateway/Receive.antt =====
-- `GatewayConnection.receive`, `GatewayConnection.send` and the checks they make: host-gateway.ts.
use ai_block.Prelude.{
  ℕ, ◌+◌, Bool, true, false, ◌&&◌, ◌||◌, not, Option, none, some, [], ◌∷◌, ◌++◌, ◌==◌, ltb,
  if◌then◌else◌, is_none, insert, delete, refers, returns, throws, message_of,
}
use ai_block.Protocol.{
  ContractErrorEnvelope, ServerToHostPayload, HostToServerPayload, HostToServerMessage, Decoded,
  decoded, undecodable,
}
use ai_block.Gateway.Ports.{
  AuthenticatedHostContext, live, LocalErrorCode, SendRejection, HostGatewaySendResult,
  InboundRejection, HostGatewayInboundResult, PortAnswers,
}
use ai_block.Gateway.State.{
  HostGateway, GatewayConnection, core, default_terminal_failure, host_connection_generation,
  is_failed, is_pending, is_live, put, fail_connection,
}
use ai_block.Gateway.Write.{write_with}

-- `matchesHelloIdentity`, on a payload that need not be a hello
abbrev pub matches_hello_identity : AuthenticatedHostContext → HostToServerPayload → Bool
matches_hello_identity identity
      (HostToServerPayload.host_hello project_id host_instance_id actor_id) =
    project_id == identity.project_id
    && actor_id == identity.actor_id
    && host_instance_id == identity.host_instance_id
matches_hello_identity identity _ = false

abbrev pub is_hello : HostToServerPayload → Bool
is_hello (HostToServerPayload.host_hello _ _ _) = true
is_hello _ = false

-- `matchesPostHelloIdentity`
abbrev pub matches_post_hello_identity : AuthenticatedHostContext → HostToServerPayload → Bool
matches_post_hello_identity identity (HostToServerPayload.host_ready actor_id) =
    actor_id == identity.actor_id
matches_post_hello_identity identity (HostToServerPayload.invocation_result result) =
    result.project_id == identity.project_id && result.actor_id == identity.actor_id
matches_post_hello_identity identity _ = true

-- `matchesOutboundIdentity`
abbrev pub matches_outbound_identity : AuthenticatedHostContext → ServerToHostPayload → Bool
matches_outbound_identity identity (ServerToHostPayload.initialize_actor_host spec) =
    spec.project_id == identity.project_id && spec.actor_id == identity.actor_id
matches_outbound_identity identity (ServerToHostPayload.start_invocation spec) =
    spec.project_id == identity.project_id && spec.actor_id == identity.actor_id
matches_outbound_identity identity _ = true

-- The test of `commitLive`: the connection is not the pending one, or another one is live.
abbrev pub is_displaced : HostGateway → ℕ → Bool
is_displaced g r =
    not (refers (g.pending_by_actor (g.connections r).actor_id) r)
    || not (refers (g.pending_by_host (g.connections r).host_instance_id) r)
    || not (is_none (g.live_by_actor (g.connections r).actor_id))
    || not (is_none (g.live_by_host (g.connections r).host_instance_id))

-- The moves between the maps, and `markLive`.
abbrev pub move_to_live : HostGateway → ℕ → HostGateway
move_to_live g r =
    put
      (record g {
        pending_by_actor = delete g.pending_by_actor (g.connections r).actor_id;
        pending_by_host = delete g.pending_by_host (g.connections r).host_instance_id;
        live_by_actor = insert g.live_by_actor (g.connections r).actor_id r;
        live_by_host = insert g.live_by_host (g.connections r).host_instance_id r;
      })
      r
      (record (g.connections r) {
        state = if is_pending (g.connections r).state then live else (g.connections r).state;
      })

-- `HostGateway.commitLive`
unfoldable pub commit_live : HostGateway → ℕ → HostGateway
commit_live g r =
    if is_displaced g r then fail_connection g r core default_terminal_failure else move_to_live g r

abbrev pub take_inbound : HostGateway → ℕ → HostGateway
take_inbound g r = put g r (record (g.connections r) {
  next_inbound_sequence = (g.connections r).next_inbound_sequence + 1;
})

-- `GatewayConnection.reject`
unfoldable pub reject :
    HostGateway
    → ℕ
    → InboundRejection
    → Option ContractErrorEnvelope
    → HostGateway × HostGatewayInboundResult
reject g r reason error = (
  fail_connection g r core default_terminal_failure,
  HostGatewayInboundResult.rejected reason error,
)

-- `receiptFailure`; a write that was sent is no failure, and gets the answer that says so.
abbrev pub receipt_failure : HostGatewaySendResult → HostGatewayInboundResult
receipt_failure (HostGatewaySendResult.transport_failed error) =
    HostGatewayInboundResult.transport_failed error
receipt_failure (HostGatewaySendResult.rejected SendRejection.failed) =
    HostGatewayInboundResult.rejected InboundRejection.failed none
receipt_failure _ = HostGatewayInboundResult.rejected InboundRejection.not_started none

-- What `validateEnvelope` finds wrong.
abbrev pub envelope_error : GatewayConnection → HostToServerMessage → Option InboundRejection
envelope_error c message =
    if not (message.connection_generation == host_connection_generation)
    then some InboundRejection.generation_mismatch
    else if ltb message.sender_sequence c.next_inbound_sequence
    then some InboundRejection.sequence_stale
    else if ltb c.next_inbound_sequence message.sender_sequence
    then some InboundRejection.sequence_gap
    else none

-- The end of `receiveHello`, after its acknowledgement.
unfoldable pub register_hello :
    HostGateway × HostGatewaySendResult → ℕ → HostGateway × HostGatewayInboundResult
register_hello (g, HostGatewaySendResult.sent acknowledgement) r =
    if is_failed ((commit_live g r).connections r).state
    then (
      commit_live g r,
      HostGatewayInboundResult.transport_failed (record {
        code = LocalErrorCode.transport_failed;
        message = "Host connection registration failed.";
      }),
    )
    else (
      take_inbound (commit_live g r) r,
      HostGatewayInboundResult.hello_registered acknowledgement,
    )
register_hello (g, other) r = (g, receipt_failure other)

-- The inbound number is taken and the sink is handed the fact.
abbrev pub hand_over : HostGateway → ℕ → HostToServerMessage → HostGateway
hand_over g r message = record (take_inbound g r) {
  facts = g.facts ++ record { identity = (g.connections r).identity; message = message } ∷ [];
}

-- An inbound ack: `pendingCommands.delete`.
unfoldable pub receive_ack : HostGateway → ℕ → ℕ → HostGateway × HostGatewayInboundResult
receive_ack g r id = (
  put g r (record (g.connections r) {
    next_inbound_sequence = (g.connections r).next_inbound_sequence + 1;
    pending_commands = delete (g.connections r).pending_commands id;
  }),
  if is_none ((g.connections r).pending_commands id)
      then HostGatewayInboundResult.ack_ignored id
      else HostGatewayInboundResult.acknowledged id,
)

module _ (ports : PortAnswers) where
  -- `GatewayConnection.write`
  unfoldable pub write :
      HostGateway → ℕ → ServerToHostPayload → Option ℕ → Bool → HostGateway × HostGatewaySendResult
  write g r payload causal_message_id track_pending =
      write_with g r payload causal_message_id track_pending
        (ports.writes r (g.connections r).next_outbound_sequence)

  -- The acknowledgement that both `receiveHello` and `receiveLive` write.
  abbrev pub acknowledge :
      HostGateway → ℕ → HostToServerMessage → HostGateway × HostGatewaySendResult
  acknowledge g r message =
      write g r (ServerToHostPayload.ack message.message_id) (some message.message_id) false

  unfoldable pub receive_hello :
      HostGateway → ℕ → HostToServerMessage → HostGateway × HostGatewayInboundResult
  receive_hello g r message =
      if not (is_hello message.payload)
      then reject g r InboundRejection.wrong_first_payload none
      else if not (matches_hello_identity (g.connections r).identity message.payload)
      then reject g r InboundRejection.identity_mismatch none
      else register_hello (acknowledge g r message) r

  -- The end of `receiveLive`, after its acknowledgement.
  unfoldable pub deliver_fact :
      HostGateway × HostGatewaySendResult
      → ℕ
      → HostToServerMessage
      → HostGateway × HostGatewayInboundResult
  deliver_fact (g, HostGatewaySendResult.sent acknowledgement) r message =
      elim (ports.accept r (g.connections r).next_inbound_sequence) [
        | throws e ↦ (
          fail_connection (hand_over g r message) r core
              (record { message = message_of e "Host Gateway fact sink failed." }),
          HostGatewayInboundResult.fact_sink_failed (record {
            code = LocalErrorCode.fact_sink_failed;
            message = message_of e "Host fact sink failed.";
          }),
        )
        | returns _ ↦ (
          hand_over g r message,
          HostGatewayInboundResult.fact_delivered
              (record { identity = (g.connections r).identity; message = message }),
        )
      ]
  deliver_fact (g, other) r message = (g, receipt_failure other)

  unfoldable pub receive_live_payload :
      HostGateway
      → ℕ
      → HostToServerMessage
      → HostToServerPayload
      → HostGateway × HostGatewayInboundResult
  receive_live_payload g r message (HostToServerPayload.ack id) = receive_ack g r id
  receive_live_payload g r message _ = deliver_fact (acknowledge g r message) r message

  unfoldable pub receive_live :
      HostGateway → ℕ → HostToServerMessage → HostGateway × HostGatewayInboundResult
  receive_live g r message =
      if is_hello message.payload
      then reject g r InboundRejection.duplicate_hello none
      else if not (matches_post_hello_identity (g.connections r).identity message.payload)
      then reject g r InboundRejection.identity_mismatch none
      else receive_live_payload g r message message.payload

  unfoldable pub receive_decoded :
      HostGateway → ℕ → HostToServerMessage → HostGateway × HostGatewayInboundResult
  receive_decoded g r message = elim (envelope_error (g.connections r) message) [
    | some reason ↦ reject g r reason none
    | none ↦
        if is_pending (g.connections r).state
        then receive_hello g r message
        else receive_live g r message
  ]

  -- `GatewayConnection.receive`, on what `decodeContract` makes of the input. Its second guard,
  -- for a state that is none of the three, is never met.
  unfoldable pub receive :
      HostGateway → ℕ → Decoded HostToServerMessage → HostGateway × HostGatewayInboundResult
  receive g r input =
      if is_failed (g.connections r).state
      then (g, HostGatewayInboundResult.rejected InboundRejection.failed none)
      else elim input [
        | undecodable error ↦ reject g r InboundRejection.decode_failed (some error)
        | decoded message ↦ receive_decoded g r message
      ]

  -- `GatewayConnection.send`
  unfoldable pub send :
      HostGateway → ℕ → ServerToHostPayload → Option ℕ → HostGateway × HostGatewaySendResult
  send g r payload causal_message_id =
      if is_failed (g.connections r).state
      then (g, HostGatewaySendResult.rejected SendRejection.failed)
      else if not (is_live (g.connections r).state)
      then (g, HostGatewaySendResult.rejected SendRejection.not_live)
      else if not (matches_outbound_identity (g.connections r).identity payload)
      then (g, HostGatewaySendResult.rejected SendRejection.identity_mismatch)
      else write g r payload causal_message_id true
