-- ===== src/Gateway/Receipts.antt =====
-- What each result of `receive` says of the connection: host-gateway.ts.
pub mod Inbound
use ai_block.Prelude.{
  ℕ, suc, ◌+◌, ◌≡◌, refl, ◌⊎◌, inl, inr, Bool, true, false, Option, none, some, arith, Bool-cases,
  Option-cases, Attempt-cases, Attempt, returns, List, [], ◌∷◌, ◌++◌, String,
}
use ai_block.Protocol.{
  ServerToHostPayload, ServerToHostMessage, HostToServerPayload, HostToServerMessage, Decoded,
  decoded, undecodable, ContractErrorEnvelope,
}
use ai_block.Gateway.Ports.{
  AuthenticatedHostContext, HostGatewaySendResult, HostGatewayInboundResult, InboundRejection,
  HostFact, HostTransportFailure, WriteAnswers, PortAnswers, pending, live, failed,
}
use ai_block.Gateway.State.{
  HostGateway, GatewayConnection, TerminalOrigin, core, host_connection_generation,
  default_terminal_failure, is_failed, is_pending, remove, fail_connection,
}
use ai_block.Gateway.Write.{listen, transport_failure, take_sequence, write_with, envelope}
use ai_block.Gateway.WriteCases.{write_cases}
use ai_block.Gateway.Receive.{
  is_hello, matches_hello_identity, matches_post_hello_identity, envelope_error, is_displaced,
  commit_live, reject, write, acknowledge, register_hello, receive_hello, hand_over, deliver_fact,
  receive_ack, receive_live_payload, receive_live, receive_decoded, receive,
}

-- The results that take the message in.
abbrev pub is_accepted : HostGatewayInboundResult → Bool
is_accepted (HostGatewayInboundResult.hello_registered _) = true
is_accepted (HostGatewayInboundResult.acknowledged _) = true
is_accepted (HostGatewayInboundResult.ack_ignored _) = true
is_accepted (HostGatewayInboundResult.fact_delivered _) = true
is_accepted _ = false

-- The message carries the gateway's generation and the next number.
abbrev pub IsNext : HostGateway → ℕ → HostToServerMessage → Type 0
IsNext g r message =
    (message.connection_generation ≡ host_connection_generation)
    × (message.sender_sequence ≡ (g.connections r).next_inbound_sequence)

-- The acknowledgement of an inbound message, with the number that was next.
abbrev pub IsAckOf : HostGateway → ℕ → HostToServerMessage → ServerToHostMessage → Type 0
IsAckOf g r message m =
    (m.payload ≡ ServerToHostPayload.ack message.message_id)
    × (m.correlation_id ≡ some message.message_id)
    × (m.sender_sequence ≡ (g.connections r).next_outbound_sequence)

-- How an acknowledgement can end: it is the connection's last sent message and nothing else of what
-- the receiver reads has changed, or the connection has failed.
abbrev pub Acknowledges :
    HostGateway → ℕ → HostToServerMessage → HostGateway × HostGatewaySendResult → Type 0
Acknowledges g r message (h, HostGatewaySendResult.sent m) =
    IsAckOf g r message m
    × ((h.connections r).sent ≡ (g.connections r).sent ++ m ∷ [])
    × ((h.connections r).identity ≡ (g.connections r).identity)
    × (is_failed (h.connections r).state ≡ false
        → (h.connections r).state ≡ (g.connections r).state)
    × ((h.connections r).next_inbound_sequence ≡ (g.connections r).next_inbound_sequence)
    × (h.facts ≡ g.facts)
Acknowledges g r message (h, HostGatewaySendResult.rejected _) = ⊥
Acknowledges g r message (h, HostGatewaySendResult.transport_failed _) =
    (is_failed (h.connections r).state ≡ true)
    × ((h.connections r).next_inbound_sequence ≡ (g.connections r).next_inbound_sequence)
    × (h.facts ≡ g.facts)

pub write_with-Acknowledges :
    (g : HostGateway) (r : ℕ) (message : HostToServerMessage) (a : WriteAnswers)
    → Acknowledges g r message (
        write_with g r
          (ServerToHostPayload.ack message.message_id)
          (some message.message_id)
          false
          a)
unfolding transport_failure listen fail_connection
write_with-Acknowledges g r message a =
    write_cases (Acknowledges g r message) g r _ _ false a (λ m. ground arith) (λ m. ground arith)
      (λ id at. (ground arith))

abbrev pub is_ack : HostToServerPayload → Bool
is_ack (HostToServerPayload.ack _) = true
is_ack _ = false

-- A payload names no other identity than the connection's.
abbrev pub IsFrom : AuthenticatedHostContext → HostToServerPayload → Type 0
IsFrom identity (HostToServerPayload.host_hello project_id host_instance_id actor_id) =
    (project_id ≡ identity.project_id)
    × (actor_id ≡ identity.actor_id)
    × (host_instance_id ≡ identity.host_instance_id)
IsFrom identity (HostToServerPayload.host_ready actor_id) = actor_id ≡ identity.actor_id
IsFrom identity (HostToServerPayload.invocation_result result) =
    (result.project_id ≡ identity.project_id) × (result.actor_id ≡ identity.actor_id)
IsFrom identity _ = Unit {0}

-- What is wrong with a message in its turn, by the reason of its rejection: the first message is no
-- hello, a later one is, or it names another identity.
abbrev pub IsMisfit : GatewayConnection → HostToServerPayload → InboundRejection → Type 0
IsMisfit c payload InboundRejection.wrong_first_payload =
    (is_pending c.state ≡ true) × (is_hello payload ≡ false)
IsMisfit c payload InboundRejection.duplicate_hello =
    (is_pending c.state ≡ false) × (is_hello payload ≡ true)
IsMisfit c payload InboundRejection.identity_mismatch = ¬ IsFrom c.identity payload
IsMisfit c payload _ = ⊥

-- The connection is the pending one of its actor and of its host instance, and no other is live.
abbrev pub IsInTurn : HostGateway → ℕ → Type 0
IsInTurn g r =
    (g.pending_by_actor (g.connections r).actor_id ≡ some r)
    × (g.pending_by_host (g.connections r).host_instance_id ≡ some r)
    × (g.live_by_actor (g.connections r).actor_id ≡ none)
    × (g.live_by_host (g.connections r).host_instance_id ≡ none)

-- The connection is the live one of its actor and of its host instance, and none is pending.
abbrev pub IsRegistered : HostGateway → ℕ → Type 0
IsRegistered g r =
    ((g.connections r).state ≡ live)
    × (g.live_by_actor (g.connections r).actor_id ≡ some r)
    × (g.live_by_host (g.connections r).host_instance_id ≡ some r)
    × (g.pending_by_actor (g.connections r).actor_id ≡ none)
    × (g.pending_by_host (g.connections r).host_instance_id ≡ none)

-- The connection has failed, and nothing was counted or handed over.
abbrev pub IsLost : HostGateway → ℕ → HostGateway → Type 0
IsLost g r h =
    (is_failed (h.connections r).state ≡ true)
    × ((h.connections r).next_inbound_sequence ≡ (g.connections r).next_inbound_sequence)
    × (h.facts ≡ g.facts)

-- What a result says, when the state was `g` before `message` came and `acknowledged` is what
-- writing its acknowledgement gives.
abbrev pub ReceiptOf :
    HostGateway × HostGatewaySendResult
    → Attempt (Unit {0})
    → HostGateway
    → ℕ
    → HostToServerMessage
    → HostGateway × HostGatewayInboundResult
    → Type 0
ReceiptOf acknowledged accepted g r message (h, HostGatewayInboundResult.hello_registered m) =
    IsAckOf g r message m
    × (is_pending (g.connections r).state ≡ true)
    × (is_hello message.payload ≡ true)
    × IsFrom (g.connections r).identity message.payload
    × IsRegistered h r
    × ((h.connections r).sent ≡ (g.connections r).sent ++ m ∷ [])
    × ((h.connections r).next_inbound_sequence ≡ (g.connections r).next_inbound_sequence + 1)
    × (h.facts ≡ g.facts)
ReceiptOf acknowledged accepted g r message (h, HostGatewayInboundResult.acknowledged id) =
    (is_pending (g.connections r).state ≡ false)
    × (message.payload ≡ HostToServerPayload.ack id)
    × ((h.connections r).sent ≡ (g.connections r).sent)
    × ((m : ServerToHostMessage) × ((g.connections r).pending_commands id ≡ some m))
    × ((h.connections r).pending_commands id ≡ none)
    × ((h.connections r).next_inbound_sequence ≡ (g.connections r).next_inbound_sequence + 1)
    × (h.facts ≡ g.facts)
ReceiptOf acknowledged accepted g r message (h, HostGatewayInboundResult.ack_ignored id) =
    (is_pending (g.connections r).state ≡ false)
    × (message.payload ≡ HostToServerPayload.ack id)
    × ((h.connections r).sent ≡ (g.connections r).sent)
    × ((g.connections r).pending_commands id ≡ none)
    × ((h.connections r).next_inbound_sequence ≡ (g.connections r).next_inbound_sequence + 1)
    × (h.facts ≡ g.facts)
ReceiptOf acknowledged accepted g r message (h, HostGatewayInboundResult.fact_delivered fact) =
    (is_pending (g.connections r).state ≡ false)
    × (is_ack message.payload ≡ false)
    × (accepted ≡ returns tt)
    × (fact ≡ record { identity = (g.connections r).identity; message = message })
    × IsFrom (g.connections r).identity message.payload
    × ((m : ServerToHostMessage) × IsAckOf g r message m
        × ((h.connections r).sent ≡ (g.connections r).sent ++ m ∷ []))
    × ((h.connections r).next_inbound_sequence ≡ (g.connections r).next_inbound_sequence + 1)
    × (h.facts ≡ g.facts ++ fact ∷ [])
ReceiptOf acknowledged accepted g r message (h, HostGatewayInboundResult.fact_sink_failed error) =
    (is_pending (g.connections r).state ≡ false)
    × (is_ack message.payload ≡ false)
    × ¬ (accepted ≡ returns tt)
    × IsFrom (g.connections r).identity message.payload
    × ((m : ServerToHostMessage) × IsAckOf g r message m
        × ((h.connections r).sent ≡ (g.connections r).sent ++ m ∷ []))
    × (is_failed (h.connections r).state ≡ true)
    × ((h.connections r).next_inbound_sequence ≡ (g.connections r).next_inbound_sequence + 1)
    × (h.facts
        ≡ g.facts ++ record { identity = (g.connections r).identity; message = message } ∷ [])
ReceiptOf acknowledged accepted g r message (h, HostGatewayInboundResult.transport_failed error) =
    (is_ack message.payload ≡ false)
    × ((acknowledged.1 ≡ HostGatewaySendResult.transport_failed error)
        ⊎ ((is_hello message.payload ≡ true)
            × ((is_failed (acknowledged.0.connections r).state ≡ true)
                ⊎ ¬ IsInTurn acknowledged.0 r)))
    × IsLost g r h
ReceiptOf acknowledged accepted g r message (h, HostGatewayInboundResult.rejected reason error) =
    IsMisfit (g.connections r) message.payload reason × (error ≡ none) × IsLost g r h

-- The same with the answers of the ports
abbrev pub Receipt :
    PortAnswers
    → HostGateway
    → ℕ
    → HostToServerMessage
    → HostGateway × HostGatewayInboundResult
    → Type 0
Receipt ports g r message =
    ReceiptOf (acknowledge ports g r message)
      (ports.accept r (g.connections r).next_inbound_sequence) g r message

pub reject-IsLost :
    (g : HostGateway) (r : ℕ) (reason : InboundRejection) (error : Option ContractErrorEnvelope)
    → IsLost g r (reject g r reason error).0
unfolding reject fail_connection remove
reject-IsLost g r reason error = ground arith

pub commit_live_lem :
    (g : HostGateway) (r : ℕ)
    → let h = commit_live g r in
      ((h.connections r).sent ≡ (g.connections r).sent)
      × ((h.connections r).next_inbound_sequence ≡ (g.connections r).next_inbound_sequence)
      × (h.facts ≡ g.facts)
unfolding commit_live fail_connection remove
commit_live_lem g r = ground arith
