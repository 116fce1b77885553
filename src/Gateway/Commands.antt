-- ===== src/Gateway/Commands.antt =====
-- The life of a command: sent, pending, acknowledged; and of a connection: opened, registered,
-- failed, replaced: host-gateway.ts.
use ai_block.Prelude.{
  ℕ, ◌+◌, ◌≡◌, ◌≢◌, refl, inl, inr, true, false, Option, none, some, arith, Bool-cases,
}
use ai_block.Protocol.{
  ServerToHostPayload, ServerToHostMessage, HostToServerPayload, HostToServerMessage, decoded,
}
use ai_block.Gateway.Ports.{
  HostGatewaySendResult, HostGatewayInboundResult, PortAnswers, live, failed,
}
use ai_block.Gateway.State.{HostGateway, is_failed, is_live, fail_connection}
use ai_block.Gateway.Write.{listen, transport_failure}
use ai_block.Gateway.WriteCases.{write_cases}
use ai_block.Gateway.Receive.{
  matches_outbound_identity, envelope_error, write, receive, receive_decoded, receive_live,
  receive_live_payload, receive_ack, send,
}
use ai_block.Gateway.Receipts.{IsNext}

-- What a tracked write leaves behind.
abbrev pub Tracks :
    HostGateway → ℕ → ServerToHostPayload → HostGateway × HostGatewaySendResult → Type 0
Tracks g r payload (h, HostGatewaySendResult.sent m) =
    (m.payload ≡ payload) × ((h.connections r).pending_commands m.message_id ≡ some m)
Tracks g r payload (h, HostGatewaySendResult.rejected reason) = (h ≡ g)
Tracks g r payload (h, HostGatewaySendResult.transport_failed error) =
    ((h.connections r).state ≡ failed) × ((id : ℕ) → (h.connections r).pending_commands id ≡ none)

module _ (ports : PortAnswers) where
  -- On a connection that has not failed, a command is refused with nothing changed, or it is sent
  -- and pending under its message id, or the connection has failed and nothing is pending on it.
  pub send-Tracks :
      (g : HostGateway) (r : ℕ) (payload : ServerToHostPayload) (causal : Option ℕ)
      → is_failed (g.connections r).state ≡ false
      → Tracks g r payload (send ports g r payload causal)
  unfolding send write transport_failure listen fail_connection
  send-Tracks g r payload causal up = rw up (elim (Bool-cases (is_live (g.connections r).state)) [
    | inr p ↦ rw p refl
    | inl p ↦
        rw p (elim (Bool-cases (matches_outbound_identity (g.connections r).identity payload)) [
          | inr f ↦ rw f refl
          | inl f ↦ rw f (
              write_cases (Tracks g r payload) g r payload causal true _
                (λ m. (ground arith, λ id. ground arith)) (λ m. (ground arith, λ id. ground arith))
                (λ id at. ground arith))
        ])
  ])

  -- On a live connection an ack that is next is handled as an ack.
  receive-receive_ack :
      (g : HostGateway) (r id : ℕ) (message : HostToServerMessage)
      → (g.connections r).state ≡ live
      → message.payload ≡ HostToServerPayload.ack id
      → IsNext g r message
      → receive ports g r (decoded message) ≡ receive_ack g r id
  unfolding receive receive_decoded receive_live receive_live_payload
  receive-receive_ack g r id message s e (gen, seq) =
      rw (s, receive)
        (rw (in_order, receive_decoded) (rw (s, receive_decoded) (rw (e, receive_live_payload))))
    where
      in_order : envelope_error (g.connections r) message ≡ none
      in_order = ground arith

  -- On a live connection, the ack of a pending command, next in order, settles it: the answer is
  -- `acknowledged`, that command is no longer pending and the others are, and a second ack of it,
  -- next in order, is ignored.
  pub ack_settles :
      (g : HostGateway) (r id : ℕ) (m : ServerToHostMessage) (message again : HostToServerMessage)
      → (g.connections r).state ≡ live
      → (g.connections r).pending_commands id ≡ some m
      → message.payload ≡ HostToServerPayload.ack id
      → IsNext g r message
      → again.payload ≡ HostToServerPayload.ack id
      → again.connection_generation ≡ 1
      → again.sender_sequence ≡ (g.connections r).next_inbound_sequence + 1
      → let (h, result) = receive ports g r (decoded message) in
        (result ≡ HostGatewayInboundResult.acknowledged id)
        × ((h.connections r).pending_commands id ≡ none)
        × ((x : ℕ)
            → x ≢ id
            → (h.connections r).pending_commands x ≡ (g.connections r).pending_commands x)
        × ((receive ports h r (decoded again)).1 ≡ HostGatewayInboundResult.ack_ignored id)
  unfolding receive_ack
  ack_settles g r id m message again s p e n e' gen seq =
      let once = receive-receive_ack g r id message s e n in
      let again_lem = receive-receive_ack (receive_ack g r id).0 r id again in
      rw once (
        ground arith,
        ground arith,
        λ x ne. ground arith,
        rw (again_lem (ground arith) e' (gen, ground arith)) (ground arith),
      )
