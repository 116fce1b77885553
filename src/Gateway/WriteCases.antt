-- ===== src/Gateway/WriteCases.antt =====
-- How a `write` can end: host-gateway.ts.
use ai_block.Prelude.{ℕ, String, Bool, Option, arith, inl, inr, Attempt-cases}
use ai_block.Protocol.{ServerToHostPayload, ServerToHostMessage}
use ai_block.Gateway.Ports.{HostGatewaySendResult, TransportCall, WriteAnswers}
use ai_block.Gateway.State.{HostGateway}
use ai_block.Gateway.Write.{
  listen, transport_failure, mark_sent, transmit, check_and_transmit, invalid_envelope, envelope,
  take_sequence, write_with,
}

module _ {ℓ} (P : HostGateway × HostGatewaySendResult → Type ℓ) where
  transmit_cases :
      (g : HostGateway) (r : ℕ) (message : ServerToHostMessage) (track : Bool) (t : TransportCall)
      → ((m : String) → P (transport_failure (listen g r t) r m))
      → P (mark_sent (listen g r t) r message track, HostGatewaySendResult.sent message)
      → P (transmit g r message track t)
  unfolding transmit
  transmit_cases g r message track t failed sent = elim (Attempt-cases t.result) [
    | inl (_, e) ↦ rw (e, transmit) sent
    | inr (_, e) ↦ rw (e, transmit) (failed _)
  ]

  check_cases :
      (g : HostGateway) (r : ℕ) (message : ServerToHostMessage) (track : Bool) (a : WriteAnswers)
      → ((m : String) → P (transport_failure g r m))
      → P (transmit g r message track a.send)
      → P (check_and_transmit g r message track a)
  unfolding check_and_transmit
  check_cases g r message track a failed sent =
      ground (arith, failed invalid_envelope, failed "Generated Host envelope validation failed.")

  -- Every write takes a sequence number; then it fails, before or while the transport is called, or
  -- the envelope with that number is sent.
  pub write_cases :
      (g : HostGateway) (r : ℕ) (payload : ServerToHostPayload) (causal : Option ℕ) (track : Bool)
      (a : WriteAnswers)
      → ((m : String) → P (transport_failure (take_sequence g r) r m))
      → ((m : String) → P (transport_failure (listen (take_sequence g r) r a.send) r m))
      → ((id at : ℕ)
          → let message = envelope payload causal (g.connections r).next_outbound_sequence id at in
            P (
              mark_sent (listen (take_sequence g r) r a.send) r message track,
              HostGatewaySendResult.sent message,
            ))
      → P (write_with g r payload causal track a)
  unfolding write_with
  write_cases g r payload causal track a failed broke sent =
      elim (Attempt-cases a.next_message_id) [
        | inr (_, e) ↦ rw (e, write_with) (failed _)
        | inl (id, e) ↦ elim (Attempt-cases a.now) [
          | inr (_, f) ↦ rw (e, write_with) (rw (f, write_with) (failed _))
          | inl (at, f) ↦
              rw (e, write_with)
                (rw (f, write_with)
                  (check_cases (take_sequence g r) r _ track a failed
                    (transmit_cases (take_sequence g r) r _ track a.send broke (sent id at))))
        ]
      ]
