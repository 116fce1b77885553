-- ===== src/ActorHost/Writes.antt =====
-- What a write of the host's connection can come to: server-connection.ts.
use ai_block.Prelude.{
  ℕ, String, ◌≡◌, refl, inl, inr, Option, some, [], ◌∷◌, ◌++◌, Bool-cases, Attempt-cases,
}
use ai_block.Protocol.{HostToServerPayload, HostToServerMessage}
use ai_block.Gateway.Ports.{TransportCall}
use ai_block.ActorHost.State.{
  ActorHost, ServerConnectionState, HostOutboundSendResult, WriteAnswers,
}
use ai_block.ActorHost.Connection.{
  fail, listen, transmit, envelope, take_sequence, write_with, send, write,
}

abbrev pub took : ActorHost → HostToServerMessage → TransportCall → ActorHost
took h m t = record (listen (take_sequence h) t) { sent = h.sent ++ m ∷ [] }

-- The three ways in which a write ends: before the transport, in it, and with the message taken.
pub write_cases {κ} :
    (P : ActorHost × HostOutboundSendResult → Type κ) (h : ActorHost)
    (payload : HostToServerPayload) (causal : Option ℕ) (a : WriteAnswers)
    → ((message : String) → P (fail (take_sequence h) message))
    → ((message : String) → P (fail (listen (take_sequence h) a.send) message))
    → ((id at : ℕ)
        → P (took h (envelope h payload causal id at) a.send, HostOutboundSendResult.sent))
    → P (write_with h payload causal a)
unfolding write_with transmit
write_cases P h payload causal a early late done = elim (Attempt-cases a.next_message_id) [
  | inr (e, q) ↦ rw (q, write_with) (early _)
  | inl (id, q) ↦
      rw (q, write_with)
        (elim (Attempt-cases a.now) [
          | inr (e, p) ↦ rw (p, write_with) (early _)
          | inl (at, p) ↦
              rw (p, write_with)
                (elim (Bool-cases a.contract_ok) [
                  | inr c ↦ rw c (early _)
                  | inl c ↦ rw c (elim (Attempt-cases a.send.result) [
                    | inr (e, t) ↦ rw (t, transmit) (late _)
                    | inl (u, t) ↦ rw (t, transmit) (done id at)
                  ])
                ])
        ])
]

-- `send` writes on a connection that is up and does nothing otherwise.
pub send_cases {κ} :
    (P : ActorHost × HostOutboundSendResult → Type κ) (writes : ℕ → WriteAnswers) (h : ActorHost)
    (payload : HostToServerPayload) (causal : ℕ)
    → ((reason : _) → P (h, HostOutboundSendResult.rejected reason))
    → (h.state ≡ ServerConnectionState.live
        → P (write_with h payload (some causal) (writes h.next_outbound_sequence)))
    → P (send writes h payload causal)
unfolding send write
send_cases P writes h payload causal shut up = go h.state refl
  where
    go : (s : ServerConnectionState) → h.state ≡ s → P (send writes h payload causal)
    go ServerConnectionState.not_started e = rw (e, send) (shut _)
    go ServerConnectionState.failed e = rw (e, send) (shut _)
    go ServerConnectionState.live e = rw (e, send) (up e)
