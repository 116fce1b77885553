-- ===== src/ActorHost/Acknowledged.antt =====
-- A command is acknowledged before it is carried out: command-processor.ts.
use ai_block.Prelude.{
  ℕ, ◌≡◌, ◌≢◌, refl, ◌∙◌, sym, ◌⊎◌, inl, inr, true, false, none, some, List, [], ◌∷◌, ◌++◌, returns,
  Attempt, arith,
}
use ai_block.Protocol.{
  HostToServerPayload, ServerToHostMessage, HostToServerMessage, Decoded, decoded, undecodable,
}
use ai_block.ActorHost.State.{
  ActorHost, ServerConnectionState, WriteAnswers, BackendAnswers, CommandDisposition, InboundResult,
  HostOutboundSendResult, HostOutboundSendError,
}
use ai_block.ActorHost.Redaction.{redact_outbound_payload}
use ai_block.ActorHost.Connection.{envelope_error, send, write, envelope}
use ai_block.ActorHost.Commands.{
  emit, is_ack, acknowledged, take_inbound, process, receive_live, receive,
}
use ai_block.ActorHost.Writes.{took, write_cases, send_cases}
use ai_block.ActorHost.Orderly.{is_failed, is_live, is_hello}
use ai_block.ActorHost.Runs.{acknowledged_keeps}
use mathlib.Core.List.{append_assoc, append-nil}

-- The host has sent these messages, and then perhaps more.
abbrev HasSent : List HostToServerMessage → ActorHost → Type 0
HasSent ms h = (rest : List HostToServerMessage) × (h.sent ≡ ms ++ rest)

emit-HasSent :
    (ms : List HostToServerMessage) (writes : ℕ → WriteAnswers) (h : ActorHost)
    (payload : HostToServerPayload) (causal : ℕ)
    → is_hello payload ≡ false
    → HasSent ms h
    → HasSent ms (emit writes h payload causal).0
unfolding emit
emit-HasSent ms writes h payload causal _ (rest, e) =
    send_cases (λ x. HasSent ms x.0) writes h (redact_outbound_payload payload) causal
      (λ r. (rest, e))
      λ live.
        write_cases (λ x. HasSent ms x.0) h (redact_outbound_payload payload) (some causal)
          (writes h.next_outbound_sequence) (λ m. (rest, e)) (λ m. (rest, ground arith))
          λ id at. (
            rest ++ envelope h (redact_outbound_payload payload) (some causal) id at ∷ [],
            rw e (append_assoc ms rest _),
          )

-- The ways in which a command in turn can end.
abbrev pub Acknowledged : ActorHost → ServerToHostMessage → ActorHost → Type 0
Acknowledged h m k =
    (a : HostToServerMessage) × (rest : List HostToServerMessage) × (k.sent ≡ h.sent ++ a ∷ rest)
    × (a.payload ≡ HostToServerPayload.ack m.message_id)
    × (a.correlation_id ≡ some m.message_id)

abbrev pub Dropped : ActorHost → ActorHost → Attempt InboundResult → Type 0
Dropped h k result =
    (k.sent ≡ h.sent)
    × (k.supervisor ≡ h.supervisor)
    × (k.subscriptions ≡ h.subscriptions)
    × (is_failed k.state ≡ true)
    × ((error : HostOutboundSendError) × (result
          ≡ returns (InboundResult.accepted (CommandDisposition.transport_failed error))))

-- `receive` gives the message to nobody.
abbrev pub IsRefused : ActorHost → Decoded ServerToHostMessage → Type 0
IsRefused h (undecodable error) = Unit {0}
IsRefused h (decoded m) =
    (is_live h.state ≡ false)
    ⊎ (m.connection_generation ≢ h.connection_generation)
    ⊎ (m.sender_sequence ≢ h.next_inbound_sequence)

acknowledges :
    (writes : ℕ → WriteAnswers) (h : ActorHost) (m : ServerToHostMessage) (backend : BackendAnswers)
    → h.state ≡ ServerConnectionState.live
    → is_ack m.payload ≡ false
    → let (k, disposition) = process writes (take_inbound h m) m backend in
      Acknowledged h m k ⊎ Dropped h k (ai_block.ActorHost.Commands.accepted disposition)
unfolding process emit send write redact_outbound_payload acknowledged
acknowledges writes h m backend live command =
    rw (command, process, live, send)
      (write_cases
        (λ x.
          Acknowledged h m (acknowledged writes x.0 x.1 m backend).0
          ⊎ Dropped h (acknowledged writes x.0 x.1 m backend).0
              (ai_block.ActorHost.Commands.accepted (acknowledged writes x.0 x.1 m backend).1))
        (take_inbound h m) (HostToServerPayload.ack m.message_id) (some m.message_id)
        (writes h.next_outbound_sequence) (λ e. inr (refl, refl, refl, refl, (_, refl)))
        (λ e. inr (ground arith, ground arith, ground arith, refl, (_, refl)))
        λ id at.
          let a : HostToServerMessage =
            envelope (take_inbound h m) (HostToServerPayload.ack m.message_id) (some m.message_id)
              id at in
          let (rest, e) =
            acknowledged_keeps (HasSent (h.sent ++ a ∷ [])) writes
              (emit-HasSent (h.sent ++ a ∷ []) writes) (λ k sv ss p. p)
              (took (take_inbound h m) a (writes h.next_outbound_sequence).send)
              HostOutboundSendResult.sent m backend ([], sym (append-nil _)) in
          inl (a, rest, e ∙ append_assoc h.sent (a ∷ []) rest, refl, refl))

-- A command that a live host receives in turn is acknowledged before anything that it leads to: the
-- first message that the host sends is the ack of the command, with the command as its cause. Else
-- the ack was not sent; then nothing is, the supervisor is untouched, the connection has failed, and
-- the result reports the failure of the transport.
pub receive_acknowledges :
    (writes : ℕ → WriteAnswers) (h : ActorHost) (m : ServerToHostMessage) (backend : BackendAnswers)
    → h.state ≡ ServerConnectionState.live
    → envelope_error h m ≡ none
    → is_ack m.payload ≡ false
    → let (k, result) = receive writes h (decoded m) backend in
      Acknowledged h m k ⊎ Dropped h k result
unfolding receive receive_live
receive_acknowledges writes h m backend live turn command =
    rw (live, receive, turn, receive_live) (acknowledges writes h m backend live command)

-- A message that comes out of turn or for another generation, one that cannot be decoded, and every
-- message on a connection that is not live, changes nothing and is not acknowledged.
pub receive_refuses :
    (writes : ℕ → WriteAnswers) (h : ActorHost) (input : Decoded ServerToHostMessage)
    (backend : BackendAnswers)
    → IsRefused h input
    → (receive writes h input backend).0 ≡ h
unfolding receive receive_live
receive_refuses writes h (undecodable error) backend refused = ground arith
receive_refuses writes h (decoded m) backend refused = ground (arith, refused)
