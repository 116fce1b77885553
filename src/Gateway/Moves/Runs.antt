-- ===== src/Gateway/Moves/Runs.antt =====
-- Each operation of the gateway is a run of moves: host-gateway.ts.
use ai_block.Prelude.{
  ℕ, ◌≡◌, refl, inl, inr, Bool, true, false, Option, none, arith, Bool-cases, Option-cases,
  Attempt-cases,
}
use ai_block.Protocol.{
  ServerToHostPayload, HostToServerPayload, HostToServerMessage, Decoded, decoded, undecodable,
  ContractErrorEnvelope,
}
use ai_block.Gateway.Ports.{
  AuthenticatedHostContext, HostGatewaySendResult, InboundRejection, TransportCall, WriteAnswers,
  PortAnswers,
}
use ai_block.Gateway.State.{
  HostGateway, core, transport, default_terminal_failure, is_failed, is_live, is_pending,
  new_gateway, fail_connection,
}
use ai_block.Gateway.Write.{listen, transport_failure, write_with}
use ai_block.Gateway.WriteCases.{write_cases}
use ai_block.Gateway.Receive.{
  is_hello, matches_hello_identity, matches_post_hello_identity, matches_outbound_identity,
  is_displaced, commit_live, reject, write, acknowledge, register_hello, receive_hello,
  deliver_fact, receive_live_payload, receive_live, receive_decoded, receive, send, envelope_error,
}
use ai_block.Gateway.Operations.{
  register, observe, occupied, open_connection, send_command, Step, opens, receives, commands,
  fails, Reach, start, next,
}
use ai_block.Gateway.Operations
use ai_block.Gateway.Moves.{
  Move, ends, wastes, breaks, sends, registers, observes, goes_live, takes, hands, acks, Moves,
  stay, after, Moves-trans, Moves-keep,
}

-- What a write leaves alone of its connection.
abbrev SameInbound : HostGateway → HostGateway → ℕ → Type 0
SameInbound g h r =
    ((h.connections r).identity ≡ (g.connections r).identity)
    × ((h.connections r).next_inbound_sequence ≡ (g.connections r).next_inbound_sequence)

write_with-SameInbound :
    (g : HostGateway) (r : ℕ) (payload : ServerToHostPayload) (causal : Option ℕ) (track : Bool)
    (a : WriteAnswers)
    → SameInbound g (write_with g r payload causal track a).0 r
unfolding transport_failure listen fail_connection
write_with-SameInbound g r payload causal track a =
    write_cases (λ p. SameInbound g p.0 r) g r payload causal track a (λ m. ground arith)
      (λ m. ground arith) (λ id at. ground arith)

write_with-Moves :
    (g : HostGateway) (r : ℕ) (payload : ServerToHostPayload) (causal : Option ℕ) (track : Bool)
    (a : WriteAnswers)
    → is_failed (g.connections r).state ≡ false
    → matches_outbound_identity (g.connections r).identity payload ≡ true
    → Moves g (write_with g r payload causal track a).0
write_with-Moves g r payload causal track a up m =
    write_cases (λ p. Moves g p.0) g r payload causal track a (λ m. after stay (wastes r m))
      (λ m. after stay (breaks r a.send m))
      (λ id at. after stay (sends r payload causal track a.send id at up m))

commit_live-Moves : (g : HostGateway) (r : ℕ) → Moves g (commit_live g r)
unfolding commit_live
commit_live-Moves g r = elim (Bool-cases (is_displaced g r)) [
  | inl e ↦ rw (e, commit_live) (after stay (ends r core default_terminal_failure))
  | inr e ↦ rw (e, commit_live) (after stay (goes_live r e))
]

register_hello-Moves :
    (g : HostGateway) (s : HostGatewaySendResult) (r : ℕ) → Moves g (register_hello (g, s) r).0
unfolding register_hello
register_hello-Moves g (HostGatewaySendResult.sent m) r =
    elim (Bool-cases (is_failed ((commit_live g r).connections r).state)) [
      | inl e ↦ rw e (commit_live-Moves g r)
      | inr e ↦ rw e (after (commit_live-Moves g r) (takes r))
    ]
register_hello-Moves g (HostGatewaySendResult.rejected m) r = stay
register_hello-Moves g (HostGatewaySendResult.transport_failed m) r = stay

reject-Moves :
    (g : HostGateway) (r : ℕ) (reason : InboundRejection) (error : Option ContractErrorEnvelope)
    → Moves g (reject g r reason error).0
unfolding reject
reject-Moves g r reason error = after stay (ends r core default_terminal_failure)

module _ (ports : PortAnswers) where
  acknowledge-Moves :
      (g : HostGateway) (r : ℕ) (message : HostToServerMessage)
      → is_failed (g.connections r).state ≡ false
      → Moves g (acknowledge ports g r message).0
  unfolding write
  acknowledge-Moves g r message up = write_with-Moves g r _ _ _ _ up refl

  acknowledge-SameInbound :
      (g : HostGateway) (r : ℕ) (message : HostToServerMessage)
      → SameInbound g (acknowledge ports g r message).0 r
  unfolding write
  acknowledge-SameInbound g r message = write_with-SameInbound g r _ _ _ _

  receive_hello-Moves :
      (g : HostGateway) (r : ℕ) (message : HostToServerMessage)
      → is_failed (g.connections r).state ≡ false
      → Moves g (receive_hello ports g r message).0
  unfolding receive_hello
  receive_hello-Moves g r message up = elim (Bool-cases (is_hello message.payload)) [
    | inr e ↦ rw e (reject-Moves g r _ _)
    | inl e ↦
        rw e
          (elim (Bool-cases (matches_hello_identity (g.connections r).identity message.payload)) [
            | inr f ↦ rw f (reject-Moves g r _ _)
            | inl f ↦
                rw f (Moves-trans (acknowledge-Moves g r message up) (register_hello-Moves _ _ r))
          ])
  ]

  deliver_fact-Moves :
      (g : HostGateway) (s : HostGatewaySendResult) (r : ℕ) (message : HostToServerMessage)
      → is_hello message.payload ≡ false
      → matches_post_hello_identity (g.connections r).identity message.payload ≡ true
      → envelope_error (g.connections r) message ≡ none
      → Moves g (deliver_fact ports (g, s) r message).0
  unfolding deliver_fact
  deliver_fact-Moves g (HostGatewaySendResult.sent m) r message h i e =
      elim (Attempt-cases (ports.accept r (g.connections r).next_inbound_sequence)) [
        | inl (_, q) ↦ rw (q, deliver_fact) (after stay (hands r message h i e))
        | inr (_, q) ↦
            rw (q, deliver_fact) (after (after stay (hands r message h i e)) (ends r core _))
      ]
  deliver_fact-Moves g (HostGatewaySendResult.rejected m) r message h i e = stay
  deliver_fact-Moves g (HostGatewaySendResult.transport_failed m) r message h i e = stay

  receive_fact-Moves :
      (g : HostGateway) (r : ℕ) (message : HostToServerMessage)
      → is_failed (g.connections r).state ≡ false
      → is_hello message.payload ≡ false
      → matches_post_hello_identity (g.connections r).identity message.payload ≡ true
      → envelope_error (g.connections r) message ≡ none
      → Moves g (deliver_fact ports (acknowledge ports g r message) r message).0
  receive_fact-Moves g r message up h i e =
      let (same, same_next) = acknowledge-SameInbound g r message in
      Moves-trans (acknowledge-Moves g r message up)
        (deliver_fact-Moves _ _ r message h (rw same i) (rw same_next e))

  receive_live_payload-Moves :
      (g : HostGateway) (r : ℕ) (message : HostToServerMessage) (p : HostToServerPayload)
      → Moves g (deliver_fact ports (acknowledge ports g r message) r message).0
      → Moves g (receive_live_payload ports g r message p).0
  unfolding receive_live_payload
  receive_live_payload-Moves g r message (HostToServerPayload.ack id) m = after stay (acks r id)
  receive_live_payload-Moves g r message _ m = m

  receive_live-Moves :
      (g : HostGateway) (r : ℕ) (message : HostToServerMessage)
      → is_failed (g.connections r).state ≡ false
      → envelope_error (g.connections r) message ≡ none
      → Moves g (receive_live ports g r message).0
  unfolding receive_live
  receive_live-Moves g r message up q = elim (Bool-cases (is_hello message.payload)) [
    | inl e ↦ rw e (reject-Moves g r _ _)
    | inr e ↦
        rw e
          (elim (Bool-cases
            (matches_post_hello_identity (g.connections r).identity message.payload)) [
              | inr f ↦ rw f (reject-Moves g r _ _)
              | inl f ↦ rw f (
                  receive_live_payload-Moves g r message message.payload
                    (receive_fact-Moves g r message up e f q))
            ])
  ]

  receive_decoded-Moves :
      (g : HostGateway) (r : ℕ) (message : HostToServerMessage)
      → is_failed (g.connections r).state ≡ false
      → Moves g (receive_decoded ports g r message).0
  unfolding receive_decoded
  receive_decoded-Moves g r message up =
      elim (Option-cases (envelope_error (g.connections r) message)) [
        | inr (reason, e) ↦ rw (e, receive_decoded) (reject-Moves g r reason none)
        | inl e ↦
            rw (e, receive_decoded)
              (elim (Bool-cases (is_pending (g.connections r).state)) [
                | inl p ↦ rw p (receive_hello-Moves g r message up)
                | inr p ↦ rw p (receive_live-Moves g r message up e)
              ])
      ]

  pub receive-Moves :
      (g : HostGateway) (r : ℕ) (input : Decoded HostToServerMessage)
      → Moves g (receive ports g r input).0
  unfolding receive
  receive-Moves g r (decoded message) = elim (Bool-cases (is_failed (g.connections r).state)) [
    | inl e ↦ rw e stay
    | inr e ↦ rw e (receive_decoded-Moves g r message e)
  ]
  receive-Moves g r (undecodable error) = elim (Bool-cases (is_failed (g.connections r).state)) [
    | inl e ↦ rw e stay
    | inr e ↦ rw e (reject-Moves g r _ _)
  ]

  pub send-Moves :
      (g : HostGateway) (r : ℕ) (payload : ServerToHostPayload) (causal : Option ℕ)
      → Moves g (send ports g r payload causal).0
  unfolding send write
  send-Moves g r payload causal = elim (Bool-cases (is_failed (g.connections r).state)) [
    | inl e ↦ rw e stay
    | inr e ↦ rw e (elim (Bool-cases (is_live (g.connections r).state)) [
      | inr p ↦ rw p stay
      | inl p ↦
          rw p (elim (Bool-cases (matches_outbound_identity (g.connections r).identity payload)) [
            | inr f ↦ rw f stay
            | inl f ↦ rw f (write_with-Moves g r payload causal true _ e f)
          ])
    ])
  ]

  pub send_command-Moves :
      (g : HostGateway) (actor_id : ℕ) (payload : ServerToHostPayload) (causal : Option ℕ)
      → Moves g (send_command ports g actor_id payload causal).0
  unfolding send_command
  send_command-Moves g actor_id payload causal = elim (Option-cases (g.live_by_actor actor_id)) [
    | inl e ↦ rw (e, send_command) stay
    | inr (r, e) ↦ rw (e, send_command) (send-Moves g r payload causal)
  ]

  listen-Moves : (g : HostGateway) (r : ℕ) (t : TransportCall) → Moves g (listen g r t)
  unfolding listen
  listen-Moves g r t = elim (Bool-cases t.reports_failure) [
    | inl e ↦ rw e (after stay (ends r transport default_terminal_failure))
    | inr e ↦ rw e stay
  ]

  observe-Moves : (g : HostGateway) (r : ℕ) (t : TransportCall) → Moves g (observe g r t).0
  unfolding observe
  observe-Moves g r t = elim (Attempt-cases t.result) [
    | inl (_, e) ↦ rw (e, observe) (after (listen-Moves g r t) (observes r))
    | inr (_, e) ↦ rw (e, observe) (after (listen-Moves g r t) (ends r core _))
  ]

  pub open_connection-Moves :
      (g : HostGateway) (identity : AuthenticatedHostContext) (has_fail : Bool)
      → Moves g (open_connection ports g identity has_fail).0
  unfolding open_connection
  open_connection-Moves g identity has_fail = elim (Bool-cases (occupied g identity)) [
    | inl e ↦ rw e stay
    | inr e ↦ rw e (
        Moves-trans (after stay (registers identity has_fail e))
          (observe-Moves (register g identity has_fail) g.opened _))
  ]

  pub Step-Moves : {g h : HostGateway} → Step ports g h → Moves g h
  Step-Moves (opens identity has_fail) = open_connection-Moves _ identity has_fail
  Step-Moves (receives r input) = receive-Moves _ r input
  Step-Moves (Operations.sends r payload causal) = send-Moves _ r payload causal
  Step-Moves (commands a payload causal) = send_command-Moves _ a payload causal
  Step-Moves (fails r) = after stay (ends r transport default_terminal_failure)

  -- What holds at the start and is kept by every move holds in every reachable gateway.
  pub Reach-invariant {ℓ} :
      (P : HostGateway → Type ℓ)
      → P new_gateway
      → ((g h : HostGateway) → Move g h → P g → P h)
      → {g : HostGateway} → Reach ports g
      → P g
  Reach-invariant P p keep start = p
  Reach-invariant P p keep (next r s) =
      Moves-keep P keep (Step-Moves s) (Reach-invariant P p keep r)
