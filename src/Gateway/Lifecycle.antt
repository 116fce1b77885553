-- ===== src/Gateway/Lifecycle.antt =====
-- The life of a connection: opened, registered by its hello, failed, replaced: host-gateway.ts.
use ai_block.Prelude.{
  ℕ, ◌≡◌, ◌≢◌, refl, ap, ◌∙◌, ◌⊎◌, inl, inr, Bool, true, false, Option, none, some, arith, List,
  ◌<◌, returns,
}
use ai_block.Protocol.{
  ServerToHostPayload, ServerToHostMessage, HostToServerPayload, HostToServerMessage, decoded,
}
use ai_block.Gateway.Ports.{
  AuthenticatedHostContext, HostGatewaySendResult, HostGatewayInboundResult, HostGatewayOpenResult,
  HostTransportFailure, WriteAnswers, PortAnswers, pending, live,
}
use ai_block.Gateway.State.{HostGateway, TerminalOrigin, is_failed, remove, fail_connection}
use ai_block.Gateway.Write.{
  listen, transport_failure, take_sequence, write_with, envelope, check_and_transmit, transmit,
  mark_sent,
}
use ai_block.Gateway.Receive.{
  envelope_error, write, receive, receive_decoded, receive_hello, is_displaced, acknowledge,
  take_inbound, move_to_live, commit_live, register_hello, receive_ack,
}
use ai_block.Gateway.Operations.{occupied, open_connection, register, observe, Step}
use ai_block.Gateway.Moves.{
  Move, ends, wastes, breaks, sends, registers, observes, goes_live, takes, hands, acks, Moves-keep,
}
use ai_block.Gateway.Moves.Runs.{Step-Moves}
use ai_block.Gateway.Indexed.{IsIndexed}
use ai_block.Gateway.Receipts.{IsNext}

-- Connection `r` was opened and has failed, having sent just `log`.
abbrev IsOver : ℕ → List ServerToHostMessage → HostGateway → Type 0
IsOver r log g =
    (r < g.opened) × (is_failed (g.connections r).state ≡ true) × ((g.connections r).sent ≡ log)

Move-IsOver :
    (r : ℕ) (log : List ServerToHostMessage) (g h : HostGateway)
    → Move g h
    → IsOver r log g
    → IsOver r log h
unfolding fail_connection remove transport_failure listen register receive_ack
Move-IsOver r log g h (ends x origin failure) o = (ground arith, ground arith, ground arith)
Move-IsOver r log g h (wastes x m) o = (ground arith, ground arith, ground arith)
Move-IsOver r log g h (breaks x t m) o = (ground arith, ground arith, ground arith)
Move-IsOver r log g h (sends x payload causal track t id at up a) o =
    (ground arith, ground arith, ground arith)
Move-IsOver r log g h (registers identity has_fail free) o =
    (ground arith, ground arith, ground arith)
Move-IsOver r log g h (observes x) o = (ground arith, ground arith, ground arith)
Move-IsOver r log g h (goes_live x stays) o = (ground arith, ground arith, ground arith)
Move-IsOver r log g h (takes x) o = (ground arith, ground arith, ground arith)
Move-IsOver r log g h (hands x message _ _ _) o = (ground arith, ground arith, ground arith)
Move-IsOver r log g h (acks x id) o = (ground arith, ground arith, ground arith)

-- Failure is final: with any call of the gateway, a connection that was opened and has failed
-- stays failed, and no message is sent on it.
pub failed_forever :
    (ports : PortAnswers) {g h : HostGateway}
    → Step ports g h
    → (r : ℕ) → r < g.opened
    → is_failed (g.connections r).state ≡ true
    → (is_failed (h.connections r).state ≡ true) × ((h.connections r).sent ≡ (g.connections r).sent)
failed_forever ports {g} s r lt down =
    let (_, still, log) =
      Moves-keep (IsOver r (g.connections r).sent) (Move-IsOver r (g.connections r).sent)
        (Step-Moves ports s) (lt, down, refl) in
    (still, log)

-- In a gateway whose maps are consistent, when a connection that has not failed fails, its actor
-- and its host instance are free for a new connection at once, and the entries of every other
-- actor and host instance stay.
pub fail_frees :
    (g : HostGateway) (r : ℕ) (origin : TerminalOrigin) (failure : HostTransportFailure)
    → IsIndexed g
    → is_failed (g.connections r).state ≡ false
    → let h = fail_connection g r origin failure in
      (occupied h (g.connections r).identity ≡ false)
      × ((a : ℕ)
          → a ≢ (g.connections r).actor_id
          → (h.live_by_actor a ≡ g.live_by_actor a) × (h.pending_by_actor a ≡ g.pending_by_actor a))
      × ((i : ℕ)
          → i ≢ (g.connections r).host_instance_id
          → (h.live_by_host i ≡ g.live_by_host i) × (h.pending_by_host i ≡ g.pending_by_host i))
unfolding fail_connection remove
fail_frees g r origin failure v up = (
  ground (
    arith,
    v.registered r,
    v.apart_actor (g.connections r).actor_id,
    v.apart_host (g.connections r).host_instance_id,
  ),
  λ a ne. (ground arith, ground arith),
  λ i ne. (ground arith, ground arith),
)

hello_committed :
    (g : HostGateway) (r : ℕ) (m : ServerToHostMessage)
    → IsIndexed g
    → (g.connections r).state ≡ pending
    → is_displaced (mark_sent (take_sequence g r) r m false) r ≡ false
hello_committed g r m v p = ground (
  arith,
  v.registered r,
  v.apart_actor (g.connections r).actor_id,
  v.apart_host (g.connections r).host_instance_id,
)

register_hello-sent :
    (g : HostGateway) (r : ℕ) (m : ServerToHostMessage)
    → IsIndexed g
    → (g.connections r).state ≡ pending
    → let g' = mark_sent (take_sequence g r) r m false in
      register_hello (g', HostGatewaySendResult.sent m) r
      ≡ (take_inbound (move_to_live g' r) r, HostGatewayInboundResult.hello_registered m)
unfolding register_hello commit_live
register_hello-sent g r m v p = rw (hello_committed g r m v p) (ground arith)

module _ (ports : PortAnswers) where
  accepted-occupied :
      (g : HostGateway) (identity other : AuthenticatedHostContext) (has_fail : Bool) (r : ℕ)
      → (open_connection ports g identity has_fail).1 ≡ HostGatewayOpenResult.accepted r
      → (other.actor_id ≡ identity.actor_id) ⊎ (other.host_instance_id ≡ identity.host_instance_id)
      → occupied (open_connection ports g identity has_fail).0 other ≡ true
  unfolding open_connection register observe listen fail_connection remove
  accepted-occupied g identity other has_fail r e same = ground arith

  -- Right after a connection was accepted, a connection for its actor or for its host instance is
  -- refused, and the gateway stays as it is.
  pub open_excludes :
      (g : HostGateway) (identity other : AuthenticatedHostContext) (has_fail other_fail : Bool)
      (r : ℕ)
      → (open_connection ports g identity has_fail).1 ≡ HostGatewayOpenResult.accepted r
      → (other.actor_id ≡ identity.actor_id) ⊎ (other.host_instance_id ≡ identity.host_instance_id)
      → let h = (open_connection ports g identity has_fail).0 in
        open_connection ports h other other_fail ≡ (h, HostGatewayOpenResult.connection_exists)
  unfolding open_connection
  open_excludes g identity other has_fail other_fail r e same =
      rw (accepted-occupied g identity other has_fail r e same)

  -- The ports let a write through: an id and a time are given, the contract accepts the envelope, a
  -- validator that is set does so too, and the transport takes it without a failure.
  abbrev LetsThrough : WriteAnswers → Type 0
  LetsThrough a =
      ((id : ℕ) × (a.next_message_id ≡ returns id))
      × ((at : ℕ) × (a.now ≡ returns at))
      × (a.contract_ok ≡ true)
      × ((a.outbound_envelope_validator ≡ none)
          ⊎ (a.outbound_envelope_validator ≡ some (returns true)))
      × (a.send.reports_failure ≡ false)
      × (a.send.result ≡ returns tt)

  write_with-sent :
      (g : HostGateway) (r : ℕ) (payload : ServerToHostPayload) (causal : Option ℕ) (track : Bool)
      (a : WriteAnswers)
      → LetsThrough a
      → (m : ServerToHostMessage) × (write_with g r payload causal track a
          ≡ (mark_sent (take_sequence g r) r m track, HostGatewaySendResult.sent m))
  unfolding write_with check_and_transmit transmit listen
  write_with-sent g r payload causal track a ((id, i), (at, t), valid, inl none_set, quiet, done) =
      (envelope payload causal (g.connections r).next_outbound_sequence id at, ground arith)
  write_with-sent g r payload causal track a ((id, i), (at, t), valid, inr accepts, quiet, done) =
      (envelope payload causal (g.connections r).next_outbound_sequence id at, ground arith)

  acknowledge-sent :
      (g : HostGateway) (r : ℕ) (message : HostToServerMessage)
      → LetsThrough (ports.writes r (g.connections r).next_outbound_sequence)
      → (m : ServerToHostMessage) × (acknowledge ports g r message
          ≡ (mark_sent (take_sequence g r) r m false, HostGatewaySendResult.sent m))
  unfolding write
  acknowledge-sent g r message through = write_with-sent g r _ _ false _ through

  receive-register_hello :
      (g : HostGateway) (r : ℕ) (message : HostToServerMessage)
      → (g.connections r).state ≡ pending
      → IsNext g r message
      → message.payload
        ≡ HostToServerPayload.host_hello
            (g.connections r).project_id
            (g.connections r).host_instance_id
            (g.connections r).actor_id
      → receive ports g r (decoded message) ≡ register_hello (acknowledge ports g r message) r
  unfolding receive receive_decoded receive_hello
  receive-register_hello g r message p (gen, seq) e =
      rw (p, receive)
        (rw (in_order, receive_decoded)
          (rw (p, receive_decoded) (rw (e, receive_hello) (ground arith))))
    where
      in_order : envelope_error (g.connections r) message ≡ none
      in_order = ground arith

  -- In a gateway whose maps are consistent, a pending connection whose first message is the hello
  -- of its own host, next in order, goes live when the ports let the acknowledgement through: both
  -- live maps name it, and no pending map does.
  pub hello_goes_live :
      (g : HostGateway) (r : ℕ) (message : HostToServerMessage)
      → IsIndexed g
      → (g.connections r).state ≡ pending
      → IsNext g r message
      → message.payload
        ≡ HostToServerPayload.host_hello
            (g.connections r).project_id
            (g.connections r).host_instance_id
            (g.connections r).actor_id
      → LetsThrough (ports.writes r (g.connections r).next_outbound_sequence)
      → let (h, result) = receive ports g r (decoded message) in
        ((m : ServerToHostMessage) × (result ≡ HostGatewayInboundResult.hello_registered m))
        × ((h.connections r).state ≡ live)
        × (h.live_by_actor (g.connections r).actor_id ≡ some r)
        × (h.live_by_host (g.connections r).host_instance_id ≡ some r)
        × (h.pending_by_actor (g.connections r).actor_id ≡ none)
        × (h.pending_by_host (g.connections r).host_instance_id ≡ none)
  hello_goes_live g r message v p n e through =
      let (m, w) = acknowledge-sent g r message through in
      rw
        (receive-register_hello g r message p n e
          ∙ ap (λ s. register_hello s r) w
          ∙ register_hello-sent g r m v p)
        ((m, refl), ground arith, ground arith, ground arith, ground arith, ground arith)
