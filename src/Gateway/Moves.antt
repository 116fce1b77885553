-- ===== src/Gateway/Moves.antt =====
-- The atomic changes of the gateway: every operation is a run of them. host-gateway.ts.
pub mod Runs
use ai_block.Prelude.{ℕ, ◌≡◌, Bool, true, false, Option, none, String}
use ai_block.Protocol.{ServerToHostPayload, HostToServerMessage}
use ai_block.Gateway.Ports.{AuthenticatedHostContext, HostTransportFailure, TransportCall}
use ai_block.Gateway.State.{HostGateway, TerminalOrigin, core, is_failed, put, fail_connection}
use ai_block.Gateway.Write.{listen, transport_failure, mark_sent, envelope, take_sequence}
use ai_block.Gateway.Receive.{
  is_hello, matches_post_hello_identity, matches_outbound_identity, envelope_error, is_displaced,
  move_to_live, take_inbound, hand_over, receive_ack,
}
use ai_block.Gateway.Operations.{occupied, register}

pub data Move (g : HostGateway) : HostGateway → Type 0 where
  ends :
      (r : ℕ) (origin : TerminalOrigin) (failure : HostTransportFailure)
      → Move g (fail_connection g r origin failure)
  wastes : (r : ℕ) (m : String) → Move g (transport_failure (take_sequence g r) r m).0
  breaks :
      (r : ℕ) (t : TransportCall) (m : String)
      → Move g (transport_failure (listen (take_sequence g r) r t) r m).0
  sends :
      (r : ℕ) (payload : ServerToHostPayload) (causal : Option ℕ) (track : Bool) (t : TransportCall)
      (id at : ℕ)
      → is_failed (g.connections r).state ≡ false
      → matches_outbound_identity (g.connections r).identity payload ≡ true
      → Move g (
          mark_sent
            (listen (take_sequence g r) r t)
            r
            (envelope payload causal (g.connections r).next_outbound_sequence id at)
            track)
  registers :
      (identity : AuthenticatedHostContext) (has_fail : Bool)
      → occupied g identity ≡ false
      → Move g (register g identity has_fail)
  observes : (r : ℕ) → Move g (put g r (record (g.connections r) { subscribed = true }))
  goes_live : (r : ℕ) → is_displaced g r ≡ false → Move g (move_to_live g r)
  takes : (r : ℕ) → Move g (take_inbound g r)
  hands :
      (r : ℕ) (message : HostToServerMessage)
      → is_hello message.payload ≡ false
      → matches_post_hello_identity (g.connections r).identity message.payload ≡ true
      → envelope_error (g.connections r) message ≡ none
      → Move g (hand_over g r message)
  acks : (r id : ℕ) → Move g (receive_ack g r id).0

pub data Moves (g : HostGateway) : HostGateway → Type 0 where
  stay : Moves g g
  after : {h k : HostGateway} → Moves g h → Move h k → Moves g k

pub Moves-trans : {g h k : HostGateway} → Moves g h → Moves h k → Moves g k
Moves-trans m stay = m
Moves-trans m (after n s) = after (Moves-trans m n) s

-- A property that every move keeps is kept by every run of moves.
pub Moves-keep {ℓ} :
    (P : HostGateway → Type ℓ)
    → ((g h : HostGateway) → Move g h → P g → P h)
    → {g h : HostGateway} → Moves g h
    → P g
    → P h
Moves-keep P keep stay p = p
Moves-keep P keep (after m s) p = keep _ _ s (Moves-keep P keep m p)
