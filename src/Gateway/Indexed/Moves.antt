-- ===== src/Gateway/Indexed/Moves.antt =====
-- Every move of the gateway keeps its maps in order, so they are in order in every gateway that can
-- be reached: host-gateway.ts.
use ai_block.Prelude.{ℕ, ◌≡◌, refl, String, Bool, false, arith, inl, inr, ◌⊎◌, Bool-cases}
use ai_block.Gateway.Ports.{AuthenticatedHostContext, TransportCall, PortAnswers}
use ai_block.Gateway.State.{HostGateway, core, transport, default_terminal_failure, is_failed}
use ai_block.Gateway.Write.{listen, transport_failure, take_sequence}
use ai_block.Gateway.Receive.{is_displaced, move_to_live, take_inbound, receive_ack}
use ai_block.Gateway.Operations.{occupied, register, Reach}
use ai_block.Gateway.Moves.{
  Move, ends, wastes, breaks, sends, registers, observes, goes_live, takes, hands, acks,
}
use ai_block.Gateway.Moves.Runs.{Reach-invariant}
use ai_block.Gateway.Indexed.{
  IsIndexed, new_gateway-IsIndexed, put-IsIndexed, fail_connection-IsIndexed,
}

listen-IsIndexed :
    {g : HostGateway} → IsIndexed g → (r : ℕ) (t : TransportCall) → IsIndexed (listen g r t)
unfolding listen
listen-IsIndexed v r t = elim (Bool-cases t.reports_failure) [
  | inl e ↦ rw e (fail_connection-IsIndexed v r transport default_terminal_failure)
  | inr e ↦ rw e v
]

transport_failure-IsIndexed :
    {g : HostGateway}
    → IsIndexed g
    → (r : ℕ) (message : String) → IsIndexed (transport_failure g r message).0
unfolding transport_failure
transport_failure-IsIndexed v r message = fail_connection-IsIndexed v r core _

take_sequence-IsIndexed : {g : HostGateway} → IsIndexed g → (r : ℕ) → IsIndexed (take_sequence g r)
take_sequence-IsIndexed v r = put-IsIndexed v r _ refl refl

move_to_live-IsIndexed :
    {g : HostGateway}
    → IsIndexed g
    → (r : ℕ) → is_displaced g r ≡ false
    → IsIndexed (move_to_live g r)
move_to_live-IsIndexed {g} v r h = record {
  pending_actor = λ a x e.
      ground (arith, v.pending_actor a x, v.pending_host (g.connections r).host_instance_id r);
  pending_host = λ a x e. ground (arith, v.pending_host a x);
  live_actor =
      λ a x e. ground (arith, v.live_actor a x, v.pending_actor (g.connections r).actor_id r);
  live_host =
      λ a x e. ground (arith, v.live_host a x, v.pending_actor (g.connections r).actor_id r);
  registered = λ x.
      ground (arith, v.registered x, v.registered r, v.pending_actor (g.connections r).actor_id r);
  apart_actor = λ a. ground (arith, v.apart_actor a);
  apart_host = λ a. ground (arith, v.apart_host a);
  unused = λ x q. ground (arith, v.unused x q, v.pending_actor (g.connections r).actor_id r);
}

register-IsIndexed :
    {g : HostGateway}
    → IsIndexed g
    → (identity : AuthenticatedHostContext) (has_fail : Bool) → occupied g identity ≡ false
    → IsIndexed (register g identity has_fail)
unfolding register
register-IsIndexed {g} v identity has_fail h = record {
  pending_actor = λ a x e. ground (arith, v.pending_actor a x, v.unused x);
  pending_host = λ a x e. ground (arith, v.pending_host a x, v.unused x);
  live_actor = λ a x e. ground (arith, v.live_actor a x, v.unused x);
  live_host = λ a x e. ground (arith, v.live_host a x, v.unused x);
  registered = λ x. ground (arith, v.registered x);
  apart_actor = λ a. ground (arith, v.apart_actor a);
  apart_host = λ a. ground (arith, v.apart_host a);
  unused = λ x q. ground (arith, v.unused x);
}

Move-IsIndexed : (g h : HostGateway) → Move g h → IsIndexed g → IsIndexed h
unfolding receive_ack
Move-IsIndexed g h (ends r origin failure) v = fail_connection-IsIndexed v r origin failure
Move-IsIndexed g h (wastes r m) v = transport_failure-IsIndexed (take_sequence-IsIndexed v r) r m
Move-IsIndexed g h (breaks r t m) v =
    transport_failure-IsIndexed (listen-IsIndexed (take_sequence-IsIndexed v r) r t) r m
Move-IsIndexed g h (sends r payload causal track t id at _ _) v =
    put-IsIndexed (listen-IsIndexed (take_sequence-IsIndexed v r) r t) r _ refl refl
Move-IsIndexed g h (registers identity has_fail free) v =
    register-IsIndexed v identity has_fail free
Move-IsIndexed g h (observes r) v = put-IsIndexed v r _ refl refl
Move-IsIndexed g h (goes_live r stays) v = move_to_live-IsIndexed v r stays
Move-IsIndexed g h (takes r) v = put-IsIndexed v r _ refl refl
Move-IsIndexed g h (hands r message _ _ _) v =
    let w : IsIndexed (take_inbound g r) = put-IsIndexed v r _ refl refl in
    record {
      pending_actor = w.pending_actor;
      pending_host = w.pending_host;
      live_actor = w.live_actor;
      live_host = w.live_host;
      registered = λ x. ground (arith, w.registered x);
      apart_actor = w.apart_actor;
      apart_host = w.apart_host;
      unused = w.unused;
    }
Move-IsIndexed g h (acks r id) v = put-IsIndexed v r _ refl refl

-- In every gateway that can be reached, each map entry names a connection of that key and of that
-- state, every pending or live connection has its two entries, no key is both pending and live, and
-- references that were not given out are failed.
pub Reach-IsIndexed : (ports : PortAnswers) {g : HostGateway} → Reach ports g → IsIndexed g
Reach-IsIndexed ports = Reach-invariant ports IsIndexed new_gateway-IsIndexed Move-IsIndexed

-- In every gateway that can be reached, two connections of the same actor, or of the same host
-- instance, that have not failed are one connection.
pub one_connection :
    (ports : PortAnswers) {g : HostGateway}
    → Reach ports g
    → (r s : ℕ) → is_failed (g.connections r).state ≡ false
    → is_failed (g.connections s).state ≡ false
    → ((g.connections r).actor_id ≡ (g.connections s).actor_id)
      ⊎ ((g.connections r).host_instance_id ≡ (g.connections s).host_instance_id)
    → r ≡ s
one_connection ports {g} reach r s up_r up_s same =
    let v = Reach-IsIndexed ports reach in
    ground (
      arith,
      v.registered r,
      v.registered s,
      v.apart_actor (g.connections r).actor_id,
      v.apart_host (g.connections r).host_instance_id,
    )
