-- ===== src/Gateway/Traffic.antt =====
-- What a connection of the gateway has sent: host-gateway.ts.
use ai_block.Prelude.{
  ℕ, ◌+◌, ap, ◌≡◌, refl, sym, subst, ◌∙◌, true, false, List, [], ◌∷◌, ◌++◌, map, map-append, arith,
  length, length-append_one, All, All-append, upto,
}
use ai_block.Protocol.{ServerToHostMessage, ServerToHostPayload}
use ai_block.Gateway.Ports.{AuthenticatedHostContext, PortAnswers}
use native.Mathlib.Decide.{ℕ_discrete}
use ai_block.Gateway.State.{
  HostGateway, GatewayConnection, is_failed, host_connection_generation, new_gateway,
  fail_connection,
}
use ai_block.Gateway.Write.{listen, transport_failure, envelope}
use ai_block.Gateway.Receive.{matches_outbound_identity, receive_ack}
use ai_block.Gateway.Operations.{register, Reach}
use ai_block.Gateway.Moves.{
  Move, ends, wastes, breaks, sends, registers, observes, goes_live, takes, hands, acks,
}
use ai_block.Gateway.Moves.Runs.{Reach-invariant}

abbrev pub numbers : List ServerToHostMessage → List ℕ
numbers = map λ m. m.sender_sequence

-- What a message that starts a host or an invocation is for.
abbrev pub IsFor : AuthenticatedHostContext → ServerToHostPayload → Type 0
IsFor identity (ServerToHostPayload.initialize_actor_host spec) =
    (spec.project_id ≡ identity.project_id) × (spec.actor_id ≡ identity.actor_id)
IsFor identity (ServerToHostPayload.start_invocation spec) =
    (spec.project_id ≡ identity.project_id) × (spec.actor_id ≡ identity.actor_id)
IsFor identity (ServerToHostPayload.stop_invocation id reason) = Unit {0}
IsFor identity (ServerToHostPayload.shutdown_host reason) = Unit {0}
IsFor identity (ServerToHostPayload.ack id) = Unit {0}

matching-IsFor :
    (identity : AuthenticatedHostContext) (payload : ServerToHostPayload)
    → matches_outbound_identity identity payload ≡ true
    → IsFor identity payload
matching-IsFor identity (ServerToHostPayload.initialize_actor_host spec) e =
    (ground (arith, e), ground (arith, e))
matching-IsFor identity (ServerToHostPayload.start_invocation spec) e =
    (ground (arith, e), ground (arith, e))
matching-IsFor identity (ServerToHostPayload.stop_invocation id reason) e = tt
matching-IsFor identity (ServerToHostPayload.shutdown_host reason) e = tt
matching-IsFor identity (ServerToHostPayload.ack id) e = tt

-- The server puts its generation and the identities of the host on a message.
abbrev pub IsAddressed : AuthenticatedHostContext → ServerToHostMessage → Type 0
IsAddressed identity m =
    IsFor identity m.payload × (m.connection_generation ≡ host_connection_generation)

pub record IsOrderly (c : GatewayConnection) : Type 0 where
  pub numbered : numbers c.sent ≡ upto (length c.sent)
  pub complete : is_failed c.state ≡ false → length c.sent ≡ c.next_outbound_sequence
  pub addressed : All (IsAddressed c.identity) c.sent

abbrev pub AllOrderly : HostGateway → Type 0
AllOrderly g = (r : ℕ) → IsOrderly (g.connections r)

-- A change of a connection that adds no message.
same-IsOrderly :
    (c d : GatewayConnection)
    → d.sent ≡ c.sent
    → d.identity ≡ c.identity
    → (is_failed d.state ≡ false
        → (is_failed c.state ≡ false) × (d.next_outbound_sequence ≡ c.next_outbound_sequence))
    → IsOrderly c
    → IsOrderly d
same-IsOrderly c d s i n o = record {
  numbered = rw s o.numbered;
  complete = λ up. let (was, same) = n up in ap length s ∙ o.complete was ∙ sym same;
  addressed = rw (s, i) o.addressed;
}

-- A message with the next number is added.
grow-IsOrderly :
    (c d : GatewayConnection) (m : ServerToHostMessage)
    → d.sent ≡ c.sent ++ m ∷ []
    → d.identity ≡ c.identity
    → d.next_outbound_sequence ≡ c.next_outbound_sequence + 1
    → is_failed c.state ≡ false
    → m.sender_sequence ≡ c.next_outbound_sequence
    → IsAddressed c.identity m
    → IsOrderly c
    → IsOrderly d
grow-IsOrderly c d m s i n up q a o = record {
  numbered = rw (s, length-append_one c.sent m, map-append, o.numbered, q, o.complete up);
  complete = λ _. rw (s, length-append_one c.sent m, n, o.complete up) (omega arith);
  addressed = rw (s, i) (All-append _ c.sent (m ∷ []) o.addressed (a, tt));
}

fresh-IsOrderly : (d : GatewayConnection) → d.sent ≡ [] → d.next_outbound_sequence ≡ 0 → IsOrderly d
fresh-IsOrderly d s n = record { numbered = rw s; complete = λ up. rw (s, n); addressed = rw s tt }

new_gateway-AllOrderly : AllOrderly new_gateway
new_gateway-AllOrderly r = record { numbered = refl; complete = λ h. cc; addressed = tt }

Move-AllOrderly : (g h : HostGateway) → Move g h → AllOrderly g → AllOrderly h
unfolding transport_failure listen fail_connection register receive_ack
Move-AllOrderly g h (ends r origin failure) o x =
    same-IsOrderly (g.connections x) _ (ground arith) (ground arith) (λ up. ground arith) (o x)
Move-AllOrderly g h (wastes r m) o x =
    same-IsOrderly (g.connections x) _ (ground arith) (ground arith) (λ up. ground arith) (o x)
Move-AllOrderly g h (breaks r t m) o x =
    same-IsOrderly (g.connections x) _ (ground arith) (ground arith) (λ up. ground arith) (o x)
Move-AllOrderly g h (sends r payload causal track t id at up a) o x = elim (ℕ_discrete r x) [
  | yes e ↦
      grow-IsOrderly (g.connections x) _
        (envelope payload causal (g.connections r).next_outbound_sequence id at) (ground arith)
        (ground arith) (ground arith) (ground arith) (ground arith)
        (
          subst (λ y. IsFor (g.connections y).identity payload) e
              (matching-IsFor (g.connections r).identity payload a),
          refl,
        )
        (o x)
  | no ne ↦
      same-IsOrderly (g.connections x) _ (ground arith) (ground arith) (λ up. ground arith) (o x)
]
Move-AllOrderly g h (registers identity has_fail free) o x = elim (ℕ_discrete g.opened x) [
  | yes e ↦ fresh-IsOrderly _ (ground arith) (ground arith)
  | no ne ↦
      same-IsOrderly (g.connections x) _ (ground arith) (ground arith) (λ up. ground arith) (o x)
]
Move-AllOrderly g h (observes r) o x =
    same-IsOrderly (g.connections x) _ (ground arith) (ground arith) (λ up. ground arith) (o x)
Move-AllOrderly g h (goes_live r stays) o x =
    same-IsOrderly (g.connections x) _ (ground arith) (ground arith) (λ up. ground arith) (o x)
Move-AllOrderly g h (takes r) o x =
    same-IsOrderly (g.connections x) _ (ground arith) (ground arith) (λ up. ground arith) (o x)
Move-AllOrderly g h (hands r message _ _ _) o x =
    same-IsOrderly (g.connections x) _ (ground arith) (ground arith) (λ up. ground arith) (o x)
Move-AllOrderly g h (acks r id) o x =
    same-IsOrderly (g.connections x) _ (ground arith) (ground arith) (λ up. ground arith) (o x)

-- In every gateway that can be reached, the messages that the transport of a connection took are
-- numbered 0, 1, 2, … in the order of sending; while the connection has not failed its next number
-- counts them; each carries the gateway's generation, and one that starts a host or an invocation is
-- for the project and the actor that the connection was authenticated for.
pub Reach-AllOrderly : (ports : PortAnswers) {g : HostGateway} → Reach ports g → AllOrderly g
Reach-AllOrderly ports = Reach-invariant ports AllOrderly new_gateway-AllOrderly Move-AllOrderly
