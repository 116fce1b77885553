-- ===== src/Gateway/Indexed.antt =====
-- The four maps of the gateway index its connections by their state: host-gateway.ts.
pub mod Moves
use ai_block.Prelude.{ℕ, ◌≤◌, ◌≡◌, refl, ◌⊎◌, inl, none, some, arith}
use ai_block.Gateway.Ports.{HostTransportFailure, HostConnectionState, pending, live, failed}
use ai_block.Gateway.State.{
  HostGateway, GatewayConnection, TerminalOrigin, new_gateway, put, remove, fail_connection,
}

-- What the maps hold of a connection in each state.
abbrev pub IsRegistered : HostGateway → ℕ → GatewayConnection → HostConnectionState → Type 0
IsRegistered g r c pending =
    (g.pending_by_actor c.actor_id ≡ some r) × (g.pending_by_host c.host_instance_id ≡ some r)
IsRegistered g r c live =
    (g.live_by_actor c.actor_id ≡ some r) × (g.live_by_host c.host_instance_id ≡ some r)
IsRegistered g r c failed = Unit {0}

pub record IsIndexed (g : HostGateway) : Type 0 where
  pub pending_actor :
      (a r : ℕ)
      → g.pending_by_actor a ≡ some r
      → ((g.connections r).actor_id ≡ a) × ((g.connections r).state ≡ pending)
  pub pending_host :
      (h r : ℕ)
      → g.pending_by_host h ≡ some r
      → ((g.connections r).host_instance_id ≡ h) × ((g.connections r).state ≡ pending)
  pub live_actor :
      (a r : ℕ)
      → g.live_by_actor a ≡ some r
      → ((g.connections r).actor_id ≡ a) × ((g.connections r).state ≡ live)
  pub live_host :
      (h r : ℕ)
      → g.live_by_host h ≡ some r
      → ((g.connections r).host_instance_id ≡ h) × ((g.connections r).state ≡ live)
  pub registered : (r : ℕ) → IsRegistered g r (g.connections r) (g.connections r).state
  pub apart_actor : (a : ℕ) → (g.pending_by_actor a ≡ none) ⊎ (g.live_by_actor a ≡ none)
  pub apart_host : (h : ℕ) → (g.pending_by_host h ≡ none) ⊎ (g.live_by_host h ≡ none)
  pub unused : (r : ℕ) → g.opened ≤ r → (g.connections r).state ≡ failed

pub new_gateway-IsIndexed : IsIndexed new_gateway
new_gateway-IsIndexed = record {
  pending_actor = λ a r e. cc;
  pending_host = λ a r e. cc;
  live_actor = λ a r e. cc;
  live_host = λ a r e. cc;
  registered = λ r. tt;
  apart_actor = λ a. inl refl;
  apart_host = λ a. inl refl;
  unused = λ r h. refl;
}

module _ {g : HostGateway} (v : IsIndexed g) (r : ℕ) (c : GatewayConnection) where
  -- A write to a connection that leaves its identity and its state alone.
  pub put-IsIndexed :
      c.identity ≡ (g.connections r).identity
      → c.state ≡ (g.connections r).state
      → IsIndexed (put g r c)
  put-IsIndexed i s = record {
    pending_actor = λ a x e. ground (arith, v.pending_actor a x);
    pending_host = λ a x e. ground (arith, v.pending_host a x);
    live_actor = λ a x e. ground (arith, v.live_actor a x);
    live_host = λ a x e. ground (arith, v.live_host a x);
    registered = λ x. ground (arith, v.registered x, v.registered r);
    apart_actor = v.apart_actor;
    apart_host = v.apart_host;
    unused = λ x h. ground (arith, v.unused x h);
  }

pub fail_connection-IsIndexed :
    {g : HostGateway}
    → IsIndexed g
    → (r : ℕ) (origin : TerminalOrigin) (failure : HostTransportFailure)
    → IsIndexed (fail_connection g r origin failure)
unfolding fail_connection remove
fail_connection-IsIndexed {g} v r origin failure = record {
  pending_actor = λ a x e. ground (arith, v.pending_actor a x);
  pending_host = λ a x e. ground (arith, v.pending_host a x);
  live_actor = λ a x e. ground (arith, v.live_actor a x);
  live_host = λ a x e. ground (arith, v.live_host a x);
  registered = λ x. ground (arith, v.registered x, v.registered r);
  apart_actor = λ a. ground (arith, v.apart_actor a);
  apart_host = λ a. ground (arith, v.apart_host a);
  unused = λ x h. ground (arith, v.unused x);
}
