-- ===== src/Gateway/State.antt =====
-- The four maps of `HostGateway`, its connections and their end: host-gateway.ts.
-- A connection object is named by a reference; `connections` is the store, `opened` the next free
-- reference. From `opened` on the store holds connections that have failed.
use ai_block.Prelude.{
  ℕ, Bool, true, false, Option, List, [], ◌∷◌, ◌++◌, if◌then◌else◌, update, empty_map, drop_ref,
}
use ai_block.Protocol.{ServerToHostMessage}
use ai_block.Gateway.Ports.{
  AuthenticatedHostContext, HostTransportFailure, HostFact, HostConnectionState, pending, live,
  failed,
}

-- `HostGatewayTransport`: whether it has `fail`, the messages that `send` took, in order, and the
-- failures that `fail` was told.
pub record Transport : Type 0 where
  pub has_fail : Bool
  pub sent : List ServerToHostMessage
  pub told : List HostTransportFailure

-- `GatewayConnection`. `subscribed` says that `unsubscribeTransportFailure` is set.
pub record GatewayConnection : Type 0 where
  pub identity : AuthenticatedHostContext
  pub open identity use *
  pub state : HostConnectionState
  pub next_inbound_sequence : ℕ
  pub next_outbound_sequence : ℕ
  pub pending_commands : ℕ → Option ServerToHostMessage
  pub subscribed : Bool
  pub transport : Transport
  pub open transport use *

-- `HostGateway`, with the facts that the sink was handed, in order.
pub record HostGateway : Type 0 where
  pub pending_by_actor : ℕ → Option ℕ
  pub pending_by_host : ℕ → Option ℕ
  pub live_by_actor : ℕ → Option ℕ
  pub live_by_host : ℕ → Option ℕ
  pub connections : ℕ → GatewayConnection
  pub opened : ℕ
  pub facts : List HostFact

pub data TerminalOrigin : Type 0 where
  core transport : TerminalOrigin

abbrev pub host_connection_generation : ℕ
host_connection_generation = 1

abbrev pub default_terminal_failure : HostTransportFailure
default_terminal_failure = record { message = "Host Gateway connection terminated." }

abbrev pub is_failed : HostConnectionState → Bool
is_failed failed = true
is_failed pending = false
is_failed live = false

abbrev pub is_pending : HostConnectionState → Bool
is_pending pending = true
is_pending live = false
is_pending failed = false

abbrev pub is_live : HostConnectionState → Bool
is_live live = true
is_live pending = false
is_live failed = false

-- `new GatewayConnection`
abbrev pub new_connection : AuthenticatedHostContext → Bool → GatewayConnection
new_connection identity has_fail = record {
  identity = identity;
  state = pending;
  next_inbound_sequence = 0;
  next_outbound_sequence = 0;
  pending_commands = empty_map;
  subscribed = false;
  transport = record { has_fail = has_fail; sent = []; told = [] };
}

-- A reference that names no connection yet.
abbrev unopened : GatewayConnection
unopened =
    record (new_connection (record { project_id = 0; actor_id = 0; host_instance_id = 0 }) false) {
      state = failed;
    }

-- `new HostGateway`
abbrev pub new_gateway : HostGateway
new_gateway = record {
  pending_by_actor = empty_map;
  pending_by_host = empty_map;
  live_by_actor = empty_map;
  live_by_host = empty_map;
  connections = λ r. unopened;
  opened = 0;
  facts = [];
}

abbrev pub put : HostGateway → ℕ → GatewayConnection → HostGateway
put g r c = record g { connections = update g.connections r c }

-- `HostGateway.remove`
unfoldable pub remove : HostGateway → ℕ → HostGateway
remove g r = record g {
  pending_by_actor = drop_ref g.pending_by_actor (g.connections r).actor_id r;
  pending_by_host = drop_ref g.pending_by_host (g.connections r).host_instance_id r;
  live_by_actor = drop_ref g.live_by_actor (g.connections r).actor_id r;
  live_by_host = drop_ref g.live_by_host (g.connections r).host_instance_id r;
}

-- The call of `transport.fail` in `failConnection`: what the transport is told.
unfoldable pub tell : TerminalOrigin → HostTransportFailure → Transport → Transport
tell core failure t = if t.has_fail then record t { told = t.told ++ failure ∷ [] } else t
tell transport failure t = t

-- `GatewayConnection.failConnection`. The function that `onFailure` returned is taken to return: the
-- transport of the WebSocket adapter deletes the listener from a set.
unfoldable pub fail_connection :
    HostGateway → ℕ → TerminalOrigin → HostTransportFailure → HostGateway
unfolding remove tell
fail_connection g r origin failure =
    if is_failed (g.connections r).state
    then g
    else remove
        (put g r (record (g.connections r) {
          state = failed;
          subscribed = false;
          pending_commands = empty_map;
          transport = tell origin failure (g.connections r).transport;
        }))
        r
