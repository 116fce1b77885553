-- ===== src/Gateway/Tests.antt =====
-- Runs of the gateway at fixed inputs: host-gateway.ts.
use ai_block.Prelude.{ℕ, ◌+◌, ◌≡◌, ◌≢◌, refl, inl, inr, true, false, none, some, arith, returns}
use ai_block.Protocol.{
  ServerToHostPayload, HostToServerPayload, HostToServerMessage, ServerToHostMessage, decoded,
}
use ai_block.Supervisor.State.{no_spec}
use ai_block.Gateway.Ports.{
  AuthenticatedHostContext, TransportCall, PortAnswers, HostGatewayInboundResult,
  HostGatewayOpenResult, InboundRejection, live,
}
use ai_block.Gateway.State.{
  HostGateway, TerminalOrigin, new_gateway, default_terminal_failure, is_failed, fail_connection,
  remove,
}
use ai_block.Gateway.Receive.{
  envelope_error, receive, receive_decoded, receive_hello, register_hello, write, commit_live, send,
}
use ai_block.Gateway.Write.{listen, write_with}
use ai_block.Gateway.Operations.{
  occupied, open_connection, Step, fails, opens, receives, Reach, start, next,
}
use ai_block.Gateway.Operations as Calls
use ai_block.Gateway.Indexed.Moves.{Reach-IsIndexed, one_connection}
use ai_block.Gateway.Traffic.{AllOrderly, Reach-AllOrderly}
use ai_block.Gateway.Receipts.{Receipt}
use ai_block.Gateway.Receipts.Inbound.{receive-Receipt, receive_out_of_order}
use ai_block.Gateway.Commands.{Tracks, send-Tracks, ack_settles}
use ai_block.Gateway.Lifecycle.{failed_forever, fail_frees, open_excludes, hello_goes_live}

abbrev quiet : TransportCall
quiet = record { reports_failure = false; result = returns tt }

abbrev ports : PortAnswers
ports = record {
  writes = λ r n. record {
    next_message_id = returns (100 + n);
    now = returns 0;
    contract_ok = true;
    outbound_envelope_validator = some (returns true);
    send = quiet;
  };
  on_failure = λ r. quiet;
  accept = λ r n. returns tt;
}

abbrev host : AuthenticatedHostContext
host = record { project_id = 1; actor_id = 2; host_instance_id = 3 }

abbrev from_host : ℕ → HostToServerPayload → HostToServerMessage
from_host n payload = record {
  protocol_version = "1.0.0";
  message_id = 50 + n;
  correlation_id = none;
  sender_sequence = n;
  connection_generation = 1;
  sent_at = 0;
  payload = payload;
}

abbrev hello : HostToServerMessage
hello = from_host 0 (HostToServerPayload.host_hello 1 3 2)

abbrev opened : HostGateway
opened = (open_connection ports new_gateway host true).0

abbrev registered : HostGateway
registered = (receive ports opened 0 (decoded hello)).0

abbrev stop_it : ServerToHostPayload
stop_it = ServerToHostPayload.stop_invocation 7 "requested"

abbrev commanded : HostGateway
commanded = (send ports registered 0 stop_it none).0

opened-Reach : Reach ports opened
opened-Reach = next start (opens host true)

registered-Reach : Reach ports registered
registered-Reach = next opened-Reach (receives 0 (decoded hello))

commanded-Reach : Reach ports commanded
commanded-Reach = next registered-Reach (Calls.sends 0 stop_it none)

receive-Receipt_example : Receipt ports opened 0 hello (receive ports opened 0 (decoded hello))
unfolding open_connection Calls.observe listen Calls.register
receive-Receipt_example = receive-Receipt ports opened 0 hello refl (refl, refl)

one_connection_example : ◌≡◌ {A = ℕ} 0 0
unfolding open_connection Calls.observe listen Calls.register receive receive_decoded receive_hello
    register_hello write write_with commit_live
one_connection_example = one_connection ports registered-Reach 0 0 refl refl (inl refl)

-- The host's actor is started on an invocation.
abbrev start_it : ServerToHostPayload
start_it = ServerToHostPayload.start_invocation (record no_spec { project_id = 1; actor_id = 2 })

abbrev started : HostGateway
started = (send ports registered 0 start_it none).0

Reach-AllOrderly_example : AllOrderly started
Reach-AllOrderly_example =
    Reach-AllOrderly ports (next registered-Reach (Calls.sends 0 start_it none))

receive_out_of_order_example :
    let (h, result) =
      receive ports opened 0 (decoded (from_host 1 HostToServerPayload.heartbeat)) in
    ((reason : InboundRejection) × (result ≡ HostGatewayInboundResult.rejected reason none)
      × (envelope_error (opened.connections 0) (from_host 1 HostToServerPayload.heartbeat)
          ≡ some reason))
    × (is_failed (h.connections 0).state ≡ true)
    × ((h.connections 0).next_inbound_sequence ≡ (opened.connections 0).next_inbound_sequence)
    × (h.facts ≡ opened.facts)
unfolding open_connection Calls.observe listen Calls.register
receive_out_of_order_example =
    receive_out_of_order ports opened 0 (from_host 1 HostToServerPayload.heartbeat) refl
      λ n. absurd (omega (arith, n.1))

send-Tracks_example : Tracks registered 0 stop_it (send ports registered 0 stop_it none)
unfolding open_connection Calls.observe listen Calls.register receive receive_decoded receive_hello
    register_hello write write_with commit_live
send-Tracks_example = send-Tracks ports registered 0 stop_it none refl

abbrev settled : HostGateway × HostGatewayInboundResult
settled = receive ports commanded 0 (decoded (from_host 1 (HostToServerPayload.ack 101)))

ack_settles_example :
    (settled.1 ≡ HostGatewayInboundResult.acknowledged 101)
    × ((settled.0.connections 0).pending_commands 101 ≡ none)
    × ((x : ℕ)
        → x ≢ 101
        → (settled.0.connections 0).pending_commands x
          ≡ (commanded.connections 0).pending_commands x)
    × ((receive ports settled.0 0 (decoded (from_host 2 (HostToServerPayload.ack 101)))).1
        ≡ HostGatewayInboundResult.ack_ignored 101)
unfolding open_connection Calls.observe listen Calls.register receive receive_decoded receive_hello
    register_hello write write_with commit_live send
ack_settles_example =
    ack_settles ports commanded 0 101 _ (from_host 1 (HostToServerPayload.ack 101))
      (from_host 2 (HostToServerPayload.ack 101)) refl refl refl (refl, refl) refl refl refl

hello_goes_live_example :
    let (h, result) = receive ports opened 0 (decoded hello) in
    ((m : ServerToHostMessage) × (result ≡ HostGatewayInboundResult.hello_registered m))
    × ((h.connections 0).state ≡ live)
    × (h.live_by_actor 2 ≡ some 0)
    × (h.live_by_host 3 ≡ some 0)
    × (h.pending_by_actor 2 ≡ none)
    × (h.pending_by_host 3 ≡ none)
unfolding open_connection Calls.observe listen Calls.register
hello_goes_live_example =
    hello_goes_live ports opened 0 hello (Reach-IsIndexed ports opened-Reach) refl (refl, refl) refl
      ((100, refl), (0, refl), refl, inr refl, refl, refl)

abbrev broken : HostGateway
broken = fail_connection registered 0 TerminalOrigin.transport default_terminal_failure

fail_frees_example :
    (occupied broken host ≡ false)
    × ((a : ℕ)
        → a ≢ 2
        → (broken.live_by_actor a ≡ registered.live_by_actor a)
          × (broken.pending_by_actor a ≡ registered.pending_by_actor a))
    × ((i : ℕ)
        → i ≢ 3
        → (broken.live_by_host i ≡ registered.live_by_host i)
          × (broken.pending_by_host i ≡ registered.pending_by_host i))
unfolding open_connection Calls.observe listen Calls.register receive receive_decoded receive_hello
    register_hello write write_with commit_live
fail_frees_example =
    fail_frees registered 0 TerminalOrigin.transport default_terminal_failure
      (Reach-IsIndexed ports registered-Reach) refl

open_excludes_example :
    open_connection ports opened (record host { host_instance_id = 9 }) false
    ≡ (opened, HostGatewayOpenResult.connection_exists)
unfolding open_connection Calls.observe listen Calls.register
open_excludes_example =
    open_excludes ports new_gateway host (record host { host_instance_id = 9 }) true false 0 refl
      (inl refl)

failed_forever_example :
    let h = (receive ports broken 0 (decoded hello)).0 in
    (is_failed (h.connections 0).state ≡ true)
    × ((h.connections 0).sent ≡ (broken.connections 0).sent)
unfolding open_connection Calls.observe listen Calls.register receive receive_decoded receive_hello
    register_hello write write_with commit_live fail_connection remove
failed_forever_example =
    failed_forever ports {g = broken} (receives 0 (decoded hello)) 0 (omega arith) refl
