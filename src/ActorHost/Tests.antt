-- ===== src/ActorHost/Tests.antt =====
-- Runs of the host at fixed inputs: server-connection.ts and command-processor.ts.
use ai_block.Prelude.{ℕ, ◌+◌, ◌≡◌, ◌⊎◌, inr, refl, true, false, none, arith, returns}
use ai_block.Protocol.{ServerToHostPayload, ServerToHostMessage, decoded}
use ai_block.Supervisor.State.{new_supervisor, AdapterStart}
use ai_block.Supervisor.Consistent.{IsConsistent}
use ai_block.Supervisor.Tests.{launch}
use ai_block.ActorHost.State.{ActorHost, HostIdentity, WriteAnswers, BackendAnswers, new_actor_host}
use ai_block.ActorHost.Connection.{start, write, write_with, transmit}
use ai_block.ActorHost.Commands.{receive}
use ai_block.ActorHost.Steps.{starts, receives, Reach, begin, next}
use ai_block.ActorHost.Orderly.{IsOrderly, Moves.Reach-IsOrderly}
use ai_block.ActorHost.Acknowledged.{Acknowledged, Dropped, receive_acknowledges, receive_refuses}
use ai_block.ActorHost.Supervision.{Called, receive-Called, Own.IsOwn, Own.supervision-IsOwn}

abbrev writes : ℕ → WriteAnswers
writes n = record {
  next_message_id = returns (100 + n);
  now = returns 0;
  contract_ok = true;
  send = record { reports_failure = false; result = returns tt };
}

abbrev identity : HostIdentity
identity = record { project_id = 0; host_instance_id = 3; actor_id = 0 }

abbrev backend : BackendAnswers
backend = record { start = returns AdapterStart.started; stop_throws = false }

abbrev fresh : ActorHost
fresh = new_actor_host identity 1 (new_supervisor 1)

abbrev live : ActorHost
live = (start writes fresh).0

abbrev from_server : ℕ → ServerToHostPayload → ServerToHostMessage
from_server n payload = record {
  protocol_version = "1.0.0";
  message_id = 50 + n;
  correlation_id = none;
  sender_sequence = n;
  connection_generation = 1;
  sent_at = 0;
  payload = payload;
}

abbrev initialize_it : ServerToHostMessage
initialize_it = from_server 0 (ServerToHostPayload.initialize_actor_host launch)

abbrev asked : ActorHost
asked = (receive writes live (decoded initialize_it) backend).0

asked-Reach : Reach writes identity 1 1 asked
asked-Reach = next (next begin starts) (receives (decoded initialize_it) backend)

Reach-IsOrderly_example : IsOrderly asked
Reach-IsOrderly_example = Reach-IsOrderly asked-Reach

supervision-IsOwn_example : IsConsistent asked.supervisor × IsOwn identity asked.supervisor
supervision-IsOwn_example = supervision-IsOwn asked-Reach

receive_acknowledges_example :
    let (k, result) = receive writes live (decoded initialize_it) backend in
    Acknowledged live initialize_it k ⊎ Dropped live k result
unfolding start write write_with transmit
receive_acknowledges_example = receive_acknowledges writes live initialize_it backend refl refl refl

receive_refuses_example :
    (receive writes live
      (decoded (from_server 4 (ServerToHostPayload.shutdown_host "over")))
      backend).0
    ≡ live
unfolding start write write_with transmit
receive_refuses_example =
    receive_refuses writes live (decoded (from_server 4 (ServerToHostPayload.shutdown_host "over")))
      backend (inr (inr λ e. absurd (omega (arith, e))))

receive-Called_example :
    Called live.identity live.supervisor
      (receive writes live (decoded initialize_it) backend).0.supervisor
receive-Called_example = receive-Called writes live (decoded initialize_it) backend
