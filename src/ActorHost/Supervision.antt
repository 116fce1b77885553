-- ===== src/ActorHost/Supervision.antt =====
-- What the messages of the server do to the supervisor of a host: command-processor.ts.
pub mod Own
use ai_block.Prelude.{
  ℕ, ◌≡◌, refl, ◌<◌, ◌+◌, true, false, Bool, Option, none, some, List, returns, throws, Attempt,
  Bool-cases, Option-cases, inl, inr, arith, ◌∙◌, subst, sym,
}
use ai_block.Protocol.{
  HostToServerPayload, ServerToHostPayload, ServerToHostMessage, ActorLaunchSpec, InvocationSpec,
  InvocationResult, Decoded, decoded, undecodable,
}
use ai_block.Supervisor.State.{
  Supervisor, SupervisorErrorCode, StartResult, StopResult, AdapterStart, InitializeResult,
  SupervisorLifecycleError, Reservation,
}
use ai_block.Supervisor.Operations as Supervised
use ai_block.Supervisor.Steps as Moves
use ai_block.ActorHost.State.{
  ActorHost, HostIdentity, ServerConnectionState, WriteAnswers, BackendAnswers,
  HostOutboundSendResult,
}
use ai_block.ActorHost.Redaction.{redact_outbound_payload}
use ai_block.ActorHost.Connection.{envelope_error, start, go_live, write}
use ai_block.ActorHost.Commands.{
  is_foreign, is_ack, emit, take_inbound, receive, receive_live, process, acknowledged, dispatch,
  initialize, start_answered, stop_answered, stop, emit_fault, initialize_settled, session_settled,
  result_settled, failure_settled,
}
use ai_block.ActorHost.Commands
use ai_block.ActorHost.Writes.{write_cases, send_cases}
use ai_block.ActorHost.Runs.{
  initialize_settled_keeps, session_settled_keeps, result_settled_keeps, failure_settled_keeps,
}
use ai_block.ActorHost.Steps.{
  IsCallback, Step, starts, receives, fails, initialize_settles, session_settles, result_settles,
  failure_settles, supervises, Reach, begin, next,
}
use ai_block.ActorHost.Orderly.{is_hello}

-- A specification is for the project and the actor that the host stands for.
abbrev pub IsFor : HostIdentity → ℕ → ℕ → Type 0
IsFor identity project_id actor_id =
    (project_id ≡ identity.project_id) × (actor_id ≡ identity.actor_id)

-- At most one call of the supervisor, and only for the identity of the host.
pub data Called (identity : HostIdentity) (sv : Supervisor) : Supervisor → Type 0 where
  untouched : Called identity sv sv
  initialized :
      (spec : ActorLaunchSpec)
      → IsFor identity spec.project_id spec.actor_id
      → Called identity sv (Supervised.initialize sv spec).0
  started :
      (spec : InvocationSpec) (answer : Attempt AdapterStart)
      → IsFor identity spec.project_id spec.actor_id
      → Called identity sv (Supervised.start sv spec answer).0
  stopped :
      (invocation_id : ℕ) (throws_now : Bool)
      → Called identity sv (Supervised.stop sv invocation_id throws_now).0

-- The host has the supervisor and the identity that it had.
abbrev Keeps : HostIdentity → Supervisor → ActorHost → Type 0
Keeps identity sv h = (h.supervisor ≡ sv) × (h.identity ≡ identity)

emit-Keeps :
    (identity : HostIdentity) (sv : Supervisor) (writes : ℕ → WriteAnswers) (h : ActorHost)
    (payload : HostToServerPayload) (causal : ℕ)
    → Keeps identity sv h
    → Keeps identity sv (emit writes h payload causal).0
unfolding emit
emit-Keeps identity sv writes h payload causal k =
    send_cases (λ x. Keeps identity sv x.0) writes h (redact_outbound_payload payload) causal
      (λ r. k)
      λ live.
        write_cases (λ x. Keeps identity sv x.0) h (redact_outbound_payload payload) (some causal)
          (writes h.next_outbound_sequence) (λ m. k) (λ m. (ground arith, ground arith))
          λ id at. (ground arith, ground arith)

-- A host that keeps its supervisor has not called it.
abbrev Answers : ActorHost → ActorHost → Type 0
Answers h k = Called h.identity h.supervisor k.supervisor

emit_fault-Keeps :
    (writes : ℕ → WriteAnswers) (h : ActorHost) (causal : ℕ) (code : SupervisorErrorCode)
    (invocation_id : Option ℕ)
    → (emit_fault writes h causal code invocation_id).supervisor ≡ h.supervisor
unfolding emit_fault
emit_fault-Keeps writes h causal code invocation_id =
    (emit-Keeps h.identity h.supervisor writes h _ causal (refl, refl)).0

initialize-Called :
    (writes : ℕ → WriteAnswers) (h : ActorHost) (causal : ℕ) (spec : ActorLaunchSpec)
    → Called h.identity h.supervisor (initialize writes h causal spec).supervisor
unfolding initialize
initialize-Called writes h causal spec =
    elim (Bool-cases (is_foreign h.identity spec.project_id spec.actor_id)) [
      | inl e ↦
          rw
            (
              e,
              initialize,
              emit_fault-Keeps writes h causal SupervisorErrorCode.identity_mismatch none,
            )
            untouched
      | inr e ↦ rw (e, initialize) (initialized spec (ground (arith, e), ground (arith, e)))
    ]

start_answered_keeps :
    (writes : ℕ → WriteAnswers) (h : ActorHost) (causal : ℕ) (spec : InvocationSpec)
    (answer : Attempt StartResult)
    → (start_answered writes h causal spec answer).0.supervisor ≡ h.supervisor
unfolding start_answered
start_answered_keeps writes h causal spec (throws e) = refl
start_answered_keeps writes h causal spec (returns (StartResult.launch_failed result)) =
    (emit-Keeps h.identity h.supervisor writes h (HostToServerPayload.invocation_result result)
      causal (refl, refl)).0
start_answered_keeps writes h causal spec (returns (StartResult.rejected error)) =
    emit_fault-Keeps writes h causal error.code _
start_answered_keeps writes h causal spec (returns (StartResult.started r)) = refl

start-Called :
    (writes : ℕ → WriteAnswers) (h : ActorHost) (causal : ℕ) (spec : InvocationSpec)
    (backend : BackendAnswers)
    → Called h.identity h.supervisor (Commands.start writes h causal spec backend).0.supervisor
unfolding Commands.start
start-Called writes h causal spec backend =
    elim (Bool-cases (is_foreign h.identity spec.project_id spec.actor_id)) [
      | inl e ↦
          rw
            (
              e,
              Commands.start,
              emit_fault-Keeps writes h causal SupervisorErrorCode.identity_mismatch
                  (some spec.invocation_id),
            )
            untouched
      | inr e ↦
          rw (e, Commands.start, start_answered_keeps)
            (started spec backend.start (ground (arith, e), ground (arith, e)))
    ]

stop_answered_keeps :
    (writes : ℕ → WriteAnswers) (h : ActorHost) (causal invocation_id : ℕ) (result : StopResult)
    → (stop_answered writes h causal invocation_id result).supervisor ≡ h.supervisor
unfolding stop_answered
stop_answered_keeps writes h causal invocation_id (StopResult.accepted id) = refl
stop_answered_keeps writes h causal invocation_id (StopResult.rejected error) =
    emit_fault-Keeps writes h causal error.code _

dispatch-Called :
    (writes : ℕ → WriteAnswers) (h : ActorHost) (m : ServerToHostMessage) (backend : BackendAnswers)
    (payload : ServerToHostPayload)
    → m.payload ≡ payload
    → Called h.identity h.supervisor (dispatch writes h m backend).0.supervisor
unfolding dispatch stop
dispatch-Called writes h m backend (ServerToHostPayload.initialize_actor_host spec) e =
    rw (e, dispatch) (initialize-Called writes h m.message_id spec)
dispatch-Called writes h m backend (ServerToHostPayload.start_invocation spec) e =
    rw (e, dispatch) (start-Called writes h m.message_id spec backend)
dispatch-Called writes h m backend (ServerToHostPayload.stop_invocation id reason) e =
    rw (e, dispatch, stop_answered_keeps) (stopped id backend.stop_throws)
dispatch-Called writes h m backend (ServerToHostPayload.shutdown_host reason) e =
    rw (e, dispatch) untouched
dispatch-Called writes h m backend (ServerToHostPayload.ack id) e = rw (e, dispatch) untouched

acknowledged-Called :
    (identity : HostIdentity) (sv : Supervisor) (writes : ℕ → WriteAnswers) (h : ActorHost)
    (result : HostOutboundSendResult) (m : ServerToHostMessage) (backend : BackendAnswers)
    → Keeps identity sv h
    → Called identity sv (acknowledged writes h result m backend).0.supervisor
unfolding acknowledged
acknowledged-Called identity sv writes h HostOutboundSendResult.sent m backend (s, i) =
    rw (sym s, sym i) (dispatch-Called writes h m backend _ refl)
acknowledged-Called identity sv writes h (HostOutboundSendResult.transport_failed e) m backend
      (s, i) =
    rw s untouched
acknowledged-Called identity sv writes h (HostOutboundSendResult.rejected e) m backend (s, i) =
    rw s untouched

process-Called :
    (writes : ℕ → WriteAnswers) (h : ActorHost) (m : ServerToHostMessage) (backend : BackendAnswers)
    → Called h.identity h.supervisor (process writes h m backend).0.supervisor
unfolding process
process-Called writes h m backend = elim (Bool-cases (is_ack m.payload)) [
  | inl e ↦ rw (e, process) untouched
  | inr e ↦
      rw (e, process)
        (acknowledged-Called h.identity h.supervisor writes _ _ m backend
          (emit-Keeps h.identity h.supervisor writes h _ m.message_id (refl, refl)))
]

receive_live-Called :
    (writes : ℕ → WriteAnswers) (h : ActorHost) (input : Decoded ServerToHostMessage)
    (backend : BackendAnswers)
    → Called h.identity h.supervisor (receive_live writes h input backend).0.supervisor
unfolding receive_live
receive_live-Called writes h (undecodable error) backend = untouched
receive_live-Called writes h (decoded m) backend = elim (Option-cases (envelope_error h m)) [
  | inr (reason, e) ↦ rw (e, receive_live) untouched
  | inl e ↦ rw (e, receive_live) (process-Called writes (take_inbound h m) m backend)
]

-- What one message of the server does to the supervisor is nothing, or one initialization or start
-- for the project and the actor that the host stands for, or one stop.
pub receive-Called :
    (writes : ℕ → WriteAnswers) (h : ActorHost) (input : Decoded ServerToHostMessage)
    (backend : BackendAnswers)
    → Called h.identity h.supervisor (receive writes h input backend).0.supervisor
unfolding receive
receive-Called writes h input backend = go h.state refl
  where
    go :
        (s : ServerConnectionState)
        → h.state ≡ s
        → Called h.identity h.supervisor (receive writes h input backend).0.supervisor
    go ServerConnectionState.not_started e = rw (e, receive) untouched
    go ServerConnectionState.failed e = rw (e, receive) untouched
    go ServerConnectionState.live e = rw (e, receive) (receive_live-Called writes h input backend)
