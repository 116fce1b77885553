-- ===== src/ActorHost/Orderly/Moves.antt =====
-- Every step of the host keeps its connection orderly: server-connection.ts, command-processor.ts.
use ai_block.Prelude.{ℕ, ◌≡◌, refl, none, List, Bool-cases, Option-cases, inl, inr, arith}
use ai_block.Protocol.{ServerToHostMessage, Decoded, decoded, undecodable}
use ai_block.Supervisor.State.{Supervisor, new_supervisor}
use ai_block.ActorHost.State.{
  ActorHost, HostIdentity, ServerConnectionState, Subscription, WriteAnswers, BackendAnswers,
}
use ai_block.ActorHost.Connection.{envelope_error}
use ai_block.ActorHost.Commands.{is_ack, process, receive_live, receive}
use ai_block.ActorHost.Orderly.{
  IsOrderly, new_actor_host-IsOrderly, quiet-IsOrderly, emit-IsOrderly, start-IsOrderly,
  take_inbound-IsOrderly,
}
use ai_block.ActorHost.Runs.{
  initialize_settled_keeps, session_settled_keeps, result_settled_keeps, failure_settled_keeps,
  acknowledged_keeps,
}
use ai_block.ActorHost.Steps.{
  Step, starts, receives, fails, initialize_settles, session_settles, result_settles,
  failure_settles, supervises, Reach, begin, next,
}

serve-IsOrderly :
    (h : ActorHost) (sv : Supervisor) (subscriptions : List Subscription)
    → IsOrderly h
    → IsOrderly (record h { supervisor = sv; subscriptions = subscriptions })
serve-IsOrderly h sv subscriptions o = quiet-IsOrderly o refl refl refl refl refl (inr (refl, refl))

process-IsOrderly :
    (writes : ℕ → WriteAnswers) (h : ActorHost) (m : ServerToHostMessage) (backend : BackendAnswers)
    → IsOrderly h
    → IsOrderly (process writes h m backend).0
unfolding process
process-IsOrderly writes h m backend o = elim (Bool-cases (is_ack m.payload)) [
  | inl e ↦ rw (e, process) o
  | inr e ↦
      rw (e, process)
        (acknowledged_keeps IsOrderly writes (emit-IsOrderly writes) serve-IsOrderly _ _ m backend
          (emit-IsOrderly writes h _ m.message_id refl o))
]

-- The message that the checks let through has the connection's generation and the next number.
pub envelope_error-none :
    (h : ActorHost) (m : ServerToHostMessage)
    → envelope_error h m ≡ none
    → (m.sender_sequence ≡ h.next_inbound_sequence)
      × (m.connection_generation ≡ h.connection_generation)
envelope_error-none h m e = (ground arith, ground arith)

receive_live-IsOrderly :
    (writes : ℕ → WriteAnswers) (h : ActorHost) (input : Decoded ServerToHostMessage)
    (backend : BackendAnswers)
    → IsOrderly h
    → IsOrderly (receive_live writes h input backend).0
unfolding receive_live
receive_live-IsOrderly writes h (undecodable error) backend o = o
receive_live-IsOrderly writes h (decoded m) backend o = elim (Option-cases (envelope_error h m)) [
  | inr (reason, e) ↦ rw (e, receive_live) o
  | inl e ↦
      let (number, generation) = envelope_error-none h m e in
      rw (e, receive_live)
        (process-IsOrderly writes _ m backend (take_inbound-IsOrderly h m number generation o))
]

receive-IsOrderly :
    (writes : ℕ → WriteAnswers) (h : ActorHost) (input : Decoded ServerToHostMessage)
    (backend : BackendAnswers)
    → IsOrderly h
    → IsOrderly (receive writes h input backend).0
unfolding receive
receive-IsOrderly writes h input backend o = go h.state refl
  where
    go : (s : ServerConnectionState) → h.state ≡ s → IsOrderly (receive writes h input backend).0
    go ServerConnectionState.not_started e = rw (e, receive) o
    go ServerConnectionState.failed e = rw (e, receive) o
    go ServerConnectionState.live e =
        rw (e, receive) (receive_live-IsOrderly writes h input backend o)

Step-IsOrderly :
    {writes : ℕ → WriteAnswers} {h k : ActorHost} → Step writes h k → IsOrderly h → IsOrderly k
Step-IsOrderly {writes} {h} starts o = start-IsOrderly writes h o
Step-IsOrderly {writes} {h} (receives input backend) o = receive-IsOrderly writes h input backend o
Step-IsOrderly fails o = quiet-IsOrderly o refl refl refl refl refl (inl refl)
Step-IsOrderly {writes} {h} (initialize_settles causal actor_id result) o =
    initialize_settled_keeps IsOrderly writes (emit-IsOrderly writes) h causal actor_id result o
Step-IsOrderly {writes} {h} (session_settles causal invocation_id session_id) o =
    session_settled_keeps IsOrderly writes (emit-IsOrderly writes) h causal invocation_id session_id
      o
Step-IsOrderly {writes} {h} (result_settles causal result) o =
    result_settled_keeps IsOrderly writes (emit-IsOrderly writes) h causal result o
Step-IsOrderly {writes} {h} (failure_settles causal invocation_id error) o =
    failure_settled_keeps IsOrderly writes (emit-IsOrderly writes) h causal invocation_id error o
Step-IsOrderly {writes} {h} (supervises sv s c) o = serve-IsOrderly h sv h.subscriptions o

-- However the host has run: the messages that its transport took are numbered 0, 1, 2, … in the
-- order of sending, and while the connection has not failed its next number counts them; the first
-- is the hello of its identity and no other is a hello; each carries the connection's generation, and
-- the errors in them have a fixed text and no details; the messages that the command processor was
-- given are numbered 0, 1, 2, … without a gap and carry that generation too.
pub Reach-IsOrderly :
    {writes : ℕ → WriteAnswers} {identity : HostIdentity} {generation adapter_id : ℕ}
    {h : ActorHost}
    → Reach writes identity generation adapter_id h
    → IsOrderly h
Reach-IsOrderly {writes} {identity} {generation} {adapter_id} begin =
    new_actor_host-IsOrderly identity generation (new_supervisor adapter_id)
Reach-IsOrderly (next r s) = Step-IsOrderly s (Reach-IsOrderly r)
