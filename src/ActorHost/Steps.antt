-- ===== src/ActorHost/Steps.antt =====
-- Every way in which the actor host can run: the messages of the server, the failures of the
-- transport, the callbacks of the promises that it waits for, and what its supervisor does by itself.
use ai_block.Prelude.{ℕ, Option}
use ai_block.Protocol.{ServerToHostMessage, InvocationResult, Decoded}
use ai_block.Supervisor.State.{
  Supervisor, SupervisorLifecycleError, InitializeResult, new_supervisor,
}
use ai_block.Supervisor.Steps as Supervised
use ai_block.ActorHost.State.{ActorHost, HostIdentity, WriteAnswers, BackendAnswers, new_actor_host}
use ai_block.ActorHost.Connection.{start, fail_connection}
use ai_block.ActorHost.Commands.{
  initialize_settled, session_settled, result_settled, failure_settled, receive,
}

-- The callbacks of the supervisor: what happens to it without a call of the command processor.
abbrev pub IsCallback : {sv tv : Supervisor} → Supervised.Step sv tv → Type 0
IsCallback (Supervised.initializes spec) = ⊥
IsCallback (Supervised.starts spec answer) = ⊥
IsCallback (Supervised.stops invocation_id throws_now) = ⊥
IsCallback _ = Unit {0}

module _ (writes : ℕ → WriteAnswers) where
  pub data Step (h : ActorHost) : ActorHost → Type 0 where
    starts : Step h (start writes h).0
    receives :
        (input : Decoded ServerToHostMessage) (backend : BackendAnswers)
        → Step h (receive writes h input backend).0
    fails : Step h (fail_connection h)
    initialize_settles :
        (causal_message_id actor_id : ℕ) (result : InitializeResult)
        → Step h (initialize_settled writes h causal_message_id actor_id result)
    session_settles :
        (causal_message_id invocation_id : ℕ) (session_id : Option ℕ)
        → Step h (session_settled writes h causal_message_id invocation_id session_id)
    result_settles :
        (causal_message_id : ℕ) (result : Option InvocationResult)
        → Step h (result_settled writes h causal_message_id result)
    failure_settles :
        (causal_message_id invocation_id : ℕ) (error : SupervisorLifecycleError)
        → Step h (failure_settled writes h causal_message_id invocation_id error)
    supervises :
        (sv : Supervisor) (s : Supervised.Step h.supervisor sv)
        → IsCallback s
        → Step h (record h { supervisor = sv })

  pub data Reach (identity : HostIdentity) (generation adapter_id : ℕ) : ActorHost → Type 0 where
    begin :
        Reach identity generation adapter_id
          (new_actor_host identity generation (new_supervisor adapter_id))
    next :
        {h k : ActorHost}
        → Reach identity generation adapter_id h
        → Step h k
        → Reach identity generation adapter_id k
