-- ===== src/ActorHost/Runs.antt =====
-- The commands and the callbacks are made of `emit` and of changes of the supervisor and the
-- subscriptions, so they keep what these keep: command-processor.ts.
use ai_block.Prelude.{
  ℕ, ◌≡◌, refl, false, Option, none, some, List, returns, throws, Attempt, Bool-cases, inl, inr,
}
use ai_block.Protocol.{
  HostToServerPayload, ServerToHostPayload, ServerToHostMessage, ActorLaunchSpec, InvocationSpec,
  InvocationResult,
}
use ai_block.Supervisor.State.{
  Supervisor, SupervisorErrorCode, SupervisorLifecycleError, InitializeResult, StartResult,
  StopResult,
}
use ai_block.ActorHost.State.{
  ActorHost, Subscription, WriteAnswers, BackendAnswers, HostOutboundSendResult,
}
use ai_block.ActorHost.Commands.{
  is_foreign, emit, emit_fault, initialize_settled, initialize, session_settled, result_settled,
  failure_settled, start_answered, start, stop_answered, stop, dispatch, acknowledged,
}
use ai_block.ActorHost.Orderly.{is_hello}

module _ {κ} (P : ActorHost → Type κ) (writes : ℕ → WriteAnswers)
    (emits : (h : ActorHost) (payload : HostToServerPayload) (causal : ℕ)
      → is_hello payload ≡ false
      → P h
      → P (emit writes h payload causal).0) where
  pub emit_fault_keeps :
      (h : ActorHost) (causal : ℕ) (code : SupervisorErrorCode) (invocation_id : Option ℕ)
      → P h
      → P (emit_fault writes h causal code invocation_id)
  unfolding emit_fault
  emit_fault_keeps h causal code invocation_id p = emits h _ causal refl p

  pub initialize_settled_keeps :
      (h : ActorHost) (causal actor_id : ℕ) (result : InitializeResult)
      → P h
      → P (initialize_settled writes h causal actor_id result)
  unfolding initialize_settled
  initialize_settled_keeps h causal actor_id InitializeResult.initialized p =
      emits h _ causal refl p
  initialize_settled_keeps h causal actor_id InitializeResult.already_initialized p =
      emits h _ causal refl p
  initialize_settled_keeps h causal actor_id (InitializeResult.rejected error) p =
      emit_fault_keeps h causal error.code none p

  pub session_settled_keeps :
      (h : ActorHost) (causal invocation_id : ℕ) (session_id : Option ℕ)
      → P h
      → P (session_settled writes h causal invocation_id session_id)
  unfolding session_settled
  session_settled_keeps h causal invocation_id none p = p
  session_settled_keeps h causal invocation_id (some session_id) p = emits h _ causal refl p

  pub result_settled_keeps :
      (h : ActorHost) (causal : ℕ) (result : Option InvocationResult)
      → P h
      → P (result_settled writes h causal result)
  unfolding result_settled
  result_settled_keeps h causal none p = p
  result_settled_keeps h causal (some result) p = emits h _ causal refl p

  pub failure_settled_keeps :
      (h : ActorHost) (causal invocation_id : ℕ) (error : SupervisorLifecycleError)
      → P h
      → P (failure_settled writes h causal invocation_id error)
  unfolding failure_settled
  failure_settled_keeps h causal invocation_id error p =
      emit_fault_keeps h causal error.code (some invocation_id) p

module _ {κ} (P : ActorHost → Type κ) (writes : ℕ → WriteAnswers)
    (emits : (h : ActorHost) (payload : HostToServerPayload) (causal : ℕ)
      → is_hello payload ≡ false
      → P h
      → P (emit writes h payload causal).0)
    (serves : (h : ActorHost) (sv : Supervisor) (subscriptions : List Subscription)
      → P h
      → P (record h { supervisor = sv; subscriptions = subscriptions })) where
  initialize_keeps :
      (h : ActorHost) (causal : ℕ) (spec : ActorLaunchSpec)
      → P h
      → P (initialize writes h causal spec)
  unfolding initialize
  initialize_keeps h causal spec p =
      elim (Bool-cases (is_foreign h.identity spec.project_id spec.actor_id)) [
        | inl e ↦ rw (e, initialize) (emit_fault_keeps P writes emits h causal _ none p)
        | inr e ↦ rw (e, initialize) (serves h _ _ p)
      ]

  start_answered_keeps :
      (h : ActorHost) (causal : ℕ) (spec : InvocationSpec) (answer : Attempt StartResult)
      → P h
      → P (start_answered writes h causal spec answer).0
  unfolding start_answered
  start_answered_keeps h causal spec (throws e) p = p
  start_answered_keeps h causal spec (returns (StartResult.launch_failed result)) p =
      emits h _ causal refl p
  start_answered_keeps h causal spec (returns (StartResult.rejected error)) p =
      emit_fault_keeps P writes emits h causal error.code _ p
  start_answered_keeps h causal spec (returns (StartResult.started r)) p = serves h h.supervisor _ p

  start_keeps :
      (h : ActorHost) (causal : ℕ) (spec : InvocationSpec) (backend : BackendAnswers)
      → P h
      → P (start writes h causal spec backend).0
  unfolding start
  start_keeps h causal spec backend p =
      elim (Bool-cases (is_foreign h.identity spec.project_id spec.actor_id)) [
        | inl e ↦ rw (e, start) (emit_fault_keeps P writes emits h causal _ _ p)
        | inr e ↦
            rw (e, start) (start_answered_keeps _ causal spec _ (serves h _ h.subscriptions p))
      ]

  stop_answered_keeps :
      (h : ActorHost) (causal invocation_id : ℕ) (result : StopResult)
      → P h
      → P (stop_answered writes h causal invocation_id result)
  unfolding stop_answered
  stop_answered_keeps h causal invocation_id (StopResult.accepted id) p = p
  stop_answered_keeps h causal invocation_id (StopResult.rejected error) p =
      emit_fault_keeps P writes emits h causal error.code _ p

  stop_keeps :
      (h : ActorHost) (causal invocation_id : ℕ) (backend : BackendAnswers)
      → P h
      → P (stop writes h causal invocation_id backend)
  unfolding stop
  stop_keeps h causal invocation_id backend p =
      stop_answered_keeps _ causal invocation_id _ (serves h _ h.subscriptions p)

  dispatch_on :
      (h : ActorHost) (m : ServerToHostMessage) (backend : BackendAnswers)
      (payload : ServerToHostPayload)
      → m.payload ≡ payload
      → P h
      → P (dispatch writes h m backend).0
  unfolding dispatch
  dispatch_on h m backend (ServerToHostPayload.initialize_actor_host spec) e p =
      rw (e, dispatch) (initialize_keeps h m.message_id spec p)
  dispatch_on h m backend (ServerToHostPayload.start_invocation spec) e p =
      rw (e, dispatch) (start_keeps h m.message_id spec backend p)
  dispatch_on h m backend (ServerToHostPayload.stop_invocation id reason) e p =
      rw (e, dispatch) (stop_keeps h m.message_id id backend p)
  dispatch_on h m backend (ServerToHostPayload.shutdown_host reason) e p = rw (e, dispatch) p
  dispatch_on h m backend (ServerToHostPayload.ack id) e p = rw (e, dispatch) p

  pub acknowledged_keeps :
      (h : ActorHost) (result : HostOutboundSendResult) (m : ServerToHostMessage)
      (backend : BackendAnswers)
      → P h
      → P (acknowledged writes h result m backend).0
  unfolding acknowledged
  acknowledged_keeps h HostOutboundSendResult.sent m backend p = dispatch_on h m backend _ refl p
  acknowledged_keeps h (HostOutboundSendResult.transport_failed error) m backend p = p
  acknowledged_keeps h (HostOutboundSendResult.rejected reason) m backend p = p
