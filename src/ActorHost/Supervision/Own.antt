-- ===== src/ActorHost/Supervision/Own.antt =====
-- The supervisor in a host runs as `BackendSupervisor` can, for the host's actor alone:
-- command-processor.ts and supervisor.ts.
use ai_block.Prelude.{
  ℕ, ◌≡◌, refl, ◌<◌, none, some, returns, throws, Bool-cases, Option-cases, inl, inr, arith, ◌∙◌,
  subst,
}
use ai_block.Protocol.{
  ActorLaunchSpec, Decoded, decoded, undecodable, ServerToHostMessage, HostToServerPayload,
}
use ai_block.Supervisor.State.{Supervisor, AdapterStart, Reservation}
use ai_block.Supervisor.Operations as Supervised
use ai_block.Supervisor.Steps as Moves
use ai_block.Supervisor.Consistent.{IsConsistent, Moves.Reach-IsConsistent}
use ai_block.ActorHost.State.{
  ActorHost, HostIdentity, ServerConnectionState, WriteAnswers, BackendAnswers,
}
use ai_block.ActorHost.Connection.{envelope_error, start, go_live, write}
use ai_block.ActorHost.Commands.{
  is_ack, initialize_settled, session_settled, result_settled, failure_settled, take_inbound,
  receive, receive_live, process, emit,
}
use ai_block.ActorHost.Writes.{write_cases}
use ai_block.ActorHost.Runs.{
  initialize_settled_keeps, session_settled_keeps, result_settled_keeps, failure_settled_keeps,
  acknowledged_keeps,
}
use ai_block.ActorHost.Steps.{
  IsCallback, Step, starts, receives, fails, initialize_settles, session_settles, result_settles,
  failure_settles, supervises, Reach, begin, next,
}
use ai_block.ActorHost.Supervision.{
  IsFor, Called, untouched, initialized, started, stopped, Keeps, emit-Keeps, receive-Called,
}

-- Everything that the supervisor holds is for one actor of one project.
pub record IsOwn (identity : HostIdentity) (sv : Supervisor) : Type 0 where
  pub launch :
      (spec : ActorLaunchSpec)
      → sv.launch_spec ≡ some spec
      → IsFor identity spec.project_id spec.actor_id
  pub reserved :
      (r : ℕ) (x : Reservation)
      → sv.reservations r ≡ some x
      → IsFor identity x.launch_spec.project_id x.launch_spec.actor_id
  pub invoked :
      (r : ℕ)
      → r < sv.started
      → IsFor identity (sv.invocations r).spec.project_id (sv.invocations r).spec.actor_id

Called-IsOwn :
    {identity : HostIdentity} {sv tv : Supervisor}
    → Called identity sv tv
    → IsOwn identity sv
    → IsOwn identity tv
unfolding Supervised.initialize Supervised.start Supervised.stop Supervised.begin
    Supervised.call_stop Supervised.fail
Called-IsOwn untouched o = o
Called-IsOwn (initialized spec own) o = record {
  launch = λ s e. ground (arith, o.launch s);
  reserved = λ r x e. ground (arith, o.reserved r x);
  invoked = λ r lt. ground (arith, o.invoked r);
}
Called-IsOwn (started spec (throws e) own) o = record {
  launch = λ s q. ground (arith, o.launch s);
  reserved = λ r x q. ground (arith, o.reserved r x);
  invoked = λ r lt. ground (arith, o.invoked r);
}
Called-IsOwn (started spec (returns (AdapterStart.launch_failed e)) own) o = record {
  launch = λ s q. ground (arith, o.launch s);
  reserved = λ r x q. ground (arith, o.reserved r x);
  invoked = λ r lt. ground (arith, o.invoked r);
}
Called-IsOwn (started spec (returns AdapterStart.started) own) o = record {
  launch = λ s q. ground (arith, o.launch s);
  reserved = λ r x q. ground (arith, o.reserved r x);
  invoked = λ r lt. ground (arith, o.invoked r);
}
Called-IsOwn (stopped id throws_now) o = record {
  launch = λ s e. ground (arith, o.launch s);
  reserved = λ r x e. ground (arith, o.reserved r x);
  invoked = λ r lt. ground (arith, o.invoked r);
}

callback-IsOwn :
    {identity : HostIdentity} {sv tv : Supervisor}
    → (s : Moves.Step sv tv) → IsCallback s
    → IsOwn identity sv
    → IsOwn identity tv
unfolding Supervised.adapter_refused Supervised.adapter_initialized Supervised.session_resolved
    Supervised.session_rejected Supervised.completion_resolved Supervised.completion_rejected
    Supervised.completion_resumed Supervised.stop_rejected Supervised.fail Supervised.finish
callback-IsOwn (Moves.initializes spec) c o = absurd c
callback-IsOwn (Moves.starts spec answer) c o = absurd c
callback-IsOwn (Moves.stops id throws_now) c o = absurd c
callback-IsOwn {identity} {sv} (Moves.refused r x) c o = record {
  launch = λ s e. ground (arith, o.launch s);
  reserved = λ q y e. elim (Option-cases (sv.reservations q)) [
    | inl none_there ↦ ground (arith)
    | inr (z, there) ↦ ground (arith, o.reserved q z there)
  ];
  invoked = λ q lt. ground (arith, o.invoked q);
}
callback-IsOwn {identity} {sv} (Moves.initialized r x) c o = record {
  launch = λ s e. elim (Option-cases (sv.reservations r)) [
    | inl none_there ↦ ground (arith, o.launch s)
    | inr (z, there) ↦ ground (arith, o.launch s, o.reserved r z there)
  ];
  reserved = λ q y e. elim (Option-cases (sv.reservations q)) [
    | inl none_there ↦ ground (arith)
    | inr (z, there) ↦ ground (arith, o.reserved q z there)
  ];
  invoked = λ q lt. ground (arith, o.invoked q);
}
callback-IsOwn (Moves.session_resolves r value lt p) c o = record {
  launch = λ s e. ground (arith, o.launch s);
  reserved = λ q x e. ground (arith, o.reserved q x);
  invoked = λ q lt. ground (arith, o.invoked q);
}
callback-IsOwn (Moves.session_rejects r lt p) c o = record {
  launch = λ s e. ground (arith, o.launch s);
  reserved = λ q x e. ground (arith, o.reserved q x);
  invoked = λ q lt. ground (arith, o.invoked q);
}
callback-IsOwn (Moves.completion_resolves r value lt p) c o = record {
  launch = λ s e. ground (arith, o.launch s);
  reserved = λ q x e. ground (arith, o.reserved q x);
  invoked = λ q lt. ground (arith, o.invoked q);
}
callback-IsOwn (Moves.completion_rejects r lt p) c o = record {
  launch = λ s e. ground (arith, o.launch s);
  reserved = λ q x e. ground (arith, o.reserved q x);
  invoked = λ q lt. ground (arith, o.invoked q);
}
callback-IsOwn (Moves.resumes r discovered completion lt p q) c o = record {
  launch = λ s e. ground (arith, o.launch s);
  reserved = λ q x e. ground (arith, o.reserved q x);
  invoked = λ q lt. ground (arith, o.invoked q);
}
callback-IsOwn (Moves.stop_rejects r p) c o = record {
  launch = λ s e. ground (arith, o.launch s);
  reserved = λ q x e. ground (arith, o.reserved q x);
  invoked = λ q lt. ground (arith, o.invoked q);
}

Called-Reach :
    {adapter_id : ℕ} {identity : HostIdentity} {sv tv : Supervisor}
    → Called identity sv tv
    → Moves.Reach adapter_id sv
    → Moves.Reach adapter_id tv
Called-Reach untouched r = r
Called-Reach (initialized spec own) r = Moves.next r (Moves.initializes spec)
Called-Reach (started spec answer own) r = Moves.next r (Moves.starts spec answer)
Called-Reach (stopped id throws_now) r = Moves.next r (Moves.stops id throws_now)

-- What the supervisor of a host that runs is.
abbrev pub IsSound : HostIdentity → ℕ → ActorHost → Type 0
IsSound identity adapter_id h =
    (h.identity ≡ identity) × Moves.Reach adapter_id h.supervisor × IsOwn identity h.supervisor

kept-IsSound :
    {identity : HostIdentity} {adapter_id : ℕ} (h k : ActorHost)
    → Keeps h.identity h.supervisor k
    → IsSound identity adapter_id h
    → IsSound identity adapter_id k
kept-IsSound h k (s, i) (e, r, o) = (i ∙ e, rw s r, rw s o)

Called-IsSound :
    {identity : HostIdentity} {adapter_id : ℕ} (h k : ActorHost)
    → Called h.identity h.supervisor k.supervisor
    → k.identity ≡ h.identity
    → IsSound identity adapter_id h
    → IsSound identity adapter_id k
Called-IsSound {identity} {adapter_id} h k c i (e, r, o) =
    let d : Called identity h.supervisor k.supervisor =
      subst (λ y. Called y h.supervisor k.supervisor) e c in
    (i ∙ e, Called-Reach d r, Called-IsOwn d o)

emit_identity :
    (identity : HostIdentity) (writes : ℕ → WriteAnswers) (h : ActorHost)
    (payload : HostToServerPayload) (causal : ℕ)
    → h.identity ≡ identity
    → (emit writes h payload causal).0.identity ≡ identity
emit_identity identity writes h payload causal e =
    (emit-Keeps identity h.supervisor writes h payload causal (refl, e)).1

process_identity :
    (writes : ℕ → WriteAnswers) (h : ActorHost) (m : ServerToHostMessage) (backend : BackendAnswers)
    → (process writes h m backend).0.identity ≡ h.identity
unfolding process
process_identity writes h m backend = elim (Bool-cases (is_ack m.payload)) [
  | inl e ↦ rw (e, process) refl
  | inr e ↦
      rw (e, process)
        (acknowledged_keeps (λ k. k.identity ≡ h.identity) writes
          (λ k p c _. emit_identity h.identity writes k p c) (λ k sv ss q. q) _ _ m backend
          (emit_identity h.identity writes h _ m.message_id refl))
]

receive_live_identity :
    (writes : ℕ → WriteAnswers) (h : ActorHost) (input : Decoded ServerToHostMessage)
    (backend : BackendAnswers)
    → (receive_live writes h input backend).0.identity ≡ h.identity
unfolding receive_live
receive_live_identity writes h (undecodable error) backend = refl
receive_live_identity writes h (decoded m) backend = elim (Option-cases (envelope_error h m)) [
  | inr (reason, e) ↦ rw (e, receive_live) refl
  | inl e ↦ rw (e, receive_live) (process_identity writes (take_inbound h m) m backend)
]

receive_identity :
    (writes : ℕ → WriteAnswers) (h : ActorHost) (input : Decoded ServerToHostMessage)
    (backend : BackendAnswers)
    → (receive writes h input backend).0.identity ≡ h.identity
unfolding receive
receive_identity writes h input backend = go h.state refl
  where
    go :
        (s : ServerConnectionState)
        → h.state ≡ s
        → (receive writes h input backend).0.identity ≡ h.identity
    go ServerConnectionState.not_started e = rw (e, receive) refl
    go ServerConnectionState.failed e = rw (e, receive) refl
    go ServerConnectionState.live e = rw (e, receive) (receive_live_identity writes h input backend)

start-Keeps :
    (writes : ℕ → WriteAnswers) (h : ActorHost) → Keeps h.identity h.supervisor (start writes h).0
unfolding start write
start-Keeps writes h = go h.state refl
  where
    go :
        (s : ServerConnectionState) → h.state ≡ s → Keeps h.identity h.supervisor (start writes h).0
    go ServerConnectionState.live e = rw (e, start) (refl, refl)
    go ServerConnectionState.failed e = rw (e, start) (refl, refl)
    go ServerConnectionState.not_started e =
        rw (e, start)
          (write_cases (λ x. Keeps h.identity h.supervisor (go_live x).0) h _ none
            (writes h.next_outbound_sequence) (λ m. (refl, refl))
            (λ m. (ground arith, ground arith)) λ id at. (ground arith, ground arith))

Step-IsSound :
    {identity : HostIdentity} {adapter_id : ℕ} {writes : ℕ → WriteAnswers} {h k : ActorHost}
    → Step writes h k
    → IsSound identity adapter_id h
    → IsSound identity adapter_id k
Step-IsSound {identity} {adapter_id} {writes} {h} starts v =
    kept-IsSound h (start writes h).0 (start-Keeps writes h) v
Step-IsSound {identity} {adapter_id} {writes} {h} (receives input backend) v =
    Called-IsSound h (receive writes h input backend).0 (receive-Called writes h input backend)
      (receive_identity writes h input backend) v
Step-IsSound fails v = v
Step-IsSound {identity} {adapter_id} {writes} {h} (initialize_settles causal actor_id result) v =
    kept-IsSound h (initialize_settled writes h causal actor_id result)
      (initialize_settled_keeps (Keeps h.identity h.supervisor) writes
        (λ k p c _. emit-Keeps h.identity h.supervisor writes k p c) h causal actor_id result
        (refl, refl))
      v
Step-IsSound {identity} {adapter_id} {writes} {h} (session_settles causal invocation_id session_id)
      v =
    kept-IsSound h (session_settled writes h causal invocation_id session_id)
      (session_settled_keeps (Keeps h.identity h.supervisor) writes
        (λ k p c _. emit-Keeps h.identity h.supervisor writes k p c) h causal invocation_id
        session_id (refl, refl))
      v
Step-IsSound {identity} {adapter_id} {writes} {h} (result_settles causal result) v =
    kept-IsSound h (result_settled writes h causal result)
      (result_settled_keeps (Keeps h.identity h.supervisor) writes
        (λ k p c _. emit-Keeps h.identity h.supervisor writes k p c) h causal result (refl, refl))
      v
Step-IsSound {identity} {adapter_id} {writes} {h} (failure_settles causal invocation_id error) v =
    kept-IsSound h (failure_settled writes h causal invocation_id error)
      (failure_settled_keeps (Keeps h.identity h.supervisor) writes
        (λ k p c _. emit-Keeps h.identity h.supervisor writes k p c) h causal invocation_id error
        (refl, refl))
      v
Step-IsSound {identity} {adapter_id} {writes} {h} (supervises sv s c) (e, r, o) =
    (e, Moves.next r s, callback-IsOwn s c o)

reach-IsSound :
    {writes : ℕ → WriteAnswers} {identity : HostIdentity} {generation adapter_id : ℕ}
    {h : ActorHost}
    → Reach writes identity generation adapter_id h
    → IsSound identity adapter_id h
reach-IsSound begin = (
  refl,
  Moves.begin,
  record {
    launch = λ s e. cc;
    reserved = λ r x e. cc;
    invoked = λ r lt. absurd (omega (arith, lt));
  },
)
reach-IsSound (next r s) = Step-IsSound s (reach-IsSound r)

-- However the host has run, its supervisor is consistent, and the configuration it holds, its
-- reservations and the invocations that it has started are all for the project and the actor that
-- the host stands for.
pub supervision-IsOwn :
    {writes : ℕ → WriteAnswers} {identity : HostIdentity} {generation adapter_id : ℕ}
    {h : ActorHost}
    → Reach writes identity generation adapter_id h
    → IsConsistent h.supervisor × IsOwn identity h.supervisor
supervision-IsOwn r = let (e, reach, own) = reach-IsSound r in (Reach-IsConsistent reach, own)
