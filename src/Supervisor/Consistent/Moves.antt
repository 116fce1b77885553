-- ===== src/Supervisor/Consistent/Moves.antt =====
-- Every step of the supervisor keeps it consistent: supervisor.ts.
use ai_block.Prelude.{
  ℕ, ◌+◌, ◌<◌, ◌≡◌, refl, inl, inr, Bool, true, false, Option, none, some, arith, is_none,
  Bool-cases, Option-cases, returns, throws, Attempt, ◌||◌, ◌==◌,
}
use ai_block.Protocol.{ActorLaunchSpec, InvocationSpec}
use ai_block.Supervisor.State.{
  SupervisorState, SupervisorErrorCode, AdapterStart, Completion, Supervisor,
}
use ai_block.Supervisor.Operations.{
  is_busy, race, is_uninitialized, is_stopping, is_faulted, is_foreign, put_invocation, fail,
  finish, reserve, join_reservation, initialize, resolve_reservation, adapter_refused, take_spec,
  adapter_initialized, start, call_stop, stop, session_resolved, session_rejected,
  completion_resolved, completion_rejected, completion_resumed, stop_rejected,
}
use ai_block.Supervisor.Operations
use ai_block.Supervisor.Steps.{
  Step, initializes, refused, initialized, starts, stops, session_resolves, session_rejects,
  completion_resolves, completion_rejects, resumes, stop_rejects, Reach, begin, next,
}
use ai_block.Supervisor.Consistent.{
  IsConsistent, new_supervisor-IsConsistent, fail-IsConsistent, put_invocation-IsConsistent,
}

initialize-IsConsistent :
    {sv : Supervisor}
    → IsConsistent sv
    → (spec : ActorLaunchSpec) → IsConsistent (initialize sv spec).0
unfolding initialize
initialize-IsConsistent {sv} v spec = record {
  idle = λ e. ground (arith, v.idle);
  busy = λ x e. ground (arith, v.busy x);
  over = λ x. ground (arith, v.over x);
  outcome = λ x lt t. ground (arith, v.outcome x);
  known = ground (arith, v.known);
  reserved_first = λ x e. ground (arith, v.reserved_first x);
}

adapter_refused-IsConsistent :
    {sv : Supervisor} → IsConsistent sv → (r : ℕ) → IsConsistent (adapter_refused sv r)
unfolding adapter_refused
adapter_refused-IsConsistent {sv} v r = record {
  idle = λ e. ground (arith, v.idle);
  busy = λ x e. ground (arith, v.busy x);
  over = λ x. ground (arith, v.over x);
  outcome = λ x lt t. ground (arith, v.outcome x);
  known = ground (arith, v.known);
  reserved_first = λ x e. ground (arith, v.reserved_first x);
}

adapter_initialized-IsConsistent :
    {sv : Supervisor} → IsConsistent sv → (r : ℕ) → IsConsistent (adapter_initialized sv r)
unfolding adapter_initialized
adapter_initialized-IsConsistent {sv} v r = record {
  idle = λ e. ground (arith, v.idle);
  busy = λ x e. ground (arith, v.busy x, v.known, v.reserved_first r);
  over = λ x. ground (arith, v.over x);
  outcome = λ x lt t. ground (arith, v.outcome x);
  known = ground (arith, v.known);
  reserved_first = λ x e. ground (arith, v.reserved_first x);
}

begin-IsConsistent :
    {sv : Supervisor}
    → IsConsistent sv
    → (spec : InvocationSpec) (answer : Attempt AdapterStart) → is_busy sv.state ≡ false
    → is_uninitialized sv.state ≡ false
    → IsConsistent (Operations.begin sv spec answer).0
unfolding Operations.begin
begin-IsConsistent v spec (throws e) q u = v
begin-IsConsistent v spec (returns (AdapterStart.launch_failed error)) q u = v
begin-IsConsistent {sv} v spec (returns AdapterStart.started) q u = record {
  idle = λ e. cc;
  busy = λ x e. ground (arith, v.busy x);
  over = λ x. ground (arith, v.over x, v.busy x);
  outcome = λ x lt t. ground (arith, v.outcome x);
  known = ground (arith, v.known);
  reserved_first = λ x e. ground (arith, v.reserved_first x);
}

start-IsConsistent :
    {sv : Supervisor}
    → IsConsistent sv
    → (spec : InvocationSpec) (answer : Attempt AdapterStart)
    → IsConsistent (start sv spec answer).0
unfolding start
start-IsConsistent {sv} v spec answer = elim (Option-cases sv.launch_spec) [
  | inl e ↦ rw (e, start) v
  | inr (launch, e) ↦
      rw (e, start)
        (elim (Bool-cases (is_uninitialized sv.state)) [
          | inl u ↦ rw u v
          | inr u ↦ rw u (elim (Bool-cases (is_faulted sv.state)) [
            | inl f ↦ rw f v
            | inr f ↦ rw f (elim (Bool-cases (is_busy sv.state)) [
              | inl b ↦ rw b v
              | inr b ↦ rw b (elim (Bool-cases (is_foreign launch spec)) [
                | inl i ↦ rw i v
                | inr i ↦ rw i (begin-IsConsistent v spec answer b u)
              ])
            ])
          ])
        ])
]

call_stop-IsConsistent :
    {sv : Supervisor}
    → IsConsistent sv
    → (r : ℕ) (throws_now : Bool) → sv.active ≡ some r
    → IsConsistent (call_stop sv r throws_now)
unfolding call_stop
call_stop-IsConsistent {sv} v r throws_now e = elim (Bool-cases throws_now) [
  | inl t ↦ rw t (fail-IsConsistent called r _)
  | inr t ↦ rw t called
]
  where
    counted :
        IsConsistent
          (put_invocation sv r (record (sv.invocations r) { stops = (sv.invocations r).stops + 1 }))
    counted = put_invocation-IsConsistent v r _ refl refl refl refl

    called :
        IsConsistent
          (record (put_invocation sv r
            (record (sv.invocations r) { stops = (sv.invocations r).stops + 1 })) {
              state = SupervisorState.stopping;
            })
    called = record {
      idle = λ q. cc;
      busy = λ x q. ground (arith, counted.busy x);
      over = counted.over;
      outcome = counted.outcome;
      known = ground (arith, v.known, v.busy r);
      reserved_first = v.reserved_first;
    }

stop-IsConsistent :
    {sv : Supervisor}
    → IsConsistent sv
    → (invocation_id : ℕ) (throws_now : Bool) → IsConsistent (stop sv invocation_id throws_now).0
unfolding stop
stop-IsConsistent {sv} v invocation_id throws_now =
    elim (Bool-cases (is_uninitialized sv.state || is_none sv.launch_spec)) [
      | inl u ↦ rw (u, stop) v
      | inr u ↦
          rw (u, stop)
            (elim (Option-cases sv.active) [
              | inl e ↦ rw (e, stop) v
              | inr (r, e) ↦
                  rw (e, stop)
                    (elim (Bool-cases ((sv.invocations r).spec.invocation_id == invocation_id)) [
                      | inr n ↦ rw n v
                      | inl n ↦ rw n (elim (Bool-cases (sv.invocations r).completion_settled) [
                        | inl c ↦ rw c v
                        | inr c ↦ rw c (elim (Bool-cases (is_stopping sv.state)) [
                          | inl t ↦ rw t v
                          | inr t ↦ rw t (call_stop-IsConsistent v r throws_now e)
                        ])
                      ])
                    ])
            ])
    ]

session_resolved-IsConsistent :
    {sv : Supervisor}
    → IsConsistent sv
    → (r : ℕ) (value : Option ℕ) → IsConsistent (session_resolved sv r value)
unfolding session_resolved
session_resolved-IsConsistent {sv} v r value = record {
  idle = λ e. ground (arith, v.idle);
  busy = λ x e. ground (arith, v.busy x);
  over = λ x. ground (arith, v.over x);
  outcome = λ x lt t. ground (arith, v.outcome x);
  known = ground (arith, v.known);
  reserved_first = λ x e. ground (arith, v.reserved_first x);
}

session_rejected-IsConsistent :
    {sv : Supervisor} → IsConsistent sv → (r : ℕ) → IsConsistent (session_rejected sv r)
unfolding session_rejected
session_rejected-IsConsistent v r =
    put_invocation-IsConsistent (fail-IsConsistent v r _) r _ refl refl refl refl

completion_resolved-IsConsistent :
    {sv : Supervisor}
    → IsConsistent sv
    → (r : ℕ) (value : Completion) → IsConsistent (completion_resolved sv r value)
unfolding completion_resolved
completion_resolved-IsConsistent v r value = put_invocation-IsConsistent v r _ refl refl refl refl

-- After a call of `fail` the race of the invocation is over.
fail-race :
    {sv : Supervisor}
    → IsConsistent sv
    → (r : ℕ) (code : SupervisorErrorCode) → r < sv.started
    → let i = (fail sv r code).invocations r in race i.result none ≡ i.result
unfolding fail
fail-race {sv} v r code lt = ground (arith, v.busy r, v.over r, v.outcome r)

completion_rejected-IsConsistent :
    {sv : Supervisor}
    → IsConsistent sv
    → (r : ℕ) → r < sv.started
    → IsConsistent (completion_rejected sv r)
unfolding completion_rejected
completion_rejected-IsConsistent {sv} v r lt =
    let w : IsConsistent
        (put_invocation sv r (record (sv.invocations r) { completion_settled = true })) =
      put_invocation-IsConsistent v r _ refl refl refl refl in
    put_invocation-IsConsistent (fail-IsConsistent w r _) r _ refl refl (fail-race w r _ lt) refl

completion_resumed-IsConsistent :
    {sv : Supervisor}
    → IsConsistent sv
    → (r : ℕ) (discovered : Option ℕ) (completion : Completion) → r < sv.started
    → IsConsistent (completion_resumed sv r discovered completion)
unfolding completion_resumed finish
completion_resumed-IsConsistent {sv} v r discovered completion lt = record {
  idle = λ e. ground (arith, v.idle, v.over r);
  busy = λ x e. ground (arith, v.busy x, v.over r);
  over = λ x. ground (arith, v.over x, v.over r);
  outcome = λ x l t. ground (arith, v.outcome x, v.outcome r, v.busy x, v.over x, v.over r);
  known = ground (arith, v.known, v.busy r, v.over r);
  reserved_first = λ x e. ground (arith, v.reserved_first x);
}

pub Step-IsConsistent : {sv tv : Supervisor} → Step sv tv → IsConsistent sv → IsConsistent tv
unfolding stop_rejected
Step-IsConsistent (initializes spec) v = initialize-IsConsistent v spec
Step-IsConsistent (refused r o) v = adapter_refused-IsConsistent v r
Step-IsConsistent (initialized r o) v = adapter_initialized-IsConsistent v r
Step-IsConsistent (starts spec answer) v = start-IsConsistent v spec answer
Step-IsConsistent (stops invocation_id throws_now) v = stop-IsConsistent v invocation_id throws_now
Step-IsConsistent (session_resolves r value lt p) v = session_resolved-IsConsistent v r value
Step-IsConsistent (session_rejects r lt p) v = session_rejected-IsConsistent v r
Step-IsConsistent (completion_resolves r value lt p) v = completion_resolved-IsConsistent v r value
Step-IsConsistent (completion_rejects r lt p) v = completion_rejected-IsConsistent v r lt
Step-IsConsistent (resumes r discovered completion lt p q) v =
    completion_resumed-IsConsistent v r discovered completion lt
Step-IsConsistent (stop_rejects r p) v = fail-IsConsistent v r _

-- However the supervisor was used and whatever its adapter did: it is busy exactly while it has an
-- active invocation, that one is not over, every other one is over, and an invocation that is over
-- has settled its handle one way, with a result for its own identities or with a failure.
pub Reach-IsConsistent : {adapter_id : ℕ} {sv : Supervisor} → Reach adapter_id sv → IsConsistent sv
Reach-IsConsistent {adapter_id} begin = new_supervisor-IsConsistent adapter_id
Reach-IsConsistent (next r s) = Step-IsConsistent s (Reach-IsConsistent r)
