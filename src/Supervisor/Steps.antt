-- ===== src/Supervisor/Steps.antt =====
-- Every way in which the supervisor can run: its methods, called by the command processor, and the
-- callbacks of the adapter's promises, each of which settles once: supervisor.ts.
use ai_block.Prelude.{ℕ, ◌<◌, ◌≡◌, Bool, Option, none, some, Attempt}
use ai_block.Protocol.{ActorLaunchSpec, InvocationSpec}
use ai_block.Supervisor.State.{
  AdapterStart, Completion, CompletionState, Reservation, Supervisor, new_supervisor,
}
use ai_block.Supervisor.Operations.{
  initialize, adapter_refused, adapter_initialized, start, stop, session_resolved, session_rejected,
  completion_resolved, completion_rejected, completion_resumed, stop_rejected,
}

-- The adapter has not answered for the reservation yet.
abbrev pub IsOutstanding : Supervisor → ℕ → Type 0
IsOutstanding sv r = (x : Reservation) × (sv.reservations r ≡ some x) × (x.outcome ≡ none)

pub data Step (sv : Supervisor) : Supervisor → Type 0 where
  initializes : (spec : ActorLaunchSpec) → Step sv (initialize sv spec).0
  refused : (r : ℕ) → IsOutstanding sv r → Step sv (adapter_refused sv r)
  initialized : (r : ℕ) → IsOutstanding sv r → Step sv (adapter_initialized sv r)
  starts :
      (spec : InvocationSpec) (answer : Attempt AdapterStart) → Step sv (start sv spec answer).0
  stops : (invocation_id : ℕ) (throws_now : Bool) → Step sv (stop sv invocation_id throws_now).0
  session_resolves :
      (r : ℕ) (value : Option ℕ)
      → r < sv.started
      → (sv.invocations r).session ≡ none
      → Step sv (session_resolved sv r value)
  session_rejects :
      (r : ℕ) → r < sv.started → (sv.invocations r).session ≡ none → Step sv (session_rejected sv r)
  completion_resolves :
      (r : ℕ) (value : Completion)
      → r < sv.started
      → (sv.invocations r).completion ≡ CompletionState.unsettled
      → Step sv (completion_resolved sv r value)
  completion_rejects :
      (r : ℕ)
      → r < sv.started
      → (sv.invocations r).completion ≡ CompletionState.unsettled
      → Step sv (completion_rejected sv r)
  resumes :
      (r : ℕ) (discovered : Option ℕ) (completion : Completion)
      → r < sv.started
      → (sv.invocations r).session ≡ some discovered
      → (sv.invocations r).completion ≡ CompletionState.awaits_session completion
      → Step sv (completion_resumed sv r discovered completion)
  stop_rejects : (r : ℕ) → 0 < (sv.invocations r).stops → Step sv (stop_rejected sv r)

pub data Reach (adapter_id : ℕ) : Supervisor → Type 0 where
  begin : Reach adapter_id (new_supervisor adapter_id)
  next : {sv tv : Supervisor} → Reach adapter_id sv → Step sv tv → Reach adapter_id tv
