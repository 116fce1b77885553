-- ===== src/Project/Ensures.antt =====
-- What a work in a transaction leaves if it ends with a value, from tables that are given: the rules
-- for the transactions of application.ts.
use ai_block.Prelude.{
  ℕ, ◌+◌, ◌≡◌, refl, sym, subst, Bool, true, false, Option, none, some, inl, inr, Bool-cases,
  Attempt, returns, throws, if◌then◌else◌,
}
use ai_block.Project.Values.{ProjectError}
use ai_block.Project.Sql.{Tables, Session, Outcome, Work, Faults, pure, follow, bind, execute}
use ai_block.Project.Application.{call, check, or_abort}

abbrev pub After : {A : Type 0} → (A → Tables → Type 0) → Session × Outcome A → Type 0
After Q (s, Outcome.done a) = Q a s.tables
After Q (s, Outcome.aborted code) = Unit
After Q (s, Outcome.failed) = Unit

pub record Ensures {A : Type 0} (t : Tables) (m : Work A) (Q : A → Tables → Type 0) : Type 0 where
  pub holds : (k : ℕ) → After Q (m (record { tables = t; executed = k }))

follow-After :
    {A B : Type 0} (Q : A → Tables → Type 0) (R : B → Tables → Type 0) (f : A → Work B)
    (x : Session × Outcome A)
    → After Q x
    → ((a : A) (u : Tables) → Q a u → Ensures u (f a) R)
    → After R (follow x f)
follow-After Q R f (s, Outcome.done a) q h = (h a s.tables q).holds s.executed
follow-After Q R f (s, Outcome.aborted code) q h = tt
follow-After Q R f (s, Outcome.failed) q h = tt

pub bind-Ensures :
    {A B : Type 0} {Q : A → Tables → Type 0} {R : B → Tables → Type 0} {t : Tables} {m : Work A}
    {f : A → Work B}
    → Ensures t m Q
    → ((a : A) (u : Tables) → Q a u → Ensures u (f a) R)
    → Ensures t (bind m f) R
unfolding bind
bind-Ensures {A} {B} {Q} {R} {t} {m} {f} q h = record {
  holds = λ k. follow-After Q R f (m _) (q.holds k) h;
}

-- The first work changes nothing.
pub read-Ensures :
    {A B : Type 0} {S : A → Type 0} {R : B → Tables → Type 0} {t : Tables} {m : Work A}
    {f : A → Work B}
    → Ensures t m (λ a u. (u ≡ t) × S a)
    → ((a : A) → S a → Ensures t (f a) R)
    → Ensures t (bind m f) R
read-Ensures {A} {B} {S} {R} {t} {m} {f} q h =
    bind-Ensures q λ a u w. subst (λ v. Ensures v (f a) R) (sym w.0) (h a w.1)

pub pure-Ensures :
    {A : Type 0} {Q : A → Tables → Type 0} {t : Tables} {a : A} → Q a t → Ensures t (pure a) Q
pure-Ensures q = record { holds = λ k. q }

pub call-Ensures :
    {A : Type 0} (t : Tables) (x : Attempt A)
    → Ensures t (call x) (λ a u. (u ≡ t) × (x ≡ returns a))
call-Ensures t (returns a) = record { holds = λ k. (refl, refl) }
call-Ensures t (throws e) = record { holds = λ k. tt }

pub check-Ensures :
    (t : Tables) (holds : Bool) (code : ProjectError)
    → Ensures t (check holds code) (λ a u. (u ≡ t) × (holds ≡ true))
check-Ensures t true code = record { holds = λ k. (refl, refl) }
check-Ensures t false code = record { holds = λ k. tt }

pub or_abort-Ensures :
    {A : Type 0} (t : Tables) (code : ProjectError) (o : Option A)
    → Ensures t (or_abort code o) (λ a u. (u ≡ t) × (o ≡ some a))
or_abort-Ensures t code none = record { holds = λ k. tt }
or_abort-Ensures t code (some a) = record { holds = λ k. (refl, refl) }

abbrev AfterStatement : {A : Type 0} → (A → Tables → Type 0) → Tables × Outcome A → Type 0
AfterStatement Q (u, Outcome.done a) = Q a u
AfterStatement Q (u, Outcome.aborted code) = Unit
AfterStatement Q (u, Outcome.failed) = Unit

statement-After :
    {A : Type 0} (Q : A → Tables → Type 0) (k : ℕ) (x : Tables × Outcome A)
    → AfterStatement Q x
    → After Q (record { tables = x.0; executed = k }, x.1)
statement-After Q k (u, Outcome.done a) q = q
statement-After Q k (u, Outcome.aborted code) q = tt
statement-After Q k (u, Outcome.failed) q = tt

pub execute-Ensures :
    {A : Type 0} {Q : A → Tables → Type 0} {t : Tables} (faults : Faults)
    (statement : Tables → Tables × Outcome A)
    → AfterStatement Q (statement t)
    → Ensures t (execute faults statement) Q
unfolding execute
execute-Ensures {A} {Q} {t} faults statement q = record {
  holds = λ k. elim (Bool-cases (faults.statement_fails k)) [
    | inl e ↦ rw e tt
    | inr e ↦ rw e (statement-After Q (k + 1) (statement t) q)
  ];
}

weaken-After :
    {A : Type 0} (Q R : A → Tables → Type 0) (x : Session × Outcome A)
    → After Q x
    → ((a : A) (u : Tables) → Q a u → R a u)
    → After R x
weaken-After Q R (s, Outcome.done a) q h = h a s.tables q
weaken-After Q R (s, Outcome.aborted code) q h = tt
weaken-After Q R (s, Outcome.failed) q h = tt

pub weaken-Ensures :
    {A : Type 0} {Q R : A → Tables → Type 0} {t : Tables} {m : Work A}
    → Ensures t m Q
    → ((a : A) (u : Tables) → Q a u → R a u)
    → Ensures t m R
weaken-Ensures {A} {Q} {R} {t} {m} q h = record {
  holds = λ k. weaken-After Q R (m _) (q.holds k) h;
}

-- A statement that fails under a condition and else writes.
pub write-Ensures :
    {Q : Unit {0} → Tables → Type 0} {t : Tables} (faults : Faults) (refused : Tables → Bool)
    (f : Tables → Tables)
    → Q tt (f t)
    → Ensures t
        (execute faults λ x. if refused x then (x, Outcome.failed) else (f x, Outcome.done tt))
        Q
write-Ensures {Q} {t} faults refused f q =
    execute-Ensures faults _ (elim (Bool-cases (refused t)) [ inl e ↦ rw e tt | inr e ↦ rw e q ])
