-- ===== src/Project/Tests.antt =====
-- Transactions of the project module at fixed inputs: application.ts and persistence.ts.
use ai_block.Prelude.{
  ℕ, Option, none, Bool, false, ◌==◌, ◌+◌, ◌≡◌, refl, true, false, some, returns,
}
use ai_block.Protocol.{decoded}
use ai_block.Project.Values.{
  decode_stored_project, decode_stored_summary, DefinitionBrickSummary, ProjectError, BrickKind,
  ProjectPorts,
}
use ai_block.Project.Sql.{
  select_summary, insert_aggregate, insert_revision, advance_aggregate, Database, Faults,
  new_database, run, bind, execute, select_project, insert_project,
}
use ai_block.Project.Repositories.{
  create_brick, find_summary, append_revision, append_found, append_advanced, create_project,
}
use ai_block.Project.Application.{
  Result, BrickAndRevision, revise_definition_brick, candidate, creating_brick, find_project,
  new_revision, require_summary, check_current, run_in_transaction, creating_project,
  create_project_op, create_definition_brick, revising_brick, ReviseCommand, ExactCommand,
  reading_exact,
}
use ai_block.Project.Ensures.{Ensures}
use ai_block.Project.Exact.{IsExact, reading_exact_lem}
use ai_block.Project.Revisions.{IsRevised, revising_brick_lem}
use ai_block.Project.Transactions.{AllOrNothing, run_in_transaction_lem}

abbrev pub ports : ProjectPorts
ports = record {
  now = returns 8;
  new_project_id = returns 1;
  new_definition_brick_id = λ p b. returns (p + b);
  new_definition_brick_revision_id = λ p b n. returns (p + b + n);
  compute = λ kind body. returns body;
  project_ok = λ p. true;
  summary_ok = λ s. true;
  revision_ok = λ r. true;
  canonical_definition_brick_body = λ kind body. some body;
}

abbrev pub no_faults : Faults
no_faults = record {
  begin_fails = false;
  commit_fails = false;
  rollback_fails = false;
  statement_fails = λ n. false;
}

create_project_test :
    ((create_project_op ports no_faults new_database true).0.committed.projects 1)
    ≡ some (record { project_id = 1; created_at = 8 })
unfolding create_project_op run_in_transaction run creating_project create_project bind execute
    select_project insert_project
create_project_test = refl

run_in_transaction_lem_example :
    AllOrNothing new_database
      (creating_project ports no_faults)
      (run_in_transaction no_faults new_database (creating_project ports no_faults))
run_in_transaction_lem_example =
    run_in_transaction_lem no_faults new_database (creating_project ports no_faults)

abbrev with_project : Database
with_project = (create_project_op ports no_faults new_database true).0

abbrev pub with_brick : Database
with_brick =
    (create_definition_brick ports no_faults with_project (
      decoded (record {
        project_id = 1;
        requested_brick_id = 2;
        kind = BrickKind.prompt;
        body = "{}";
      }))).0

abbrev revise_it : ReviseCommand
revise_it = record {
  project_id = 1;
  brick_id = 2;
  base_revision = 1;
  kind = BrickKind.prompt;
  body = "{}";
}

revising_brick_lem_example :
    Ensures with_brick.committed
      (revising_brick ports no_faults revise_it ("{}", "{}"))
      (IsRevised with_brick.committed revise_it ("{}", "{}"))
revising_brick_lem_example =
    revising_brick_lem ports no_faults with_brick.committed revise_it ("{}", "{}")

-- The run of `reviseDefinitionBrick` that succeeds, and the stale one that follows it.
abbrev revised : Database × Result BrickAndRevision
revised = revise_definition_brick ports no_faults with_brick (decoded revise_it)

abbrev has_revision : Option DefinitionBrickSummary → ℕ → Bool
has_revision none n = false
has_revision (some x) n = x.current_revision == n

revise_test : has_revision (revised.0.committed.aggregates 1 2) 2 ≡ true
unfolding create_project_op create_definition_brick revise_definition_brick run_in_transaction run
    creating_project create_project bind execute select_project insert_project candidate
    creating_brick find_project decode_stored_project new_revision create_brick select_summary
    insert_aggregate insert_revision revising_brick require_summary find_summary
    decode_stored_summary check_current append_revision append_found append_advanced
    advance_aggregate
revise_test = refl

conflict_test :
    (revise_definition_brick ports no_faults revised.0 (decoded revise_it)).1
    ≡ Result.error ProjectError.definition_brick_revision_conflict
unfolding create_project_op create_definition_brick revise_definition_brick run_in_transaction run
    creating_project create_project bind execute select_project insert_project candidate
    creating_brick find_project decode_stored_project new_revision create_brick select_summary
    insert_aggregate insert_revision revising_brick require_summary find_summary
    decode_stored_summary check_current append_revision append_found append_advanced
    advance_aggregate
conflict_test = refl

abbrev exact_command : ExactCommand
exact_command = record { project_id = 1; id = 2; revision = 1 }

reading_exact_lem_example :
    Ensures with_brick.committed (reading_exact ports no_faults exact_command) (λ found u.
      (u ≡ with_brick.committed) × IsExact ports no_faults with_brick.committed exact_command found)
reading_exact_lem_example = reading_exact_lem ports no_faults with_brick.committed exact_command
