-- ===== src/Project/Repositories.antt =====
-- `SqliteProjectRepositories`: infrastructure/sqlite/persistence.ts.
use ai_block.Prelude.{
  ℕ, ◌+◌, Bool, true, false, Option, none, some, ◌==◌, leb, not, ◌&&◌, if◌then◌else◌, is_none,
}
use ai_block.Project.Values.{
  ProjectRecord, DefinitionBrickSummary, DefinitionBrickRevision, same_kind, is_archived,
}
use ai_block.Project.Sql.{
  RevisionRow, Work, Faults, pure, crash, bind, select_project, insert_project, select_summary,
  insert_aggregate, insert_revision, select_revision, advance_aggregate, archive_aggregate,
}

pub data CreateWriteResult : Type 0 where
  created already_exists : CreateWriteResult

pub data AppendWriteResult : Type 0 where
  appended not_found archived kind_mismatch base_revision_conflict : AppendWriteResult

pub data ArchiveWriteResult : Type 0 where
  archived not_found base_revision_conflict : ArchiveWriteResult

-- `Number.MAX_SAFE_INTEGER`
abbrev pub max_safe_integer : ℕ
max_safe_integer = 9007199254740991

-- `positiveSafeInteger(value) !== undefined`
abbrev pub positive_safe_integer : ℕ → Bool
positive_safe_integer value = leb 1 value && leb value max_safe_integer

-- `summaryFromRow`; `none` is the object without members.
abbrev pub summary_from_row : DefinitionBrickSummary → Option DefinitionBrickSummary
summary_from_row row = if positive_safe_integer row.current_revision then some row else none

abbrev pub has_uid : Option DefinitionBrickSummary → ℕ → Bool
has_uid none uid = false
has_uid (some row) uid = uid == row.brick_uid

-- `revisionFromRow`, with the aggregate's row
abbrev pub revision_from_row :
    RevisionRow → Option DefinitionBrickSummary → Option DefinitionBrickRevision
revision_from_row row aggregate =
    if has_uid aggregate row.brick_uid && positive_safe_integer row.revision.revision
    then some row.revision
    else none

abbrev pub summary_of_row : Option DefinitionBrickSummary → Option (Option DefinitionBrickSummary)
summary_of_row none = none
summary_of_row (some row) = some (summary_from_row row)

abbrev pub revision_of_row :
    Option RevisionRow → Option DefinitionBrickSummary → Option (Option DefinitionBrickRevision)
revision_of_row none aggregate = none
revision_of_row (some row) aggregate = some (revision_from_row row aggregate)

module _ (faults : Faults) where
  -- `createProject`: whether it was created
  unfoldable pub create_project : ProjectRecord → Work Bool
  create_project project = bind (select_project faults project.project_id) λ row.
      if not (is_none row) then pure false else bind (insert_project faults project) λ _. pure true

  -- `createBrick`
  unfoldable pub create_brick :
      DefinitionBrickSummary → DefinitionBrickRevision → Work CreateWriteResult
  create_brick summary revision =
      bind (select_summary faults summary.project_id summary.brick_id) λ row.
        if not (is_none row)
        then pure CreateWriteResult.already_exists
        else bind (insert_aggregate faults summary) λ _.
          bind
            (insert_revision faults (record { brick_uid = summary.brick_uid; revision = revision }))
            λ _. pure CreateWriteResult.created

  -- `findSummary`
  unfoldable pub find_summary : ℕ → ℕ → Work (Option (Option DefinitionBrickSummary))
  find_summary project_id brick_id =
      bind (select_summary faults project_id brick_id) λ row. pure (summary_of_row row)

  -- `findRevision`
  unfoldable pub find_revision : ℕ → ℕ → ℕ → Work (Option (Option DefinitionBrickRevision))
  find_revision project_id brick_id revision =
      bind (select_summary faults project_id brick_id) λ aggregate.
        bind (select_revision faults project_id brick_id revision)
          λ row. pure (revision_of_row row aggregate)

  -- The end of `appendRevision`, from the update of the aggregate on
  unfoldable pub append_advanced :
      DefinitionBrickRevision → ℕ → DefinitionBrickSummary → Work AppendWriteResult
  append_advanced revision expected stored =
      bind
        (advance_aggregate faults revision.project_id revision.brick_id revision.kind expected
          revision.revision)
        λ changed.
          if not changed
          then pure AppendWriteResult.base_revision_conflict
          else bind
              (insert_revision faults
                (record { brick_uid = stored.brick_uid; revision = revision }))
              λ _. pure AppendWriteResult.appended

  -- The checks of `appendRevision` on what it found; the object without members has no kind.
  unfoldable pub append_found :
      DefinitionBrickRevision → ℕ → Option (Option DefinitionBrickSummary) → Work AppendWriteResult
  append_found revision expected none = pure AppendWriteResult.not_found
  append_found revision expected (some none) = pure AppendWriteResult.kind_mismatch
  append_found revision expected (some (some stored)) =
      if not (same_kind stored.kind revision.kind)
      then pure AppendWriteResult.kind_mismatch
      else if is_archived stored.status
      then pure AppendWriteResult.archived
      else if not (stored.current_revision == expected)
      then pure AppendWriteResult.base_revision_conflict
      else if not (revision.revision == expected + 1)
      then crash
      else append_advanced revision expected stored

  -- `appendRevision`
  unfoldable pub append_revision : DefinitionBrickRevision → ℕ → Work AppendWriteResult
  append_revision revision expected =
      bind (find_summary revision.project_id revision.brick_id)
        λ stored. append_found revision expected stored

  -- The checks of `archive` on what it found
  unfoldable pub archive_found :
      ℕ → ℕ → ℕ → Option (Option DefinitionBrickSummary) → Work ArchiveWriteResult
  archive_found project_id brick_id expected none = pure ArchiveWriteResult.not_found
  archive_found project_id brick_id expected (some none) =
      pure ArchiveWriteResult.base_revision_conflict
  archive_found project_id brick_id expected (some (some stored)) =
      if not (stored.current_revision == expected)
      then pure ArchiveWriteResult.base_revision_conflict
      else bind (archive_aggregate faults project_id brick_id expected) λ changed.
        if changed
        then pure ArchiveWriteResult.archived
        else pure ArchiveWriteResult.base_revision_conflict

  -- `archive`
  unfoldable pub archive : ℕ → ℕ → ℕ → Work ArchiveWriteResult
  archive project_id brick_id expected =
      bind (find_summary project_id brick_id)
        λ stored. archive_found project_id brick_id expected stored
