-- ===== src/Actor/Slots.antt =====
-- The references of an ActorTemplate, by slot: `descriptorsFor` and `duplicatePromptIssues` of
-- validation.ts in apps/runtime-server/src/modules/actor.
use ai_block.Prelude.{
  ℕ, suc, String, Text, codes, decimal, Bool, true, false, none, some, List, [], ◌∷◌, ◌++◌, ◌==◌,
  not, ◌&&◌, if◌then◌else◌, has,
}
use ai_block.Project.Values.{BrickKind, DefinitionBrickRevision}
use ai_block.Actor.Values.{ExactBrickRef, TemplateSpec}
use ai_block.Actor.Report.{PublicIssue, StableIssueCode}

pub data RefSlot : Type 0 where
  system_prompt initial_prompt backend toolset runtime_config : RefSlot

abbrev pub same_slot : RefSlot → RefSlot → Bool
same_slot RefSlot.system_prompt RefSlot.system_prompt = true
same_slot RefSlot.initial_prompt RefSlot.initial_prompt = true
same_slot RefSlot.backend RefSlot.backend = true
same_slot RefSlot.toolset RefSlot.toolset = true
same_slot RefSlot.runtime_config RefSlot.runtime_config = true
same_slot _ _ = false

pub record RefDescriptor : Type 0 where
  pub slot : RefSlot
  pub path : Text
  pub expected_kind : BrickKind
  pub ref : ExactBrickRef

pub record PersistedDefinitionBrickProvenance : Type 0 where
  pub project_id : ℕ
  pub brick_id : ℕ
  pub revision : ℕ
  pub kind : BrickKind
  pub revision_uid : ℕ
  pub digest : String

pub record ResolvedActorTemplateBrick : Type 0 where
  pub authored : ExactBrickRef
  pub revision : DefinitionBrickRevision

pub record ResolvedActorTemplateCandidate : Type 0 where
  pub project_id : ℕ
  pub system_prompts : List ResolvedActorTemplateBrick
  pub initial_prompts : List ResolvedActorTemplateBrick
  pub backend : ResolvedActorTemplateBrick
  pub toolset : ResolvedActorTemplateBrick
  pub runtime_config : ResolvedActorTemplateBrick
  pub working_directory : String

-- `` `/system_prompt/bricks/${order}/ref` `` and its like
abbrev pub prompt_path : Text → ℕ → Text
prompt_path section order = section ++ codes "/bricks/" ++ decimal order ++ codes "/ref"

-- The loops of `descriptorsFor` over the prompts, from an order on
unfoldable pub prompt_descriptors :
    RefSlot → Text → BrickKind → ℕ → List ExactBrickRef → List RefDescriptor
prompt_descriptors slot section kind order [] = []
prompt_descriptors slot section kind order (ref ∷ refs) =
    record { slot = slot; path = prompt_path section order; expected_kind = kind; ref = ref }
    ∷ prompt_descriptors slot section kind (suc order) refs

abbrev pub system_prompt_descriptors : TemplateSpec → List RefDescriptor
system_prompt_descriptors spec =
    prompt_descriptors RefSlot.system_prompt (codes "/system_prompt") BrickKind.sys_prompt 0
      spec.system_prompt

abbrev pub initial_prompt_descriptors : TemplateSpec → List RefDescriptor
initial_prompt_descriptors spec =
    prompt_descriptors RefSlot.initial_prompt (codes "/initial_prompt") BrickKind.prompt 0
      spec.initial_prompt

abbrev pub backend_descriptor : TemplateSpec → RefDescriptor
backend_descriptor spec = record {
  slot = RefSlot.backend;
  path = codes "/backend/ref";
  expected_kind = BrickKind.backend;
  ref = spec.backend;
}

abbrev pub toolset_descriptor : TemplateSpec → RefDescriptor
toolset_descriptor spec = record {
  slot = RefSlot.toolset;
  path = codes "/toolset/ref";
  expected_kind = BrickKind.toolset;
  ref = spec.toolset;
}

abbrev pub runtime_config_descriptor : TemplateSpec → RefDescriptor
runtime_config_descriptor spec = record {
  slot = RefSlot.runtime_config;
  path = codes "/runtime_config/ref";
  expected_kind = BrickKind.runtime_config;
  ref = spec.runtime_config;
}

-- `descriptorsFor`
unfoldable pub descriptors_for : TemplateSpec → List RefDescriptor
descriptors_for spec =
    system_prompt_descriptors spec
    ++ initial_prompt_descriptors spec
    ++ backend_descriptor spec ∷ toolset_descriptor spec ∷ runtime_config_descriptor spec ∷ []

abbrev pub same_ref : ExactBrickRef → ExactBrickRef → Bool
same_ref a b = a.id == b.id && a.revision == b.revision

abbrev pub is_prompt : RefSlot → Bool
is_prompt RefSlot.system_prompt = true
is_prompt RefSlot.initial_prompt = true
is_prompt _ = false

abbrev pub ref_issue : StableIssueCode → RefDescriptor → PublicIssue
ref_issue code descriptor = record {
  code = code;
  path = descriptor.path;
  resource_id = some descriptor.ref.id;
  revision = some descriptor.ref.revision;
  expected_kind = none;
  actual_kind = none;
  provider_id = none;
}

-- A `Map` from slots to lists, where a missing key is the empty list
abbrev pub BySlot : Type 0 → Type 0
BySlot A = RefSlot → List A

abbrev pub no_entries : {A : Type 0} → BySlot A
no_entries slot = []

abbrev pub push_entry : {A : Type 0} → BySlot A → RefSlot → A → BySlot A
push_entry entries slot entry j = if same_slot slot j then entries j ++ entry ∷ [] else entries j

-- `duplicatePromptIssues`
unfoldable pub duplicate_prompt_issues :
    BySlot ExactBrickRef → List RefDescriptor → List PublicIssue
duplicate_prompt_issues seen [] = []
duplicate_prompt_issues seen (descriptor ∷ descriptors) =
    let skip = duplicate_prompt_issues seen descriptors in
    let rest =
      duplicate_prompt_issues (push_entry seen descriptor.slot descriptor.ref) descriptors in
    if not (is_prompt descriptor.slot)
    then skip
    else if has same_ref descriptor.ref (seen descriptor.slot)
    then ref_issue StableIssueCode.duplicate_brick_ref descriptor ∷ rest
    else rest
