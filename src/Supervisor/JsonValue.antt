-- ===== src/Supervisor/JsonValue.antt =====
-- `sameJsonValue` and the launch specifications that it compares: apps/actor-host/src/backend/supervisor.ts.
-- `Object.is` on two objects asks for one and the same object; the members of such a pair are the
-- same too, so the comparison of the members gives that answer as well.
use ai_block.Prelude.{ℕ, suc, String, Bool, true, false, ◌&&◌, Option, none, some, ◌==◌}
use ai_block.Protocol.{
  Json, Items, Fields, null, boolean, number, string, array, object, nil, cons, end, field,
  ActorLaunchSpec,
}
use text.Mathlib.Text.{◌==◌ as str_eq}

abbrev pub same_bool : Bool → Bool → Bool
same_bool true b = b
same_bool false true = false
same_bool false false = true

-- `Object.keys(record).length`
unfoldable pub field_count : Fields → ℕ
field_count end = 0
field_count (field k v fs) = suc (field_count fs)

-- `record[key]`, where `key` is an own property
unfoldable pub find_field : String → Fields → Option Json
find_field key end = none
find_field key (field k v fs) = elim (str_eq k key) [ true ↦ some v | false ↦ find_field key fs ]

unfoldable mutual
  pub same_json_value : Json → Json → Bool
  same_json_value null null = true
  same_json_value (boolean a) (boolean b) = same_bool a b
  same_json_value (number a) (number b) = a == b
  same_json_value (string a) (string b) = str_eq a b
  same_json_value (array a) (array b) = same_items a b
  same_json_value (object a) (object b) = (field_count a == field_count b) && every_field a b
  same_json_value _ _ = false

  -- Equal lengths, and the same value at every index.
  pub same_items : Items → Items → Bool
  same_items nil nil = true
  same_items (cons a as') (cons b bs) = same_json_value a b && same_items as' bs
  same_items _ _ = false

  -- `leftKeys.every`: the right record has the key, with the same value.
  pub every_field : Fields → Fields → Bool
  every_field end right = true
  every_field (field k v fs) right = elim (find_field k right) [
    | none ↦ false
    | some w ↦ same_json_value v w && every_field fs right
  ]

-- An `ActorLaunchSpec` as the JSON object that it is.
abbrev pub launch_spec_json : ActorLaunchSpec → Json
launch_spec_json spec = object (
    field "schema_version" (string spec.schema_version) (
      field "project_id" (number spec.project_id) (
        field "actor_id" (number spec.actor_id) (
          field "actor_config_snapshot_id" (number spec.actor_config_snapshot_id) (
            field "system_prompts" spec.system_prompts (
              field "working_directory" (string spec.working_directory) (
                field "backend"
                  (object (
                    field "adapter_id" (number spec.backend.adapter_id)
                      (field "config" spec.backend.config end)))
                  (field "tool_providers" spec.tool_providers end))))))))

-- `sameIdentity`
abbrev pub same_identity : ActorLaunchSpec → ActorLaunchSpec → Bool
same_identity left right =
    left.project_id == right.project_id
    && left.actor_id == right.actor_id
    && left.actor_config_snapshot_id == right.actor_config_snapshot_id

-- `sameConfiguration`
unfoldable pub same_configuration : ActorLaunchSpec → ActorLaunchSpec → Bool
unfolding same_json_value
same_configuration left right =
    same_identity left right && same_json_value (launch_spec_json left) (launch_spec_json right)
