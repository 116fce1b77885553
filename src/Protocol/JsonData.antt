-- ===== src/Protocol/JsonData.antt =====
-- JSON values after `decodeContract`: finite trees. Numbers are opaque and told apart as by
-- `Object.is`, the keys of one object are distinct.
use ai_block.Prelude.{ℕ, String, Bool}

mutual
  pub data Json : Type 0 where
    null : Json
    boolean : Bool → Json
    number : ℕ → Json
    string : String → Json
    array : Items → Json
    object : Fields → Json

  pub data Items : Type 0 where
    nil : Items
    cons : Json → Items → Items

  pub data Fields : Type 0 where
    end : Fields
    field : String → Json → Fields → Fields
