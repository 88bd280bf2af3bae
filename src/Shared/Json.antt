-- ===== src/Shared/Json.antt =====
-- JSON values, which the entities carry, and the jobs take for their arguments.
use Prim.Native.Nat.{ℕ}
use mathlib.Core.Bool.{Bool}
use mathlib.Core.List.{List}
use billing_core.Shared.Tests.{if◌then◌else◌}
use billing_core.Shared.Texts.{text_eq}

mutual
  pub data Json : Type 0 where
    null : Json
    bool : Bool → Json
    num : ℕ → Json
    str : List ℕ → Json
    arr : Items → Json
    obj : Fields → Json

  pub data Items : Type 0 where
    nil : Items
    cons : Json → Items → Items

  pub data Fields : Type 0 where
    end : Fields
    field : List ℕ → Json → Fields → Fields

-- `d | {key: value}`, for the fields of an object.
unfoldable pub with_field : List ℕ → Json → Fields → Fields
with_field key value end = field key value end
with_field key value (field k v rest) =
    let others = with_field key value rest in
    if text_eq k key then field key value rest else field k v others
