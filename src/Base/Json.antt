-- ===== src/Base/Json.antt =====
-- JSON payloads (`Record<string, unknown>` and what is in it). Numbers are natural numbers.
use Prim.Native.Nat.{ℕ}
use mathlib.Core.Bool.{Bool}
use adam_os.Base.Text.{Str}

mutual
  pub data Value : Type 0 where
    null undefined : Value
    bool : Bool → Value
    num : ℕ → Value
    text : Str → Value
    arr : Items → Value
    obj : Fields → Value

  pub data Items : Type 0 where
    nil : Items
    cons : Value → Items → Items

  pub data Fields : Type 0 where
    end : Fields
    field : Str → Value → Fields → Fields
