-- ===== src/Prelude/Json.antt =====
-- Python's JSON values, as src/dr_exec/recording/store.py reads them. Floats are a type N.
use Prim.Native.String.{String}
use mathlib.Core.Bool.{Bool}
use mathlib.Core.Option.{Option, none, some}
use text.Mathlib.Text.{◌==◌ as str_eq}
use dr_exec.Prelude.Tests.{if◌then◌else◌}
use dr_exec.Prelude.Integers.{ℤ}

mutual
  pub data Json (N : Type 0) : Type 0 where
    null : Json N
    boolean : Bool → Json N
    integer : ℤ → Json N
    number : N → Json N
    str : String → Json N
    array : Items N → Json N
    object : Fields N → Json N

  pub data Items (N : Type 0) : Type 0 where
    end_array : Items N
    item : Json N → Items N → Items N

  pub data Fields (N : Type 0) : Type 0 where
    end_object : Fields N
    field : String → Json N → Fields N → Fields N

-- `dict.get`.
abbrev pub get : {N : Type 0} → String → Fields N → Option (Json N)
get key end_object = none
get key (field name value rest) = if str_eq key name then some value else get key rest
