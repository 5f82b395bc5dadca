-- ===== src/Common/Value.antt =====
-- The values that Python's `json` writes: payloads, results and metadata.
use Prim.Native.String.{String}
use mathlib.Core.Bool.{Bool}
use dub_manga_studio.Common.Int.{ℤ}

mutual
  pub data Json : Type 0 where
    null : Json
    bool : Bool → Json
    int : ℤ → Json
    str : String → Json
    items : Items → Json
    object : Fields → Json

  pub data Items : Type 0 where
    no_items : Items
    item : Json → Items → Items

  pub data Fields : Type 0 where
    no_fields : Fields
    field : String → Json → Fields → Fields
