-- ===== src/Go/Json/Value.antt =====
-- The values that the scanner reads, each member and element with where it stands in the input,
-- and the `any` values of `Unmarshal`, whose objects are maps.
use surfacelock.Prelude.{ℕ, Bool}
use surfacelock.Prelude.Bytes.{Bytes}

-- The first byte of a value and the byte behind its last.
pub record Span : Type 0 where
  pub start : ℕ
  pub stop : ℕ

mutual
  pub data Value : Type 0 where
    null : Value
    bool : Bool → Value
    num : Bytes → Value
    str : Bytes → Value
    arr : Items → Value
    obj : Fields → Value

  pub data Items : Type 0 where
    nil : Items
    cons : Span → Value → Items → Items

  pub data Fields : Type 0 where
    end : Fields
    field : Bytes → Span → Value → Fields → Fields

unfoldable pub push_item : Items → Span → Value → Items
push_item nil p v = cons p v nil
push_item (cons q w xs) p v = cons q w (push_item xs p v)

unfoldable pub push_field : Fields → Bytes → Span → Value → Fields
push_field end k p v = field k p v end
push_field (field j q w fs) k p v = field j q w (push_field fs k p v)

-- A value decoded into `any`. A float64 is a text that stands for it; the members of an object are
-- in the order of their keys, each key once, so two `any` values are `reflect.DeepEqual` when they
-- are equal.
mutual
  pub data Any : Type 0 where
    null : Any
    bool : Bool → Any
    num : Bytes → Any
    str : Bytes → Any
    arr : Elements → Any
    obj : Members → Any

  pub data Elements : Type 0 where
    no_elements : Elements
    element : Any → Elements → Elements

  pub data Members : Type 0 where
    no_members : Members
    member : Bytes → Any → Members → Members
