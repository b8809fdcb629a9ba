-- ===== src/Json.antt =====
-- The values that the program hands to `JSON.stringify` and to `canonicalize`, and the part of
-- `JSON.stringify` that those use (ECMAScript's standard library): null, booleans, integers,
-- strings of code units, arrays and objects. `undefined`, functions and fractions do not occur in the program's
-- artifacts.
pub mod Digits
pub mod Quote
pub mod Read
pub mod RoundTrip
pub mod Size
pub mod WellFormed
use clawback.Prelude.{Text, Bool, true, false, ◌++◌, [], ◌∷◌, lit, if◌then◌else◌}
use clawback.Prelude.Int.{ℤ}
use Digits.{print_int}
use Quote.{quote}

mutual
  pub data Value : Type 0 where
    null : Value
    bool : Bool → Value
    num : ℤ → Value
    str : Text → Value
    arr : Items → Value
    obj : Fields → Value

  pub data Items : Type 0 where
    nil : Items
    cons : Value → Items → Items

  -- An object's own keys in insertion order.
  pub data Fields : Type 0 where
    end : Fields
    field : Text → Value → Fields → Fields

-- A comma before each entry but the first.
abbrev pub comma_unless : Bool → Text → Text
comma_unless first t = if first then t else b',' ∷ t

-- `JSON.stringify` with no spaces.
unfoldable mutual
  pub stringify : Value → Text
  stringify null = lit "null"
  stringify (bool b) = if b then lit "true" else lit "false"
  stringify (num z) = print_int z
  stringify (str s) = quote s
  stringify (arr vs) = b'[' ∷ stringify_items true vs
  stringify (obj fs) = b'{' ∷ stringify_fields true fs

  pub stringify_items : Bool → Items → Text
  stringify_items first nil = b']' ∷ []
  stringify_items first (cons v vs) = comma_unless first (stringify v ++ stringify_items false vs)

  pub stringify_fields : Bool → Fields → Text
  stringify_fields first end = b'}' ∷ []
  stringify_fields first (field k v fs) =
      comma_unless first (quote k ++ (b':' ∷ stringify v ++ stringify_fields false fs))
