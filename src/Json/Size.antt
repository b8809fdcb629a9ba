-- ===== src/Json/Size.antt =====
-- How deep the reading of a printed value recurs; the length of the print bounds it.
use clawback.Prelude.{
  ℕ, suc, ◌+◌, ◌≤◌, ◌<◌, ◌++◌, ◌∷◌, Bool, true, false, arith, length, length-append, lit, ap, Text,
  [],
}
use clawback.Prelude.Int.{pos, negsuc}
use clawback.Json.Digits.{decimal, decimal-digit, print_int}
use clawback.Json.Quote.{quote}
use clawback.Json.{
  Value, null, bool, num, str, arr, obj, Items, nil, cons, Fields, end, field, stringify,
  stringify_items, stringify_fields, comma_unless,
}

unfoldable mutual
  pub size : Value → ℕ
  size null = 0
  size (bool b) = 0
  size (num z) = 0
  size (str s) = 0
  size (arr vs) = suc (size_items vs)
  size (obj fs) = suc (size_fields fs)

  pub size_items : Items → ℕ
  size_items nil = 0
  size_items (cons v vs) = suc (size v + size_items vs)

  pub size_fields : Fields → ℕ
  size_fields end = 0
  size_fields (field k v fs) = suc (size v + size_fields fs)

length-comma_unless : (first : Bool) (t : Text) → length t ≤ length (comma_unless first t)
length-comma_unless true t = omega arith
length-comma_unless false t = omega arith

length-decimal : (n : ℕ) → 1 ≤ length (decimal n)
length-decimal n =
    let (c, t, e, d) = decimal-digit n [] in
    omega (arith, ap length e, length-append (decimal n) [])

mutual
  unfolding size stringify print_int quote lit

  size-lt : (v : Value) → size v < length (stringify v)
  size-lt null = omega arith
  size-lt (bool true) = omega arith
  size-lt (bool false) = omega arith
  size-lt (num (pos n)) = omega (arith, length-decimal n)
  size-lt (num (negsuc n)) = omega arith
  size-lt (str s) = omega arith
  size-lt (arr vs) = omega (arith, items-lt true vs)
  size-lt (obj fs) = omega (arith, fields-lt true fs)

  items-lt : (first : Bool) (vs : Items) → size_items vs < length (stringify_items first vs)
  items-lt first nil = omega arith
  items-lt first (cons v vs) = omega (
    arith,
    length-comma_unless first (stringify v ++ stringify_items false vs),
    length-append (stringify v) (stringify_items false vs),
    size-lt v,
    items-lt false vs,
  )

  fields-lt : (first : Bool) (fs : Fields) → size_fields fs < length (stringify_fields first fs)
  fields-lt first end = omega arith
  fields-lt first (field k v fs) = omega (
    arith,
    length-comma_unless first (quote k ++ (b':' ∷ stringify v ++ stringify_fields false fs)),
    length-append (quote k) (b':' ∷ stringify v ++ stringify_fields false fs),
    length-append (stringify v) (stringify_fields false fs),
    size-lt v,
    fields-lt false fs,
  )

pub size-length : (v : Value) → size v < length (stringify v)
size-length v = size-lt v
