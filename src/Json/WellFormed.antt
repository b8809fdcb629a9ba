-- ===== src/Json/WellFormed.antt =====
-- JSON texts have no surrogate outside a pair, whatever the strings in the value.
use clawback.Prelude.{
  ℕ, zero, suc, ◌%◌, ◌/◌, ◌+◌, refl, Text, lit, Bool, true, false, ltb, arith, inl, inr, Bool-cases,
}
use clawback.Prelude.Int.{ℤ, pos, negsuc}
use clawback.Json.{
  Value, null, bool, num, str, arr, obj, Items, nil, cons, Fields, end, field, stringify,
  stringify_items, stringify_fields, comma_unless,
}
use clawback.Json.Quote.{quote}
use clawback.Json.Quote.WellFormed.{
  WellFormed, no_units, unit, append-WellFormed, plain-WellFormed, quote-WellFormed,
}
use clawback.Json.Digits.{decimal, digits, print_int}

digits-WellFormed : (f n : ℕ) → WellFormed (digits f n)
unfolding digits
digits-WellFormed zero n = unit (48 + n % 10) (ground arith) no_units
digits-WellFormed (suc f) n = elim (Bool-cases (ltb n 10)) [
  | inl small ↦ rw small (unit (48 + n) (ground arith) no_units)
  | inr large ↦ rw large (
      append-WellFormed (digits f (n / 10)) _ (digits-WellFormed f (n / 10))
        (unit (48 + n % 10) (ground arith) no_units))
]

print_int-WellFormed : (z : ℤ) → WellFormed (print_int z)
unfolding print_int decimal
print_int-WellFormed (pos n) = digits-WellFormed n n
print_int-WellFormed (negsuc n) = unit 45 refl (digits-WellFormed (suc n) (suc n))

comma-WellFormed : (first : Bool) (t : Text) → WellFormed t → WellFormed (comma_unless first t)
comma-WellFormed true t h = h
comma-WellFormed false t h = unit 44 refl h

bool-WellFormed : (b : Bool) → WellFormed (stringify (bool b))
unfolding stringify lit
bool-WellFormed true = plain-WellFormed _ refl
bool-WellFormed false = plain-WellFormed _ refl

mutual
  unfolding stringify lit

  value-WellFormed : (v : Value) → WellFormed (stringify v)
  value-WellFormed null = plain-WellFormed _ refl
  value-WellFormed (bool b) = bool-WellFormed b
  value-WellFormed (num z) = print_int-WellFormed z
  value-WellFormed (str s) = quote-WellFormed s
  value-WellFormed (arr vs) = unit 91 refl (items-WellFormed true vs)
  value-WellFormed (obj fs) = unit 123 refl (fields-WellFormed true fs)

  items-WellFormed : (first : Bool) (vs : Items) → WellFormed (stringify_items first vs)
  items-WellFormed first nil = unit 93 refl no_units
  items-WellFormed first (cons v vs) =
      comma-WellFormed first _
        (append-WellFormed (stringify v) _ (value-WellFormed v) (items-WellFormed false vs))

  fields-WellFormed : (first : Bool) (fs : Fields) → WellFormed (stringify_fields first fs)
  fields-WellFormed first end = unit 125 refl no_units
  fields-WellFormed first (field k v fs) = comma-WellFormed first _ (
      append-WellFormed (quote k) _ (quote-WellFormed k) (
        unit 58 refl
          (append-WellFormed (stringify v) _ (value-WellFormed v) (fields-WellFormed false fs))))

pub stringify-WellFormed : (v : Value) → WellFormed (stringify v)
stringify-WellFormed v = value-WellFormed v
