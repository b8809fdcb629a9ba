-- ===== src/Json/RoundTrip.antt =====
-- Reading the print of a value gives the value back.
use clawback.Prelude.{
  ℕ, zero, suc, ◌≤◌, ◌<◌, ◌≡◌, refl, ◌++◌, [], ◌∷◌, Bool, true, false, arith, length, length-append,
  lit, Text, some, append_assoc, ◌==◌, ◌∙◌, ap, sym, append-nil,
}
use clawback.Prelude.Int.{ℤ, pos, negsuc}
use clawback.Json.Digits.{
  decimal, decimal-digit, is_digit, print_int, NoDigit, read_digits, read_digits-decimal,
}
use clawback.Json.Quote.{quote, quote_body, unquote-quote_body, length-quote_body}
use clawback.Json.{
  Value, null, bool, num, str, arr, obj, Items, nil, cons, Fields, end, field, stringify,
  stringify_items, stringify_fields, comma_unless,
}
use clawback.Json.Read.{
  strip, keyword, read_string, read_negative, read_number, read_token, read, read_items,
  read_fields, complete, parse,
}
use clawback.Json.Size.{size, size_items, size_fields, size-length}
use mathlib.Core.Option

read_string-quote_body : (s r : Text) → read_string (quote_body s ++ r) ≡ some (s, r)
unfolding read_string
read_string-quote_body s r =
    unquote-quote_body (suc (length (quote_body s ++ r))) s r
      (omega (arith, length-append (quote_body s) r, length-quote_body s))

read_digit :
    (f c n : ℕ) (t r : Text)
    → is_digit c ≡ true
    → read_digits 0 (c ∷ t) ≡ (n, r)
    → read (suc f) (c ∷ t) ≡ some (num (pos n), r)
unfolding read read_token read_number
read_digit f c n t r d e = ground arith

read-decimal :
    (f n : ℕ) (r : Text) → NoDigit r → read (suc f) (decimal n ++ r) ≡ some (num (pos n), r)
read-decimal f n r h =
    let (c, t, e, d) = decimal-digit n r in
    rw e (read_digit f c n t r d (rw e at (read_digits-decimal n r h)))

read_minus :
    (f c n : ℕ) (t r : Text)
    → is_digit c ≡ true
    → read_digits 0 (c ∷ t) ≡ (suc n, r)
    → read (suc f) (b'-' ∷ c ∷ t) ≡ some (num (negsuc n), r)
unfolding read read_token read_negative
read_minus f c n t r d e = rw (d, e)

read-print_int :
    (f : ℕ) (z : ℤ) (r : Text) → NoDigit r → read (suc f) (print_int z ++ r) ≡ some (num z, r)
unfolding print_int
read-print_int f (pos n) r h = read-decimal f n r h
read-print_int f (negsuc n) r h =
    let (c, t, e, d) = decimal-digit (suc n) r in
    rw e (read_minus f c n t r d (rw e at (read_digits-decimal (suc n) r h)))

-- Neither a digit nor a closing bracket stands first.
abbrev StartsValue : Text → Type 0
StartsValue [] = ⊥
StartsValue (c ∷ s) = (c == b']') ≡ false

decimal-StartsValue : (n : ℕ) (r : Text) → StartsValue (decimal n ++ r)
decimal-StartsValue n r = let (c, t, e, d) = decimal-digit n r in rw e (ground arith)

stringify-StartsValue : (v : Value) (r : Text) → StartsValue (stringify v ++ r)
unfolding stringify lit print_int quote
stringify-StartsValue null r = refl
stringify-StartsValue (bool true) r = refl
stringify-StartsValue (bool false) r = refl
stringify-StartsValue (num (pos n)) r = decimal-StartsValue n r
stringify-StartsValue (num (negsuc n)) r = refl
stringify-StartsValue (str s) r = refl
stringify-StartsValue (arr vs) r = refl
stringify-StartsValue (obj fs) r = refl

comma-append :
    (first : Bool) (s t r : Text)
    → comma_unless first (s ++ t) ++ r ≡ comma_unless first (s ++ (t ++ r))
comma-append true s t r = append_assoc s t r
comma-append false s t r = ap (λ u. b',' ∷ u) (append_assoc s t r)

read_items_entry :
    (f : ℕ) (first : Bool) (t r r2 : Text) (v : Value) (vs : Items)
    → StartsValue t
    → read f t ≡ some (v, r)
    → read_items f false r ≡ some (vs, r2)
    → read_items (suc f) first (comma_unless first t) ≡ some (cons v vs, r2)
unfolding read_items
read_items_entry f first [] r r2 v vs h e es = absurd h
read_items_entry f true (c ∷ t) r r2 v vs h e es = rw (h, e, es)
read_items_entry f false (c ∷ t) r r2 v vs h e es = rw (e, es)

-- The fields' key, its colon and its value.
read_fields_entry :
    (f : ℕ) (first : Bool) (k t r r2 : Text) (v : Value) (fs : Fields)
    → read f t ≡ some (v, r)
    → read_fields f false r ≡ some (fs, r2)
    → read_fields (suc f) first (comma_unless first (quote k ++ (b':' ∷ t)))
      ≡ some (field k v fs, r2)
unfolding read_fields quote strip
read_fields_entry f true k t r r2 v fs e es = rw (read_string-quote_body k (b':' ∷ t), e, es)
read_fields_entry f false k t r r2 v fs e es = rw (read_string-quote_body k (b':' ∷ t), e, es)

items-NoDigit : (vs : Items) (r : Text) → NoDigit (stringify_items false vs ++ r)
unfolding stringify_items
items-NoDigit nil r = refl
items-NoDigit (cons v vs) r = refl

fields-NoDigit : (fs : Fields) (r : Text) → NoDigit (stringify_fields false fs ++ r)
unfolding stringify_fields
fields-NoDigit end r = refl
fields-NoDigit (field k v fs) r = refl

field-append :
    (first : Bool) (k : Text) (v : Value) (fs : Fields) (r : Text)
    → comma_unless first (quote k ++ (b':' ∷ stringify v ++ stringify_fields false fs)) ++ r
      ≡ comma_unless first (quote k ++ (b':' ∷ stringify v ++ (stringify_fields false fs ++ r)))
field-append first k v fs r =
    comma-append first (quote k) (b':' ∷ stringify v ++ stringify_fields false fs) r
    ∙ ap (λ u. comma_unless first (quote k ++ (b':' ∷ u)))
        (append_assoc (stringify v) (stringify_fields false fs) r)

read_token_string : (f : ℕ) (s r : Text) → read (suc f) (quote s ++ r) ≡ some (str s, r)
unfolding read read_token quote
read_token_string f s r = rw (read_string-quote_body s r)

read_arr :
    (f : ℕ) (vs : Items) (s r : Text)
    → read_items f true s ≡ some (vs, r)
    → read (suc f) (b'[' ∷ s) ≡ some (arr vs, r)
unfolding read
read_arr f vs s r e = rw e

read_obj :
    (f : ℕ) (fs : Fields) (s r : Text)
    → read_fields f true s ≡ some (fs, r)
    → read (suc f) (b'{' ∷ s) ≡ some (obj fs, r)
unfolding read
read_obj f fs s r e = rw e

read_null : (f : ℕ) (r : Text) → read (suc f) (lit "null" ++ r) ≡ some (null, r)
unfolding read read_token keyword strip lit
read_null f r = refl

read-true : (f : ℕ) (r : Text) → read (suc f) (lit "true" ++ r) ≡ some (bool true, r)
unfolding read read_token keyword strip lit
read-true f r = refl

read-false : (f : ℕ) (r : Text) → read (suc f) (lit "false" ++ r) ≡ some (bool false, r)
unfolding read read_token keyword strip lit
read-false f r = refl

read_items_end :
    (first : Bool) (f : ℕ) (r : Text) → read_items (suc f) first (b']' ∷ r) ≡ some (nil, r)
unfolding read_items
read_items_end first f r = refl

read_fields_end :
    (first : Bool) (f : ℕ) (r : Text) → read_fields (suc f) first (b'}' ∷ r) ≡ some (end, r)
unfolding read_fields
read_fields_end first f r = refl

mutual
  unfolding size stringify

  read-stringify_of_size :
      (v : Value) (f : ℕ) (r : Text)
      → size v ≤ f
      → NoDigit r
      → read (suc f) (stringify v ++ r) ≡ some (v, r)
  read-stringify_of_size null f r h n = read_null f r
  read-stringify_of_size (bool true) f r h n = read-true f r
  read-stringify_of_size (bool false) f r h n = read-false f r
  read-stringify_of_size (num z) f r h n = read-print_int f z r n
  read-stringify_of_size (str s) f r h n = read_token_string f s r
  read-stringify_of_size (arr vs) f r h n = read_arr f vs _ r (read_items-stringify vs true f r h)
  read-stringify_of_size (obj fs) f r h n = read_obj f fs _ r (read_fields-stringify fs true f r h)

  read_items-stringify :
      (vs : Items) (first : Bool) (f : ℕ) (r : Text)
      → suc (size_items vs) ≤ f
      → read_items f first (stringify_items first vs ++ r) ≡ some (vs, r)
  read_items-stringify vs first zero r h = absurd (omega arith)
  read_items-stringify nil first (suc f) r h = read_items_end first f r
  read_items-stringify (cons v vs) first (suc zero) r h = absurd (omega arith)
  read_items-stringify (cons v vs) first (suc (suc f)) r h =
      rw (comma-append first (stringify v) (stringify_items false vs) r) (
        read_items_entry (suc f) first _ _ r v vs (stringify-StartsValue v _)
          (read-stringify_of_size v f _ (omega arith) (items-NoDigit vs r))
          (read_items-stringify vs false (suc f) r (omega arith)))

  read_fields-stringify :
      (fs : Fields) (first : Bool) (f : ℕ) (r : Text)
      → suc (size_fields fs) ≤ f
      → read_fields f first (stringify_fields first fs ++ r) ≡ some (fs, r)
  read_fields-stringify fs first zero r h = absurd (omega arith)
  read_fields-stringify end first (suc f) r h = read_fields_end first f r
  read_fields-stringify (field k v fs) first (suc zero) r h = absurd (omega arith)
  read_fields-stringify (field k v fs) first (suc (suc f)) r h = rw (field-append first k v fs r) (
      read_fields_entry (suc f) first k _ _ r v fs
        (read-stringify_of_size v f _ (omega arith) (fields-NoDigit fs r))
        (read_fields-stringify fs false (suc f) r (omega arith)))

read_all : (f : ℕ) (v : Value) → size v < f → read f (stringify v) ≡ some (v, [])
read_all zero v h = absurd (omega arith)
read_all (suc f) v h =
    rw (append-nil (stringify v)) at (read-stringify_of_size v f [] (omega arith) tt)

-- `JSON.parse(JSON.stringify(v))` is `v`, for every value.
pub parse-stringify : (v : Value) → parse (stringify v) ≡ some v
unfolding parse complete
parse-stringify v = rw (read_all (suc (length (stringify v))) v (omega (arith, size-length v)))

-- So two values with one print are one value.
pub stringify_inj : (v w : Value) → stringify v ≡ stringify w → v ≡ w
stringify_inj v w e =
    Option.some-injective v w (sym (parse-stringify v) ∙ ap parse e ∙ parse-stringify w)
