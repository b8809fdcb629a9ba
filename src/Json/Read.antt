-- ===== src/Json/Read.antt =====
-- `JSON.parse` on the texts that `JSON.stringify` prints with no spaces: what stands between
-- tokens, and numbers that are not integers, do not occur there and are refused.
use clawback.Prelude.{
  ℕ, zero, suc, [], ◌∷◌, Text, Bool, true, false, ◌==◌, if◌then◌else◌, Option, none, some, lit,
  length,
}
use clawback.Prelude.Int.{pos, negsuc}
use clawback.Json.Digits.{is_digit, read_digits}
use clawback.Json.Quote.{unquote}
use clawback.Json.{Value, null, bool, num, str, arr, obj, Items, nil, cons, Fields, end, field}

infixl 5 ◌>>=◌
abbrev pub ◌>>=◌ : {A B : Type 0} → Option A → (A → Option B) → Option B
none >>= f = none
some a >>= f = f a

-- What follows a prefix.
unfoldable pub strip : Text → Text → Option Text
strip [] s = some s
strip (c ∷ p) [] = none
strip (c ∷ p) (d ∷ s) = if c == d then strip p s else none

unfoldable pub keyword : Text → Value → Text → Option (Value × Text)
keyword word v s = do r ← strip word s; some (v, r)

unfoldable pub read_string : Text → Option (Text × Text)
read_string s = unquote (suc (length s)) s

negate : ℕ × Text → Option (Value × Text)
negate (zero, r) = some (num (pos 0), r)
negate (suc n, r) = some (num (negsuc n), r)

unfoldable pub read_negative : Text → Option (Value × Text)
unfolding negate
read_negative [] = none
read_negative (c ∷ s) = if is_digit c then negate (read_digits 0 (c ∷ s)) else none

unfoldable pub read_number : Text → Option (Value × Text)
read_number s = let (n, r) = read_digits 0 s in some (num (pos n), r)

unfoldable pub read_token : ℕ → Text → Option (Value × Text)
unfolding keyword read_string read_negative read_number strip
read_token c s =
    if c == b'"'
    then (do (t, r) ← read_string s; some (str t, r))
    else if c == b'n'
    then keyword (lit "ull") null s
    else if c == b't'
    then keyword (lit "rue") (bool true) s
    else if c == b'f'
    then keyword (lit "alse") (bool false) s
    else if c == b'-'
    then read_negative s
    else if is_digit c
    then read_number (c ∷ s)
    else none

-- Skips the comma before an entry that is not the first; `none` where it is missing.
abbrev entry_start : Bool → ℕ → Text → Option Text
entry_start first c s = if first then some (c ∷ s) else if c == b',' then some s else none

-- Fuel bounds the depth of the recursion; the length of the text is enough.
unfoldable mutual
  pub read : ℕ → Text → Option (Value × Text)
  read zero s = none
  read (suc f) [] = none
  read (suc f) (c ∷ s) =
      let items : Option (Value × Text) = (do (vs, r) ← read_items f true s; some (arr vs, r)) in
      let fields : Option (Value × Text) = (do (fs, r) ← read_fields f true s; some (obj fs, r)) in
      if c == b'[' then items else if c == b'{' then fields else read_token c s

  pub read_items : ℕ → Bool → Text → Option (Items × Text)
  read_items zero first s = none
  read_items (suc f) first [] = none
  read_items (suc f) first (c ∷ s) =
      let entry : Option (Items × Text) = (do
        t ← entry_start first c s
        (v, r) ← read f t
        (vs, r2) ← read_items f false r
        some (cons v vs, r2)) in
      if c == b']' then some (nil, s) else entry

  pub read_fields : ℕ → Bool → Text → Option (Fields × Text)
  read_fields zero first s = none
  read_fields (suc f) first [] = none
  read_fields (suc f) first (c ∷ s) =
      let entry : Option (Fields × Text) = (do
        t ← entry_start first c s
        t2 ← strip (b'"' ∷ []) t
        (k, r) ← read_string t2
        r2 ← strip (b':' ∷ []) r
        (v, r3) ← read f r2
        (fs, r4) ← read_fields f false r3
        some (field k v fs, r4)) in
      if c == b'}' then some (end, s) else entry

-- The whole text is one value.
unfoldable pub complete : Value × Text → Option Value
complete (v, []) = some v
complete (v, c ∷ s) = none

unfoldable pub parse : Text → Option Value
unfolding complete
parse s = do found ← read (suc (length s)) s; complete found
