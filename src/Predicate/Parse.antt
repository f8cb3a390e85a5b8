-- ===== src/Predicate/Parse.antt =====
-- holonomy-core/src/ingestion/s3_client.rs, `Predicate::parse_filter`, with the `parse::<i64>` of a
-- text. Positions are byte positions. `&val_str[1..val_str.len() - 1]` panics on a single quote.
pub mod Laws
use Prim.Native.Char.{code}
use Prim.Native.String
use Prim.Native.String.{len, slice}
use text.Mathlib.Text.{starts_with}
use holonomy_source.Common.{
  ℕ, suc, ◌+◌, ◌-◌, ◌*◌, ◌^◌, String, Bool, true, false, ◌&&◌, ◌||◌, Option, none, some, List, [],
  ◌∷◌, ltb, leb, ◌==◌, str_eq, find_at, trim, if◌then◌else◌,
}
use holonomy_source.Common.Int.{ℤ, pos, negsuc}
use holonomy_source.Predicate.{PredicateValue, int64, string, Predicate, eq, neq, gt, lt}

-- A call that may panic.
pub data Outcome {ℓ} (A : Type ℓ) : Type ℓ where
  panics : Outcome A
  returns : A → Outcome A

-- The digits of a number, most significant first; any other character ends the parse.
unfoldable pub digits : ℕ → String → Option ℕ
digits n String.[] = some n
digits n (String.◌∷◌ ch rest) =
    let c = code ch in
    let next = digits (n * 10 + (c - 48)) rest in if leb 48 c && leb c 57 then next else none

-- At least one digit.
unfoldable pub magnitude : String → Option ℕ
unfolding digits
magnitude String.[] = none
magnitude (String.◌∷◌ ch rest) = digits 0 (String.◌∷◌ ch rest)

-- The number of a magnitude below `2 ^ 63`, or the negative number of one up to `2 ^ 63`.
unfoldable pub in_i64 : Bool → Option ℕ → Option ℤ
in_i64 negative none = none
in_i64 false (some n) = if ltb n (2 ^ 63) then some (pos n) else none
in_i64 true (some n) =
    if n == 0 then some (pos 0) else if leb n (2 ^ 63) then some (negsuc (n - 1)) else none

-- `s.parse::<i64>().ok()`.
unfoldable pub parse_i64 : String → Option ℤ
unfolding magnitude in_i64
parse_i64 String.[] = none
parse_i64 (String.◌∷◌ ch rest) =
    if code ch == b'-'
    then in_i64 true (magnitude rest)
    else if code ch == b'+'
    then in_i64 false (magnitude rest)
    else in_i64 false (magnitude (String.◌∷◌ ch rest))

-- `s.ends_with('\'')`, for a text that is not empty.
unfoldable pub ends_with_quote : String → Bool
ends_with_quote s = str_eq (slice s (len s - 1) (len s)) "'"

-- The value of a filter, from the trimmed text behind the operator.
unfoldable pub value_of : String → Outcome PredicateValue
unfolding ends_with_quote parse_i64
value_of val_str =
    if starts_with val_str "'" && ends_with_quote val_str
    then if ltb (len val_str) 2
      then panics
      else returns (string (slice val_str 1 (len val_str - 1)))
    else elim (parse_i64 val_str) [
      | some num ↦ returns (int64 num)
      | none ↦ returns (string val_str)
    ]

-- The `match` on the operator.
unfoldable pub of_op : String → String → PredicateValue → Option Predicate
of_op op col val =
    if str_eq op "==" || str_eq op "="
    then some (eq col val)
    else if str_eq op "!="
    then some (neq col val)
    else if str_eq op ">"
    then some (gt col val)
    else if str_eq op "<"
    then some (lt col val)
    else none

-- The body of the loop, at an operator that is found at a byte position.
unfoldable pub parse_at : String → String → ℕ → Outcome (Option Predicate)
unfolding value_of of_op trim
parse_at filter op idx = elim (value_of (trim (slice filter (idx + len op) (len filter)))) [
  | panics ↦ panics
  | returns val ↦ returns (of_op op (trim (slice filter 0 idx)) val)
]

-- The loop over the operators.
unfoldable pub parse_with : List String → String → Outcome (Option Predicate)
unfolding parse_at
parse_with [] filter = returns none
parse_with (op ∷ ops) filter = elim (find_at filter op) [
  | some idx ↦ parse_at filter op idx
  | none ↦ parse_with ops filter
]

abbrev pub operators : List String
operators = "==" ∷ "!=" ∷ "=" ∷ ">" ∷ "<" ∷ []

-- `Predicate::parse_filter`.
unfoldable pub parse_filter : String → Outcome (Option Predicate)
unfolding parse_with
parse_filter filter = parse_with operators filter
