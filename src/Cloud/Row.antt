-- ===== src/Cloud/Row.antt =====
-- Rows of the shared database as cloud/merge.ts compares them: `normalizeValue`, `serialize` and
-- `identical`.
pub mod Laws
use code_butler.Prelude.{String, Bool, true, false, ◌&&◌, Option, none, some, all, ◌==◌}
use code_butler.Prelude.Assoc.{Assoc, get}

-- A column's value. A number stands by its decimal text, and bytes by their base64 text.
pub data Value : Type 0 where
  null : Value
  text : String → Value
  number : String → Value
  big : String → Value
  bytes : String → Value

abbrev pub Row : Type 0
Row = Assoc Value

-- JSON has no big integers and no bytes: both become texts.
abbrev pub normalize_value : Value → Value
normalize_value (big t) = text t
normalize_value (bytes t) = text t
normalize_value v = v

abbrev pub value_eq : Value → Value → Bool
value_eq null null = true
value_eq (text a) (text b) = a == b
value_eq (number a) (number b) = a == b
value_eq (big a) (big b) = a == b
value_eq (bytes a) (bytes b) = a == b
value_eq _ _ = false

abbrev pub same_value : Value → Option Value → Bool
same_value v none = false
same_value v (some w) = value_eq (normalize_value v) (normalize_value w)

-- Every column of the first row has its value in the second.
pub covers : Row → Row → Bool
covers a b = all (λ c. same_value c.1 (get b c.0)) a

-- The sorted columns and their values are the same.
unfoldable pub identical : Row → Row → Bool
unfolding covers
identical a b = covers a b && covers b a

-- `typeof row[column] === "string"`
abbrev pub text_value : Option Value → Option String
text_value (some (text t)) = some t
text_value _ = none
