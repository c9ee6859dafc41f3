-- ===== src/Templates.antt =====
-- src/f_process_templates.c: `replace_placeholders` and `process_templates`. A text is the list of
-- its bytes, and a pointer into it the list of the bytes from there to the end.
pub mod Search
pub mod Meaning
pub mod Process
mod Tests
use mathlib.Core.Option
use yeti_pg_ext.Base.{
  Bytes, ℕ, zero, suc, ◌+◌, Bool, true, false, ◌&&◌, ◌||◌, not, List, [], ◌∷◌, ◌++◌, Option, none,
  some, leb, ◌==◌, if◌then◌else◌, length, drop,
}
use Search.{memmem, starts_with}

-- sizeof(prefix), and the prefix "vars."
abbrev pub prefix : Bytes
prefix = b'v' ∷ b'a' ∷ b'r' ∷ b's' ∷ b'.' ∷ []

-- A JSON value of the library, with its own type of numbers.
pub data JsonbValue (Numeric : Type 0) : Type 0 where
  jbv_null : JsonbValue Numeric
  jbv_string : Bytes → JsonbValue Numeric
  jbv_numeric : Numeric → JsonbValue Numeric
  jbv_bool : Bool → JsonbValue Numeric
  jbv_other : JsonbValue Numeric

-- What PostgreSQL does for the file: `numeric_out` prints a number, `get_value` is
-- getKeyJsonValueFromContainer, and `is_object` is JsonContainerIsObject of the variables.
pub record Jsonb (Numeric : Type 0) : Type 0 where
  pub is_object : Bool
  pub get_value : Bytes → Option (JsonbValue Numeric)

pub data ParserState : Type 0 where
  st_normal st_placeholder : ParserState

-- The loop's variables: the state, the text from `tpl_ptr` on, and the buffer.
pub record Loop : Type 0 where
  pub st : ParserState
  pub rest : Bytes
  pub sinfo : Bytes

abbrev true_text : Bytes
true_text = b't' ∷ b'r' ∷ b'u' ∷ b'e' ∷ []

abbrev false_text : Bytes
false_text = b'f' ∷ b'a' ∷ b'l' ∷ b's' ∷ b'e' ∷ []

module _ {Numeric : Type 0} (numeric_out : Numeric → Bytes) where
  -- `switch(v.type)`
  unfoldable pub serialize : JsonbValue Numeric → Bytes
  serialize jbv_null = []
  serialize (jbv_string s) = s
  serialize (jbv_numeric n) = numeric_out n
  serialize (jbv_bool b) = if b then true_text else false_text
  serialize jbv_other = []

  -- What is appended for the text between the brackets.
  unfoldable pub expand : Jsonb Numeric → Bytes → Bytes
  unfolding serialize
  expand values name =
      if leb (length name) (length prefix) || not (starts_with prefix name)
      then []
      else elim (values.get_value (drop (length prefix) name)) [ none ↦ [] | some v ↦ serialize v ]

  unfoldable pub step : Jsonb Numeric → ParserState → Loop → Loop
  unfolding expand memmem
  step values st_normal l = elim (memmem b'{' b'{' l.rest) [
    | none ↦ record l { sinfo = l.sinfo ++ l.rest; rest = [] }
    | some (before, after) ↦ record { st = st_placeholder; rest = after; sinfo = l.sinfo ++ before }
  ]
  step values st_placeholder l = elim (memmem b'}' b'}' l.rest) [
    | none ↦ record l { sinfo = l.sinfo ++ l.rest; rest = [] }
    | some (name, after) ↦ record {
      st = st_normal;
      rest = after;
      sinfo = l.sinfo ++ expand values name;
    }
  ]

  -- `while(tpl_ptr < tpl_end)`, on fuel; `none` means that the fuel ran out.
  unfoldable pub run : ℕ → Jsonb Numeric → Loop → Option Bytes
  unfolding step
  run zero values l = elim l.rest [ [] ↦ some l.sinfo | _ ∷ _ ↦ none ]
  run (suc fuel) values l = elim l.rest [
    | [] ↦ some l.sinfo
    | _ ∷ _ ↦ run fuel values (step values l.st l)
  ]

  -- Each round drops a byte or more, so the length is fuel enough.
  unfoldable pub replace_placeholders : Bytes → Jsonb Numeric → Option Bytes
  unfolding run
  replace_placeholders tpl values =
      run (length tpl) values (record { st = st_normal; rest = tpl; sinfo = [] })

-- The first argument by its SQL type, and the result: NULL is `none`.
pub data Texts : Type 0 where
  text : Bytes → Texts
  text_array : List (Option Bytes) → Texts
  other_type : Texts

-- With no object to take the values from: an array is given back, a text gives NULL.
abbrev pub without_vars : Texts → Option Texts
without_vars (text tpl) = none
without_vars (text_array xs) = some (text_array xs)
without_vars other_type = none

module _ {Numeric : Type 0} (numeric_out : Numeric → Bytes) where
  -- The loop over the elements; a NULL element stays one.
  unfoldable pub replace_each : Jsonb Numeric → List (Option Bytes) → Option (List (Option Bytes))
  replace_each values [] = some []
  replace_each values (none ∷ vs) = Option.map (λ rest. none ∷ rest) (replace_each values vs)
  replace_each values (some v ∷ vs) = elim (replace_placeholders numeric_out v values) [
    | none ↦ none
    | some out ↦ Option.map (λ rest. some out ∷ rest) (replace_each values vs)
  ]

  -- The outer `Option` is that of the fuel.
  unfoldable pub process_templates : Option Texts → Option (Jsonb Numeric) → Option (Option Texts)
  unfolding replace_each
  process_templates none vars = some none
  process_templates (some other_type) vars = some none
  process_templates (some (text tpl)) none = some (without_vars (text tpl))
  process_templates (some (text_array xs)) none = some (without_vars (text_array xs))
  process_templates (some (text tpl)) (some values) =
      if not values.is_object
      then some (without_vars (text tpl))
      else Option.map (λ out. some (text out)) (replace_placeholders numeric_out tpl values)
  process_templates (some (text_array xs)) (some values) =
      if not values.is_object
      then some (without_vars (text_array xs))
      else Option.map (λ ys. some (text_array ys)) (replace_each values xs)
