-- ===== src/Regexp.antt =====
-- src/f_regexp_replace_rand.c: a rule and a result of chunks between "||", of which the first that
-- matches the input is replaced. A text is the list of its bytes, a pointer into it the list of the
-- bytes from there to the end.
pub mod Split
pub mod Chunks
pub mod Ready
pub mod Walk
pub mod Arrays
pub mod Extra
pub mod Elements
pub mod Calls
pub mod Prepare
pub mod Laws
pub mod Left
mod Tests
use yeti_pg_ext.Base.{
  Bytes, ℕ, zero, suc, ◌+◌, ◌-◌, Bool, true, false, not, ◌&&◌, [], ◌∷◌, ◌++◌, List, Option, none,
  some, leb, ltb, ◌==◌, if◌then◌else◌, length, drop,
}
use yeti_pg_ext.Base.CString.{memchr}
use yeti_pg_ext.Base.Outcome.{Outcome, ok, fault, ◌>>=◌}
use yeti_pg_ext.Templates.{Jsonb, replace_placeholders}
use yeti_pg_ext.Rand.{replace}

abbrev pub split_max_tokens : ℕ
split_max_tokens = 10

abbrev pub is_empty_text : Bytes → Bool
is_empty_text [] = true
is_empty_text (c ∷ cs) = false

abbrev pub put_before : Bytes → Option (Bytes × Bytes) → Option (Bytes × Bytes)
put_before cs none = none
put_before cs (some (before, after)) = some (cs ++ before, after)

-- Behind a '|': what stands before it, what behind it, and what the loop finds later.
abbrev pub after_bar : Bytes → Bytes → Option (Bytes × Bytes) → Option (Bytes × Bytes)
after_bar before [] later = none
after_bar before (d ∷ cs) later =
    if d == b'|'
    then some (before, cs)
    else if is_empty_text cs
    then none
    else put_before (before ++ (b'|' ∷ d ∷ [])) later

-- The do-while loop, on fuel.
unfoldable pub search_from : ℕ → Bytes → Option (Bytes × Bytes)
search_from zero p = none
search_from (suc fuel) p = elim (memchr b'|' p) [
  | none ↦ none
  | some (before, after) ↦ after_bar before after (search_from fuel (drop 1 after))
]

-- The bytes before the token and those behind it. Each round drops two bytes.
unfoldable pub search_split_token : Bytes → Option (Bytes × Bytes)
unfolding search_from
search_split_token s = search_from (suc (length s)) s

-- The arguments in fcinfo, once none of them is NULL.
pub record Args : Type 0 where
  pub arg_in : Bytes
  pub arg_rule : Bytes
  pub arg_result : Bytes

-- What PostgreSQL does for the file. `regexec` compiles a pattern, `none` where that fails, and
-- tells whether it matches a text; the replacements, of a text, a pattern and a result, give `none`
-- where they raise an exception.
pub record Engine : Type 0 where
  pub regexec : Bytes → Bytes → Option Bool
  pub textregexreplace_noopt : Bytes → Bytes → Bytes → Option Bytes
  pub textregexreplace : Bytes → Bytes → Bytes → Bytes → Option Bytes

-- A datum that is 0 is `none`.
abbrev pub in_if_final : Args → Bool → Option Bytes
in_if_final a final = if final then some a.arg_in else none

abbrev pub unless_empty : Args → Bool → Bool → Option Bytes → Option Bytes
unless_empty a final keep_empty none = in_if_final a final
unless_empty a final keep_empty (some ret) =
    if not keep_empty && is_empty_text ret then in_if_final a final else some ret

abbrev pub on_match : Engine → Args → Bool → Bool → Option Bool → Option Bytes × Bool
on_match engine a final keep_empty none = (none, false)
on_match engine a final keep_empty (some false) = (in_if_final a final, false)
on_match engine a final keep_empty (some true) = (
  unless_empty a final keep_empty (engine.textregexreplace_noopt a.arg_in a.arg_rule a.arg_result),
  true,
)

-- The datum given back, and `*matched`.
unfoldable pub apply_textregexreplace_noopt : Engine → Args → Bool → Bool → Option Bytes × Bool
apply_textregexreplace_noopt engine a final keep_empty =
    on_match engine a final keep_empty (engine.regexec a.arg_rule a.arg_in)

-- `ret ? ret : v`
abbrev pub or_input : Bytes → Option Bytes → Bytes
or_input v none = v
or_input v (some ret) = ret

-- replace_arg: memory for the chunk is there.
abbrev pub replace_rule : Args → Bytes → Args
replace_rule a chunk = record a { arg_rule = chunk }

abbrev pub replace_result : Args → Bytes → Args
replace_result a chunk = record a { arg_result = chunk }

-- The arguments behind the loop: "process no tokens/tail cases".
unfoldable pub tail_args : Args → ℕ → Bytes → Bytes → Args
tail_args a n rule result = elim (search_split_token result) [
  | none ↦ if ltb 0 n then replace_result (replace_rule a rule) result else a
  | some (chunk, rest) ↦
      let a' = replace_result a chunk in if ltb 0 n then replace_rule a' rule else a'
]

module _ (engine : Engine) (keep_empty : Bool) where
  abbrev pub apply_final : Args → Args × Option Bytes
  apply_final a = (a, (apply_textregexreplace_noopt engine a true keep_empty).0)

  -- The loop over the chunks, on fuel, and what follows it.
  unfoldable pub walk : ℕ → Args → ℕ → Bytes → Bytes → Outcome (Args × Option Bytes)
  unfolding apply_textregexreplace_noopt tail_args
  walk zero a n rule result = fault
  walk (suc fuel) a n rule result = elim (search_split_token rule) [
    | none ↦ ok (apply_final (tail_args a n rule result))
    | some (chunk, rule_rest) ↦ elim (search_split_token result) [
      | none ↦
          let a' = replace_rule a chunk in
          ok (apply_final (if ltb 0 n then replace_result a' result else a'))
      | some (result_chunk, result_rest) ↦
          let a' = replace_result (replace_rule a chunk) result_chunk in
          let (ret, matched) = apply_textregexreplace_noopt engine a' false keep_empty in
          let later = walk fuel a' (suc n) rule_rest result_rest in
          if matched
          then ok (a', ret)
          else if leb (split_max_tokens - 1) (suc n)
          then ok (a', ret)
          else if is_empty_text rule_rest
          then ok (a', ret)
          else if is_empty_text result_rest
          then ok (a', ret)
          else later
    ]
  ]

  -- An element put into the array.
  abbrev pub insert : Args → Args × Bytes
  insert a = (a, or_input a.arg_in (apply_textregexreplace_noopt engine a false keep_empty).0)

  -- The same for an element of an array, where a `break` leads to the tail.
  unfoldable pub walk_element : ℕ → Args → ℕ → Bytes → Bytes → Outcome (Args × Bytes)
  unfolding apply_textregexreplace_noopt tail_args
  walk_element zero a n rule result = fault
  walk_element (suc fuel) a n rule result = elim (search_split_token rule) [
    | none ↦ ok (insert (tail_args a n rule result))
    | some (chunk, rule_rest) ↦ elim (search_split_token result) [
      | none ↦
          let a' = replace_rule a chunk in
          ok (insert (if ltb 0 n then replace_result a' result else a'))
      | some (result_chunk, result_rest) ↦
          let a' = replace_result (replace_rule a chunk) result_chunk in
          let (ret, matched) = apply_textregexreplace_noopt engine a' false keep_empty in
          let later = walk_element fuel a' (suc n) rule_rest result_rest in
          if matched
          then ok (a', or_input a'.arg_in ret)
          else if leb (split_max_tokens - 1) (suc n)
          then ok (insert (tail_args a' (suc n) rule result))
          else if is_empty_text rule_rest
          then ok (insert (tail_args a' (suc n) rule_rest result))
          else if is_empty_text result_rest
          then ok (insert (tail_args a' (suc n) rule_rest result_rest))
          else later
    ]
  ]

  -- The loop over the array; a NULL element stays one.
  unfoldable pub walk_array :
      Args → Bytes → Bytes → List (Option Bytes) → Outcome (Args × List (Option Bytes))
  unfolding walk_element
  walk_array a rule result [] = ok (a, [])
  walk_array a rule result (none ∷ vs) = do
    (last, outs) ← walk_array a rule result vs
    ok (last, none ∷ outs)
  walk_array a rule result (some v ∷ vs) = do
    (next, out) ← walk_element (split_max_tokens - 1) (record a { arg_in = v }) 0 rule result
    (last, outs) ← walk_array next rule result vs
    ok (last, some out ∷ outs)
