-- ===== src/Regexp/Tests.antt =====
-- An engine whose patterns match a text that begins with them.
use yeti_pg_ext.Base.{
  false, ◌<◌, Bytes, ℕ, ◌+◌, true, List, map, Option, none, some, [], ◌∷◌, ◌++◌, length, drop, ◌≡◌,
  refl,
}
use mathlib.Core.Option
use yeti_pg_ext.Base.CString.{memchr}
use yeti_pg_ext.Base.Outcome.{ok}
use yeti_pg_ext.Templates.Search.{starts_with}
use yeti_pg_ext.Templates.{Jsonb}
use yeti_pg_ext.Rand.{replace}
use yeti_pg_ext.Regexp.Chunks.{pairs, first_match, non_empty}
use yeti_pg_ext.Regexp.Arrays.{element_pairs}
use yeti_pg_ext.Regexp.Calls.{
  Saved, Returned, keep_empty_of, prepare_args, regexp_replace_rand_noopt, regexp_replace_rand,
  regexp_replace_rand_array_noopt,
}
use yeti_pg_ext.Regexp.Laws.{
  args_of, regexp_replace_rand_noopt-first_match, regexp_replace_rand_noopt-restored,
  regexp_replace_rand_lem,
}
use yeti_pg_ext.Regexp.Left.{regexp_replace_rand_noopt-left}
use yeti_pg_ext.Regexp.Elements.{regexp_replace_rand_array_noopt-map}
use yeti_pg_ext.Regexp.{Engine, search_split_token}

abbrev prefixes : Engine
prefixes = record {
  regexec = λ rule v. some (starts_with rule v);
  textregexreplace_noopt = λ v rule result. some (result ++ drop (length rule) v);
  textregexreplace = λ v rule result opt. some (result ++ drop (length rule) v);
}

abbrev next_number : ℕ → ℕ × ℕ
next_number seed = (seed, seed + 1)

abbrev print_number : Bytes → Bytes
print_number n = n

abbrev no_values : Jsonb Bytes
no_values = record { is_object = true; get_value = λ name. none }

-- b||a
abbrev two_rules : Bytes
two_rules = b'b' ∷ b'|' ∷ b'|' ∷ b'a' ∷ []

-- x||y
abbrev two_results : Bytes
two_results = b'x' ∷ b'|' ∷ b'|' ∷ b'y' ∷ []

-- b||
abbrev ending_rule : Bytes
ending_rule = b'b' ∷ b'|' ∷ b'|' ∷ []

abbrev input : Bytes
input = b'a' ∷ b'c' ∷ []

-- The chunk is left in place of the rule.
noopt_run :
    regexp_replace_rand_noopt {Numeric = Bytes} prefixes next_number print_number 8 none none
      (some input)
      (some two_rules)
      (some two_results)
    ≡ ok (record {
      value = some (b'y' ∷ b'c' ∷ []);
      arg_rule = some (b'a' ∷ []);
      arg_result = some (b'y' ∷ []);
    })
unfolding regexp_replace_rand_noopt replace search_split_token memchr
noopt_run = refl

-- After the end of the rule the one function stops, the other tries the empty pattern.
noopt_end_run :
    regexp_replace_rand_noopt {Numeric = Bytes} prefixes next_number print_number 8 none none
      (some input)
      (some ending_rule)
      (some two_results)
    ≡ ok (record { value = some input; arg_rule = some (b'b' ∷ []); arg_result = some (b'x' ∷ []) })
unfolding regexp_replace_rand_noopt replace search_split_token memchr
noopt_end_run = refl

array_end_run :
    regexp_replace_rand_array_noopt {Numeric = Bytes} prefixes next_number print_number 8 none none
      (some (some input ∷ []))
      (some ending_rule)
      (some two_results)
    ≡ ok (record {
      value = some (some (b'x' ∷ b'a' ∷ b'c' ∷ []) ∷ []);
      arg_rule = some [];
      arg_result = some (b'x' ∷ []);
    })
unfolding regexp_replace_rand_array_noopt replace search_split_token memchr
array_end_run = refl

noopt_example :
    (saved : Saved) × (out : Returned Bytes) × (prepare_args {Numeric = Bytes} next_number
        print_number 8 none
        (args_of input two_rules two_results)
      ≡ ok saved)
    × (regexp_replace_rand_noopt {Numeric = Bytes} prefixes next_number print_number 8 none none
          (some input)
          (some two_rules)
          (some two_results)
        ≡ ok out)
    × (out.value
        ≡ some (
            first_match prefixes
              (keep_empty_of none)
              input
              (pairs saved.args.arg_rule saved.args.arg_result)))
noopt_example =
    regexp_replace_rand_noopt-first_match prefixes next_number print_number 8 none none input
      two_rules two_results refl

restored_example :
    (out : Bytes) × (regexp_replace_rand_noopt prefixes next_number print_number 8 none
        (some no_values)
        (some input)
        (some two_rules)
        (some two_results)
      ≡ ok (record { value = some out; arg_rule = some two_rules; arg_result = some two_results }))
restored_example =
    regexp_replace_rand_noopt-restored prefixes next_number print_number 8 none no_values input
      two_rules two_results refl

opt_example :
    (saved : Saved) × (prepare_args {Numeric = Bytes} next_number print_number 8 none
        (args_of input two_rules two_results)
      ≡ ok saved)
    × (regexp_replace_rand {Numeric = Bytes} prefixes next_number print_number 8 none none
          (some input)
          (some two_rules)
          (some two_results)
          (some [])
        ≡ ok (record {
          value = some (
              non_empty prefixes
                (keep_empty_of none)
                input
                (prefixes.textregexreplace input saved.args.arg_rule saved.args.arg_result []));
          arg_rule = some two_rules;
          arg_result = some two_results;
        }))
opt_example =
    regexp_replace_rand_lem prefixes next_number print_number 8 none none input two_rules
      two_results [] refl

array_example :
    (saved : Saved) × (out : Returned (List (Option Bytes))) × (prepare_args {Numeric = Bytes}
        next_number print_number 8 none
        (args_of [] two_rules two_results)
      ≡ ok saved)
    × (regexp_replace_rand_array_noopt {Numeric = Bytes} prefixes next_number print_number 8 none
          none
          (some (none ∷ some input ∷ []))
          (some two_rules)
          (some two_results)
        ≡ ok out)
    × (out.value
        ≡ some (
            map
              (Option.map (λ v.
                first_match prefixes
                  (keep_empty_of none)
                  v
                  (element_pairs 9 saved.args.arg_rule saved.args.arg_result)))
              (none ∷ some input ∷ [])))
array_example =
    regexp_replace_rand_array_noopt-map prefixes next_number print_number 8 none none
      (none ∷ some input ∷ []) two_rules two_results refl

token_found : search_split_token two_rules ≡ some (b'b' ∷ [], b'a' ∷ [])
unfolding search_split_token memchr
token_found = refl

nothing_replaced : replace next_number 8 two_results ≡ ok (two_results, false)
unfolding replace memchr
nothing_replaced = refl

left_example :
    (out : Returned Bytes) × (left : Bytes) × (regexp_replace_rand_noopt {Numeric = Bytes} prefixes
        next_number print_number 8 none none
        (some input)
        (some two_rules)
        (some two_results)
      ≡ ok out)
    × (out.arg_rule ≡ some left)
    × (length left < length two_rules)
left_example =
    regexp_replace_rand_noopt-left prefixes next_number print_number 8 none input two_rules
      two_results two_results (b'b' ∷ []) (b'a' ∷ []) token_found nothing_replaced
