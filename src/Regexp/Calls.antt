-- ===== src/Regexp/Calls.antt =====
-- The SQL functions of src/f_regexp_replace_rand.c. A datum that is NULL is `none`, and so is an
-- argument that is not given. The memory of PostgreSQL is not modelled, but what a call leaves in
-- fcinfo is, since the caller may pass the same arguments again.
use yeti_pg_ext.Base.{Bytes, ℕ, ◌-◌, Bool, true, false, List, Option, none, some, if◌then◌else◌, []}
use yeti_pg_ext.Base.Outcome.{Outcome, ok, fault, ◌>>=◌}
use yeti_pg_ext.Templates.{Jsonb, replace_placeholders}
use yeti_pg_ext.Rand.{replace}
use yeti_pg_ext.Regexp.{
  split_max_tokens, is_empty_text, Args, Engine, unless_empty, or_input, replace_result, walk,
  walk_array,
}

-- The arguments once the digits and the variables are put in, with `orig_rule` and `orig_result`.
pub record Saved : Type 0 where
  pub args : Args
  pub orig_rule : Option Bytes
  pub orig_result : Option Bytes

-- What a call gives back, and what it leaves in ARG_RULE and ARG_RESULT.
pub record Returned (Out : Type 0) : Type 0 where
  pub value : Option Out
  pub arg_rule : Option Bytes
  pub arg_result : Option Bytes

abbrev pub fuel_given : Option Bytes → Outcome Bytes
fuel_given none = fault
fuel_given (some out) = ok out

abbrev pub or_orig : Bytes → Option Bytes → Bytes
or_orig now none = now
or_orig now (some orig) = orig

-- "restore fcinfo"
abbrev pub restore : {Out : Type 0} → Saved → Args → Out → Returned Out
restore saved last out = record {
  value = some out;
  arg_rule = some (or_orig last.arg_rule saved.orig_rule);
  arg_result = some (or_orig last.arg_result saved.orig_result);
}

abbrev pub keep_empty_of : Option Bool → Bool
keep_empty_of none = false
keep_empty_of (some keep_empty) = keep_empty

-- A call that gives its input back, or NULL.
abbrev pub unchanged :
    {Out : Type 0} → Option Out → Option Bytes → Option Bytes → Outcome (Returned Out)
unchanged out rule result = ok (record { value = out; arg_rule = rule; arg_result = result })

module _ {Numeric : Type 0} (rand_r : ℕ → ℕ × ℕ) (numeric_out : Numeric → Bytes) where
  -- The values put for the placeholders of the result, and of the rule.
  unfoldable pub put_values : Saved → Bytes → Option (Jsonb Numeric) → Outcome Saved
  put_values saved orig none = ok saved
  put_values saved orig (some values) =
      if values.is_object
      then (do
        result ← fuel_given (replace_placeholders numeric_out saved.args.arg_result values)
        rule ← fuel_given (replace_placeholders numeric_out saved.args.arg_rule values)
        ok (record {
          args = record { arg_in = saved.args.arg_in; arg_rule = rule; arg_result = result };
          orig_rule = some saved.args.arg_rule;
          orig_result = some orig;
        }))
      else ok saved

  unfoldable pub prepare_args : ℕ → Option (Jsonb Numeric) → Args → Outcome Saved
  unfolding put_values
  prepare_args seed vars a = do
    (t, replaced) ← replace rand_r seed a.arg_result
    put_values
        (if replaced
          then record {
            args = replace_result a t;
            orig_rule = none;
            orig_result = some a.arg_result;
          }
          else record { args = a; orig_rule = none; orig_result = none })
        a.arg_result vars

module _ {Numeric : Type 0} (engine : Engine) (rand_r : ℕ → ℕ × ℕ)
    (numeric_out : Numeric → Bytes) where
  unfoldable pub regexp_replace_rand_noopt :
      ℕ
      → Option Bool
      → Option (Jsonb Numeric)
      → Option Bytes
      → Option Bytes
      → Option Bytes
      → Outcome (Returned Bytes)
  unfolding prepare_args walk
  regexp_replace_rand_noopt seed keep vars none rule result = unchanged none rule result
  regexp_replace_rand_noopt seed keep vars (some v) none result = unchanged (some v) none result
  regexp_replace_rand_noopt seed keep vars (some v) (some rule) none =
      unchanged (some v) (some rule) none
  regexp_replace_rand_noopt seed keep vars (some v) (some rule) (some result) =
      if is_empty_text rule then unchanged (some v) (some rule) (some result) else (do
        saved ←
            prepare_args rand_r numeric_out seed vars
              (record { arg_in = v; arg_rule = rule; arg_result = result })
        (last, ret) ←
            walk engine (keep_empty_of keep) (split_max_tokens - 1) saved.args 0 saved.args.arg_rule
              saved.args.arg_result
        ok (restore saved last (or_input v ret)))

  -- The options are the last argument.
  unfoldable pub regexp_replace_rand :
      ℕ
      → Option Bool
      → Option (Jsonb Numeric)
      → Option Bytes
      → Option Bytes
      → Option Bytes
      → Option Bytes
      → Outcome (Returned Bytes)
  unfolding prepare_args
  regexp_replace_rand seed keep vars none rule result opt = unchanged none rule result
  regexp_replace_rand seed keep vars (some v) none result opt = unchanged (some v) none result
  regexp_replace_rand seed keep vars (some v) (some rule) result none =
      unchanged none (some rule) result
  regexp_replace_rand seed keep vars (some v) (some rule) none (some opt) =
      unchanged (some v) (some rule) none
  regexp_replace_rand seed keep vars (some v) (some rule) (some result) (some opt) =
      if is_empty_text rule then unchanged (some v) (some rule) (some result) else (do
        saved ←
            prepare_args rand_r numeric_out seed vars
              (record { arg_in = v; arg_rule = rule; arg_result = result })
        let a = saved.args
        ok (
            restore saved a (
              or_input v (
                unless_empty a true (keep_empty_of keep)
                  (engine.textregexreplace v a.arg_rule a.arg_result opt)))))

  unfoldable pub regexp_replace_rand_array_noopt :
      ℕ
      → Option Bool
      → Option (Jsonb Numeric)
      → Option (List (Option Bytes))
      → Option Bytes
      → Option Bytes
      → Outcome (Returned (List (Option Bytes)))
  unfolding prepare_args walk_array
  regexp_replace_rand_array_noopt seed keep vars none rule result = unchanged none rule result
  regexp_replace_rand_array_noopt seed keep vars (some vs) none result =
      unchanged (some vs) none result
  regexp_replace_rand_array_noopt seed keep vars (some vs) (some rule) none =
      unchanged (some vs) (some rule) none
  regexp_replace_rand_array_noopt seed keep vars (some vs) (some rule) (some result) =
      if is_empty_text rule then unchanged (some vs) (some rule) (some result) else (do
        saved ←
            prepare_args rand_r numeric_out seed vars
              (record { arg_in = []; arg_rule = rule; arg_result = result })
        (last, outs) ←
            walk_array engine (keep_empty_of keep) saved.args saved.args.arg_rule
              saved.args.arg_result vs
        ok (restore saved last outs))
