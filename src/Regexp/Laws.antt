-- ===== src/Regexp/Laws.antt =====
-- What the SQL functions of src/f_regexp_replace_rand.c give, and what they leave in fcinfo.
use yeti_pg_ext.Base.{
  Bytes, ℕ, Bool, true, false, Option, some, ◌≡◌, refl, ap, subst, ◌∙◌, inl, inr, Bool-cases, arith,
}
use yeti_pg_ext.Base.Outcome.{ok}
use yeti_pg_ext.Templates.{Jsonb}
use yeti_pg_ext.Regexp.Calls.{
  Saved, Returned, or_orig, restore, keep_empty_of, prepare_args, regexp_replace_rand_noopt,
  regexp_replace_rand,
}
use yeti_pg_ext.Regexp.Chunks.{pairs, first_match, non_empty, or_input-unless_empty}
use yeti_pg_ext.Regexp.Walk.{Gives, walk-Gives}
use yeti_pg_ext.Regexp.{is_empty_text, Args, Engine, unless_empty, or_input, walk}
use yeti_pg_ext.Regexp.Prepare.{is_object_of, prepare_args-IsSaved}

abbrev pub args_of : Bytes → Bytes → Bytes → Args
args_of v rule result = record { arg_in = v; arg_rule = rule; arg_result = result }

restored :
    (engine : Engine) (v rule result : Bytes) (keep_empty : Bool) (saved : Saved) (o : Option Bytes)
    → saved.args.arg_in ≡ v
    → or_orig saved.args.arg_rule saved.orig_rule ≡ rule
    → or_orig saved.args.arg_result saved.orig_result ≡ result
    → ok (restore saved saved.args (or_input v (unless_empty saved.args true keep_empty o)))
      ≡ ok (record {
        value = some (non_empty engine keep_empty v o);
        arg_rule = some rule;
        arg_result = some result;
      })
restored engine v rule result keep_empty saved o s r p =
    let kept = unless_empty saved.args true keep_empty o in
    let q =
      subst (λ text. or_input text kept ≡ non_empty engine keep_empty text o) s
        (or_input-unless_empty engine keep_empty saved.args true o) in
    simp (q, r, p) refl

module _ {Numeric : Type 0} (engine : Engine) (rand_r : ℕ → ℕ × ℕ) (numeric_out : Numeric → Bytes)
    (seed : ℕ) (keep : Option Bool) (vars : Option (Jsonb Numeric)) where
  walk_whole :
      (a : Args)
      → Gives engine
          (keep_empty_of keep)
          (walk engine (keep_empty_of keep) 9 a 0 a.arg_rule a.arg_result)
          a.arg_in
          (pairs a.arg_rule a.arg_result)
  walk_whole a =
      walk-Gives engine (keep_empty_of keep) 9 a 0 a.arg_rule a.arg_result (omega arith)
        (omega arith) (λ e f. refl, λ e f. refl)

  pub noopt-walk :
      (v rule result : Bytes) (saved : Saved) (last : Args) (o : Option Bytes)
      → is_empty_text rule ≡ false
      → prepare_args rand_r numeric_out seed vars (args_of v rule result) ≡ ok saved
      → walk engine (keep_empty_of keep) 9 saved.args 0 saved.args.arg_rule saved.args.arg_result
        ≡ ok (last, o)
      → regexp_replace_rand_noopt engine rand_r numeric_out seed keep vars
          (some v)
          (some rule)
          (some result)
        ≡ ok (restore saved last (or_input v o))
  unfolding regexp_replace_rand_noopt
  noopt-walk v rule result saved last o n e f = rw (n, e, f) refl

  noopt-restored :
      (v rule result : Bytes)
      → is_object_of vars ≡ true
      → is_empty_text rule ≡ false
      → (out : Bytes) × (regexp_replace_rand_noopt engine rand_r numeric_out seed keep vars
            (some v)
            (some rule)
            (some result)
          ≡ ok (record { value = some out; arg_rule = some rule; arg_result = some result }))
  noopt-restored v rule result object n =
      let (saved, e, w, h) =
        prepare_args-IsSaved rand_r numeric_out seed vars (args_of v rule result) in
      let (last, ret, f, g) = walk_whole saved.args in
      (
        or_input v ret,
        noopt-walk v rule result saved last ret n e f ∙ rw ((h object).0, (h object).1) refl,
      )

  regexp-saved :
      (v rule result opt : Bytes) (saved : Saved)
      → is_empty_text rule ≡ false
      → prepare_args rand_r numeric_out seed vars (args_of v rule result) ≡ ok saved
      → regexp_replace_rand engine rand_r numeric_out seed keep vars
          (some v)
          (some rule)
          (some result)
          (some opt)
        ≡ ok (
            restore saved saved.args (
              or_input v (
                unless_empty saved.args true
                  (keep_empty_of keep)
                  (engine.textregexreplace v saved.args.arg_rule saved.args.arg_result opt))))
  unfolding regexp_replace_rand
  regexp-saved v rule result opt saved n e = rw (n, e) refl

-- For an input and a result that are not NULL and a rule that is not empty, the arguments are
-- prepared, and the function ends and gives the input with the first of the at most nine chunks of
-- the rule that matches replaced by the chunk of the result at its place.
pub regexp_replace_rand_noopt-first_match :
    {Numeric : Type 0} (engine : Engine) (rand_r : ℕ → ℕ × ℕ) (numeric_out : Numeric → Bytes)
    (seed : ℕ) (keep : Option Bool) (vars : Option (Jsonb Numeric)) (v rule result : Bytes)
    → is_empty_text rule ≡ false
    → (saved : Saved) × (out : Returned Bytes) × (prepare_args rand_r numeric_out seed vars
          (args_of v rule result)
        ≡ ok saved)
      × (regexp_replace_rand_noopt engine rand_r numeric_out seed keep vars
            (some v)
            (some rule)
            (some result)
          ≡ ok out)
      × (out.value
          ≡ some (
              first_match engine
                (keep_empty_of keep)
                v
                (pairs saved.args.arg_rule saved.args.arg_result)))
regexp_replace_rand_noopt-first_match engine rand_r numeric_out seed keep vars v rule result n =
    let (saved, e, (s, r, p), h) =
      prepare_args-IsSaved rand_r numeric_out seed vars (args_of v rule result) in
    let (last, ret, f, g) = walk_whole engine rand_r numeric_out seed keep vars saved.args in
    (
      saved,
      restore saved last (or_input v ret),
      e,
      noopt-walk engine rand_r numeric_out seed keep vars v rule result saved last ret n e f,
      ap some (rw s at g),
    )

-- If the variables are an object, regexp_replace_rand_noopt ends with a text, for an input, a rule
-- and a result that are not NULL, and leaves the rule and the result in fcinfo as they were.
pub regexp_replace_rand_noopt-restored :
    {Numeric : Type 0} (engine : Engine) (rand_r : ℕ → ℕ × ℕ) (numeric_out : Numeric → Bytes)
    (seed : ℕ) (keep : Option Bool) (values : Jsonb Numeric) (v rule result : Bytes)
    → values.is_object ≡ true
    → (out : Bytes) × (regexp_replace_rand_noopt engine rand_r numeric_out seed keep
          (some values)
          (some v)
          (some rule)
          (some result)
        ≡ ok (record { value = some out; arg_rule = some rule; arg_result = some result }))
unfolding regexp_replace_rand_noopt
regexp_replace_rand_noopt-restored engine rand_r numeric_out seed keep values v rule result object =
    elim (Bool-cases (is_empty_text rule)) [
      | inl empty ↦ (v, rw empty refl)
      | inr n ↦
          noopt-restored engine rand_r numeric_out seed keep (some values) v rule result object n
    ]

-- For an input, a rule that is not empty, a result and options that are not NULL, the arguments are
-- prepared, and regexp_replace_rand ends and gives what the replacement gives for them, or the
-- input where that raises an exception or is empty and not to be kept; the rule and the result are
-- left in fcinfo as they were.
pub regexp_replace_rand_lem :
    {Numeric : Type 0} (engine : Engine) (rand_r : ℕ → ℕ × ℕ) (numeric_out : Numeric → Bytes)
    (seed : ℕ) (keep : Option Bool) (vars : Option (Jsonb Numeric)) (v rule result opt : Bytes)
    → is_empty_text rule ≡ false
    → (saved : Saved) × (prepare_args rand_r numeric_out seed vars (args_of v rule result)
        ≡ ok saved)
      × (regexp_replace_rand engine rand_r numeric_out seed keep vars
            (some v)
            (some rule)
            (some result)
            (some opt)
          ≡ ok (record {
            value = some (
                non_empty engine
                  (keep_empty_of keep)
                  v
                  (engine.textregexreplace v saved.args.arg_rule saved.args.arg_result opt));
            arg_rule = some rule;
            arg_result = some result;
          }))
regexp_replace_rand_lem engine rand_r numeric_out seed keep vars v rule result opt n =
    let (saved, e, (s, r, p), h) =
      prepare_args-IsSaved rand_r numeric_out seed vars (args_of v rule result) in
    (
      saved,
      e,
      regexp-saved engine rand_r numeric_out seed keep vars v rule result opt saved n e
          ∙ restored engine v rule result (keep_empty_of keep) saved
              (engine.textregexreplace v saved.args.arg_rule saved.args.arg_result opt) s r p,
    )
