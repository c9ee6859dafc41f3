-- ===== src/Regexp/Elements.antt =====
-- What regexp_replace_rand_array_noopt makes of each element of an array.
use mathlib.Core.Option
use yeti_pg_ext.Base.{
  Bytes, ℕ, zero, suc, ◌+◌, ◌<◌, Bool, false, [], ◌∷◌, ◌++◌, List, map, Option, none, some, ◌≡◌,
  refl, sym, ap, ◌∙◌, inl, inr, arith, Option-cases,
}
use yeti_pg_ext.Base.Outcome.{Outcome, ok, error, fault}
use yeti_pg_ext.Templates.{Jsonb}
use yeti_pg_ext.Regexp.Chunks.{later_pairs, first_chunk, first_match}
use yeti_pg_ext.Regexp.Ready.{IsReady, IsReady-suc, tail_args-AreArgs, last_args, last_args-AreArgs}
use yeti_pg_ext.Regexp.Arrays.{
  extra, extra_after, element_pairs, Puts, Puts-subst, insert-Puts, go_on, go_on-Puts,
}
use yeti_pg_ext.Regexp.Calls.{
  Saved, Returned, restore, keep_empty_of, prepare_args, regexp_replace_rand_array_noopt,
}
use yeti_pg_ext.Regexp.Prepare.{prepare_args-IsSaved}
use yeti_pg_ext.Regexp.Laws.{args_of}
use yeti_pg_ext.Regexp.{
  is_empty_text, search_split_token, Args, Engine, replace_rule, replace_result, tail_args, insert,
  walk_element, walk_array,
}
use yeti_pg_ext.Regexp.Extra.{
  element_pairs-last_rule, element_pairs-last_result, element_pairs-both,
}

abbrev left_args : Args → Outcome (Args × Bytes) → Args
left_args a (ok (b, out)) = b
left_args a error = a
left_args a fault = a

module _ (engine : Engine) (keep_empty : Bool) where
  element-last_rule :
      (fuel : ℕ) (a : Args) (n : ℕ) (rule result : Bytes)
      → search_split_token rule ≡ none
      → walk_element engine keep_empty (suc fuel) a n rule result
        ≡ ok (insert engine keep_empty (tail_args a n rule result))
  unfolding walk_element
  element-last_rule fuel a n rule result e = rw (e, walk_element) refl

  element-last_result :
      (fuel : ℕ) (a : Args) (n : ℕ) (rule result chunk rest : Bytes)
      → search_split_token rule ≡ some (chunk, rest)
      → search_split_token result ≡ none
      → walk_element engine keep_empty (suc fuel) a n rule result
        ≡ ok (insert engine keep_empty (last_args a n chunk result))
  unfolding walk_element
  element-last_result fuel a n rule result chunk rest e f = rw (e, f, walk_element) refl

  element-both :
      (fuel : ℕ) (a : Args) (n : ℕ) (rule result chunk rest result_chunk result_rest : Bytes)
      → search_split_token rule ≡ some (chunk, rest)
      → search_split_token result ≡ some (result_chunk, result_rest)
      → let a' = replace_result (replace_rule a chunk) result_chunk in
        walk_element engine keep_empty (suc fuel) a n rule result
        ≡ go_on engine keep_empty a' n rule result rest result_rest
            (walk_element engine keep_empty fuel a' (suc n) rest result_rest)
  unfolding walk_element
  element-both fuel a n rule result chunk rest result_chunk result_rest e f =
      rw (e, f, walk_element) refl

  walk_element-Puts :
      (fuel : ℕ) (a : Args) (n : ℕ) (rule result : Bytes)
      → 0 < fuel
      → n + fuel ≡ 9
      → IsReady n a rule result
      → Puts engine keep_empty
          (walk_element engine keep_empty fuel a n rule result)
          a.arg_in
          (element_pairs fuel rule result)
  walk_element-Puts zero a n rule result p h r = absurd (omega (arith, p))
  walk_element-Puts (suc fuel) a n rule result p h r =
      elim (Option-cases (search_split_token rule)) [
        | inl e ↦
            let chunk = first_chunk result (search_split_token result) in
            Puts-subst engine keep_empty a.arg_in (element_pairs (suc fuel) rule result)
              ((rule, chunk) ∷ []) (element-last_rule fuel a n rule result e)
              (element_pairs-last_rule fuel rule result e)
              (insert-Puts engine keep_empty (tail_args a n rule result) a.arg_in rule chunk
                (tail_args-AreArgs a n rule result e r))
        | inr ((chunk, rest), e) ↦ elim (Option-cases (search_split_token result)) [
          | inl f ↦
              Puts-subst engine keep_empty a.arg_in (element_pairs (suc fuel) rule result)
                ((chunk, result) ∷ []) (element-last_result fuel a n rule result chunk rest e f)
                (element_pairs-last_result fuel rule result chunk rest e f)
                (insert-Puts engine keep_empty (last_args a n chunk result) a.arg_in chunk result
                  (last_args-AreArgs a n rule chunk result f r))
          | inr ((result_chunk, result_rest), f) ↦
              let a' = replace_result (replace_rule a chunk) result_chunk in
              Puts-subst engine keep_empty a.arg_in (element_pairs (suc fuel) rule result)
                ((chunk, result_chunk)
                  ∷ (later_pairs fuel rest result_rest
                      ++ extra_after fuel rule result_chunk rest result_rest
                          (extra fuel rest result_rest)))
                (element-both fuel a n rule result chunk rest result_chunk result_rest e f)
                (element_pairs-both fuel rule result chunk rest result_chunk result_rest e f)
                (go_on-Puts engine keep_empty a' n fuel rule result rest result_rest
                  (walk_element engine keep_empty fuel a' (suc n) rest result_rest) h
                  (ap (first_chunk result) f)
                  (λ q.
                    walk_element-Puts fuel a' (suc n) rest result_rest q (omega (arith, h))
                      (IsReady-suc n a' rest result_rest)))
        ]
      ]

  -- An element leaves the arguments fit for the next.
  walk_element-IsReady :
      (a b : Args) (rule result out : Bytes)
      → IsReady 0 a rule result
      → walk_element engine keep_empty 9 a 0 rule result ≡ ok (b, out)
      → IsReady 0 b rule result
  walk_element-IsReady a b rule result out r h = elim (Option-cases (search_split_token rule)) [
    | inl e ↦
        let left =
          sym (ap (left_args a) h) ∙ ap (left_args a) (element-last_rule 8 a 0 rule result e) in
        let (v, f, g) = tail_args-AreArgs a 0 rule result e r in
        (
          λ z k. ap Args.arg_rule left ∙ f,
          λ z k. ap Args.arg_result left ∙ g ∙ ap (first_chunk result) k,
        )
    | inr ((chunk, rest), e) ↦ elim (Option-cases (search_split_token result)) [
      | inl f ↦
          let left =
            sym (ap (left_args a) h)
            ∙ ap (left_args a) (element-last_result 8 a 0 rule result chunk rest e f) in
          let (v, k, g) = last_args-AreArgs a 0 rule chunk result f r in
          (λ z l. absurd (cc), λ z l. ap Args.arg_result left ∙ g)
      | inr ((result_chunk, result_rest), f) ↦ (λ z g. absurd (cc), λ z g. absurd (cc))
    ]
  ]

  walk_array-map :
      (a : Args) (rule result : Bytes) (vs : List (Option Bytes))
      → IsReady 0 a rule result
      → (last : Args) × (walk_array engine keep_empty a rule result vs
          ≡ ok (
            last,
            map
                (Option.map (λ v. first_match engine keep_empty v (element_pairs 9 rule result)))
                vs,
          ))
  unfolding walk_array
  walk_array-map a rule result [] r = (a, refl)
  walk_array-map a rule result (none ∷ vs) r =
      let (last, e) = walk_array-map a rule result vs r in (last, rw e refl)
  walk_array-map a rule result (some v ∷ vs) r =
      let (next, e) =
        walk_element-Puts 9 (record a { arg_in = v }) 0 rule result (omega arith) (omega arith) r in
      let ready =
        walk_element-IsReady (record a { arg_in = v }) next rule result
          (first_match engine keep_empty v (element_pairs 9 rule result)) r e in
      let (last, f) = walk_array-map next rule result vs ready in (last, rw (e, f) refl)

array-walk :
    {Numeric : Type 0} (engine : Engine) (rand_r : ℕ → ℕ × ℕ) (numeric_out : Numeric → Bytes)
    (seed : ℕ) (keep : Option Bool) (vars : Option (Jsonb Numeric)) (vs outs : List (Option Bytes))
    (rule result : Bytes) (saved : Saved) (last : Args)
    → is_empty_text rule ≡ false
    → prepare_args rand_r numeric_out seed vars (args_of [] rule result) ≡ ok saved
    → walk_array engine (keep_empty_of keep) saved.args saved.args.arg_rule saved.args.arg_result vs
      ≡ ok (last, outs)
    → regexp_replace_rand_array_noopt engine rand_r numeric_out seed keep vars
        (some vs)
        (some rule)
        (some result)
      ≡ ok (restore saved last outs)
unfolding regexp_replace_rand_array_noopt
array-walk engine rand_r numeric_out seed keep vars vs outs rule result saved last n e f =
    rw (n, e, f) refl

-- For an array and a result that are not NULL and a rule that is not empty, the arguments are
-- prepared, and the function ends and gives an array in which a NULL stays one, and any other
-- element has the first chunk that matches it replaced, whatever the elements before it were; the
-- chunks tried are those of regexp_replace_rand_noopt, and one more where its loop is left early.
pub regexp_replace_rand_array_noopt-map :
    {Numeric : Type 0} (engine : Engine) (rand_r : ℕ → ℕ × ℕ) (numeric_out : Numeric → Bytes)
    (seed : ℕ) (keep : Option Bool) (vars : Option (Jsonb Numeric)) (vs : List (Option Bytes))
    (rule result : Bytes)
    → is_empty_text rule ≡ false
    → (saved : Saved) × (out : Returned (List (Option Bytes))) × (prepare_args rand_r numeric_out
          seed vars
          (args_of [] rule result)
        ≡ ok saved)
      × (regexp_replace_rand_array_noopt engine rand_r numeric_out seed keep vars
            (some vs)
            (some rule)
            (some result)
          ≡ ok out)
      × (out.value
          ≡ some (
              map
                (Option.map (λ v.
                  first_match engine
                    (keep_empty_of keep)
                    v
                    (element_pairs 9 saved.args.arg_rule saved.args.arg_result)))
                vs))
regexp_replace_rand_array_noopt-map engine rand_r numeric_out seed keep vars vs rule result n =
    let (saved, e, w, h) =
      prepare_args-IsSaved rand_r numeric_out seed vars (args_of [] rule result) in
    let outs =
      map
        (Option.map (λ v.
          first_match engine (keep_empty_of keep) v
            (element_pairs 9 saved.args.arg_rule saved.args.arg_result)))
        vs in
    let (last, f) =
      walk_array-map engine (keep_empty_of keep) saved.args saved.args.arg_rule
        saved.args.arg_result vs (λ z g. refl, λ z g. refl) in
    (
      saved,
      restore saved last outs,
      e,
      array-walk engine rand_r numeric_out seed keep vars vs outs rule result saved last n e f,
      refl,
    )
