-- ===== src/Regexp/Left.antt =====
-- What regexp_replace_rand_noopt leaves in ARG_RULE where it has nothing to restore.
use yeti_pg_ext.Base.{
  Bytes, ℕ, zero, suc, ◌+◌, ◌-◌, ◌≤◌, ◌<◌, Bool, true, false, [], ◌∷◌, Option, none, some, leb, ltb,
  length, length-append, ◌≡◌, refl, sym, ap, ◌∙◌, inl, inr, arith, Bool-cases, Option-cases,
}
use yeti_pg_ext.Base.Outcome.{Outcome, ok}
use yeti_pg_ext.Templates.Search.{memmem_split}
use yeti_pg_ext.Rand.{replace}
use yeti_pg_ext.Regexp.Split.{search_split_token-memmem}
use yeti_pg_ext.Regexp.Ready.{last_args}
use yeti_pg_ext.Regexp.Walk.{go_on, walk-last_rule, walk-last_result, walk-both}
use yeti_pg_ext.Regexp.Arrays.{search-nil, tail_args-suc}
use yeti_pg_ext.Regexp.Calls.{
  Saved, Returned, restore, keep_empty_of, prepare_args, regexp_replace_rand_noopt,
}
use yeti_pg_ext.Regexp.Laws.{args_of, noopt-walk}
use yeti_pg_ext.Regexp.{
  is_empty_text, search_split_token, Args, Engine, apply_textregexreplace_noopt, replace_rule,
  replace_result, tail_args, walk, or_input,
}

length-search :
    (s chunk rest : Bytes)
    → search_split_token s ≡ some (chunk, rest)
    → length s ≡ length chunk + 2 + length rest
length-search s chunk rest e =
    let (whole, clear) =
      memmem_split b'|' b'|' s chunk rest (sym (search_split_token-memmem s) ∙ e) in
    omega (arith, ap length whole, length-append chunk (b'|' ∷ b'|' ∷ rest))

-- A walk that ends with a rule no longer than that.
abbrev Leaves : Outcome (Args × Option Bytes) → ℕ → Type 0
Leaves m bound =
    (last : Args) × (ret : Option Bytes) × (m ≡ ok (last, ret)) × (length last.arg_rule ≤ bound)

module _ (engine : Engine) (keep_empty : Bool) where
  go_on-Leaves :
      (a : Args) (n bound : ℕ) (rule result : Bytes) (later : Outcome (Args × Option Bytes))
      → length a.arg_rule ≤ bound
      → (leb 9 (suc n) ≡ false → Leaves later bound)
      → Leaves (go_on engine keep_empty a n rule result later) bound
  go_on-Leaves a n bound rule result later h g =
      let (ret, matched) = apply_textregexreplace_noopt engine a false keep_empty in
      elim (Bool-cases matched) [
        | inl hit ↦ (a, ret, rw hit refl, h)
        | inr miss ↦ elim (Bool-cases (leb 9 (suc n))) [
          | inl full ↦ (a, ret, rw (miss, full) refl, h)
          | inr on ↦ elim (Bool-cases (is_empty_text rule)) [
            | inl end ↦ (a, ret, rw (miss, on, end) refl, h)
            | inr more ↦ elim (Bool-cases (is_empty_text result)) [
              | inl end ↦ (a, ret, rw (miss, on, more, end) refl, h)
              | inr both ↦
                  let (last, out, e, k) = g on in (last, out, rw (miss, on, more, both) e, k)
            ]
          ]
        ]
      ]

  last_args-rule :
      (a : Args) (n : ℕ) (chunk result : Bytes) → (last_args a n chunk result).arg_rule ≡ chunk
  last_args-rule a n chunk result = elim (Bool-cases (ltb 0 n)) [
    | inl later ↦ rw later refl
    | inr first ↦ rw first refl
  ]

  -- A round with a token in the rule, if what follows leaves no more than the rest.
  walk-token :
      (fuel : ℕ) (a : Args) (n : ℕ) (rule result chunk rest : Bytes)
      → search_split_token rule ≡ some (chunk, rest)
      → ((b : Args) (results : Bytes)
          → leb 9 (suc n) ≡ false
          → Leaves (walk engine keep_empty fuel b (suc n) rest results) (length rest))
      → Leaves (walk engine keep_empty (suc fuel) a n rule result) (length rule - 1)
  walk-token fuel a n rule result chunk rest e g =
      let l = length-search rule chunk rest e in
      elim (Option-cases (search_split_token result)) [
        | inl f ↦ (
          last_args a n chunk result,
          (apply_textregexreplace_noopt engine (last_args a n chunk result) true keep_empty).0,
          walk-last_result engine keep_empty fuel a n rule result chunk rest e f,
          omega (arith, l, ap length (last_args-rule a n chunk result)),
        )
        | inr ((result_chunk, results), f) ↦
            let a' = replace_result (replace_rule a chunk) result_chunk in
            let (last, ret, k, h) =
              go_on-Leaves a' n (length rule - 1) rest results
                (walk engine keep_empty fuel a' (suc n) rest results) (omega (arith, l))
                (λ on.
                  let (last, ret, k, h) = g a' results on in (last, ret, k, omega (arith, h, l))) in
            (
              last,
              ret,
              walk-both engine keep_empty fuel a n rule result chunk rest result_chunk results e f
                  ∙ k,
              h,
            )
      ]

  walk-Leaves :
      (fuel : ℕ) (a : Args) (n : ℕ) (rule result : Bytes)
      → 0 < fuel
      → suc n + fuel ≡ 9
      → Leaves (walk engine keep_empty fuel a (suc n) rule result) (length rule)
  walk-Leaves zero a n rule result p h = absurd (omega (arith, p))
  walk-Leaves (suc fuel) a n rule result p h = elim (Option-cases (search_split_token rule)) [
    | inl e ↦
        let b = tail_args a (suc n) rule result in
        let (v, r, q) = tail_args-suc a n rule result in
        (
          b,
          (apply_textregexreplace_noopt engine b true keep_empty).0,
          walk-last_rule engine keep_empty fuel a (suc n) rule result e,
          omega (arith, ap length r),
        )
    | inr ((chunk, rest), e) ↦
        let (last, ret, f, k) = walk-token fuel a (suc n) rule result chunk rest e (λ b results on.
          walk-Leaves fuel b (suc n) rest results (ground (arith, on, h)) (omega (arith, h))) in
        (last, ret, f, omega (arith, k))
  ]

unprepared :
    {Numeric : Type 0} (rand_r : ℕ → ℕ × ℕ) (numeric_out : Numeric → Bytes) (seed : ℕ) (a : Args)
    (same : Bytes)
    → replace rand_r seed a.arg_result ≡ ok (same, false)
    → prepare_args rand_r numeric_out seed none a
      ≡ ok (record { args = a; orig_rule = none; orig_result = none })
unfolding prepare_args
unprepared rand_r numeric_out seed a same f = rw f refl

-- If the rule has a token, there are no variables and the result has no number for digits,
-- regexp_replace_rand_noopt ends, and leaves in ARG_RULE a text that is shorter than the rule.
pub regexp_replace_rand_noopt-left :
    {Numeric : Type 0} (engine : Engine) (rand_r : ℕ → ℕ × ℕ) (numeric_out : Numeric → Bytes)
    (seed : ℕ) (keep : Option Bool) (v rule result same chunk rest : Bytes)
    → search_split_token rule ≡ some (chunk, rest)
    → replace rand_r seed result ≡ ok (same, false)
    → (out : Returned Bytes) × (left : Bytes) × (regexp_replace_rand_noopt engine rand_r numeric_out
          seed keep none
          (some v)
          (some rule)
          (some result)
        ≡ ok out)
      × (out.arg_rule ≡ some left)
      × (length left < length rule)
regexp_replace_rand_noopt-left engine rand_r numeric_out seed keep v [] result same chunk rest e f =
    absurd (ground (arith, e, search-nil))
regexp_replace_rand_noopt-left engine rand_r numeric_out seed keep v (c ∷ cs) result same chunk rest
      e f =
    let rule = c ∷ cs in
    let saved : Saved = record {
      args = args_of v rule result;
      orig_rule = none;
      orig_result = none;
    } in
    let (last, ret, g, k) =
      walk-token engine (keep_empty_of keep) 8 (args_of v rule result) 0 rule result chunk rest e
        (λ b results on.
          walk-Leaves engine (keep_empty_of keep) 8 b 0 rest results (omega arith) (omega arith)) in
    (
      restore saved last (or_input v ret),
      last.arg_rule,
      noopt-walk engine rand_r numeric_out seed keep none v rule result saved last ret refl
          (unprepared rand_r numeric_out seed (args_of v rule result) same f) g,
      refl,
      omega (arith, k),
    )
