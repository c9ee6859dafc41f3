-- ===== src/Regexp/Arrays.antt =====
-- The loop of regexp_replace_rand_array_noopt over the elements and, for each, over the chunks.
use yeti_pg_ext.Base.{
  Bytes, ℕ, zero, suc, ◌+◌, ◌-◌, ◌<◌, Bool, true, false, [], ◌∷◌, ◌++◌, List, none, some, ◌≡◌, refl,
  sym, ap, subst, lt→ltb, ◌∙◌, inl, inr, arith, if◌then◌else◌, Option-cases, Bool-cases, leb,
}
use yeti_pg_ext.Base.CString.{memchr}
use yeti_pg_ext.Base.Outcome.{Outcome, ok}
use yeti_pg_ext.Regexp.Chunks.{
  pairs_from, later_pairs, first_chunk, first_match, apply-first_match, apply-matched,
}
use yeti_pg_ext.Regexp.Ready.{AreArgs}
use yeti_pg_ext.Regexp.Walk.{matches, apply-hit, is_last, is_not_last, later_pairs-zero}
use yeti_pg_ext.Regexp.{
  split_max_tokens, is_empty_text, search_split_token, Args, Engine, apply_textregexreplace_noopt,
  tail_args, insert, or_input,
}

-- Where the loop is left although no chunk has matched, one more is tried: the whole rest of the
-- rule with the first chunk that is left of the result. After nine chunks both rests begin at the
-- ninth, after the end of the rule that of the result at its last chunk.
abbrev pub extra_after :
    ℕ → Bytes → Bytes → Bytes → Bytes → List (Bytes × Bytes) → List (Bytes × Bytes)
extra_after zero rule chunk rule_rest result_rest later = (rule, chunk) ∷ []
extra_after (suc k) rule chunk rule_rest result_rest later =
    if is_empty_text rule_rest
    then ([], chunk) ∷ []
    else if is_empty_text result_rest
    then (rule_rest, []) ∷ []
    else later

abbrev pub extra : ℕ → Bytes → Bytes → List (Bytes × Bytes)
extra zero rule result = []
extra (suc k) rule result = elim (search_split_token rule) [
  | none ↦ []
  | some (chunk, rule_rest) ↦ elim (search_split_token result) [
    | none ↦ []
    | some (result_chunk, result_rest) ↦
        extra_after k rule result_chunk rule_rest result_rest (extra k rule_rest result_rest)
  ]
]

-- What is tried for an element, in order.
abbrev pub element_pairs : ℕ → Bytes → Bytes → List (Bytes × Bytes)
element_pairs k rule result = pairs_from k rule result ++ extra k rule result

pub search-nil : search_split_token [] ≡ none
unfolding search_split_token memchr
search-nil = refl

pub tail_args-suc :
    (a : Args) (n : ℕ) (rule result : Bytes)
    → AreArgs
        (tail_args a (suc n) rule result)
        a.arg_in
        rule
        (first_chunk result (search_split_token result))
unfolding tail_args
tail_args-suc a n rule result = elim (Option-cases (search_split_token result)) [
  | inl f ↦ rw (f, lt→ltb 0 (suc n) (omega arith), tail_args) (refl, refl, refl)
  | inr ((chunk, rest), f) ↦ rw (f, lt→ltb 0 (suc n) (omega arith), tail_args) (refl, refl, refl)
]

module _ (engine : Engine) (keep_empty : Bool) where
  abbrev pub Puts : Outcome (Args × Bytes) → Bytes → List (Bytes × Bytes) → Type 0
  Puts m v ps = (a : Args) × (m ≡ ok (a, first_match engine keep_empty v ps))

  pub Puts-subst :
      {m m' : Outcome (Args × Bytes)} (v : Bytes) (ps ps' : List (Bytes × Bytes))
      → m ≡ m'
      → ps ≡ ps'
      → Puts m' v ps'
      → Puts m v ps
  Puts-subst v ps ps' e f g =
      let (a, h) = g in (a, e ∙ h ∙ sym (ap (λ qs. ok (a, first_match engine keep_empty v qs)) f))

  pub insert-Puts :
      (a : Args) (v rule result : Bytes)
      → AreArgs a v rule result
      → Puts (ok (insert engine keep_empty a)) v ((rule, result) ∷ [])
  insert-Puts a v rule result (e, f, g) = (
    a,
    ap (λ out. ok (a, out))
        (subst
          (λ text.
            or_input text (apply_textregexreplace_noopt engine a false keep_empty).0
            ≡ first_match engine keep_empty v ((rule, result) ∷ []))
          (sym e) (apply-first_match engine keep_empty a v rule result false e f g)),
  )

  -- How a round with two chunks goes on.
  abbrev pub go_on :
      Args → ℕ → Bytes → Bytes → Bytes → Bytes → Outcome (Args × Bytes) → Outcome (Args × Bytes)
  go_on a n rule result rule_rest result_rest later =
      let (ret, matched) = apply_textregexreplace_noopt engine a false keep_empty in
      if matched
      then ok (a, or_input a.arg_in ret)
      else if leb (split_max_tokens - 1) (suc n)
      then ok (insert engine keep_empty (tail_args a (suc n) rule result))
      else if is_empty_text rule_rest
      then ok (insert engine keep_empty (tail_args a (suc n) rule_rest result))
      else if is_empty_text result_rest
      then ok (insert engine keep_empty (tail_args a (suc n) rule_rest result_rest))
      else later

  tail_args-Puts :
      (a : Args) (n : ℕ) (rule result chunk : Bytes)
      → first_chunk result (search_split_token result) ≡ chunk
      → Puts
          (ok (insert engine keep_empty (tail_args a (suc n) rule result)))
          a.arg_in
          ((rule, chunk) ∷ [])
  tail_args-Puts a n rule result chunk e =
      insert-Puts (tail_args a (suc n) rule result) a.arg_in rule chunk
        (rw e at (tail_args-suc a n rule result))

  go_on-miss :
      (a : Args) (n fuel : ℕ) (rule result rule_rest result_rest : Bytes)
      (later : Outcome (Args × Bytes))
      → n + suc fuel ≡ 9
      → first_chunk result (search_split_token result) ≡ a.arg_result
      → (0 < fuel → Puts later a.arg_in (element_pairs fuel rule_rest result_rest))
      → matches engine keep_empty a ≡ false
      → Puts (go_on a n rule result rule_rest result_rest later) a.arg_in (
          later_pairs fuel rule_rest result_rest
          ++ extra_after fuel rule a.arg_result rule_rest result_rest
              (extra fuel rule_rest result_rest))
  go_on-miss a n zero rule result rule_rest result_rest later h c g k =
      Puts-subst a.arg_in
        (later_pairs 0 rule_rest result_rest
          ++ extra_after 0 rule a.arg_result rule_rest result_rest (extra 0 rule_rest result_rest))
        ((rule, a.arg_result) ∷ [])
        (rw (apply-matched engine keep_empty a false, k, is_last n h) refl)
        (ap (λ ps. ps ++ ((rule, a.arg_result) ∷ [])) (later_pairs-zero rule_rest result_rest))
        (tail_args-Puts a n rule result a.arg_result c)
  go_on-miss a n (suc fuel) rule result [] result_rest later h c g k =
      Puts-subst a.arg_in
        (later_pairs (suc fuel) [] result_rest
          ++ extra_after (suc fuel) rule a.arg_result [] result_rest
              (extra (suc fuel) [] result_rest))
        (([], a.arg_result) ∷ [])
        (rw (apply-matched engine keep_empty a false, k, is_not_last n fuel h) refl) refl
        (tail_args-Puts a n [] result a.arg_result c)
  go_on-miss a n (suc fuel) rule result (x ∷ rule_rest) [] later h c g k =
      Puts-subst a.arg_in
        (later_pairs (suc fuel) (x ∷ rule_rest) []
          ++ extra_after (suc fuel) rule a.arg_result (x ∷ rule_rest) []
              (extra (suc fuel) (x ∷ rule_rest) []))
        ((x ∷ rule_rest, []) ∷ [])
        (rw (apply-matched engine keep_empty a false, k, is_not_last n fuel h) refl) refl
        (tail_args-Puts a n (x ∷ rule_rest) [] [] (ap (first_chunk []) search-nil))
  go_on-miss a n (suc fuel) rule result (x ∷ rule_rest) (y ∷ result_rest) later h c g k =
      Puts-subst a.arg_in
        (later_pairs (suc fuel) (x ∷ rule_rest) (y ∷ result_rest)
          ++ extra_after (suc fuel) rule a.arg_result (x ∷ rule_rest) (y ∷ result_rest)
              (extra (suc fuel) (x ∷ rule_rest) (y ∷ result_rest)))
        (element_pairs (suc fuel) (x ∷ rule_rest) (y ∷ result_rest))
        (rw (apply-matched engine keep_empty a false, k, is_not_last n fuel h) refl) refl
        (g (omega arith))

  Puts-skip :
      (a : Args) (ps : List (Bytes × Bytes)) (m : Outcome (Args × Bytes))
      → matches engine keep_empty a ≡ false
      → Puts m a.arg_in ps
      → Puts m a.arg_in ((a.arg_rule, a.arg_result) ∷ ps)
  Puts-skip a ps m h p = rw h p

  go_on-hit :
      (a : Args) (n : ℕ) (rule result rule_rest result_rest : Bytes)
      (later : Outcome (Args × Bytes))
      → matches engine keep_empty a ≡ true
      → go_on a n rule result rule_rest result_rest later
        ≡ ok (a, or_input a.arg_in (apply_textregexreplace_noopt engine a false keep_empty).0)
  go_on-hit a n rule result rule_rest result_rest later h =
      rw (apply-matched engine keep_empty a false, h) refl

  pub go_on-Puts :
      (a : Args) (n fuel : ℕ) (rule result rule_rest result_rest : Bytes)
      (later : Outcome (Args × Bytes))
      → n + suc fuel ≡ 9
      → first_chunk result (search_split_token result) ≡ a.arg_result
      → (0 < fuel → Puts later a.arg_in (element_pairs fuel rule_rest result_rest))
      → Puts (go_on a n rule result rule_rest result_rest later) a.arg_in (
          (a.arg_rule, a.arg_result)
          ∷ (later_pairs fuel rule_rest result_rest
              ++ extra_after fuel rule a.arg_result rule_rest result_rest
                  (extra fuel rule_rest result_rest)))
  go_on-Puts a n fuel rule result rule_rest result_rest later h c g =
      let ps =
        later_pairs fuel rule_rest result_rest
        ++ extra_after fuel rule a.arg_result rule_rest result_rest
            (extra fuel rule_rest result_rest) in
      elim (Bool-cases (matches engine keep_empty a)) [
        | inl hit ↦ (
          a,
          go_on-hit a n rule result rule_rest result_rest later hit
              ∙ ap (λ out. ok (a, out)) (apply-hit engine keep_empty a ps hit),
        )
        | inr miss ↦
            Puts-skip a ps (go_on a n rule result rule_rest result_rest later) miss
              (go_on-miss a n fuel rule result rule_rest result_rest later h c g miss)
      ]
