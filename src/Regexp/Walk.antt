-- ===== src/Regexp/Walk.antt =====
-- The loop of regexp_replace_rand_noopt over the chunks.
use yeti_pg_ext.Base.{
  Bytes, ℕ, zero, suc, ◌+◌, ◌-◌, ◌<◌, Bool, true, false, [], ◌∷◌, List, Option, none, some, ◌≡◌,
  refl, sym, ap, ◌∙◌, inl, inr, arith, if◌then◌else◌, Option-cases, Bool-cases, leb,
}
use yeti_pg_ext.Base.Outcome.{Outcome, ok}
use yeti_pg_ext.Regexp.Chunks.{
  pairs_from, later_pairs, first_chunk, is_match, first_match, apply-first_match, apply-matched,
  pairs-last_rule, pairs-last_result, pairs-both,
}
use yeti_pg_ext.Regexp.{
  split_max_tokens, is_empty_text, search_split_token, Args, Engine, apply_textregexreplace_noopt,
  replace_rule, replace_result, tail_args, apply_final, walk, or_input,
}
use yeti_pg_ext.Regexp.Ready.{
  IsReady, IsReady-suc, AreArgs, tail_args-AreArgs, last_args, last_args-AreArgs,
}

pub is_last : (n : ℕ) → n + 1 ≡ 9 → leb 9 (suc n) ≡ true
is_last n h = ground (arith, h)

pub is_not_last : (n fuel : ℕ) → n + suc (suc fuel) ≡ 9 → leb 9 (suc n) ≡ false
is_not_last n fuel h = ground (arith, h)

same {ℓ} : {A : Type ℓ} (b : Bool) (x : A) → (if b then x else x) ≡ x
same true x = refl
same false x = refl

pub later_pairs-zero : (rule result : Bytes) → later_pairs 0 rule result ≡ []
later_pairs-zero [] result = refl
later_pairs-zero (c ∷ rule) [] = refl
later_pairs-zero (c ∷ rule) (d ∷ result) = refl

module _ (engine : Engine) (keep_empty : Bool) where
  abbrev pub Gives : Outcome (Args × Option Bytes) → Bytes → List (Bytes × Bytes) → Type 0
  Gives m v ps =
      (a : Args) × (ret : Option Bytes) × (m ≡ ok (a, ret))
      × (or_input v ret ≡ first_match engine keep_empty v ps)

  apply_final-Gives :
      (a : Args) (v rule result : Bytes)
      → AreArgs a v rule result
      → Gives (ok (apply_final engine keep_empty a)) v ((rule, result) ∷ [])
  apply_final-Gives a v rule result (e, f, g) = (
    a,
    (apply_textregexreplace_noopt engine a true keep_empty).0,
    refl,
    apply-first_match engine keep_empty a v rule result true e f g,
  )

  -- How a round with two chunks goes on.
  abbrev pub go_on :
      Args → ℕ → Bytes → Bytes → Outcome (Args × Option Bytes) → Outcome (Args × Option Bytes)
  go_on a n rule result later =
      let (ret, matched) = apply_textregexreplace_noopt engine a false keep_empty in
      if matched
      then ok (a, ret)
      else if leb (split_max_tokens - 1) (suc n)
      then ok (a, ret)
      else if is_empty_text rule
      then ok (a, ret)
      else if is_empty_text result
      then ok (a, ret)
      else later

  abbrev pub matches : Args → Bool
  matches a = is_match engine keep_empty (engine.regexec a.arg_rule a.arg_in)

  pub apply-hit :
      (a : Args) (ps : List (Bytes × Bytes))
      → matches a ≡ true
      → or_input a.arg_in (apply_textregexreplace_noopt engine a false keep_empty).0
        ≡ first_match engine keep_empty a.arg_in ((a.arg_rule, a.arg_result) ∷ ps)
  apply-hit a ps h =
      let single =
        apply-first_match engine keep_empty a a.arg_in a.arg_rule a.arg_result false refl refl
          refl in
      rw h (rw h at single)

  pub apply-miss :
      (a : Args)
      → matches a ≡ false
      → or_input a.arg_in (apply_textregexreplace_noopt engine a false keep_empty).0 ≡ a.arg_in
  apply-miss a h =
      let single =
        apply-first_match engine keep_empty a a.arg_in a.arg_rule a.arg_result false refl refl
          refl in
      rw h at single

  go_on-miss :
      (a : Args) (n fuel : ℕ) (rule result : Bytes) (later : Outcome (Args × Option Bytes))
      → n + suc fuel ≡ 9
      → (0 < fuel → Gives later a.arg_in (pairs_from fuel rule result))
      → matches a ≡ false
      → Gives (go_on a n rule result later) a.arg_in (later_pairs fuel rule result)
  go_on-miss a n zero rule result later h g k = (
    a,
    (apply_textregexreplace_noopt engine a false keep_empty).0,
    rw (apply-matched engine keep_empty a false, k, is_last n h) refl,
    apply-miss a k
        ∙ sym (ap (first_match engine keep_empty a.arg_in) (later_pairs-zero rule result)),
  )
  go_on-miss a n (suc fuel) [] result later h g k = (
    a,
    (apply_textregexreplace_noopt engine a false keep_empty).0,
    rw (apply-matched engine keep_empty a false, k)
        (same (leb 9 (suc n)) (ok (a, (apply_textregexreplace_noopt engine a false keep_empty).0))),
    apply-miss a k,
  )
  go_on-miss a n (suc fuel) (c ∷ rule) [] later h g k = (
    a,
    (apply_textregexreplace_noopt engine a false keep_empty).0,
    rw (apply-matched engine keep_empty a false, k)
        (same (leb 9 (suc n)) (ok (a, (apply_textregexreplace_noopt engine a false keep_empty).0))),
    apply-miss a k,
  )
  go_on-miss a n (suc fuel) (c ∷ rule) (d ∷ result) later h g k =
      let (last, ret, e, v) = g (omega arith) in
      (last, ret, rw (apply-matched engine keep_empty a false, k, is_not_last n fuel h) e, v)

  go_on-Gives :
      (a : Args) (n fuel : ℕ) (rule result : Bytes) (later : Outcome (Args × Option Bytes))
      → n + suc fuel ≡ 9
      → (0 < fuel → Gives later a.arg_in (pairs_from fuel rule result))
      → Gives
          (go_on a n rule result later)
          a.arg_in
          ((a.arg_rule, a.arg_result) ∷ later_pairs fuel rule result)
  go_on-Gives a n fuel rule result later h g = elim (Bool-cases (matches a)) [
    | inl hit ↦ (
      a,
      (apply_textregexreplace_noopt engine a false keep_empty).0,
      rw (apply-matched engine keep_empty a false, hit) refl,
      apply-hit a (later_pairs fuel rule result) hit,
    )
    | inr miss ↦ rw miss (go_on-miss a n fuel rule result later h g miss)
  ]

  Gives-subst :
      {m m' : Outcome (Args × Option Bytes)} {ps ps' : List (Bytes × Bytes)} (v : Bytes)
      → m ≡ m'
      → ps ≡ ps'
      → Gives m' v ps'
      → Gives m v ps
  Gives-subst v e f g =
      let (a, ret, h, k) = g in (a, ret, e ∙ h, k ∙ sym (ap (first_match engine keep_empty v) f))

  pub walk-last_rule :
      (fuel : ℕ) (a : Args) (n : ℕ) (rule result : Bytes)
      → search_split_token rule ≡ none
      → walk engine keep_empty (suc fuel) a n rule result
        ≡ ok (apply_final engine keep_empty (tail_args a n rule result))
  unfolding walk
  walk-last_rule fuel a n rule result e = rw (e, walk) refl

  pub walk-last_result :
      (fuel : ℕ) (a : Args) (n : ℕ) (rule result chunk rest : Bytes)
      → search_split_token rule ≡ some (chunk, rest)
      → search_split_token result ≡ none
      → walk engine keep_empty (suc fuel) a n rule result
        ≡ ok (apply_final engine keep_empty (last_args a n chunk result))
  unfolding walk
  walk-last_result fuel a n rule result chunk rest e f = rw (e, f, walk) refl

  pub walk-both :
      (fuel : ℕ) (a : Args) (n : ℕ) (rule result chunk rest result_chunk result_rest : Bytes)
      → search_split_token rule ≡ some (chunk, rest)
      → search_split_token result ≡ some (result_chunk, result_rest)
      → let a' = replace_result (replace_rule a chunk) result_chunk in
        walk engine keep_empty (suc fuel) a n rule result
        ≡ go_on a' n rest result_rest (walk engine keep_empty fuel a' (suc n) rest result_rest)
  unfolding walk
  walk-both fuel a n rule result chunk rest result_chunk result_rest e f = rw (e, f, walk) refl

  pub walk-Gives :
      (fuel : ℕ) (a : Args) (n : ℕ) (rule result : Bytes)
      → 0 < fuel
      → n + fuel ≡ 9
      → IsReady n a rule result
      → Gives (walk engine keep_empty fuel a n rule result) a.arg_in (pairs_from fuel rule result)
  walk-Gives zero a n rule result p h r = absurd (omega (arith, p))
  walk-Gives (suc fuel) a n rule result p h r = elim (Option-cases (search_split_token rule)) [
    | inl e ↦
        Gives-subst a.arg_in (walk-last_rule fuel a n rule result e)
          (pairs-last_rule fuel rule result e)
          (apply_final-Gives (tail_args a n rule result) a.arg_in rule
            (first_chunk result (search_split_token result))
            (tail_args-AreArgs a n rule result e r))
    | inr ((chunk, rest), e) ↦ elim (Option-cases (search_split_token result)) [
      | inl f ↦
          Gives-subst a.arg_in (walk-last_result fuel a n rule result chunk rest e f)
            (pairs-last_result fuel rule result chunk rest e f)
            (apply_final-Gives (last_args a n chunk result) a.arg_in chunk result
              (last_args-AreArgs a n rule chunk result f r))
      | inr ((result_chunk, result_rest), f) ↦
          let a' = replace_result (replace_rule a chunk) result_chunk in
          Gives-subst a.arg_in
            (walk-both fuel a n rule result chunk rest result_chunk result_rest e f)
            (pairs-both fuel rule result chunk rest result_chunk result_rest e f)
            (go_on-Gives a' n fuel rest result_rest
              (walk engine keep_empty fuel a' (suc n) rest result_rest) h
              (λ q.
                walk-Gives fuel a' (suc n) rest result_rest q (omega (arith, h))
                  (IsReady-suc n a' rest result_rest)))
    ]
  ]
