-- ===== src/Regexp/Chunks.antt =====
-- What the loop over the chunks of src/f_regexp_replace_rand.c gives.
use yeti_pg_ext.Base.{
  Bytes, ℕ, zero, suc, Bool, true, false, not, ◌&&◌, [], ◌∷◌, List, Option, none, some, ◌≡◌, refl,
  sym, ap, ◌∙◌, inl, inr, if◌then◌else◌, take, Bool-cases,
}
use yeti_pg_ext.Regexp.Split.{unless_end, chunks, chunks_at, chunks_lem}
use yeti_pg_ext.Regexp.{
  is_empty_text, search_split_token, Args, Engine, in_if_final, unless_empty, on_match,
  apply_textregexreplace_noopt, or_input,
}

-- Each chunk of a rule with the chunk of the result that stands at its place.
abbrev pub zip : List Bytes → List Bytes → List (Bytes × Bytes)
zip [] results = []
zip (rule ∷ rules) [] = []
zip (rule ∷ rules) (result ∷ results) = (rule, result) ∷ zip rules results

-- The first nine of those.
abbrev pub pairs : Bytes → Bytes → List (Bytes × Bytes)
pairs rule result = take 9 (zip (chunks rule) (chunks result))

module _ (engine : Engine) (keep_empty : Bool) where
  -- A rule that does not compile does not match.
  abbrev pub is_match : Option Bool → Bool
  is_match none = false
  is_match (some matched) = matched

  abbrev pub non_empty : Bytes → Option Bytes → Bytes
  non_empty v none = v
  non_empty v (some out) = if not keep_empty && is_empty_text out then v else out

  -- The text with what the first rule that matches it puts for it; the text itself if none does,
  -- or if that replacement raises an exception or, unless that is to be kept, is empty.
  abbrev pub first_match : Bytes → List (Bytes × Bytes) → Bytes
  first_match v [] = v
  first_match v ((rule, result) ∷ later) =
      if is_match (engine.regexec rule v)
      then non_empty v (engine.textregexreplace_noopt v rule result)
      else first_match v later

  or_input-in_if_final :
      (a : Args) (final : Bool) → or_input a.arg_in (in_if_final a final) ≡ a.arg_in
  or_input-in_if_final a true = refl
  or_input-in_if_final a false = refl

  pub or_input-unless_empty :
      (a : Args) (final : Bool) (o : Option Bytes)
      → or_input a.arg_in (unless_empty a final keep_empty o) ≡ non_empty a.arg_in o
  or_input-unless_empty a final none = or_input-in_if_final a final
  or_input-unless_empty a final (some out) =
      elim (Bool-cases (not keep_empty && is_empty_text out)) [
        | inl dropped ↦ rw dropped (or_input-in_if_final a final)
        | inr kept ↦ rw kept refl
      ]

  or_input-on_match :
      (a : Args) (final : Bool) (o : Option Bool)
      → or_input a.arg_in (on_match engine a final keep_empty o).0 ≡ (
          if is_match o
          then non_empty a.arg_in (engine.textregexreplace_noopt a.arg_in a.arg_rule a.arg_result)
          else a.arg_in)
  or_input-on_match a final none = refl
  or_input-on_match a final (some true) =
      or_input-unless_empty a final (engine.textregexreplace_noopt a.arg_in a.arg_rule a.arg_result)
  or_input-on_match a final (some false) = or_input-in_if_final a final

  on_match-matched :
      (a : Args) (final : Bool) (o : Option Bool)
      → (on_match engine a final keep_empty o).1 ≡ is_match o
  on_match-matched a final none = refl
  on_match-matched a final (some true) = refl
  on_match-matched a final (some false) = refl

  -- One chunk of a rule, with one of the result.
  pub apply-first_match :
      (a : Args) (v rule result : Bytes) (final : Bool)
      → a.arg_in ≡ v
      → a.arg_rule ≡ rule
      → a.arg_result ≡ result
      → or_input v (apply_textregexreplace_noopt engine a final keep_empty).0
        ≡ first_match v ((rule, result) ∷ [])
  unfolding apply_textregexreplace_noopt
  apply-first_match a v rule result final e f g =
      rw (sym e, sym f, sym g) (or_input-on_match a final (engine.regexec a.arg_rule a.arg_in))

  pub apply-matched :
      (a : Args) (final : Bool)
      → (apply_textregexreplace_noopt engine a final keep_empty).1
        ≡ is_match (engine.regexec a.arg_rule a.arg_in)
  unfolding apply_textregexreplace_noopt
  apply-matched a final = on_match-matched a final (engine.regexec a.arg_rule a.arg_in)

abbrev pub pairs_from : ℕ → Bytes → Bytes → List (Bytes × Bytes)
pairs_from k rule result = take k (zip (chunks rule) (chunks result))

abbrev pub first_chunk : Bytes → Option (Bytes × Bytes) → Bytes
first_chunk result none = result
first_chunk result (some (chunk, rest)) = chunk

zip-single :
    (k : ℕ) (rule result : Bytes) (o : Option (Bytes × Bytes))
    → take (suc k) (zip (rule ∷ []) (chunks_at o result)) ≡ (rule, first_chunk result o) ∷ []
zip-single zero rule result none = refl
zip-single (suc k) rule result none = refl
zip-single zero rule result (some (chunk, rest)) = refl
zip-single (suc k) rule result (some (chunk, rest)) = refl

take-nil : (k : ℕ) → take {A = Bytes × Bytes} k [] ≡ []
take-nil zero = refl
take-nil (suc k) = refl

zip-nil : (xs : List Bytes) → zip xs [] ≡ []
zip-nil [] = refl
zip-nil (x ∷ xs) = refl

pub pairs-last_rule :
    (k : ℕ) (rule result : Bytes)
    → search_split_token rule ≡ none
    → pairs_from (suc k) rule result ≡ (rule, first_chunk result (search_split_token result)) ∷ []
pairs-last_rule k rule result e =
    rw (chunks_lem rule, chunks_lem result, e)
      (zip-single k rule result (search_split_token result))

pub pairs-last_result :
    (k : ℕ) (rule result chunk rest : Bytes)
    → search_split_token rule ≡ some (chunk, rest)
    → search_split_token result ≡ none
    → pairs_from (suc k) rule result ≡ (chunk, result) ∷ []
pairs-last_result k rule result chunk rest e f =
    rw (chunks_lem rule, chunks_lem result, e, f)
      (ap (λ xs. (chunk, result) ∷ take k xs) (zip-nil (unless_end rest (chunks rest)))
        ∙ ap (λ xs. (chunk, result) ∷ xs) (take-nil k))

-- Behind two chunks that match: nothing where either text ends.
abbrev pub later_pairs : ℕ → Bytes → Bytes → List (Bytes × Bytes)
later_pairs k rule result =
    if is_empty_text rule then [] else if is_empty_text result then [] else pairs_from k rule result

later_pairs-lem :
    (k : ℕ) (rule result : Bytes)
    → take k (zip (unless_end rule (chunks rule)) (unless_end result (chunks result)))
      ≡ later_pairs k rule result
later_pairs-lem k [] result = take-nil k
later_pairs-lem k (c ∷ rule) [] = ap (take k) (zip-nil (chunks (c ∷ rule))) ∙ take-nil k
later_pairs-lem k (c ∷ rule) (d ∷ result) = refl

pub pairs-both :
    (k : ℕ) (rule result chunk rest result_chunk result_rest : Bytes)
    → search_split_token rule ≡ some (chunk, rest)
    → search_split_token result ≡ some (result_chunk, result_rest)
    → pairs_from (suc k) rule result ≡ (chunk, result_chunk) ∷ later_pairs k rest result_rest
pairs-both k rule result chunk rest result_chunk result_rest e f =
    rw (chunks_lem rule, chunks_lem result, e, f)
      (ap (λ xs. (chunk, result_chunk) ∷ xs) (later_pairs-lem k rest result_rest))
