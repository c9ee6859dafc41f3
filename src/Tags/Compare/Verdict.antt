-- ===== src/Tags/Compare/Verdict.antt =====
-- What `tag_compare` answers, said of the two sets of tags.
use mathlib.Core.Path.{fun_ext}
use yeti_pg_ext.Base.{
  ℕ, Bool, true, false, not, ◌||◌, [], ◌∷◌, Option, some, ◌≡◌, ◌≢◌, refl, ap, ◌∙◌, inl, inr, arith,
  if◌then◌else◌, Bool-cases,
}
use yeti_pg_ext.Base.Outcome.{Outcome, ok, ◌>>=◌}
use yeti_pg_ext.Tags.Sets.{Array, contains, has}
use yeti_pg_ext.Tags.Buffer.{palloc}
use yeti_pg_ext.Tags.Compare.{
  Mode, b_in_a, mutual_match, intersection, Code, not_matched, matched_with_null,
  matched_without_null, matched_exactly, is_without_null, is_mutual, finish, compare_tags,
  compare_arrays, mode_of, scan_b, tag_compare,
}
use yeti_pg_ext.Tags.Compare.Loops.{
  all_of, any_of, has_null, missing, fill_a_lem, scan_b_known, scan_b_break, scan_b_mutual,
  scan_b_meets, scan_b_apart,
}
use yeti_pg_ext.Tags.Compare.Finish.{
  has_tag, room, buffer_of, buffer_of-Fits, finish_full, finish_early, intersection_code,
}
use yeti_pg_ext.Tags.Compare.Inclusion.{tags_in, tags, contains-tags, same_length}

-- Some tag is in both.
abbrev pub meets : Array → Array → Bool
meets xs ys = any_of (has ys) xs

-- The answer for two arrays that are not empty.
abbrev pub verdict_of : Mode → Array → Array → Code
verdict_of b_in_a a b =
    if tags_in b a
    then if tags_in a b then matched_exactly else matched_without_null
    else missing (has_null a)
verdict_of mutual_match a b =
    if tags_in a b
    then if tags_in b a then matched_exactly else missing (has_null a)
    else not_matched
verdict_of intersection a b =
    if meets b a
    then matched_exactly
    else if has_tag b
    then missing (has_null a)
    else if has_tag a
    then matched_without_null
    else matched_exactly

abbrev pub verdict : Mode → Array → Array → Code
verdict mode [] [] = matched_exactly
verdict mode [] (y ∷ ys) = not_matched
verdict mode (x ∷ xs) [] = not_matched
verdict mode (x ∷ xs) (y ∷ ys) = verdict_of mode (x ∷ xs) (y ∷ ys)

-- The second loop and what follows it, from the first loop's result.
abbrev rest_of : Mode → Array → Array → Outcome Code
rest_of mode a b =
    scan_b mode (has_null a) (buffer_of a) (palloc (room b)) matched_without_null b
    >>= finish mode (buffer_of a)

module _ (a b : Array) where
  known_tags : all_of (contains (tags a)) b ≡ tags_in b a
  known_tags = ap (λ p. all_of p b) (contains-tags a)

  rest_of_known :
      (mode : Mode)
      → mode ≢ intersection
      → tags_in b a ≡ true
      → rest_of mode a b
        ≡ ok (
            if not (is_mutual mode) || tags_in a b
            then if tags_in a b then matched_exactly else matched_without_null
            else not_matched)
  rest_of_known mode m h =
      rw
        (scan_b_known (buffer_of a) (buffer_of-Fits a) mode (has_null a) (palloc (room b))
          matched_without_null b m (buffer_of-Fits b) (known_tags ∙ h))
        (finish_full mode a b matched_without_null
          ∙ rw (same_length a b h) (unfold is_without_null in refl))

  rest_of_break :
      (mode : Mode)
      → mode ≢ intersection
      → (mode ≡ mutual_match → has_null a ≡ false)
      → tags_in b a ≡ false
      → rest_of mode a b ≡ ok (missing (has_null a))
  rest_of_break mode m n h =
      let (t, e, f) =
        scan_b_break (buffer_of a) (buffer_of-Fits a) mode (has_null a) (palloc (room b))
          matched_without_null b m n (buffer_of-Fits b) (known_tags ∙ h) in
      rw e (finish_early mode a t (has_null a) f n)

  rest_of_mutual :
      has_null a ≡ true
      → tags_in b a ≡ false
      → rest_of mutual_match a b ≡ ok (if tags_in a b then matched_with_null else not_matched)
  rest_of_mutual n h = rw n (
      rw
        (scan_b_mutual (buffer_of a) (buffer_of-Fits a) (palloc (room b)) matched_without_null b
          (buffer_of-Fits b))
        (rw (known_tags ∙ h) (
          finish_full mutual_match a b matched_with_null
          ∙ unfold is_without_null is_mutual in refl)))

  rest_of_intersection : rest_of intersection a b ≡ ok (verdict_of intersection a b)
  rest_of_intersection = elim (Bool-cases (meets b a)) [
    | inl e ↦ rw e (
        rw
          (scan_b_meets (buffer_of a) (buffer_of-Fits a) (has_null a) (palloc (room b))
            matched_without_null b (buffer_of-Fits b) (ap (λ p. any_of p b) (contains-tags a) ∙ e))
          (unfold finish in refl))
    | inr e ↦ rw e (
        rw
          (scan_b_apart (buffer_of a) (buffer_of-Fits a) (has_null a) (palloc (room b))
            matched_without_null b (buffer_of-Fits b) (ap (λ p. any_of p b) (contains-tags a) ∙ e))
          (finish_full intersection a b
              (if has_tag b then missing (has_null a) else matched_without_null)
            ∙ intersection_code a b))
  ]

rest_of_lem : (mode : Mode) (a b : Array) → rest_of mode a b ≡ ok (verdict_of mode a b)
rest_of_lem b_in_a a b = elim (Bool-cases (tags_in b a)) [
  | inl e ↦ rw e (rest_of_known a b b_in_a (λ k. cc) e ∙ unfold is_mutual in refl)
  | inr e ↦ rw e (rest_of_break a b b_in_a (λ k. cc) (λ k. cc) e)
]
rest_of_lem mutual_match a b = elim (Bool-cases (tags_in b a)) [
  | inl e ↦ rw e (rest_of_known a b mutual_match (λ k. cc) e ∙ unfold is_mutual in ground arith)
  | inr e ↦ elim (Bool-cases (has_null a)) [
    | inl n ↦ rw (e, n) (rw n at (rest_of_mutual a b n e))
    | inr n ↦
        rw (e, n) (rw n at (rest_of_break a b mutual_match (λ k. cc) (λ k. n) e) ∙ ground arith)
  ]
]
rest_of_lem intersection a b = rest_of_intersection a b

compare_tags_lem : (mode : Mode) (a b : Array) → compare_tags mode a b ≡ ok (verdict_of mode a b)
unfolding compare_tags
compare_tags_lem mode a b =
    rw (fill_a_lem (palloc (room a)) false a (buffer_of-Fits a)) (rest_of_lem mode a b)

compare_arrays-verdict :
    (mode : Mode) (a b : Array) → compare_arrays mode a b ≡ ok (verdict mode a b)
unfolding compare_arrays
compare_arrays-verdict mode [] [] = refl
compare_arrays-verdict mode [] (y ∷ ys) = refl
compare_arrays-verdict mode (x ∷ xs) [] = refl
compare_arrays-verdict mode (x ∷ xs) (y ∷ ys) = compare_tags_lem mode (x ∷ xs) (y ∷ ys)

-- For arrays that are not NULL the call neither runs past its buffers nor depends on the order or
-- on repeated elements: it gives the verdict on the two sets in the mode asked for, or the ERROR
-- that the mode is unknown.
pub tag_compare-verdict :
    (a b : Array) (m : Option ℕ)
    → tag_compare (some a) (some b) m ≡ (mode_of m >>= λ mode. ok (verdict mode a b))
unfolding tag_compare
tag_compare-verdict a b m =
    ap (λ f. mode_of m >>= f) (fun_ext (λ mode. compare_arrays-verdict mode a b))
