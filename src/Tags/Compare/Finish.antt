-- ===== src/Tags/Compare/Finish.antt =====
-- What the code behind the second loop of `tag_compare` answers.
use yeti_pg_ext.Base.{
  ℕ, ◌*◌, ◌<◌, Bool, true, false, not, ◌&&◌, ◌||◌, List, [], ◌∷◌, none, some, ◌≡◌, refl, inl, inr,
  arith, ◌==◌, if◌then◌else◌, Bool-cases, length, length-append,
}
use yeti_pg_ext.Base.Outcome.{ok}
use yeti_pg_ext.Tags.Sets.{Array, contains, add_one, add_all, length-add_all, length-le-add_all}
use yeti_pg_ext.Tags.Buffer.{datum_size, Buffer, Fits}
use yeti_pg_ext.Tags.Compare.{
  Mode, mutual_match, intersection, Code, not_matched, matched_without_null, matched_exactly,
  scanned, is_without_null, is_mutual, finish,
}
use yeti_pg_ext.Tags.Compare.Loops.{any_of, has_null, missing}
use yeti_pg_ext.Tags.Compare.Inclusion.{tags_in, tags, included-tags, check_a-included}

abbrev pub has_tag : Array → Bool
has_tag = any_of (λ _. true)

abbrev pub room : Array → ℕ
room a = length a * datum_size

abbrev pub buffer_of : Array → Buffer
buffer_of a = record { bytes = room a; items = tags a }

pub buffer_of-Fits : (a : Array) → Fits (buffer_of a)
buffer_of-Fits a = omega (arith, length-add_all [] a)

-- Where the loop over `b` went to its end.
pub finish_full :
    (mode : Mode) (a b : Array) (ret : Code)
    → finish mode (buffer_of a) (scanned (buffer_of b) ret)
      ≡ ok (
          if not (is_mutual mode) || tags_in a b
          then if is_without_null ret && length (tags a) == length (tags b)
            then matched_exactly
            else ret
          else not_matched)
unfolding finish
finish_full mode a b ret =
    rw
      (
        check_a-included (buffer_of a) (buffer_of b) (buffer_of-Fits a) (buffer_of-Fits b),
        included-tags a b,
      )
      (ground arith)

-- Where it was left early, with a code that is final.
pub finish_early :
    (mode : Mode) (a : Array) (t : Buffer) (null : Bool)
    → Fits t
    → (mode ≡ mutual_match → null ≡ false)
    → finish mode (buffer_of a) (scanned t (missing null)) ≡ ok (missing null)
unfolding finish
finish_early mode a t null f n =
    rw (check_a-included (buffer_of a) t (buffer_of-Fits a) f) (ground (arith, n))

length_no_tag : (xs : List ℕ) (a : Array) → has_tag a ≡ false → length (add_all xs a) ≡ length xs
length_no_tag xs [] h = refl
length_no_tag xs (none ∷ vs) h = length_no_tag xs vs h
length_no_tag xs (some v ∷ vs) h = cc

length_some_tag : (xs : List ℕ) (a : Array) → has_tag a ≡ true → 0 < length (add_all xs a)
length_some_tag xs [] h = cc
length_some_tag xs (none ∷ vs) h = length_some_tag xs vs h
length_some_tag xs (some v ∷ vs) h =
    ground (arith, length-append xs (v ∷ []), length-le-add_all (add_one xs v) vs, contained xs v)
  where
    contained : (ys : List ℕ) (w : ℕ) → contains ys w ≡ true → 0 < length ys
    contained [] w k = cc
    contained (y ∷ ys) w k = omega arith

-- What is left of the codes where no tag is in both.
pub intersection_code :
    (a b : Array)
    → ok (
        if not (is_mutual intersection) || tags_in a b
        then if is_without_null (if has_tag b then missing (has_null a) else matched_without_null)
            && length (tags a) == length (tags b)
          then matched_exactly
          else if has_tag b
          then missing (has_null a)
          else matched_without_null
        else not_matched)
      ≡ ok (
          if has_tag b
          then missing (has_null a)
          else if has_tag a
          then matched_without_null
          else matched_exactly)
unfolding is_mutual is_without_null
intersection_code a b = elim (Bool-cases (has_tag b)) [
  | inl e ↦ rw e (ground arith)
  | inr e ↦ rw e (ground (arith, length_no_tag [] b e, length_no_tag [] a, length_some_tag [] a))
]
