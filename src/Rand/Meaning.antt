-- ===== src/Rand/Meaning.antt =====
-- What the functions of src/replace_rand.c and src/f_replace_rand.c give.
use mathlib.Core.List.{append_assoc}
use yeti_pg_ext.Base.{
  Bytes, ℕ, ◌+◌, ◌*◌, ◌≤◌, Bool, true, false, [], ◌∷◌, ◌++◌, Option, none, some, ◌≡◌, refl, sym, ap,
  inl, inr, arith, length, length-append, Option-cases, Bool-cases,
}
use yeti_pg_ext.Base.Outcome.{ok}
use yeti_pg_ext.Rand.Brackets.{sscanf_long-append}
use yeti_pg_ext.Rand.Texts.{
  RandText, plain, call, unclosed, print, IsRandText, replacings, has_number, or_number,
  is_nil-replacings, find-replacings, reading,
}
use yeti_pg_ext.Rand.Output.{push_all-IsCache}
use yeti_pg_ext.Rand.Fill.{
  digit_count, filled, meaning, length-random_digits, output_length-meaning, fill_output-meaning,
}
use yeti_pg_ext.Rand.{sscanf_long, output_length, fill_output, replace, replace_rand, empty_cache}

module _ (rand_r : ℕ → ℕ × ℕ) where
  filled-or_number :
      (seed : ℕ) (arg : Bytes) (o : Option (Bool × ℕ)) (later : Bool)
      → or_number o later ≡ false
      → (filled rand_r seed arg o ≡ (b'r' ∷ b'(' ∷ (arg ++ (b')' ∷ [])), seed)) × (later ≡ false)
  filled-or_number seed arg none later h = (refl, h)
  filled-or_number seed arg (some value) later h = cc

  meaning-has_number :
      (seed : ℕ) (t : RandText) → has_number t ≡ false → meaning rand_r seed t ≡ print t
  meaning-has_number seed (plain text) h = refl
  meaning-has_number seed (unclosed text tail) h = refl
  meaning-has_number seed (call text arg t) h =
      let (put, later) = filled-or_number seed arg (sscanf_long arg) (has_number t) h in
      rw (put, meaning-has_number seed t later, append_assoc arg (b')' ∷ []) (print t)) refl

  output_length-print :
      (seed : ℕ) (t : RandText)
      → output_length (length (print t)) (replacings 0 t) ≡ length (meaning rand_r seed t)
  unfolding output_length
  output_length-print seed t = omega (arith, output_length-meaning rand_r 0 seed t)

  fill_output-print :
      (seed : ℕ) (t : RandText)
      → IsRandText t
      → fill_output rand_r
          (output_length (length (print t)) (replacings 0 t))
          (print t)
          0
          seed
          (replacings 0 t)
          []
        ≡ ok (meaning rand_r seed t)
  fill_output-print seed t w = rw (output_length-print seed t) (
      fill_output-meaning rand_r t (length (meaning rand_r seed t)) 0 seed (print t) [] [] w refl
        (omega arith))

  replace-print :
      (t : RandText) (seed : ℕ)
      → IsRandText t
      → replace rand_r seed (print t) ≡ ok (meaning rand_r seed t, has_number t)
  unfolding replace
  replace-print t seed w =
      let (c, pushed, items) =
        push_all-IsCache empty_cache (replacings 0 t) (omega arith, omega arith) in
      rw (find-replacings 0 t w, pushed, items, is_nil-replacings 0 t, fill_output-print seed t w)
        (elim (Bool-cases (has_number t)) [
          | inl some_number ↦ rw some_number refl
          | inr no_number ↦ rw (no_number, meaning-has_number seed t no_number) refl
        ])

  replace_rand-print :
      (t : RandText) (seed : ℕ)
      → IsRandText t
      → replace_rand rand_r seed (print t) ≡ ok (meaning rand_r seed t)
  unfolding replace_rand
  replace_rand-print t seed w = rw (replace-print t seed w) (elim (Bool-cases (has_number t)) [
    | inl some_number ↦ rw some_number refl
    | inr no_number ↦ rw no_number (ap ok (sym (meaning-has_number seed t no_number)))
  ])

  digit_count_le : (value : Bool × ℕ) → digit_count value ≤ 64
  digit_count_le (true, n) = omega arith
  digit_count_le (false, n) = ground arith

  filled_le :
      (seed : ℕ) (arg : Bytes)
      → length (filled rand_r seed arg (sscanf_long arg)).0 ≤ 16 * (3 + length arg)
  unfolding sscanf_long
  filled_le seed [] = omega arith
  filled_le seed (c ∷ cs) = elim (Option-cases (sscanf_long (c ∷ cs))) [
    | inl e ↦ rw e (omega (arith, length-append cs (b')' ∷ [])))
    | inr (value, e) ↦
        rw e (
          omega (arith, length-random_digits rand_r (digit_count value) seed, digit_count_le value))
  ]

  meaning_le : (seed : ℕ) (t : RandText) → length (meaning rand_r seed t) ≤ 16 * length (print t)
  meaning_le seed (plain text) = omega arith
  meaning_le seed (unclosed text tail) = omega arith
  meaning_le seed (call text arg t) =
      let (put, seed') = filled rand_r seed arg (sscanf_long arg) in
      omega (
        arith,
        length-append text (b'r' ∷ b'(' ∷ (arg ++ (b')' ∷ print t))),
        length-append arg (b')' ∷ print t),
        length-append text (put ++ meaning rand_r seed' t),
        length-append put (meaning rand_r seed' t),
        filled_le seed arg,
        meaning_le seed' t,
      )

-- Every text reads as plain text and calls r(...), and replace gives the text in which each call
-- with a number has become that many digits, no fewer than 0 and no more than 64, all else being
-- as it was; it never writes past its cache or its output, and tells whether a call had a number.
pub replace-meaning :
    (rand_r : ℕ → ℕ × ℕ) (seed : ℕ) (s : Bytes)
    → (t : RandText) × IsRandText t
      × (print t ≡ s)
      × (replace rand_r seed s ≡ ok (meaning rand_r seed t, has_number t))
replace-meaning rand_r seed s =
    let (t, w, p) = reading s in (t, w, p, rw p at (replace-print rand_r t seed w))

-- What sscanf reads of each call is the number that stands before its bracket, whatever memory is
-- behind the text.
abbrev pub ReadsAlike : Bytes → RandText → Type 0
ReadsAlike behind (plain text) = Unit {0}
ReadsAlike behind (call text arg t) =
    (sscanf_long (arg ++ (b')' ∷ (print t ++ behind))) ≡ sscanf_long arg) × ReadsAlike behind t
ReadsAlike behind (unclosed text tail) = Unit {0}

reads_alike : (behind : Bytes) (t : RandText) → ReadsAlike behind t
reads_alike behind (plain text) = tt
reads_alike behind (call text arg t) =
    (sscanf_long-append arg (print t ++ behind), reads_alike behind t)
reads_alike behind (unclosed text tail) = tt

-- Every text reads as plain text and calls r(...), and replace_rand gives the text in which each call
-- with a number has become as many digits as it says, none where it is negative and 64 where it is
-- greater, all else being as it was, with no write past its cache or its output. sscanf, which
-- looks for a NUL behind the text, is taken to be able to read there; no number depends on what it
-- finds.
pub replace_rand-meaning :
    (rand_r : ℕ → ℕ × ℕ) (seed : ℕ) (s behind : Bytes)
    → (t : RandText) × IsRandText t
      × (print t ≡ s)
      × ReadsAlike behind t
      × (replace_rand rand_r seed s ≡ ok (meaning rand_r seed t))
replace_rand-meaning rand_r seed s behind =
    let (t, w, p) = reading s in
    (t, w, p, reads_alike behind t, rw p at (replace_rand-print rand_r t seed w))

-- replace_rand gives a result, which is at most 16 times as long as the text.
pub length-replace_rand-le :
    (rand_r : ℕ → ℕ × ℕ) (seed : ℕ) (s : Bytes)
    → (out : Bytes) × (replace_rand rand_r seed s ≡ ok out) × (length out ≤ 16 * length s)
length-replace_rand-le rand_r seed s =
    let (t, w, p) = reading s in
    (
      meaning rand_r seed t,
      rw p at (replace_rand-print rand_r t seed w),
      rw p at (meaning_le rand_r seed t),
    )
