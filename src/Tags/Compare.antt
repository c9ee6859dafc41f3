-- ===== src/Tags/Compare.antt =====
-- src/f_tag_compare.c: `tag_compare(a, b [, matching_mode])`. An argument that is SQL NULL or not
-- given is `none`; the mode is the 16-bit pattern of the int2 argument.
pub mod Loops
pub mod Inclusion
pub mod Finish
pub mod Verdict
use yeti_pg_ext.Base.{
  ℕ, zero, suc, ◌+◌, ◌*◌, Bool, true, false, not, ◌&&◌, ◌||◌, List, [], ◌∷◌, Option, none, some,
  ◌==◌, if◌then◌else◌, length, ltb, leb,
}
use yeti_pg_ext.Base.Outcome.{Outcome, ok, error, ◌>>=◌}
use yeti_pg_ext.Tags.Sets.{Array}
use yeti_pg_ext.Tags.Buffer.{datum_size, Buffer, palloc, set_contains_value, push, add, read}

pub data Code : Type 0 where
  not_matched matched_with_null matched_without_null matched_exactly : Code

pub data Mode : Type 0 where
  b_in_a mutual_match intersection : Mode

-- The switch on `match_mode`; `err` is an ERROR.
unfoldable pub mode_of : Option ℕ → Outcome Mode
mode_of none = ok b_in_a
mode_of (some m) =
    if m == 0
    then ok b_in_a
    else if m == 1
    then ok mutual_match
    else if m == 2
    then ok intersection
    else error

-- The first loop: the unique tags of `a`, and whether it has a NULL.
unfoldable pub fill_a : Buffer → Bool → Array → Outcome (Buffer × Bool)
unfolding add
fill_a s has_null [] = ok (s, has_null)
fill_a s has_null (none ∷ vs) = fill_a s true vs
fill_a s has_null (some v ∷ vs) = do s' ← add s v; fill_a s' has_null vs

-- The second loop ends with `bset` and `ret`, or returns RET_MATCHED_EXACTLY from within.
pub data Scan : Type 0 where
  returned : Scan
  scanned : Buffer → Code → Scan

-- What the loop body says of a tag of `b`: leave the loop with `ret`, return, or go on with `ret`.
pub data Next : Type 0 where
  break_with go_on : Code → Next
  return_exactly : Next

unfoldable pub judge : Mode → Bool → Bool → Code → Next
judge b_in_a has_null true ret = go_on ret
judge mutual_match has_null true ret = go_on ret
judge intersection has_null true ret = return_exactly
judge b_in_a true false ret = break_with matched_with_null
judge mutual_match true false ret = go_on matched_with_null
judge intersection true false ret = go_on matched_with_null
judge b_in_a false false ret = break_with not_matched
judge mutual_match false false ret = break_with not_matched
judge intersection false false ret = go_on not_matched

unfoldable pub scan_b : Mode → Bool → Buffer → Buffer → Code → Array → Outcome Scan
unfolding add judge set_contains_value
scan_b mode has_null aset bset ret [] = ok (scanned bset ret)
scan_b mode has_null aset bset ret (none ∷ vs) = scan_b mode has_null aset bset ret vs
scan_b mode has_null aset bset ret (some v ∷ vs) = do
  found ← set_contains_value aset v
  let next = judge mode has_null found ret
  elim next [
    | return_exactly ↦ ok returned
    | break_with code ↦ ok (scanned bset code)
    | go_on code ↦ add bset v >>= λ s. scan_b mode has_null aset s code vs
  ]

-- The `do … while(d-- > aset)` loop, last entry first; the count of entries left stands for
-- `d - aset + 1`. The result says whether every entry of `aset` is in `bset`.
unfoldable pub check_a : Buffer → Buffer → ℕ → Outcome Bool
unfolding read set_contains_value
check_a aset bset zero = ok true
check_a aset bset (suc d) = do
  x ← read aset d
  found ← set_contains_value bset x
  if found then check_a aset bset d else ok false

unfoldable pub is_without_null : Code → Bool
is_without_null matched_without_null = true
is_without_null _ = false

unfoldable pub is_mutual : Mode → Bool
is_mutual mutual_match = true
is_mutual _ = false

-- What follows the second loop.
unfoldable pub finish : Mode → Buffer → Scan → Outcome Code
unfolding check_a is_without_null is_mutual
finish mode aset returned = ok matched_exactly
finish mode aset (scanned bset ret) = do
  let exact = is_without_null ret && length aset.items == length bset.items
  let code = if exact then matched_exactly else ret
  all ← if is_mutual mode then check_a aset bset (length aset.items) else ok true
  ok (if all then code else not_matched)

unfoldable pub compare_tags : Mode → Array → Array → Outcome Code
unfolding fill_a scan_b finish
compare_tags mode a b = fill_a (palloc (length a * datum_size)) false a >>= λ (aset, has_null).
    scan_b mode has_null aset (palloc (length b * datum_size)) matched_without_null b >>= λ s.
    finish mode aset s

-- The tests on `a_len` and `b_len`.
unfoldable pub compare_arrays : Mode → Array → Array → Outcome Code
unfolding compare_tags
compare_arrays mode [] [] = ok matched_exactly
compare_arrays mode [] (y ∷ ys) = ok not_matched
compare_arrays mode (x ∷ xs) [] = ok not_matched
compare_arrays mode (x ∷ xs) (y ∷ ys) = compare_tags mode (x ∷ xs) (y ∷ ys)

unfoldable pub tag_compare : Option Array → Option Array → Option ℕ → Outcome Code
unfolding mode_of compare_arrays
tag_compare none b m = ok not_matched
tag_compare (some a) none m = ok not_matched
tag_compare (some a) (some b) m = do mode ← mode_of m; compare_arrays mode a b
