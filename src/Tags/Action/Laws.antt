-- ===== src/Tags/Action/Laws.antt =====
-- `tag_action` as operations on sets of tags.
use native.Mathlib.Decide.{dec_le}
use yeti_pg_ext.Base.{
  ℕ, ◌+◌, ◌*◌, ◌≤◌, ◌<◌, Bool, not, ◌&&◌, ◌||◌, List, [], ◌∷◌, Option, some, map, ◌≡◌, refl, ap,
  arith, leb, le→leb, lt→leb_false, if◌then◌else◌, length,
}
use yeti_pg_ext.Base.Outcome.{Outcome, ok, error, fault, ◌>>=◌}
use yeti_pg_ext.Tags.Sets.{
  Array, contains, has, IsDistinct, add_all, contains-add_all, IsDistinct-add_all, length-add_all,
  length-le-add_all, length-le_of_Subset,
}
use yeti_pg_ext.Tags.Buffer.{
  datum_size, Buffer, palloc, Fits, fill, construct_array, fill-add_all, fill_fault,
}
use yeti_pg_ext.Tags.Action.{
  op_remove, op_append, op_intersection, remove_values, subtract, append_values, repalloc,
  intersect_values, combine, tag_action, array_of, is_empty,
}
use yeti_pg_ext.Tags.Action.Loops.{
  array_of-Fits, construct_array-Fits, collect-add_all, without, contains-without,
  IsDistinct-without, length-without, subtract-without, meet_all, contains-meet_all,
  IsDistinct-meet_all, intersect_common,
}

-- The call gives an array of distinct non-NULL tags: those at which `member` is true.
abbrev pub IsSetOf : Outcome (Option Array) → (ℕ → Bool) → Type 0
IsSetOf r member =
    (xs : List ℕ) × (r ≡ ok (some (map some xs)))
    × IsDistinct xs
    × ((v : ℕ) → contains xs v ≡ member v)

abbrev pub tags : Array → List ℕ
tags = add_all []

abbrev pub buffer_of : Array → Buffer
buffer_of a = record { bytes = length a * datum_size; items = tags a }

pub buffer_of-Fits : (a : Array) → Fits (buffer_of a)
buffer_of-Fits a = omega (arith, length-add_all [] a)

without-nil : (xs : List ℕ) → without xs [] ≡ xs
without-nil [] = refl
without-nil (x ∷ xs) = ap (◌∷◌ x) (without-nil xs)

-- Behind the construction of `bset`, whose entries are `ys`.
remove_set : Buffer → List ℕ → ℕ → Outcome Array
remove_set aset ys n =
    if is_empty ys
    then construct_array aset
    else (subtract (record { bytes = n; items = ys }) (palloc (length aset.items * datum_size))
          aset.items
        >>= array_of)

remove_set-without :
    (aset : Buffer) (ys : List ℕ) (n : ℕ)
    → Fits aset
    → length ys * datum_size ≤ n
    → remove_set aset ys n ≡ ok (map some (without aset.items ys))
unfolding remove_set
remove_set-without aset [] n f h = rw without-nil (construct_array-Fits aset f)
remove_set-without aset (y ∷ ys) n f h =
    rw
      (subtract-without (record { bytes = n; items = y ∷ ys })
        (palloc (length aset.items * datum_size)) aset.items h (omega arith))
      (array_of-Fits _ (omega (arith, length-without aset.items (y ∷ ys))))

pub remove_values-without :
    (n : ℕ) (xs : List ℕ) (b : Array)
    → length xs * datum_size ≤ n
    → remove_values (record { bytes = n; items = xs }) b ≡ ok (map some (without xs (tags b)))
unfolding remove_values remove_set
remove_values-without n [] b h = refl
remove_values-without n (x ∷ xs) b h = rw (collect-add_all b) (
    remove_set-without (record { bytes = n; items = x ∷ xs }) (tags b) (length b * datum_size) h
      (buffer_of-Fits b))

array_of_fault : (m : Outcome Buffer) → (m >>= construct_array) ≡ fault → (m >>= array_of) ≡ fault
unfolding construct_array
array_of_fault (ok t) h = ground arith
array_of_fault error h = cc
array_of_fault fault h = refl

-- Without room for the whole union some access is out of bounds.
pub append_values_cases :
    (a b : Array)
    → append_values (buffer_of a) b ≡ (
        if leb (length (add_all (tags a) b) * datum_size) (length (tags a) + length b)
        then ok (map some (add_all (tags a) b))
        else fault)
unfolding append_values repalloc
append_values_cases a b =
    elim (dec_le (length (add_all (tags a) b) * datum_size) (length (tags a) + length b)) [
      | yes fits ↦ rw (le→leb _ _ fits, fill-add_all small b fits) (array_of-Fits _ fits)
      | no over ↦
          rw
            (lt→leb_false (length (add_all (tags a) b) * 8) (length (tags a) + length b)
              (omega arith))
            (array_of_fault (fill small b) (fill_fault small b (omega arith)))
    ]
  where
    small : Buffer
    small = record { bytes = length (tags a) + length b; items = tags a }

has-tags : (a : Array) (v : ℕ) → contains (tags a) v ≡ has a v
has-tags a v = contains-add_all [] a v

-- REMOVE gives, each once, the tags of `a` that are not in `b`.
pub tag_action-remove :
    (a b : Array)
    → IsSetOf (tag_action (some op_remove) (some a) (some b)) (λ v. has a v && not (has b v))
unfolding tag_action combine
tag_action-remove a b = (
  without (tags a) (tags b),
  rw (collect-add_all a)
      (rw (remove_values-without (length a * datum_size) (tags a) b (buffer_of-Fits a))),
  IsDistinct-without (tags a) (tags b) (IsDistinct-add_all [] a tt),
  λ v. ground (arith, contains-without (tags a) (tags b) v, has-tags a v, has-tags b v),
)

-- INTERSECTION gives, each once, the tags that are in both arrays.
pub tag_action-intersection :
    (a b : Array)
    → IsSetOf (tag_action (some op_intersection) (some a) (some b)) (λ v. has a v && has b v)
unfolding tag_action combine intersect_values
tag_action-intersection a b = (
  meet_all (tags a) [] b,
  rw (collect-add_all a) (rw (intersect_common (buffer_of a) b (buffer_of-Fits a))),
  IsDistinct-meet_all (tags a) b,
  λ v. ground (arith, contains-meet_all (tags a) [] b v, has-tags a v),
)

-- The bytes that APPEND asks for hold the whole union.
abbrev pub AppendFits : Array → Array → Type 0
AppendFits a b = length (add_all (tags a) b) * datum_size ≤ length (tags a) + length b

-- APPEND gives, each once, the tags that are in one of the two arrays, if the bytes that it asks
-- for hold the whole union.
pub tag_action-append :
    (a b : Array)
    → AppendFits a b
    → IsSetOf (tag_action (some op_append) (some a) (some b)) (λ v. has a v || has b v)
unfolding tag_action combine
tag_action-append a b h = (
  add_all (tags a) b,
  rw (collect-add_all a) (rw (append_values_cases a b) (rw (le→leb _ _ h))),
  IsDistinct-add_all (tags a) b (IsDistinct-add_all [] a tt),
  λ v. ground (arith, contains-add_all (tags a) b v, has-tags a v),
)

-- APPEND makes an access out of bounds, if the bytes that it asks for do not hold the union.
pub tag_action-append_fault :
    (a b : Array) → ¬ AppendFits a b → tag_action (some op_append) (some a) (some b) ≡ fault
unfolding tag_action combine
tag_action-append_fault a b h = rw (collect-add_all a) (
    rw (append_values_cases a b) (
      rw (
        lt→leb_false (length (add_all (tags a) b) * 8) (length (tags a) + length b) (omega arith))))

-- APPEND of an array of distinct non-NULL tags makes an access out of bounds, whatever the first
-- array holds, unless the set of the first and the second array are empty.
pub tag_action-append_distinct :
    (a b : Array)
    → length (tags b) ≡ length b
    → 0 < length (tags a) + length b
    → tag_action (some op_append) (some a) (some b) ≡ fault
tag_action-append_distinct a b distinct h =
    tag_action-append_fault a b (λ fits. omega (arith, grows, length-le-add_all (tags a) b))
  where
    grows : length (tags b) ≤ length (add_all (tags a) b)
    grows =
        length-le_of_Subset (tags b) (add_all (tags a) b) (IsDistinct-add_all [] b tt)
          (λ v k. ground (arith, contains-add_all (tags a) b v, has-tags b v))
