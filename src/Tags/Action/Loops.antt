-- ===== src/Tags/Action/Loops.antt =====
-- What the loops of `tag_action` compute, and that the buffers have room for it.
use mathlib.Core.List.{append-nil, append_assoc}
use yeti_pg_ext.Base.{
  ℕ, ◌+◌, ◌*◌, ◌≤◌, true, not, ◌&&◌, ◌||◌, List, [], ◌∷◌, ◌++◌, none, some, map, ◌≡◌, refl, ap, ◌∙◌,
  inl, inr, arith, le→leb, if◌then◌else◌, Bool-cases, length, length-append,
}
use yeti_pg_ext.Base.Outcome.{ok, ◌>>=◌}
use yeti_pg_ext.Tags.Sets.{
  Array, contains, has, IsDistinct, Subset, add_all, contains-append, IsDistinct-snoc,
  length-add_all, length-le_of_Subset,
}
use yeti_pg_ext.Tags.Buffer.{
  datum_size, Buffer, palloc, Fits, push, construct_array, set_contains_value-contains,
  fill-add_all,
}
use yeti_pg_ext.Tags.Action.{collect, subtract, keep_common, intersect, array_of}

pub array_of-Fits : (s : Buffer) → Fits s → array_of s ≡ ok (map some s.items)
unfolding construct_array
array_of-Fits s h = ground arith

pub construct_array-Fits : (s : Buffer) → Fits s → construct_array s ≡ ok (map some s.items)
unfolding construct_array
construct_array-Fits s h = rw (le→leb (length s.items * 8) s.bytes h)

pub collect-add_all :
    (arr : Array)
    → collect arr ≡ ok (record { bytes = length arr * datum_size; items = add_all [] arr })
unfolding collect
collect-add_all arr =
    fill-add_all (palloc (length arr * datum_size)) arr (omega (arith, length-add_all [] arr))

-- The elements of the first list that are not in the second.
abbrev pub without : List ℕ → List ℕ → List ℕ
without [] ys = []
without (x ∷ xs) ys = if contains ys x then without xs ys else x ∷ without xs ys

pub contains-without :
    (xs ys : List ℕ) (v : ℕ) → contains (without xs ys) v ≡ (contains xs v && not (contains ys v))
contains-without [] ys v = refl
contains-without (x ∷ xs) ys v = ground (arith, contains-without xs ys v)

pub IsDistinct-without : (xs ys : List ℕ) → IsDistinct xs → IsDistinct (without xs ys)
IsDistinct-without [] ys d = tt
IsDistinct-without (x ∷ xs) ys d =
    ground (arith, IsDistinct-without xs ys d.1, contains-without xs ys x)

pub length-without : (xs ys : List ℕ) → length (without xs ys) ≤ length xs
length-without [] ys = omega arith
length-without (x ∷ xs) ys = ground (arith, length-without xs ys)

pub subtract-without :
    (bset rset : Buffer) (xs : List ℕ)
    → Fits bset
    → (length rset.items + length xs) * datum_size ≤ rset.bytes
    → subtract bset rset xs ≡ ok (record rset { items = rset.items ++ without xs bset.items })
unfolding subtract push
subtract-without bset rset [] f h = ground (arith, append-nil rset.items)
subtract-without bset rset (x ∷ xs) f h =
    rw (set_contains_value-contains bset x f) (elim (Bool-cases (contains bset.items x)) [
      | inl e ↦ rw e (subtract-without bset rset xs f (omega arith))
      | inr e ↦
          rw (e, push, le→leb ((length rset.items + 1) * 8) rset.bytes (omega arith))
            (subtract-without bset (record rset { items = rset.items ++ (x ∷ []) }) xs f
                (omega (arith, length-append rset.items (x ∷ [])))
              ∙ ap (λ l. ok (record rset { items = l })) (append_assoc rset.items (x ∷ []) _))
    ])

-- The elements of an array that are in `ys`, behind those of `xs`.
abbrev pub meet_one : List ℕ → List ℕ → ℕ → List ℕ
meet_one ys xs v = if contains xs v then xs else if contains ys v then xs ++ (v ∷ []) else xs

abbrev pub meet_all : List ℕ → List ℕ → Array → List ℕ
meet_all ys xs [] = xs
meet_all ys xs (none ∷ vs) = meet_all ys xs vs
meet_all ys xs (some v ∷ vs) = meet_all ys (meet_one ys xs v) vs

pub contains-meet_all :
    (ys xs : List ℕ) (vs : Array) (x : ℕ)
    → contains (meet_all ys xs vs) x ≡ (contains xs x || (contains ys x && has vs x))
contains-meet_all ys xs [] x = ground arith
contains-meet_all ys xs (none ∷ vs) x = contains-meet_all ys xs vs x
contains-meet_all ys xs (some v ∷ vs) x =
    ground (arith, contains-meet_all ys (meet_one ys xs v) vs x, contains-append xs (v ∷ []) x)

-- A duplicate-free part of `ys`.
pub IsPart : List ℕ → List ℕ → Type 0
IsPart ys xs = IsDistinct xs × Subset xs ys

Subset-snoc :
    (ys xs : List ℕ) (v : ℕ) → Subset xs ys → contains ys v ≡ true → Subset (xs ++ (v ∷ [])) ys
Subset-snoc ys xs v s h x k = ground (arith, s x, contains-append xs (v ∷ []) x)

meet_one-IsPart : (ys xs : List ℕ) (v : ℕ) → IsPart ys xs → IsPart ys (meet_one ys xs v)
unfolding IsPart
meet_one-IsPart ys xs v p = elim (Bool-cases (contains xs v)) [
  | inl e ↦ rw e p
  | inr e ↦ rw e (elim (Bool-cases (contains ys v)) [
    | inl k ↦ rw k (IsDistinct-snoc xs v p.0 e, Subset-snoc ys xs v p.1 k)
    | inr k ↦ rw k p
  ])
]

meet_all-IsPart : (ys xs : List ℕ) (vs : Array) → IsPart ys xs → IsPart ys (meet_all ys xs vs)
meet_all-IsPart ys xs [] p = p
meet_all-IsPart ys xs (none ∷ vs) p = meet_all-IsPart ys xs vs p
meet_all-IsPart ys xs (some v ∷ vs) p =
    meet_all-IsPart ys (meet_one ys xs v) vs (meet_one-IsPart ys xs v p)

pub IsDistinct-meet_all : (ys : List ℕ) (vs : Array) → IsDistinct (meet_all ys [] vs)
unfolding IsPart
IsDistinct-meet_all ys vs = (meet_all-IsPart ys [] vs (tt, λ x h. cc)).0

keep_common-meet_one :
    (aset rset : Buffer) (v : ℕ)
    → Fits aset
    → length aset.items * datum_size ≤ rset.bytes
    → IsPart aset.items rset.items
    → keep_common aset rset v ≡ ok (record rset { items = meet_one aset.items rset.items v })
unfolding keep_common push IsPart
keep_common-meet_one aset rset v f room p =
    let part : length rset.items ≤ length aset.items =
      length-le_of_Subset rset.items aset.items p.0 p.1 in
    let next = meet_one-IsPart aset.items rset.items v p in
    let next_part : length (meet_one aset.items rset.items v) ≤ length aset.items =
      length-le_of_Subset _ aset.items next.0 next.1 in
    rw (set_contains_value-contains rset v (omega arith), set_contains_value-contains aset v f)
      (ground (arith, length-append rset.items (v ∷ [])))

-- The result never outgrows `aset`, whose length the buffer was made for.
intersect-meet_all :
    (aset rset : Buffer) (vs : Array)
    → Fits aset
    → length aset.items * datum_size ≤ rset.bytes
    → IsPart aset.items rset.items
    → intersect aset rset vs ≡ ok (record rset { items = meet_all aset.items rset.items vs })
unfolding intersect
intersect-meet_all aset rset [] f room p = refl
intersect-meet_all aset rset (none ∷ vs) f room p = intersect-meet_all aset rset vs f room p
intersect-meet_all aset rset (some v ∷ vs) f room p =
    rw (keep_common-meet_one aset rset v f room p) (
      intersect-meet_all aset (record rset { items = meet_one aset.items rset.items v }) vs f room
        (meet_one-IsPart aset.items rset.items v p))

pub intersect_common :
    (aset : Buffer) (vs : Array)
    → Fits aset
    → (intersect aset (palloc (length aset.items * datum_size)) vs >>= array_of)
      ≡ ok (map some (meet_all aset.items [] vs))
unfolding IsPart
intersect_common aset vs f =
    let part = meet_all-IsPart aset.items [] vs (tt, λ x h. cc) in
    rw
      (intersect-meet_all aset (palloc (length aset.items * datum_size)) vs f (omega arith)
        (tt, λ x h. cc))
      (array_of-Fits _ (omega (arith, length-le_of_Subset _ aset.items part.0 part.1)))
