-- ===== src/Tags/Buffer.antt =====
-- The `Datum` buffers of src/f_tag_action.c and src/f_tag_compare.c: the bytes asked of the
-- allocator, and the entries from 0 to the write position (`aset[0]` to `aset[apos]`).
-- An access past the bytes asked for is a fault.
use native.Mathlib.Decide.{dec_le}
use yeti_pg_ext.Base.{
  ℕ, zero, suc, ◌+◌, ◌*◌, ◌≤◌, ◌<◌, Bool, true, false, ◌||◌, List, [], ◌∷◌, ◌++◌, none, some, ◌≡◌,
  refl, ap, ◌∙◌, arith, leb, lt→leb_false, ◌==◌, if◌then◌else◌, length, length-append, get_or, map,
}
use yeti_pg_ext.Base.Outcome.{Outcome, ok, fault, ◌>>=◌}
use yeti_pg_ext.Tags.Sets.{Array, contains, add_one, add_all, length-le-add_all, length-add_one}

-- sizeof(Datum)
abbrev pub datum_size : ℕ
datum_size = 8

pub record Buffer : Type 0 where
  pub bytes : ℕ
  pub items : List ℕ

-- palloc(bytes), with the write position at -1
abbrev pub palloc : ℕ → Buffer
palloc n = record { bytes = n; items = [] }

unfoldable pub read : Buffer → ℕ → Outcome ℕ
read s i = if leb ((i + 1) * datum_size) s.bytes then ok (get_or s.items i 0) else fault

-- The loop from `end_pos` down to 0; the count of entries left stands for `end_pos + 1`.
unfoldable pub scan : Buffer → ℕ → ℕ → Outcome Bool
unfolding read
scan s zero value = ok false
scan s (suc end_pos) value = do
  x ← read s end_pos
  if x == value then ok true else scan s end_pos value

unfoldable pub set_contains_value : Buffer → ℕ → Outcome Bool
unfolding scan
set_contains_value s value = scan s (length s.items) value

-- s[++pos] = v
unfoldable pub push : Buffer → ℕ → Outcome Buffer
push s v =
    if leb ((length s.items + 1) * datum_size) s.bytes
    then ok (record s { items = s.items ++ (v ∷ []) })
    else fault

-- `if(set_contains_value(s, pos, v)) continue; s[++pos] = v;`
unfoldable pub add : Buffer → ℕ → Outcome Buffer
unfolding set_contains_value push
add s v = do found ← set_contains_value s v; if found then ok s else push s v

-- The unique non-NULL elements of an array, appended to the buffer.
unfoldable pub fill : Buffer → Array → Outcome Buffer
unfolding add
fill s [] = ok s
fill s (none ∷ vs) = fill s vs
fill s (some v ∷ vs) = do t ← add s v; fill t vs

-- construct_array(s, pos + 1, INT4OID, ...), which reads every entry
unfoldable pub construct_array : Buffer → Outcome Array
construct_array s =
    if leb (length s.items * datum_size) s.bytes then ok (map some s.items) else fault

abbrev pub Fits : Buffer → Type 0
Fits s = length s.items * datum_size ≤ s.bytes

-- The scan as a test, with no bound on the reads.
contains_below : List ℕ → ℕ → ℕ → Bool
contains_below xs zero v = false
contains_below xs (suc n) v = get_or xs n 0 == v || contains_below xs n v

contains_below-cons :
    (x : ℕ) (xs : List ℕ) (n v : ℕ)
    → contains_below (x ∷ xs) (suc n) v ≡ (x == v || contains_below xs n v)
unfolding contains_below
contains_below-cons x xs zero v = refl
contains_below-cons x xs (suc n) v = ground (arith, contains_below-cons x xs n v)

contains_below-length : (xs : List ℕ) (v : ℕ) → contains_below xs (length xs) v ≡ contains xs v
unfolding contains_below
contains_below-length [] v = refl
contains_below-length (x ∷ xs) v =
    contains_below-cons x xs (length xs) v ∙ ap (◌||◌ (x == v)) (contains_below-length xs v)

scan-contains_below :
    (s : Buffer) (n value : ℕ)
    → n * datum_size ≤ s.bytes
    → scan s n value ≡ ok (contains_below s.items n value)
unfolding scan read contains_below
scan-contains_below s zero value h = refl
scan-contains_below s (suc n) value h = ground (arith, scan-contains_below s n value)

pub set_contains_value-contains :
    (s : Buffer) (value : ℕ) → Fits s → set_contains_value s value ≡ ok (contains s.items value)
unfolding set_contains_value
set_contains_value-contains s value h =
    scan-contains_below s (length s.items) value h ∙ ap ok (contains_below-length s.items value)

scan_fault : (s : Buffer) (n value : ℕ) → s.bytes < n * datum_size → scan s n value ≡ fault
unfolding scan read
scan_fault s zero value h = absurd (omega arith)
scan_fault s (suc n) value h = rw (lt→leb_false ((n + 1) * 8) s.bytes (omega arith))

set_contains_value_fault :
    (s : Buffer) (value : ℕ)
    → s.bytes < length s.items * datum_size
    → set_contains_value s value ≡ fault
unfolding set_contains_value
set_contains_value_fault s value h = scan_fault s (length s.items) value h

pub add-add_one :
    (s : Buffer) (v : ℕ)
    → length (add_one s.items v) * datum_size ≤ s.bytes
    → length s.items ≤ length (add_one s.items v)
    → add s v ≡ ok (record s { items = add_one s.items v })
unfolding add push
add-add_one s v h k =
    rw (set_contains_value-contains s v (omega arith))
      (ground (arith, length-append s.items (v ∷ [])))

add_fault :
    (s : Buffer) (v : ℕ) → s.bytes < length (add_one s.items v) * datum_size → add s v ≡ fault
unfolding add push
add_fault s v h = elim (dec_le (length s.items * datum_size) s.bytes) [
  | yes fits ↦
      rw (set_contains_value-contains s v fits) (ground (arith, length-append s.items (v ∷ [])))
  | no over ↦ rw (set_contains_value_fault s v (omega arith))
]

-- With room for the outcome the loop gives the set union.
pub fill-add_all :
    (s : Buffer) (vs : Array)
    → length (add_all s.items vs) * datum_size ≤ s.bytes
    → fill s vs ≡ ok (record s { items = add_all s.items vs })
unfolding fill
fill-add_all s [] h = refl
fill-add_all s (none ∷ vs) h = fill-add_all s vs h
fill-add_all s (some v ∷ vs) h =
    rw
      (add-add_one s v (omega (arith, length-le-add_all (add_one s.items v) vs))
        (length-add_one s.items v).1)
      (fill-add_all (record s { items = add_one s.items v }) vs h)

-- Without it some access faults, at the latest when the array is built.
pub fill_fault :
    (s : Buffer) (vs : Array)
    → s.bytes < length (add_all s.items vs) * datum_size
    → (fill s vs >>= construct_array) ≡ fault
unfolding fill
fill_fault s [] h = unfold construct_array in rw (lt→leb_false (length s.items * 8) s.bytes h)
fill_fault s (none ∷ vs) h = fill_fault s vs h
fill_fault s (some v ∷ vs) h = elim (dec_le (length (add_one s.items v) * datum_size) s.bytes) [
  | yes fits ↦
      rw (add-add_one s v fits (length-add_one s.items v).1)
        (fill_fault (record s { items = add_one s.items v }) vs h)
  | no over ↦ rw (add_fault s v (omega arith))
]
