-- ===== src/Tags/Sets.antt =====
-- Duplicate-free lists of tags, the mathematics behind src/f_tag_action.c and src/f_tag_compare.c.
-- An int4 array is a list whose NULL elements are `none`; a tag is its 32-bit pattern.
use yeti_pg_ext.Base.{
  ℕ, suc, ◌+◌, ◌≤◌, Bool, true, false, ◌||◌, List, [], ◌∷◌, ◌++◌, Option, none, some, ◌≡◌, refl,
  inl, inr, arith, ◌==◌, ==_iff, if◌then◌else◌, Bool-cases, length, length-append,
}

abbrev pub Array : Type 0
Array = List (Option ℕ)

abbrev pub contains : List ℕ → ℕ → Bool
contains [] v = false
contains (x ∷ xs) v = x == v || contains xs v

-- Membership in an array, its NULL elements left aside.
abbrev pub has : Array → ℕ → Bool
has [] v = false
has (none ∷ xs) v = has xs v
has (some x ∷ xs) v = x == v || has xs v

abbrev pub IsDistinct : List ℕ → Type 0
IsDistinct [] = Unit {0}
IsDistinct (x ∷ xs) = (contains xs x ≡ false) × IsDistinct xs

abbrev pub add_one : List ℕ → ℕ → List ℕ
add_one xs v = if contains xs v then xs else xs ++ (v ∷ [])

abbrev pub add_all : List ℕ → Array → List ℕ
add_all xs [] = xs
add_all xs (none ∷ vs) = add_all xs vs
add_all xs (some v ∷ vs) = add_all (add_one xs v) vs

pub contains-append :
    (xs ys : List ℕ) (v : ℕ) → contains (xs ++ ys) v ≡ (contains xs v || contains ys v)
contains-append [] ys v = refl
contains-append (x ∷ xs) ys v = ground (arith, contains-append xs ys v)

contains-add_one : (xs : List ℕ) (v x : ℕ) → contains (add_one xs v) x ≡ (contains xs x || v == x)
contains-add_one xs v x = ground (arith, contains-append xs (v ∷ []) x)

pub contains-add_all :
    (xs : List ℕ) (vs : Array) (x : ℕ) → contains (add_all xs vs) x ≡ (contains xs x || has vs x)
contains-add_all xs [] x = ground arith
contains-add_all xs (none ∷ vs) x = contains-add_all xs vs x
contains-add_all xs (some v ∷ vs) x =
    ground (arith, contains-add_all (add_one xs v) vs x, contains-add_one xs v x)

pub IsDistinct-snoc :
    (xs : List ℕ) (v : ℕ) → IsDistinct xs → contains xs v ≡ false → IsDistinct (xs ++ (v ∷ []))
IsDistinct-snoc [] v d h = (refl, tt)
IsDistinct-snoc (x ∷ xs) v d h =
    (ground (arith, contains-append xs (v ∷ []) x), IsDistinct-snoc xs v d.1 (ground arith))

IsDistinct-add_one : (xs : List ℕ) (v : ℕ) → IsDistinct xs → IsDistinct (add_one xs v)
IsDistinct-add_one xs v d = ground (arith, IsDistinct-snoc xs v d)

pub IsDistinct-add_all : (xs : List ℕ) (vs : Array) → IsDistinct xs → IsDistinct (add_all xs vs)
IsDistinct-add_all xs [] d = d
IsDistinct-add_all xs (none ∷ vs) d = IsDistinct-add_all xs vs d
IsDistinct-add_all xs (some v ∷ vs) d =
    IsDistinct-add_all (add_one xs v) vs (IsDistinct-add_one xs v d)

pub length-add_one :
    (xs : List ℕ) (v : ℕ)
    → (length (add_one xs v) ≤ length xs + 1) × (length xs ≤ length (add_one xs v))
length-add_one xs v = ground (arith, length-append xs (v ∷ []))

pub length-add_all : (xs : List ℕ) (vs : Array) → length (add_all xs vs) ≤ length xs + length vs
length-add_all xs [] = omega arith
length-add_all xs (none ∷ vs) = omega (arith, length-add_all xs vs)
length-add_all xs (some v ∷ vs) =
    omega (arith, length-add_all (add_one xs v) vs, length-add_one xs v)

pub length-le-add_all : (xs : List ℕ) (vs : Array) → length xs ≤ length (add_all xs vs)
length-le-add_all xs [] = omega arith
length-le-add_all xs (none ∷ vs) = length-le-add_all xs vs
length-le-add_all xs (some v ∷ vs) =
    omega (arith, length-le-add_all (add_one xs v) vs, length-add_one xs v)

-- One occurrence of `v` taken out.
remove : List ℕ → ℕ → List ℕ
remove [] v = []
remove (x ∷ xs) v = if x == v then xs else x ∷ remove xs v

length-remove :
    (xs : List ℕ) (v : ℕ) → contains xs v ≡ true → suc (length (remove xs v)) ≡ length xs
unfolding remove
length-remove [] v h = cc
length-remove (x ∷ xs) v h = ground (arith, length-remove xs v)

contains-remove_ne :
    (xs : List ℕ) (v y : ℕ)
    → (v == y) ≡ false
    → contains xs y ≡ true
    → contains (remove xs v) y ≡ true
unfolding remove
contains-remove_ne [] v y n h = cc
contains-remove_ne (x ∷ xs) v y n h = ground (arith, contains-remove_ne xs v y)

abbrev pub Subset : List ℕ → List ℕ → Type 0
Subset xs ys = (x : ℕ) → contains xs x ≡ true → contains ys x ≡ true

-- The pigeonhole principle.
pub length-le_of_Subset : (xs ys : List ℕ) → IsDistinct xs → Subset xs ys → length xs ≤ length ys
length-le_of_Subset [] ys d s = omega arith
length-le_of_Subset (x ∷ xs) ys d s = omega (
  arith,
  length-remove ys x (s x (ground arith)),
  length-le_of_Subset xs (remove ys x) d.1
      (λ y h. contains-remove_ne ys x y (apart y h) (s y (ground arith))),
)
  where
    apart : (y : ℕ) → contains xs y ≡ true → (x == y) ≡ false
    apart y h = elim (Bool-cases (x == y)) [
      | inl e ↦ absurd (unequal ((==_iff x y).0 e) h)
      | inr e ↦ e
    ]
      where
        unequal : x ≡ y → contains xs y ≡ true → ⊥
        unequal e k = cc (rw (← e) at k, d.0)

-- A duplicate-free subset of the same size is the whole set.
pub Subset_of_length :
    (xs ys : List ℕ)
    → IsDistinct ys
    → Subset ys xs
    → length xs ≡ length ys
    → IsDistinct xs
    → Subset xs ys
Subset_of_length xs ys dy s e dx x h = elim (Bool-cases (contains ys x)) [
  | inl i ↦ i
  | inr o ↦ absurd (
      omega (
        arith,
        length-le_of_Subset (x ∷ ys) xs (o, dy)
            (λ y k. elim (Bool-cases (x == y)) [
              | inl q ↦ rw (← (==_iff x y).0 q) h
              | inr q ↦ s y (ground arith)
            ]),
      ))
]
