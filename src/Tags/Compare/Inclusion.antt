-- ===== src/Tags/Compare/Inclusion.antt =====
-- The last loop of `tag_compare` as inclusion of sets, and the test on the sizes.
use yeti_pg_ext.Base.{
  ℕ, zero, suc, ◌+◌, ◌*◌, ◌≤◌, Bool, true, ◌&&◌, List, [], ◌∷◌, none, some, ◌≡◌, refl, ap, ◌∙◌, inl,
  inr, arith, le→leb, Bool-cases, length, get_or, ◌++◌, ◌==◌, ==_iff,
}
use yeti_pg_ext.Base.Outcome.{ok}
use yeti_pg_ext.Tags.Sets.{
  Array, contains, Subset, add_one, add_all, has, IsDistinct, contains-add_all, IsDistinct-add_all,
  length-le_of_Subset, Subset_of_length,
}
use yeti_pg_ext.Tags.Buffer.{datum_size, Buffer, Fits, read, set_contains_value-contains}
use yeti_pg_ext.Tags.Compare.{check_a}
use mathlib.Core.Path.{fun_ext}
use yeti_pg_ext.Tags.Compare.Loops.{all_of}

-- Every element of the first list is in the second.
abbrev pub included : List ℕ → List ℕ → Bool
included [] ys = true
included (x ∷ xs) ys = contains ys x && included xs ys

included→Subset : (xs ys : List ℕ) → included xs ys ≡ true → Subset xs ys
included→Subset [] ys h x k = cc
included→Subset (a ∷ xs) ys h x k = ground (arith, included→Subset xs ys (ground arith) x)

Subset→included : (xs ys : List ℕ) → Subset xs ys → included xs ys ≡ true
Subset→included [] ys s = refl
Subset→included (a ∷ xs) ys s =
    rw (s a (ground arith)) (Subset→included xs ys (λ x k. s x (ground arith)))

included_below : List ℕ → List ℕ → ℕ → Bool
included_below xs ys zero = true
included_below xs ys (suc n) = contains ys (get_or xs n 0) && included_below xs ys n

included_below-cons :
    (x : ℕ) (xs ys : List ℕ) (n : ℕ)
    → included_below (x ∷ xs) ys (suc n) ≡ (contains ys x && included_below xs ys n)
unfolding included_below
included_below-cons x xs ys zero = refl
included_below-cons x xs ys (suc n) = ground (arith, included_below-cons x xs ys n)

included_below-length : (xs ys : List ℕ) → included_below xs ys (length xs) ≡ included xs ys
unfolding included_below
included_below-length [] ys = refl
included_below-length (x ∷ xs) ys =
    included_below-cons x xs ys (length xs)
    ∙ ap (◌&&◌ (contains ys x)) (included_below-length xs ys)

check_a_below :
    (aset bset : Buffer) (n : ℕ)
    → Fits bset
    → n * datum_size ≤ aset.bytes
    → check_a aset bset n ≡ ok (included_below aset.items bset.items n)
unfolding check_a read included_below
check_a_below aset bset zero f h = refl
check_a_below aset bset (suc n) f h = rw (le→leb ((n + 1) * 8) aset.bytes (omega arith)) (
    rw (set_contains_value-contains bset (get_or aset.items n 0) f)
      (elim (Bool-cases (contains bset.items (get_or aset.items n 0))) [
        | inl e ↦ rw e (check_a_below aset bset n f (omega arith))
        | inr e ↦ rw e
      ]))

pub check_a-included :
    (aset bset : Buffer)
    → Fits aset
    → Fits bset
    → check_a aset bset (length aset.items) ≡ ok (included aset.items bset.items)
check_a-included aset bset fa fb =
    check_a_below aset bset (length aset.items) fb fa
    ∙ ap ok (included_below-length aset.items bset.items)

-- Every tag of the first array is in the second.
abbrev pub tags_in : Array → Array → Bool
tags_in xs ys = all_of (has ys) xs

abbrev pub tags : Array → List ℕ
tags = add_all []

pub contains-tags : (a : Array) → contains (tags a) ≡ has a
contains-tags a = fun_ext (contains-add_all [] a)

included-append : (xs ys zs : List ℕ) → included (xs ++ ys) zs ≡ (included xs zs && included ys zs)
included-append [] ys zs = refl
included-append (x ∷ xs) ys zs = ground (arith, included-append xs ys zs)

included_of_contains :
    (xs ys : List ℕ) (v : ℕ) → included xs ys ≡ true → contains xs v ≡ true → contains ys v ≡ true
included_of_contains xs ys v h = included→Subset xs ys h v

included-add_all :
    (xs ys : List ℕ) (vs : Array)
    → included (add_all xs vs) ys ≡ (included xs ys && all_of (contains ys) vs)
included-add_all xs ys [] = ground arith
included-add_all xs ys (none ∷ vs) = included-add_all xs ys vs
included-add_all xs ys (some v ∷ vs) = ground (
  arith,
  included-add_all (add_one xs v) ys vs,
  included-append xs (v ∷ []) ys,
  included_of_contains xs ys v,
)

pub included-tags : (a b : Array) → included (tags a) (tags b) ≡ tags_in a b
included-tags a b = included-add_all [] (tags b) a ∙ ap (λ p. all_of p a) (contains-tags b)

tags-IsDistinct : (a : Array) → IsDistinct (tags a)
tags-IsDistinct a = IsDistinct-add_all [] a tt

-- `apos == bpos` tells equal sets, once every tag of `b` is known to be in `a`.
pub same_length :
    (a b : Array) → tags_in b a ≡ true → (length (tags a) == length (tags b)) ≡ tags_in a b
same_length a b h = elim (Bool-cases (tags_in a b)) [
  | inl e ↦ rw e (
      (==_iff _ _).1 (
        omega (
          arith,
          length-le_of_Subset (tags a) (tags b) (tags-IsDistinct a)
              (included→Subset _ _ (included-tags a b ∙ e)),
          length-le_of_Subset (tags b) (tags a) (tags-IsDistinct b) smaller,
        )))
  | inr e ↦ elim (Bool-cases (length (tags a) == length (tags b))) [
    | inl q ↦
        let all = Subset→included (tags a) (tags b) (
          Subset_of_length (tags a) (tags b) (tags-IsDistinct b) smaller ((==_iff _ _).0 q)
            (tags-IsDistinct a)) in
        cc (all, included-tags a b)
    | inr q ↦ rw (q, e)
  ]
]
  where
    smaller : Subset (tags b) (tags a)
    smaller = included→Subset _ _ (included-tags b a ∙ h)
