-- ===== src/Cache/Assoc.antt =====
-- A hash table as an association list, for concrete runs of the cache.
use yeti_pg_ext.Base.{
  List, [], ◌∷◌, Option, none, some, ◌≡◌, ◌≢◌, refl, sym, ◌∙◌, ◌≤◌, suc, arith, length,
}
use yeti_pg_ext.Cache.Table.{HashTable, AllPairs, IsFresh, IsKeyed}

module _ {K V : Type 0} (eq : Discrete K) where
  unfoldable lookup : K → List (K × V) → Option V
  lookup k [] = none
  lookup k ((j, v) ∷ rest) =
      let later = lookup k rest in elim (eq j k) [ yes _ ↦ some v | no _ ↦ later ]

  unfoldable without : K → List (K × V) → List (K × V)
  without k [] = []
  without k ((j, v) ∷ rest) =
      let later = without k rest in elim (eq j k) [ yes _ ↦ later | no _ ↦ (j, v) ∷ later ]

  lookup_here : (j k : K) (v : V) (rest : List (K × V)) → j ≡ k → lookup k ((j, v) ∷ rest) ≡ some v
  unfolding lookup
  lookup_here j k v rest p =
      elim (eq j k) as (λ d. elim d [ yes _ ↦ some v | no _ ↦ lookup k rest ] ≡ some v) [
        | yes _ ↦ refl
        | no n ↦ absurd (n p)
      ]

  lookup_there :
      (j k : K) (v : V) (rest : List (K × V)) → j ≢ k → lookup k ((j, v) ∷ rest) ≡ lookup k rest
  unfolding lookup
  lookup_there j k v rest n =
      elim (eq j k) as (λ d. elim d [ yes _ ↦ some v | no _ ↦ lookup k rest ] ≡ lookup k rest) [
        | yes p ↦ absurd (n p)
        | no _ ↦ refl
      ]

  without_here :
      (j k : K) (v : V) (rest : List (K × V)) → j ≡ k → without k ((j, v) ∷ rest) ≡ without k rest
  unfolding without
  without_here j k v rest p =
      elim (eq j k)
        as (λ d.
          elim d [ yes _ ↦ without k rest | no _ ↦ (j, v) ∷ without k rest ] ≡ without k rest) [
            | yes _ ↦ refl
            | no n ↦ absurd (n p)
          ]

  without_there :
      (j k : K) (v : V) (rest : List (K × V))
      → j ≢ k
      → without k ((j, v) ∷ rest) ≡ (j, v) ∷ without k rest
  unfolding without
  without_there j k v rest n =
      elim (eq j k)
        as (λ d.
          elim d [ yes _ ↦ without k rest | no _ ↦ (j, v) ∷ without k rest ]
          ≡ (j, v) ∷ without k rest) [ yes p ↦ absurd (n p) | no _ ↦ refl ]

  lookup-without_self : (k : K) (xs : List (K × V)) → lookup k (without k xs) ≡ none
  lookup-without_self k [] = unfold lookup without in refl
  lookup-without_self k ((j, v) ∷ rest) = elim (eq j k) [
    | yes p ↦ rw (without_here j k v rest p) (lookup-without_self k rest)
    | no n ↦
        rw (without_there j k v rest n, lookup_there j k v (without k rest) n)
          (lookup-without_self k rest)
  ]

  lookup-without_ne : (j k : K) (xs : List (K × V)) → k ≢ j → lookup j (without k xs) ≡ lookup j xs
  lookup-without_ne j k [] n = unfold lookup without in refl
  lookup-without_ne j k ((i, v) ∷ rest) n = elim (eq i k) [
    | yes p ↦
        rw (without_here i k v rest p, lookup_there i j v rest (λ q. n (sym p ∙ q)))
          (lookup-without_ne j k rest n)
    | no m ↦ rw (without_there i k v rest m) (elim (eq i j) [
      | yes q ↦ rw (lookup_here i j v (without k rest) q, lookup_here i j v rest q)
      | no o ↦
          rw (lookup_there i j v (without k rest) o, lookup_there i j v rest o)
            (lookup-without_ne j k rest n)
    ])
  ]

  lookup_fresh : (k : K) (xs : List (K × V)) → IsFresh k xs → lookup k xs ≡ none
  lookup_fresh k [] h = unfold lookup in refl
  lookup_fresh k ((j, v) ∷ rest) (n, h) = lookup_there j k v rest n ∙ lookup_fresh k rest h

  IsFresh-without_self : (k : K) (xs : List (K × V)) → IsFresh k (without k xs)
  IsFresh-without_self k [] = unfold without in tt
  IsFresh-without_self k ((j, v) ∷ rest) = elim (eq j k) [
    | yes p ↦ rw (without_here j k v rest p) (IsFresh-without_self k rest)
    | no n ↦ rw (without_there j k v rest n) (n, IsFresh-without_self k rest)
  ]

  IsFresh-without : (i k : K) (xs : List (K × V)) → IsFresh i xs → IsFresh i (without k xs)
  IsFresh-without i k [] h = unfold without in tt
  IsFresh-without i k ((j, v) ∷ rest) (m, h) = elim (eq j k) [
    | yes p ↦ rw (without_here j k v rest p) (IsFresh-without i k rest h)
    | no n ↦ rw (without_there j k v rest n) (m, IsFresh-without i k rest h)
  ]

  IsKeyed-without : (k : K) (xs : List (K × V)) → IsKeyed xs → IsKeyed (without k xs)
  IsKeyed-without k [] h = unfold without in tt
  IsKeyed-without k ((j, v) ∷ rest) (f, h) = elim (eq j k) [
    | yes p ↦ rw (without_here j k v rest p) (IsKeyed-without k rest h)
    | no n ↦ rw (without_there j k v rest n) (IsFresh-without j k rest f, IsKeyed-without k rest h)
  ]

  -- What is found in a list is found behind an entry under a key that the list lacks.
  found_behind :
      (j : K) (v : V) (xs ys : List (K × V))
      → IsFresh j ys
      → AllPairs (λ k w. lookup k xs ≡ some w) ys
      → AllPairs (λ k w. lookup k ((j, v) ∷ xs) ≡ some w) ys
  found_behind j v xs [] f h = tt
  found_behind j v xs ((k, w) ∷ rest) (n, f) (e, h) =
      (lookup_there j k v xs (λ q. n (sym q)) ∙ e, found_behind j v xs rest f h)

  found_all : (xs : List (K × V)) → IsKeyed xs → AllPairs (λ k w. lookup k xs ≡ some w) xs
  found_all [] h = tt
  found_all ((j, v) ∷ rest) (f, h) =
      (lookup_here j j v rest refl, found_behind j v rest rest f (found_all rest h))

  pub assoc : HashTable K V
  assoc = record {
    T = (xs : List (K × V)) × IsKeyed xs;
    create = ([], tt);
    search = λ k t. lookup k t.0;
    enter =
        λ k v t. ((k, v) ∷ without k t.0, (IsFresh-without_self k t.0, IsKeyed-without k t.0 t.1));
    delete = λ k t. (without k t.0, IsKeyed-without k t.0 t.1);
    entries = λ t. t.0;
    search-create = λ k. unfold lookup in refl;
    search-enter_self = λ k v t. lookup_here k k v (without k t.0) refl;
    search-enter_ne =
        λ j k v t n. lookup_there k j v (without k t.0) n ∙ lookup-without_ne j k t.0 n;
    search-delete_self = λ k t. lookup-without_self k t.0;
    search-delete_ne = λ j k t n. lookup-without_ne j k t.0 n;
    entries-search = λ t. found_all t.0 t.1;
    entries-keyed = λ t. t.1;
    search-fresh = λ k t f. lookup_fresh k t.0 f;
  }

  length-without-le : (k : K) (xs : List (K × V)) → length (without k xs) ≤ length xs
  length-without-le k [] = unfold without in omega arith
  length-without-le k ((j, v) ∷ rest) = elim (eq j k) [
    | yes p ↦ rw (without_here j k v rest p) (omega (arith, length-without-le k rest))
    | no n ↦ rw (without_there j k v rest n) (omega (arith, length-without-le k rest))
  ]

  -- An entry more at most.
  pub enter-grows :
      (k : K) (v : V) (t : assoc.T)
      → length (assoc.entries (assoc.enter k v t)) ≤ suc (length (assoc.entries t))
  unfolding assoc
  enter-grows k v t = omega (arith, length-without-le k t.0)

  pub entries-create : assoc.entries assoc.create ≡ []
  unfolding assoc
  entries-create = refl
