-- ===== src/Cache/Table.antt =====
-- PostgreSQL's dynahash as src/endpoints_cache.c relies on it.
use yeti_pg_ext.Base.{List, [], ◌∷◌, Option, none, some, ◌≡◌, ◌≢◌}

-- Every key and value of the list is in the relation.
abbrev pub AllPairs {ℓ κ μ} : {K : Type ℓ} {V : Type κ} → (K → V → Type μ) → List (K × V) → Type μ
AllPairs P [] = Unit
AllPairs P ((k, v) ∷ rest) = P k v × AllPairs P rest

-- No key of the list is `k`.
abbrev pub IsFresh {ℓ κ} : {K : Type ℓ} {V : Type κ} → K → List (K × V) → Type ℓ
IsFresh k [] = Unit
IsFresh k ((j, v) ∷ rest) = (j ≢ k) × IsFresh k rest

abbrev pub IsKeyed {ℓ κ} : {K : Type ℓ} {V : Type κ} → List (K × V) → Type ℓ
IsKeyed [] = Unit
IsKeyed ((k, v) ∷ rest) = IsFresh k rest × IsKeyed rest

-- hash_create, and hash_search with HASH_FIND, HASH_ENTER (and the entry then written) and
-- HASH_REMOVE; `entries` is what hash_seq_search goes through, each key once.
pub record HashTable (K : Type 0) (V : Type 0) : Type 1 where
  pub T : Type 0
  pub create : T
  pub search : K → T → Option V
  pub enter : K → V → T → T
  pub delete : K → T → T
  pub entries : T → List (K × V)
  pub search-create : (k : K) → search k create ≡ none
  pub search-enter_self : (k : K) (v : V) (t : T) → search k (enter k v t) ≡ some v
  pub search-enter_ne : (j k : K) (v : V) (t : T) → k ≢ j → search j (enter k v t) ≡ search j t
  pub search-delete_self : (k : K) (t : T) → search k (delete k t) ≡ none
  pub search-delete_ne : (j k : K) (t : T) → k ≢ j → search j (delete k t) ≡ search j t
  pub entries-search : (t : T) → AllPairs (λ k v. search k t ≡ some v) (entries t)
  pub entries-keyed : (t : T) → IsKeyed (entries t)
  pub search-fresh : (k : K) (t : T) → IsFresh k (entries t) → search k t ≡ none
