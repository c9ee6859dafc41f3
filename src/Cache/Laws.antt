-- ===== src/Cache/Laws.antt =====
-- The cache as a map from keys to answers.
use yeti_pg_ext.Base.{
  Bytes, ℕ, zero, suc, ◌-◌, ◌≤◌, Bool, true, false, [], ◌∷◌, ◌++◌, Option, none, some, ◌≡◌, ◌≢◌,
  refl, sym, ap, ◌∙◌, arith, length, min, replicate,
}
use yeti_pg_ext.Base.CString.{has_nul, strncpy_fits}
use yeti_pg_ext.Base.Outcome.{ok, fault, ◌>>=◌}
use yeti_pg_ext.Cache.Table.{HashTable}
use yeti_pg_ext.Cache.Readable.{
  Bytes-discrete, IsReadable, IsStorable, make_entry-HasEnd, make_entry_no_end,
  read_response-make_entry, print_elements-IsReadable, print_elements_fault, enter-IsReadable,
}
use yeti_pg_ext.Cache.{
  Cache, Entry, done, key_max_length, response_max_length, set_key_buf, make_entry, read_response,
  init, store, find, print_elements,
}

-- Keys of at most 256 bytes with no NUL in them.
abbrev pub IsKey : Bytes → Type 0
IsKey k = (has_nul k ≡ false) × (length k ≤ key_max_length)

pad_injective :
    (j k : Bytes) (m n : ℕ)
    → has_nul j ≡ false
    → has_nul k ≡ false
    → j ++ replicate m 0 ≡ k ++ replicate n 0
    → j ≡ k
pad_injective [] [] m n hj hk e = refl
pad_injective [] (b ∷ k) zero n hj hk e = cc
pad_injective [] (b ∷ k) (suc m) n hj hk e = ground arith
pad_injective (a ∷ j) [] m zero hj hk e = cc
pad_injective (a ∷ j) [] m (suc n) hj hk e = ground arith
pad_injective (a ∷ j) (b ∷ k) m n hj hk e =
    ground (arith, pad_injective j k m n (ground arith) (ground arith) (ground arith))

-- Two keys of at most 256 bytes with no NUL in them share an entry only if they are one.
pub set_key_buf_injective :
    (j k : Bytes) → IsKey j → IsKey k → set_key_buf j ≡ set_key_buf k → j ≡ k
unfolding set_key_buf
set_key_buf_injective j k (hj, lj) (hk, lk) e =
    pad_injective j k (256 - length j) (256 - length k) hj hk (
      sym (strncpy_fits 256 (min (length j) 256) j hj (omega arith))
      ∙ e
      ∙ strncpy_fits 256 (min (length k) 256) k hk (omega arith))

module _ (H : HashTable Bytes Entry) where
  abbrev pub IsReadableCache : Cache H → Type 0
  IsReadableCache none = Unit {0}
  IsReadableCache (some t) = IsReadable H t

  -- The table that a call works on, a new one if there was none.
  abbrev pub table_of : Cache H → H.T
  table_of none = H.create
  table_of (some t) = t

  pub table_of-IsReadable : (c : Cache H) → IsReadableCache c → IsReadable H (table_of c)
  table_of-IsReadable none r k e s = cc (H.search-create k)
  table_of-IsReadable (some t) r k e s = r k e s

  pub store_lem :
      (c : Cache H) (key response : Bytes) (is_error : Bool)
      → store H c key response is_error ≡ (
          print_elements H
            (some (H.enter (set_key_buf key) (make_entry response is_error) (table_of c)))
          >>= λ _.
              ok (
                some (H.enter (set_key_buf key) (make_entry response is_error) (table_of c)),
                done,
              ))
  unfolding store init
  store_lem none key response is_error = refl
  store_lem (some t) key response is_error = refl

  find-table_of : (c : Cache H) (j : Bytes) → find H c j ≡ H.search (set_key_buf j) (table_of c)
  unfolding find
  find-table_of none j = sym (H.search-create (set_key_buf j))
  find-table_of (some t) j = refl

  -- What `find` gives when the keys that share the entry of `key` have `v`, and the rest is as
  -- in `c`.
  abbrev pub updated : Cache H → Bytes → Option Entry → Bytes → Option Entry
  updated c key v j = elim (Bytes-discrete (set_key_buf key) (set_key_buf j)) [
    | yes _ ↦ v
    | no _ ↦ find H c j
  ]

  pub updated_lem :
      (c c' : Cache H) (key : Bytes) (v : Option Entry) (j : Bytes)
      → (set_key_buf key ≡ set_key_buf j → find H c' j ≡ v)
      → (set_key_buf key ≢ set_key_buf j → find H c' j ≡ find H c j)
      → find H c' j ≡ updated c key v j
  updated_lem c c' key v j same other =
      elim (Bytes-discrete (set_key_buf key) (set_key_buf j))
        as (λ d. find H c' j ≡ elim d [ yes _ ↦ v | no _ ↦ find H c j ]) [
          | yes p ↦ same p
          | no n ↦ other n
        ]

  -- In a readable table an answer of at most 2048 bytes with no NUL, and of less with the error
  -- flag, is stored: `find` then gives it under every key that shares the entry, with the text and
  -- the flag that were given; under any other key it gives what it gave before, and the table
  -- stays readable.
  pub find-store :
      (c : Cache H) (key response : Bytes) (is_error : Bool)
      → IsReadableCache c
      → IsStorable response is_error
      → has_nul response ≡ false
      → length response ≤ response_max_length
      → (c' : Cache H) × (e : Entry) × (store H c key response is_error ≡ ok (c', done))
        × (read_response e ≡ ok response)
        × (e.is_error ≡ is_error)
        × ((j : Bytes) → find H c' j ≡ updated c key (some e) j)
        × IsReadableCache c'
  unfolding find make_entry
  find-store c key response is_error r h n k =
      let e = make_entry response is_error in
      let t = H.enter (set_key_buf key) e (table_of c) in
      let r' =
        enter-IsReadable H (table_of c) (set_key_buf key) e (table_of-IsReadable c r)
          (make_entry-HasEnd response is_error h) in
      (
        some t,
        e,
        store_lem c key response is_error ∙ rw (print_elements-IsReadable H t r'),
        read_response-make_entry response is_error h n k,
        refl,
        λ j.
            updated_lem c (some t) key (some e) j
              (λ p.
                ap (λ k. H.search k t) (sym p)
                ∙ H.search-enter_self (set_key_buf key) e (table_of c))
              (λ q.
                H.search-enter_ne (set_key_buf j) (set_key_buf key) e (table_of c) q
                ∙ sym (find-table_of c j)),
        r',
      )

  -- An answer of 2048 bytes or more with the error flag and no NUL is printed past the end of its entry.
  pub store_fault :
      (c : Cache H) (key response : Bytes)
      → has_nul response ≡ false
      → response_max_length ≤ length response
      → store H c key response true ≡ fault
  store_fault c key response n k =
      let e = make_entry response true in
      let t = H.enter (set_key_buf key) e (table_of c) in
      store_lem c key response true
      ∙ rw (
          print_elements_fault H t (set_key_buf key) e
            (H.search-enter_self (set_key_buf key) e (table_of c)) (make_entry_no_end response n k))
