-- ===== src/Cache/Removal.antt =====
-- What is found behind a removal, of one key or of all.
use yeti_pg_ext.Base.{
  Bytes, List, [], ◌∷◌, Option, none, some, is_some, ◌≡◌, refl, sym, ap, ◌∙◌, inl, inr,
  Option-cases,
}
use yeti_pg_ext.Base.Outcome.{ok}
use yeti_pg_ext.Cache.Table.{HashTable, AllPairs, IsFresh, IsKeyed}
use yeti_pg_ext.Cache.Readable.{Bytes-discrete, print_elements-IsReadable, delete-IsReadable}
use yeti_pg_ext.Cache.Laws.{IsReadableCache, updated, updated_lem}
use yeti_pg_ext.Cache.{
  Cache, Entry, Status, done, failed, set_key_buf, find, remove, remove_each, after_scan,
  remove_all, destroy,
}

module _ (H : HashTable Bytes Entry) where
  abbrev pub status_of : Option Entry → Status
  status_of none = failed
  status_of (some e) = done

  -- In a readable table a removal succeeds exactly if the key is found; behind it no key that
  -- shares the entry is found, any other key has the answer that it had, there is a table if there
  -- was one, and it stays readable.
  pub find-remove :
      (c : Cache H) (key : Bytes)
      → IsReadableCache H c
      → (c' : Cache H) × (remove H c key ≡ ok (c', status_of (find H c key)))
        × ((j : Bytes) → find H c' j ≡ updated H c key none j)
        × (is_some c' ≡ is_some c)
        × IsReadableCache H c'
  unfolding find remove
  find-remove none key r =
      (none, refl, λ j. updated_lem H none none key none j (λ p. refl) (λ q. refl), refl, tt)
  find-remove (some t) key r = elim (Option-cases (H.search (set_key_buf key) t)) [
    | inl e ↦ (
      some t,
      rw (e, remove),
      λ j.
          updated_lem H (some t) (some t) key none j (λ p. ap (λ k. H.search k t) (sym p) ∙ e)
            (λ q. refl),
      refl,
      r,
    )
    | inr (v, e) ↦
        let r' = delete-IsReadable H t (set_key_buf key) r in
        (
          some (H.delete (set_key_buf key) t),
          rw (e, remove) (rw (print_elements-IsReadable H (H.delete (set_key_buf key) t) r')),
          λ j.
              updated_lem H (some t) (some (H.delete (set_key_buf key) t)) key none j
                (λ p.
                  ap (λ k. H.search k (H.delete (set_key_buf key) t)) (sym p)
                  ∙ H.search-delete_self (set_key_buf key) t)
                (λ q. H.search-delete_ne (set_key_buf j) (set_key_buf key) t q),
          refl,
          r',
        )
  ]

  -- What the scan has still to remove: entries of the table under distinct keys, outside of which
  -- nothing is found.
  record IsPending (xs : List (Bytes × Entry)) (t : H.T) : Type 0 where
    found : AllPairs (λ k e. H.search k t ≡ some e) xs
    keyed : IsKeyed xs
    rest_none : (k : Bytes) → IsFresh k xs → H.search k t ≡ none

  found_after :
      (k : Bytes) (xs : List (Bytes × Entry)) (t : H.T)
      → IsFresh k xs
      → AllPairs (λ j e. H.search j t ≡ some e) xs
      → AllPairs (λ j e. H.search j (H.delete k t) ≡ some e) xs
  found_after k [] t f h = tt
  found_after k ((j, e) ∷ rest) t (q, f) (s, later) =
      (H.search-delete_ne j k t (λ p. q (sym p)) ∙ s, found_after k rest t f later)

  IsPending-delete :
      (k : Bytes) (e : Entry) (xs : List (Bytes × Entry)) (t : H.T)
      → IsPending ((k, e) ∷ xs) t
      → IsPending xs (H.delete k t)
  IsPending-delete k e xs t p = record {
    found = found_after k xs t p.keyed.0 p.found.1;
    keyed = p.keyed.1;
    rest_none = λ j f. elim (Bytes-discrete k j) [
      | yes q ↦ rw (← q) (H.search-delete_self k t)
      | no q ↦ H.search-delete_ne j k t q ∙ p.rest_none j (q, f)
    ];
  }

  remove_each_lem :
      (xs : List (Bytes × Entry)) (t : H.T)
      → IsPending xs t
      → (t' : H.T) × (remove_each H xs t ≡ (t', done)) × ((k : Bytes) → H.search k t' ≡ none)
  unfolding remove_each
  remove_each_lem [] t p = (t, refl, λ k. p.rest_none k tt)
  remove_each_lem ((k, e) ∷ xs) t p =
      let (t', r, n) = remove_each_lem xs (H.delete k t) (IsPending-delete k e xs t p) in
      (t', rw (p.found.0, remove_each) r, n)

  -- With a table, whatever it holds, `__ec_remove_all` succeeds, and then no key is found, in a
  -- readable table.
  pub find-remove_all :
      (t : H.T)
      → (t' : H.T) × (remove_all H (some t) ≡ ok (some t', done))
        × ((j : Bytes) → find H (some t') j ≡ none)
        × IsReadableCache H (some t')
  unfolding find remove_all after_scan
  find-remove_all t =
      let (t', r, n) = remove_each_lem (H.entries t) t (record {
        found = H.entries-search t;
        keyed = H.entries-keyed t;
        rest_none = λ k f. H.search-fresh k t f;
      }) in
      (
        t',
        rw r (rw (print_elements-IsReadable H t' (λ k e s. cc (n k, s)))),
        λ j. n (set_key_buf j),
        λ k e s. cc (n k, s),
      )

  -- With a table, whatever it holds, `__ec_destroy` succeeds and leaves none; then no key is found
  -- and a removal fails.
  pub destroy-none :
      (t : H.T) (key : Bytes)
      → (c : Cache H) × (destroy H (some t) ≡ ok (c, done))
        × (find H c key ≡ none)
        × (remove H c key ≡ ok (c, failed))
  unfolding destroy find remove
  destroy-none t key = let (t', r, n, i) = find-remove_all t in (none, rw r, refl, refl)
