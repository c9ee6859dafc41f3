-- ===== src/Cache/Alive.antt =====
-- The table behind lnp_endpoints_cache_set, where the process is still alive.
use yeti_pg_ext.Base.{Bytes, Bool, some, ◌≡◌, ◌≢◌, subst, sym, refl, ◌∙◌, inl, inr, Bool-cases}
use yeti_pg_ext.Base.Outcome.{ok, fault, >>=-eq-ok}
use yeti_pg_ext.Cache.Table.{HashTable}
use yeti_pg_ext.Base.CString.{has_nul}
use yeti_pg_ext.Cache.Readable.{
  IsReadable, IsStorable, make_entry-HasEnd, print_elements-IsReadable, print_elements_fault,
  enter-IsReadable,
}
use yeti_pg_ext.Cache.Laws.{IsReadableCache, table_of, table_of-IsReadable, store_lem}
use yeti_pg_ext.Cache.{
  Cache, Entry, set_key_buf, make_entry, response_memory, print_elements, store,
  lnp_endpoints_cache_set,
}

module _ (H : HashTable Bytes Entry) where
  -- A table that is printed with no access out of bounds is readable.
  printed-IsReadable : (t : H.T) → print_elements H (some t) ≢ fault → IsReadable H t
  printed-IsReadable t n k e s = elim (Bool-cases (has_nul (response_memory e))) [
    | inl h ↦ h
    | inr h ↦ absurd (n (print_elements_fault H t k e s h))
  ]

  abbrev stored : Cache H → Bytes → Bytes → Bool → H.T
  stored cache key response is_error =
      H.enter (set_key_buf key) (make_entry response is_error) (table_of H cache)

  -- Whatever was stored: behind a call that ends the table is readable.
  pub lnp_endpoints_cache_set-alive :
      (cache cache' : Cache H) (key response : Bytes) (is_error : Bool)
      → lnp_endpoints_cache_set H cache key response is_error ≡ ok cache'
      → IsReadableCache H cache'
  unfolding lnp_endpoints_cache_set
  lnp_endpoints_cache_set-alive cache cache' key response is_error h =
      let t = stored cache key response is_error in
      let (r, e, w) = >>=-eq-ok _ (store H cache key response is_error) h in
      let (s, p, q) =
        >>=-eq-ok _ (print_elements H (some t))
          (sym (store_lem H cache key response is_error) ∙ e) in
      let same : some t ≡ cache' = cc in
      subst (IsReadableCache H) same (printed-IsReadable t (λ f. cc))

  -- A readable table takes every answer that is storable.
  pub lnp_endpoints_cache_set-ok :
      (cache : Cache H) (key response : Bytes) (is_error : Bool)
      → IsReadableCache H cache
      → IsStorable response is_error
      → (cache' : Cache H) × (lnp_endpoints_cache_set H cache key response is_error ≡ ok cache')
  unfolding lnp_endpoints_cache_set
  lnp_endpoints_cache_set-ok cache key response is_error r s =
      let t = stored cache key response is_error in
      let r' =
        enter-IsReadable H (table_of H cache) (set_key_buf key) (make_entry response is_error)
          (table_of-IsReadable H cache r) (make_entry-HasEnd response is_error s) in
      (
        some t,
        rw (store_lem H cache key response is_error) (rw (print_elements-IsReadable H t r') refl),
      )
