-- ===== src/Lookup/Safe.antt =====
-- What the three functions leave of the resolver's variables, and when they stay within their memory.
use yeti_pg_ext.Base.{Bytes, ℕ, ◌^◌, ◌<◌, none, some, ◌≡◌, ◌≢◌, refl, inl, inr, arith, Option-cases}
use yeti_pg_ext.Base.CString.{c_string-until_nul}
use yeti_pg_ext.Cache.Table.{HashTable}
use yeti_pg_ext.Cache.{Entry, Cache, read_response, response_memory, find, set_key_buf}
use yeti_pg_ext.Cache.Readable.{HasEnd}
use yeti_pg_ext.Cache.Laws.{IsReadableCache}
use yeti_pg_ext.Resolver.Answers.{IsFor}
use yeti_pg_ext.Resolver.Failover.{resolve-IsFor}
use yeti_pg_ext.Resolver.Resolve.{
  Call, Answer, answered, unanswered, raised, faulted, waiting, resolve,
}
use yeti_pg_ext.Resolver.Steady.{IsWell, AllFit, resolve-EndsWell}
use yeti_pg_ext.Lookup.{
  Ending, crashed, asking, mocked_with, cnam_result, tagged_result, error_row_result,
  lnp_resolve_cnam, lnp_resolve_tagged, lnp_resolve_tagged_with_error,
}

mocked_with-ne-crashed {ℓ} :
    {A : Type ℓ} (e : Entry) (on_error on_success : Bytes → A)
    → HasEnd e
    → mocked_with e on_error on_success ≢ crashed
unfolding mocked_with read_response
mocked_with-ne-crashed e on_error on_success h =
    rw (c_string-until_nul (response_memory e) h, mocked_with) (λ q. cc)

cnam_result-ne-crashed :
    (c : Call) (a : Answer) → IsFor c.req a → c.req.type ≡ 1 → a ≢ faulted → cnam_result a ≢ crashed
unfolding cnam_result
cnam_result-ne-crashed c (answered r) (_, _, has) t n = elim (Option-cases r.val) [
  | inl e ↦ absurd (ground arith)
  | inr (v, e) ↦ simp e (λ q. cc)
]
cnam_result-ne-crashed c (unanswered e) h t n = λ q. cc
cnam_result-ne-crashed c raised h t n = λ q. cc
cnam_result-ne-crashed c faulted h t n = absurd (n refl)
cnam_result-ne-crashed c waiting h t n = λ q. cc

tagged_result-ne-crashed : (a : Answer) → a ≢ faulted → tagged_result a ≢ crashed
unfolding tagged_result
tagged_result-ne-crashed (answered r) n = λ q. cc
tagged_result-ne-crashed (unanswered e) n = λ q. cc
tagged_result-ne-crashed raised n = λ q. cc
tagged_result-ne-crashed faulted n = absurd (n refl)
tagged_result-ne-crashed waiting n = λ q. cc

error_row_result-ne-crashed : (a : Answer) → a ≢ faulted → error_row_result a ≢ crashed
unfolding error_row_result
error_row_result-ne-crashed (answered r) n = λ q. cc
error_row_result-ne-crashed (unanswered e) n = λ q. cc
error_row_result-ne-crashed raised n = λ q. cc
error_row_result-ne-crashed faulted n = absurd (n refl)
error_row_result-ne-crashed waiting n = λ q. cc

module _ (H : HashTable Bytes Entry) where
  find-HasEnd :
      (cache : Cache H) (key : Bytes) (e : Entry)
      → IsReadableCache H cache
      → find H cache key ≡ some e
      → HasEnd e
  unfolding find
  find-HasEnd none key e r h = cc
  find-HasEnd (some t) key e r h = r (set_key_buf key) e h

  -- The variables are well behind a call, the endpoints are the same, and if the table is readable
  -- and the datagrams fit, the call has not left its memory.
  abbrev pub LookedUp {ℓ} : {A : Type ℓ} → Cache H → Call → Ending A × Call → Type ℓ
  LookedUp cache c (e, c') =
      IsWell c'.st
      × (c'.st.endpoints ≡ c.st.endpoints)
      × (IsReadableCache H cache → AllFit c.world.recvs → e ≢ crashed)

  pub lnp_resolve_cnam-LookedUp :
      (cache : Cache H) (c : Call) (db_id : ℕ) (payload : Bytes)
      → IsWell c.st
      → c.world.rand < 2 ^ 32
      → LookedUp cache c (lnp_resolve_cnam H cache c db_id payload)
  unfolding lnp_resolve_cnam
  lnp_resolve_cnam-LookedUp cache c db_id payload w r = elim (Option-cases (find H cache payload)) [
    | inl n ↦
        let asked = asking c 1 db_id payload in
        let (w', s, f) = resolve-EndsWell asked w r in
        let (k, t) = resolve-IsFor asked in
        rw (n, lnp_resolve_cnam)
          (w', s, λ rd d. cnam_result-ne-crashed (resolve asked).1 (resolve asked).0 k t (f d))
    | inr (e, s) ↦
        rw (s, lnp_resolve_cnam)
          (w, refl, λ rd d. mocked_with-ne-crashed e _ _ (find-HasEnd cache payload e rd s))
  ]

  pub lnp_resolve_tagged-LookedUp :
      (cache : Cache H) (c : Call) (db_id : ℕ) (payload : Bytes)
      → IsWell c.st
      → c.world.rand < 2 ^ 32
      → LookedUp cache c (lnp_resolve_tagged H cache c db_id payload)
  unfolding lnp_resolve_tagged
  lnp_resolve_tagged-LookedUp cache c db_id payload w r =
      elim (Option-cases (find H cache payload)) [
        | inl n ↦
            let asked = asking c 0 db_id payload in
            let (w', s, f) = resolve-EndsWell asked w r in
            rw (n, lnp_resolve_tagged)
              (w', s, λ rd d. tagged_result-ne-crashed (resolve asked).0 (f d))
        | inr (e, s) ↦
            rw (s, lnp_resolve_tagged)
              (w, refl, λ rd d. mocked_with-ne-crashed e _ _ (find-HasEnd cache payload e rd s))
      ]

  pub lnp_resolve_tagged_with_error-LookedUp :
      (cache : Cache H) (c : Call) (db_id : ℕ) (payload : Bytes)
      → IsWell c.st
      → c.world.rand < 2 ^ 32
      → LookedUp cache c (lnp_resolve_tagged_with_error H cache c db_id payload)
  unfolding lnp_resolve_tagged_with_error
  lnp_resolve_tagged_with_error-LookedUp cache c db_id payload w r =
      elim (Option-cases (find H cache payload)) [
        | inl n ↦
            let asked = asking c 0 db_id payload in
            let (w', s, f) = resolve-EndsWell asked w r in
            rw (n, lnp_resolve_tagged_with_error)
              (w', s, λ rd d. error_row_result-ne-crashed (resolve asked).0 (f d))
        | inr (e, s) ↦
            rw (s, lnp_resolve_tagged_with_error)
              (w, refl, λ rd d. mocked_with-ne-crashed e _ _ (find-HasEnd cache payload e rd s))
      ]
