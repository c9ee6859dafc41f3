-- ===== src/Lookup/Laws.antt =====
-- The three functions against the cache, against `resolve`, and against one another.
use yeti_pg_ext.Base.{
  Bytes, ℕ, is_some, Bool, false, Option, none, some, ◌≡◌, refl, ap, ◌∙◌, inl, inr, arith, ◌≤◌,
  length, if◌then◌else◌, Option-cases, Bool-cases,
}
use yeti_pg_ext.Base.Outcome.{Outcome-cases, ok}
use yeti_pg_ext.Base.CString.{has_nul}
use yeti_pg_ext.Cache.Table.{HashTable}
use yeti_pg_ext.Cache.{
  Entry, Cache, done, response_max_length, read_response, store, find, set_key_buf,
}
use yeti_pg_ext.Cache.Readable.{IsStorable, Bytes-discrete}
use yeti_pg_ext.Cache.Laws.{IsReadableCache, updated, find-store}
use yeti_pg_ext.Resolver.Message.{Request, Response}
use yeti_pg_ext.Resolver.Answers.{IsFor}
use yeti_pg_ext.Resolver.Failover.{resolve-IsFor}
use yeti_pg_ext.Resolver.Resolve.{
  Call, Answer, answered, unanswered, raised, faulted, waiting, resolve,
}
use yeti_pg_ext.Lookup.{
  Ending, gave, stopped, crashed, blocked, mocked, Row, ErrorRow, asking, mocked_with, cnam_result,
  tagged_result, error_row_result, lnp_resolve_cnam, lnp_resolve_tagged,
  lnp_resolve_tagged_with_error,
}

pub mocked_with_lem {ℓ} :
    {A : Type ℓ} (e : Entry) (s : Bytes) (is_error : Bool) (on_error on_success : Bytes → A)
    → read_response e ≡ ok s
    → e.is_error ≡ is_error
    → mocked_with e on_error on_success ≡ gave (if is_error then on_error s else on_success s)
unfolding mocked_with
mocked_with_lem e s is_error on_error on_success h k = simp (h, k, mocked_with)

module _ (H : HashTable Bytes Entry) where
  -- What a mocked answer is in each of the three functions.
  abbrev pub mocked_cnam : Bool → Bytes → Option Bytes
  mocked_cnam is_error s = if is_error then none else some s

  abbrev pub mocked_row : Bool → Bytes → Option Row
  mocked_row is_error s = if is_error then none else some (record { lrn = some s; tag = none })

  abbrev pub mocked_error_row : Bool → Bytes → ErrorRow
  mocked_error_row is_error s =
      if is_error
      then record { lrn = none; tag = none; error = some (mocked s) }
      else record { lrn = some s; tag = none; error = none }

  updated_self : (c : Cache H) (key : Bytes) (v : Option Entry) → updated H c key v key ≡ v
  updated_self c key v =
      elim (Bytes-discrete (set_key_buf key) (set_key_buf key))
        as (λ d. elim d [ yes _ ↦ v | no _ ↦ find H c key ] ≡ v) [
          | yes p ↦ refl
          | no n ↦ absurd (n refl)
        ]

  -- In a readable cache, once an answer that fits is stored for a payload, each of the three
  -- functions gives that answer for it, as a result or as an error, and nothing is sent: the
  -- resolver's variables and the network are as before.
  lookup-store :
      (cache : Cache H) (c : Call) (db_id : ℕ) (payload response : Bytes) (is_error : Bool)
      → IsReadableCache H cache
      → IsStorable response is_error
      → has_nul response ≡ false
      → length response ≤ response_max_length
      → (cache' : Cache H) × (store H cache payload response is_error ≡ ok (cache', done))
        × (lnp_resolve_cnam H cache' c db_id payload ≡ (gave (mocked_cnam is_error response), c))
        × (lnp_resolve_tagged H cache' c db_id payload ≡ (gave (mocked_row is_error response), c))
        × (lnp_resolve_tagged_with_error H cache' c db_id payload
            ≡ (gave (mocked_error_row is_error response), c))
  unfolding lnp_resolve_cnam lnp_resolve_tagged lnp_resolve_tagged_with_error
  lookup-store cache c db_id payload response is_error r s n l =
      let (cache', e, stored, text, flag, found, kept) =
        find-store H cache payload response is_error r s n l in
      let here : find H cache' payload ≡ some e =
        found payload ∙ updated_self cache payload (some e) in
      (
        cache',
        stored,
        rw (here, lnp_resolve_cnam) (rw (mocked_with_lem e response is_error _ _ text flag)),
        rw (here, lnp_resolve_tagged) (rw (mocked_with_lem e response is_error _ _ text flag)),
        rw (here, lnp_resolve_tagged_with_error)
            (rw (mocked_with_lem e response is_error _ _ text flag)),
      )

-- The row without its error: none at all where there is no number.
abbrev pub drop_error : Ending ErrorRow → Ending (Option Row)
drop_error (gave r) =
    gave (if is_some r.lrn then some (record { lrn = r.lrn; tag = r.tag }) else none)
drop_error stopped = stopped
drop_error crashed = crashed
drop_error blocked = blocked

drop_error-mocked_with :
    (e : Entry)
    → mocked_with e (λ s. none) (λ s. some (record { lrn = some s; tag = none }))
      ≡ drop_error (
          mocked_with e
            (λ s. record { lrn = none; tag = none; error = some (mocked s) })
            (λ s. record { lrn = some s; tag = none; error = none }))
unfolding mocked_with
drop_error-mocked_with e = elim (Outcome-cases (read_response e)) [
  | inl (s, h) ↦ elim (Bool-cases e.is_error) [
    | inl k ↦ simp (h, k, mocked_with)
    | inr k ↦ simp (h, k, mocked_with)
  ]
  | inr (inl h) ↦ simp (h, mocked_with)
  | inr (inr h) ↦ simp (h, mocked_with)
]

drop_error-error_row_result :
    (req : Request) (a : Answer)
    → IsFor req a
    → req.type ≡ 0
    → tagged_result a ≡ drop_error (error_row_result a)
unfolding tagged_result error_row_result
drop_error-error_row_result req (answered r) h t = elim (Option-cases r.val_1) [
  | inl e ↦ ground arith
  | inr (v, e) ↦ simp e
]
drop_error-error_row_result req (unanswered e) h t = refl
drop_error-error_row_result req raised h t = refl
drop_error-error_row_result req faulted h t = refl
drop_error-error_row_result req waiting h t = refl

module _ (H : HashTable Bytes Entry) where
  -- Whatever is cached and whatever the network does, `lnp_resolve_tagged` gives the row of
  -- `lnp_resolve_tagged_with_error` without its error, NULL where there is no number, and leaves
  -- the resolver and the network the same.
  pub lnp_resolve_tagged-drop_error :
      (cache : Cache H) (c : Call) (db_id : ℕ) (payload : Bytes)
      → lnp_resolve_tagged H cache c db_id payload ≡ (
        drop_error (lnp_resolve_tagged_with_error H cache c db_id payload).0,
        (lnp_resolve_tagged_with_error H cache c db_id payload).1,
      )
  unfolding lnp_resolve_tagged lnp_resolve_tagged_with_error
  lnp_resolve_tagged-drop_error cache c db_id payload = elim (Option-cases (find H cache payload)) [
    | inl n ↦
        let (h, t) = resolve-IsFor (asking c 0 db_id payload) in
        let same =
          drop_error-error_row_result (resolve (asking c 0 db_id payload)).1.req
            (resolve (asking c 0 db_id payload)).0 h t in
        rw (n, lnp_resolve_tagged, lnp_resolve_tagged_with_error)
          (ap (λ (r : Ending (Option Row)). (r, (resolve (asking c 0 db_id payload)).1)) same)
    | inr (e, s) ↦
        rw (s, lnp_resolve_tagged, lnp_resolve_tagged_with_error)
          (ap (λ (r : Ending (Option Row)). (r, c)) (drop_error-mocked_with e))
  ]

  -- Where nothing is cached for the payload and `resolve` gets an answer, `lnp_resolve_cnam` gives
  -- its text: an answer to a cnam request always has one.
  pub lnp_resolve_cnam-answered :
      (cache : Cache H) (c : Call) (db_id : ℕ) (payload : Bytes) (r : Response)
      → find H cache payload ≡ none
      → (resolve (asking c 1 db_id payload)).0 ≡ answered r
      → (text : Bytes) × (r.val ≡ some text)
        × ((lnp_resolve_cnam H cache c db_id payload).0 ≡ gave (some text))
  unfolding lnp_resolve_cnam cnam_result
  lnp_resolve_cnam-answered cache c db_id payload r n h =
      let (k, t) = resolve-IsFor (asking c 1 db_id payload) in
      let q : IsFor (resolve (asking c 1 db_id payload)).1.req (answered r) = rw h at k in
      elim (Option-cases r.val) [
        | inl e ↦ let (_, _, has) = q in absurd (ground arith)
        | inr (v, e) ↦ (v, e, rw (n, lnp_resolve_cnam) (rw h (simp e)))
      ]
