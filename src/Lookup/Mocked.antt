-- ===== src/Lookup/Mocked.antt =====
-- The three functions over a cache that holds what a map does.
use yeti_pg_ext.Base.{Bytes, ℕ, Bool, Option, none, some, ◌≡◌, refl, if◌then◌else◌}
use yeti_pg_ext.Base.Outcome.{ok, >>=-eq-ok}
use yeti_pg_ext.Cache.Table.{HashTable}
use yeti_pg_ext.Cache.{Entry, Cache, read_response, find}
use yeti_pg_ext.Cache.Laws.{IsKey}
use yeti_pg_ext.Cache.Contents.{Contents, read_answer, Holds}
use yeti_pg_ext.Resolver.Resolve.{Call, resolve}
use yeti_pg_ext.Lookup.{
  Ending, gave, asking, mocked_with, cnam_result, tagged_result, error_row_result, lnp_resolve_cnam,
  lnp_resolve_tagged, lnp_resolve_tagged_with_error,
}
use yeti_pg_ext.Lookup.Laws.{mocked_with_lem, mocked_cnam, mocked_row, mocked_error_row}

-- The mocked answer if there is one, else what the network gives.
abbrev pub mocked_or {ℓ} : {B : Type ℓ} → Option (Bytes × Bool) → (Bool → Bytes → B) → B → B
mocked_or none f b = b
mocked_or (some (s, is_error)) f b = f is_error s

read_answer-none : (e : Option Entry) → read_answer e ≡ ok none → e ≡ none
read_answer-none none h = refl
read_answer-none (some e) h =
    let (s, r, p) = >>=-eq-ok (λ s. ok (some (s, e.is_error))) (read_response e) h in cc

read_answer-some :
    (o : Option Entry) (s : Bytes) (is_error : Bool)
    → read_answer o ≡ ok (some (s, is_error))
    → (e : Entry) × (o ≡ some e) × (read_response e ≡ ok s) × (e.is_error ≡ is_error)
read_answer-some none s is_error h = cc
read_answer-some (some e) s is_error h =
    let (t, r, p) = >>=-eq-ok (λ s. ok (some (s, e.is_error))) (read_response e) h in
    (e, refl, cc, cc)

module _ (H : HashTable Bytes Entry) where
  lookup-Holds {ℓ} :
      {A : Type ℓ} (a : Option (Bytes × Bool)) (o : Option Entry) (c : Call)
      (on_error on_success : Bytes → A) (asked : Ending A × Call)
      → read_answer o ≡ ok a
      → elim o [ some e ↦ (mocked_with e on_error on_success, c) | none ↦ asked ]
        ≡ mocked_or a
            (λ is_error s. (gave (if is_error then on_error s else on_success s), c))
            asked
  lookup-Holds none o c on_error on_success asked h = rw (read_answer-none o h) refl
  lookup-Holds (some (s, is_error)) o c on_error on_success asked h =
      let (e, p, r, f) = read_answer-some o s is_error h in
      rw p (rw (mocked_with_lem e s is_error on_error on_success r f) refl)

  pub lnp_resolve_cnam-Holds :
      (cache : Cache H) (m : Contents) (c : Call) (db_id : ℕ) (payload : Bytes)
      → Holds H cache m
      → IsKey payload
      → lnp_resolve_cnam H cache c db_id payload
        ≡ mocked_or
            (m.answer payload)
            (λ is_error s. (gave (mocked_cnam H is_error s), c))
            (
              cnam_result (resolve (asking c 1 db_id payload)).0,
              (resolve (asking c 1 db_id payload)).1,
            )
  unfolding lnp_resolve_cnam
  lnp_resolve_cnam-Holds cache m c db_id payload h k =
      lookup-Holds (m.answer payload) (find H cache payload) c _ _ _ (h.same_answer payload k)

  pub lnp_resolve_tagged-Holds :
      (cache : Cache H) (m : Contents) (c : Call) (db_id : ℕ) (payload : Bytes)
      → Holds H cache m
      → IsKey payload
      → lnp_resolve_tagged H cache c db_id payload
        ≡ mocked_or
            (m.answer payload)
            (λ is_error s. (gave (mocked_row H is_error s), c))
            (
              tagged_result (resolve (asking c 0 db_id payload)).0,
              (resolve (asking c 0 db_id payload)).1,
            )
  unfolding lnp_resolve_tagged
  lnp_resolve_tagged-Holds cache m c db_id payload h k =
      lookup-Holds (m.answer payload) (find H cache payload) c _ _ _ (h.same_answer payload k)

  pub lnp_resolve_tagged_with_error-Holds :
      (cache : Cache H) (m : Contents) (c : Call) (db_id : ℕ) (payload : Bytes)
      → Holds H cache m
      → IsKey payload
      → lnp_resolve_tagged_with_error H cache c db_id payload
        ≡ mocked_or
            (m.answer payload)
            (λ is_error s. (gave (mocked_error_row H is_error s), c))
            (
              error_row_result (resolve (asking c 0 db_id payload)).0,
              (resolve (asking c 0 db_id payload)).1,
            )
  unfolding lnp_resolve_tagged_with_error
  lnp_resolve_tagged_with_error-Holds cache m c db_id payload h k =
      lookup-Holds (m.answer payload) (find H cache payload) c _ _ _ (h.same_answer payload k)
