-- ===== src/Cache/Tests.antt =====
-- The cache on an association list.
use yeti_pg_ext.Base.{
  Bytes, Bool, true, List, Option, [], ◌∷◌, none, some, ◌≡◌, refl, inr, arith, replicate,
}
use yeti_pg_ext.Base.Outcome.{ok, fault}
use yeti_pg_ext.Cache.Table.{HashTable}
use yeti_pg_ext.Cache.Assoc.{assoc}
use yeti_pg_ext.Cache.Readable.{Bytes-discrete}
use yeti_pg_ext.Cache.{Entry, Cache, done, set_key_buf, make_entry, store}
use yeti_pg_ext.Cache.Laws.{IsKey, store_fault}
use yeti_pg_ext.Cache.Contents.{
  Op, store_op, find_op, remove_op, destroy_op, code, found, Contents, no_contents, put, map_run,
  perform_all, Holds,
}
use yeti_pg_ext.Cache.Contents.Refinement.{perform_all-map_run}

abbrev table : HashTable Bytes Entry
table = assoc Bytes-discrete

abbrev key : Bytes
key = b'a' ∷ b'b' ∷ []

abbrev response : Bytes
response = b'o' ∷ b'k' ∷ []

abbrev one_entry : table.T
one_entry = table.enter (set_key_buf key) (make_entry response true) table.create

store_fault_example : store table none key (replicate 2048 b'x') true ≡ fault
store_fault_example = store_fault table none key (replicate 2048 b'x') refl (omega arith)

key_fits : IsKey key
key_fits = (refl, omega arith)

abbrev calls : List Op
calls = store_op key response true ∷ find_op key ∷ remove_op key ∷ find_op key ∷ destroy_op ∷ []

put_self : (v : Option (Bytes × Bool)) (m : Contents) → (put key v m).answer key ≡ v
put_self v m =
    elim (Bytes-discrete key key) as (λ d. elim d [ yes _ ↦ v | no _ ↦ m.answer key ] ≡ v) [
      | yes p ↦ refl
      | no n ↦ absurd (n refl)
    ]

calls_results :
    (map_run no_contents calls).1
    ≡ code done ∷ found (some (response, true)) ∷ code done ∷ found none ∷ code done ∷ []
calls_results = simp (put_self)

perform_all-map_run_example :
    (last : Cache table) × (perform_all table none calls ≡ ok (last, (map_run no_contents calls).1))
    × Holds table last (map_run no_contents calls).0
perform_all-map_run_example =
    perform_all-map_run table calls (
      (key_fits, inr (omega arith), refl, omega arith),
      (key_fits, (key_fits, (key_fits, (tt, tt)))),
    )
