-- ===== src/Cache/Contents/Refinement.antt =====
-- The cache and the map, step by step.
use yeti_pg_ext.Base.{
  Bytes, is_some, Bool, true, false, List, [], ◌∷◌, Option, none, some, ◌≡◌, refl, sym, ap, ◌∙◌,
}
use yeti_pg_ext.Base.Outcome.{ok, >>=-eq-ok}
use yeti_pg_ext.Cache.Table.{HashTable}
use yeti_pg_ext.Cache.Readable.{Bytes-discrete}
use yeti_pg_ext.Cache.{
  Entry, Cache, done, set_key_buf, make_entry, read_response, store, find, remove, remove_all,
  destroy, print_elements,
}
use yeti_pg_ext.Cache.Laws.{IsKey, table_of, set_key_buf_injective, updated, store_lem, find-store}
use yeti_pg_ext.Cache.Removal.{status_of, find-remove, find-remove_all}
use yeti_pg_ext.Cache.Contents.{
  Op, store_op, find_op, remove_op, remove_all_op, destroy_op, Contents, no_contents, put, code_of,
  clear, existing, map_step, map_run, OpFits, AllFit, read_answer, perform, perform_all, Holds,
}

choice-read :
    {P Q : Type 0} (e d : Option Entry) (v w : Option (Bytes × Bool)) (p : Dec P) (q : Dec Q)
    → (P → Q)
    → (Q → P)
    → read_answer e ≡ ok v
    → read_answer d ≡ ok w
    → read_answer (elim p [ yes _ ↦ e | no _ ↦ d ]) ≡ ok (elim q [ yes _ ↦ v | no _ ↦ w ])
choice-read e d v w (yes p) (yes q) f g h i = h
choice-read e d v w (yes p) (no q) f g h i = absurd (q (f p))
choice-read e d v w (no p) (yes q) f g h i = absurd (p (g q))
choice-read e d v w (no p) (no q) f g h i = i

module _ (H : HashTable Bytes Entry) where
  updated-put :
      (c : Cache H) (m : Contents) (key j : Bytes) (e : Option Entry) (v : Option (Bytes × Bool))
      → Holds H c m
      → IsKey key
      → IsKey j
      → read_answer e ≡ ok v
      → read_answer (updated H c key e j) ≡ ok ((put key v m).answer j)
  updated-put c m key j e v h k l r =
      choice-read e (find H c j) v (m.answer j) (Bytes-discrete (set_key_buf key) (set_key_buf j))
        (Bytes-discrete key j) (set_key_buf_injective key j k l) (ap set_key_buf) r
        (h.same_answer j l)

  code_of-read :
      (e : Option Entry) (v : Option (Bytes × Bool))
      → read_answer e ≡ ok v
      → status_of H e ≡ code_of v
  code_of-read none none h = refl
  code_of-read none (some a) h = cc
  code_of-read (some e) (some a) h = refl
  code_of-read (some e) none h =
      let (s, r, p) = >>=-eq-ok (λ s. ok (some (s, e.is_error))) (read_response e) h in cc

  store-is_some :
      (c : Cache H) (key response : Bytes) (is_error : Bool) (c' : Cache H)
      → store H c key response is_error ≡ ok (c', done)
      → is_some c' ≡ true
  store-is_some c key response is_error c' p =
      let t = H.enter (set_key_buf key) (make_entry response is_error) (table_of H c) in
      let (s, q, r) =
        >>=-eq-ok (λ _. ok (some t, done)) (print_elements H (some t))
          (sym (store_lem H c key response is_error) ∙ p) in
      cc

  pub store-Holds :
      (c : Cache H) (m : Contents) (key response : Bytes) (is_error : Bool)
      → Holds H c m
      → OpFits (store_op key response is_error)
      → (c' : Cache H) × (store H c key response is_error ≡ ok (c', done))
        × Holds H c' (record (put key (some (response, is_error)) m) { exists = true })
  store-Holds c m key response is_error h (k, s, n, l) =
      let (c', e, p, q, g, f, r) = find-store H c key response is_error h.readable s n l in
      (
        c',
        p,
        record {
          readable = r;
          same_table = store-is_some c key response is_error c' p;
          same_answer = λ j i.
              ap read_answer (f j)
              ∙ updated-put c m key j (some e) (some (response, is_error)) h k i (rw q (rw g refl));
        },
      )

  remove-Holds :
      (c : Cache H) (m : Contents) (key : Bytes)
      → Holds H c m
      → IsKey key
      → (c' : Cache H) × (remove H c key ≡ ok (c', code_of (m.answer key)))
        × Holds H c' (put key none m)
  remove-Holds c m key h k =
      let (c', p, f, b, r) = find-remove H c key h.readable in
      (
        c',
        p ∙ ap (λ s. ok (c', s)) (code_of-read (find H c key) (m.answer key) (h.same_answer key k)),
        record {
          readable = r;
          same_table = b ∙ h.same_table;
          same_answer = λ j i. ap read_answer (f j) ∙ updated-put c m key j none none h k i refl;
        },
      )

  remove_all-Holds :
      (c : Cache H) (m : Contents)
      → Holds H c m
      → (c' : Cache H) × (remove_all H c ≡ ok (c', existing m)) × Holds H c' (clear true m)
  unfolding remove_all
  remove_all-Holds none m h = (none, rw (← h.same_table) refl, simp (← h.same_table) h)
  remove_all-Holds (some t) m h =
      let (t', p, n, r) = find-remove_all H t in
      (
        some t',
        p ∙ rw (← h.same_table) refl,
        rw (← h.same_table)
            (record { readable = r; same_table = refl; same_answer = λ j i. rw (n j) refl }),
      )

  destroy-Holds :
      (c : Cache H) (m : Contents)
      → Holds H c m
      → (c' : Cache H) × (destroy H c ≡ ok (c', existing m)) × Holds H c' (clear false m)
  unfolding destroy find
  destroy-Holds none m h = (none, rw (← h.same_table) refl, simp (← h.same_table) h)
  destroy-Holds (some t) m h =
      let (t', p, n, r) = find-remove_all H t in
      (
        none,
        rw p (rw (← h.same_table) refl),
        rw (← h.same_table)
            (record { readable = tt; same_table = refl; same_answer = λ j i. refl }),
      )

  perform-Holds :
      (c : Cache H) (m : Contents) (op : Op)
      → Holds H c m
      → OpFits op
      → (c' : Cache H) × (perform H c op ≡ ok (c', (map_step m op).1))
        × Holds H c' (map_step m op).0
  perform-Holds c m (store_op key response is_error) h f =
      let (c', p, i) = store-Holds c m key response is_error h f in (c', rw p refl, i)
  perform-Holds c m (find_op key) h f = (c, rw (h.same_answer key f) refl, h)
  perform-Holds c m (remove_op key) h f =
      let (c', p, i) = remove-Holds c m key h f in (c', rw p refl, i)
  perform-Holds c m remove_all_op h f =
      let (c', p, i) = remove_all-Holds c m h in (c', rw p refl, i)
  perform-Holds c m destroy_op h f = let (c', p, i) = destroy-Holds c m h in (c', rw p refl, i)

  perform_all-Holds :
      (ops : List Op) (c : Cache H) (m : Contents)
      → Holds H c m
      → AllFit ops
      → (last : Cache H) × (perform_all H c ops ≡ ok (last, (map_run m ops).1))
        × Holds H last (map_run m ops).0
  perform_all-Holds [] c m h f = (c, refl, h)
  perform_all-Holds (op ∷ ops) c m h (f, g) =
      let (c', p, i) = perform-Holds c m op h f in
      let (last, q, j) = perform_all-Holds ops c' (map_step m op).0 i g in
      (last, rw p (rw q refl), j)

  pub none-Holds : Holds H none no_contents
  unfolding find
  none-Holds = record { readable = tt; same_table = refl; same_answer = λ j i. refl }

  -- From no table, any sequence of stores, lookups, removals and destructions over keys of at most
  -- 256 bytes and answers that are kept whole, none with a NUL, runs to its end without an error
  -- or a read past an entry, and gives at every step the code or the answer with its flag that a
  -- plain map from keys to answers gives; the table that is left holds what the map does.
  pub perform_all-map_run :
      (ops : List Op)
      → AllFit ops
      → (last : Cache H) × (perform_all H none ops ≡ ok (last, (map_run no_contents ops).1))
        × Holds H last (map_run no_contents ops).0
  perform_all-map_run ops f = perform_all-Holds ops none no_contents none-Holds f
