-- ===== src/Cache.antt =====
-- src/endpoints_cache.c: the table of mocked answers, and src/f_lnp_endpoints_cache_set.c. The hash
-- table is PostgreSQL's dynahash, taken as an interface (Cache/Table). `hash_tab` is `none` while
-- it is NULL; a return code is `done` for 0 and `failed` for any other.
pub mod Table
pub mod Laws
pub mod Removal
pub mod Alive
pub mod Contents
pub mod Readable
pub mod Assoc
mod Tests
use yeti_pg_ext.Base.{
  Bytes, ℕ, ◌*◌, Bool, true, false, List, [], ◌∷◌, ◌++◌, Option, none, some, if◌then◌else◌, length,
  min,
}
use yeti_pg_ext.Base.CString.{strncpy, c_string}
use yeti_pg_ext.Base.Outcome.{Outcome, ok, ◌>>=◌}
use Table.{HashTable}

abbrev pub key_max_length : ℕ
key_max_length = 256

abbrev pub response_max_length : ℕ
response_max_length = 2 * 1024

-- What the table keeps beside the key.
pub record Entry : Type 0 where
  pub response : Bytes
  pub is_error : Bool

pub data Status : Type 0 where
  done failed : Status

-- The key buffer: cut at 256 bytes and filled up with NUL.
unfoldable pub set_key_buf : Bytes → Bytes
set_key_buf key = strncpy key_max_length (min (length key) key_max_length) key

-- The memory of an entry from its response to its end: the flag is its last byte.
unfoldable pub response_memory : Entry → Bytes
response_memory e = e.response ++ ((if e.is_error then 1 else 0) ∷ [])

-- The string that the pointer to a response is read as.
unfoldable pub read_response : Entry → Outcome Bytes
unfolding response_memory
read_response e = c_string (response_memory e)

unfoldable pub make_entry : Bytes → Bool → Entry
make_entry response is_error = record {
  response = strncpy response_max_length (min (length response) response_max_length) response;
  is_error = is_error;
}

module _ (H : HashTable Bytes Entry) where
  -- `hash_tab`
  abbrev pub Cache : Type 0
  Cache = Option H.T

  unfoldable pub init : Cache → Cache × Status
  init (some t) = (some t, failed)
  init none = (some H.create, done)

  -- The loop of `__ec_print_elements`: `%s` reads the key, which stands before the response, and
  -- the response.
  unfoldable pub print_each : List (Bytes × Entry) → Outcome (Unit {0})
  unfolding read_response
  print_each [] = ok tt
  print_each ((k, e) ∷ rest) = do
    key ← c_string (k ++ response_memory e)
    response ← read_response e
    print_each rest

  unfoldable pub print_elements : Cache → Outcome Status
  unfolding print_each
  print_elements none = ok failed
  print_elements (some t) = do u ← print_each (H.entries t); ok done

  unfoldable pub store : Cache → Bytes → Bytes → Bool → Outcome (Cache × Status)
  unfolding init set_key_buf make_entry print_elements
  store cache key response is_error = elim (init cache).0 [
    | none ↦ ok (none, failed)
    | some t ↦
        let t' = H.enter (set_key_buf key) (make_entry response is_error) t in
        print_elements (some t') >>= λ _. ok (some t', done)
  ]

  -- The entry pointed at, or `none` for -1.
  unfoldable pub find : Cache → Bytes → Option Entry
  unfolding set_key_buf
  find none key = none
  find (some t) key = H.search (set_key_buf key) t

  unfoldable pub items_count : Cache → ℕ
  items_count none = 0
  items_count (some t) = length (H.entries t)

  unfoldable pub remove : Cache → Bytes → Outcome (Cache × Status)
  unfolding set_key_buf print_elements
  remove none key = ok (none, failed)
  remove (some t) key = elim (H.search (set_key_buf key) t) [
    | none ↦ ok (some t, failed)
    | some e ↦
        let t' = H.delete (set_key_buf key) t in
        print_elements (some t') >>= λ _. ok (some t', done)
  ]

  -- The scan of `__ec_remove_all` over the entries at its start.
  unfoldable pub remove_each : List (Bytes × Entry) → H.T → H.T × Status
  remove_each [] t = (t, done)
  remove_each ((k, e) ∷ rest) t =
      let later = remove_each rest (H.delete k t) in
      elim (H.search k t) [ none ↦ (t, failed) | some _ ↦ later ]

  -- Code that follows the scan, unless it failed.
  unfoldable pub after_scan : H.T × Status → Outcome (Cache × Status)
  unfolding print_elements
  after_scan (t, failed) = ok (some t, failed)
  after_scan (t, done) = print_elements (some t) >>= λ _. ok (some t, done)

  unfoldable pub remove_all : Cache → Outcome (Cache × Status)
  unfolding remove_each after_scan
  remove_all none = ok (none, failed)
  remove_all (some t) = after_scan (remove_each (H.entries t) t)

  unfoldable pub destroy : Cache → Outcome (Cache × Status)
  unfolding remove_all
  destroy none = ok (none, failed)
  destroy (some t) = remove_all (some t) >>= λ _. ok (none, done)

  -- The SQL function; its result is NULL.
  unfoldable pub lnp_endpoints_cache_set : Cache → Bytes → Bytes → Bool → Outcome Cache
  unfolding store
  lnp_endpoints_cache_set cache key response is_error =
      store cache key response is_error >>= λ r. ok r.0
