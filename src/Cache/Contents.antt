-- ===== src/Cache/Contents.antt =====
-- The operations of src/endpoints_cache.c in any order, and a plain map from keys to answers.
pub mod Refinement
use yeti_pg_ext.Base.{
  Bytes, is_some, Bool, true, false, List, [], ◌∷◌, Option, none, some, ◌≡◌, refl, sym, ap, ◌∙◌,
  ◌≤◌, if◌then◌else◌, length,
}
use yeti_pg_ext.Base.CString.{has_nul}
use yeti_pg_ext.Base.Outcome.{Outcome, ok, ◌>>=◌, >>=-eq-ok}
use yeti_pg_ext.Cache.Table.{HashTable}
use yeti_pg_ext.Cache.Readable.{Bytes-discrete, IsStorable}
use yeti_pg_ext.Cache.{
  Entry, Cache, Status, done, failed, response_max_length, set_key_buf, make_entry, read_response,
  store, find, remove, remove_all, destroy, print_elements,
}
use yeti_pg_ext.Cache.Laws.{
  IsKey, IsReadableCache, table_of, set_key_buf_injective, updated, store_lem, find-store,
}
use yeti_pg_ext.Cache.Removal.{status_of, find-remove, find-remove_all}

-- An operation with its arguments. Its result is a code, or what was found.
pub data Op : Type 0 where
  store_op : Bytes → Bytes → Bool → Op
  find_op remove_op : Bytes → Op
  remove_all_op destroy_op : Op

pub data Result : Type 0 where
  code : Status → Result
  found : Option (Bytes × Bool) → Result

-- The map: whether there is a table, and the answer under each key with its flag.
pub record Contents : Type 0 where
  pub exists : Bool
  pub answer : Bytes → Option (Bytes × Bool)

abbrev pub no_contents : Contents
no_contents = record { exists = false; answer = λ j. none }

abbrev pub put : Bytes → Option (Bytes × Bool) → Contents → Contents
put key v m = record m {
  answer = λ j. elim (Bytes-discrete key j) [ yes _ ↦ v | no _ ↦ m.answer j ];
}

abbrev pub code_of : Option (Bytes × Bool) → Status
code_of none = failed
code_of (some a) = done

abbrev pub clear : Bool → Contents → Contents
clear exists m = if m.exists then record { exists = exists; answer = λ j. none } else m

abbrev pub existing : Contents → Status
existing m = if m.exists then done else failed

abbrev pub map_step : Contents → Op → Contents × Result
map_step m (store_op key response is_error) =
    (record (put key (some (response, is_error)) m) { exists = true }, code done)
map_step m (find_op key) = (m, found (m.answer key))
map_step m (remove_op key) = (put key none m, code (code_of (m.answer key)))
map_step m remove_all_op = (clear true m, code (existing m))
map_step m destroy_op = (clear false m, code (existing m))

abbrev pub map_run : Contents → List Op → Contents × List Result
map_run m [] = (m, [])
map_run m (op ∷ ops) =
    let (m', r) = map_step m op in let (last, rs) = map_run m' ops in (last, r ∷ rs)

-- Keys of at most 256 bytes with no NUL, and answers that are kept whole.
abbrev pub OpFits : Op → Type 0
OpFits (store_op key response is_error) =
    IsKey key
    × IsStorable response is_error
    × (has_nul response ≡ false)
    × (length response ≤ response_max_length)
OpFits (find_op key) = IsKey key
OpFits (remove_op key) = IsKey key
OpFits _ = Unit {0}

abbrev pub AllFit : List Op → Type 0
AllFit [] = Unit {0}
AllFit (op ∷ ops) = OpFits op × AllFit ops

-- What a caller of `find` reads.
abbrev pub read_answer : Option Entry → Outcome (Option (Bytes × Bool))
read_answer none = ok none
read_answer (some e) = read_response e >>= λ s. ok (some (s, e.is_error))

abbrev pub give : {C : Type 0} → C × Status → Outcome (C × Result)
give (c, s) = ok (c, code s)

module _ (H : HashTable Bytes Entry) where
  abbrev pub perform : Cache H → Op → Outcome (Cache H × Result)
  perform c (store_op key response is_error) = store H c key response is_error >>= give
  perform c (find_op key) = read_answer (find H c key) >>= λ a. ok (c, found a)
  perform c (remove_op key) = remove H c key >>= give
  perform c remove_all_op = remove_all H c >>= give
  perform c destroy_op = destroy H c >>= give

  abbrev pub perform_all : Cache H → List Op → Outcome (Cache H × List Result)
  perform_all c [] = ok (c, [])
  perform_all c (op ∷ ops) = do
    (c', r) ← perform c op
    (last, rs) ← perform_all c' ops
    ok (last, r ∷ rs)

  -- The cache holds what the map does.
  pub record Holds (c : Cache H) (m : Contents) : Type 0 where
    pub readable : IsReadableCache H c
    pub same_table : is_some c ≡ m.exists
    pub same_answer : (j : Bytes) → IsKey j → read_answer (find H c j) ≡ ok (m.answer j)
