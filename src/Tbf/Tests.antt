-- ===== src/Tbf/Tests.antt =====
-- Buckets in an association list, of a rate of so many tokens a tick.
use yeti_pg_ext.Base.{ℕ, ◌+◌, ◌-◌, ◌*◌, Bool, true, List, [], ◌∷◌, some, ◌==◌, ◌≡◌, refl, arith}
use yeti_pg_ext.Base.Outcome.{ok}
use yeti_pg_ext.Cache.Table.{HashTable}
use yeti_pg_ext.Cache.Assoc.{assoc, enter-grows, entries-create}
use yeti_pg_ext.Tbf.Buckets.{bucket_run}
use yeti_pg_ext.Tbf.Requests.{Key-discrete, requests, answers}
use yeti_pg_ext.Tbf.Runs.{run_calls}
use yeti_pg_ext.Tbf.Memory.{tbf_hash_max}
use yeti_pg_ext.Tbf.Room.{is_full_at, HasRoom-entries}
use yeti_pg_ext.Tbf.Laws.{run_calls-bucket_run, tbf_rate_check-padding}
use yeti_pg_ext.Tbf.{Key, Bucket, Floats, RateCall}

abbrev table : HashTable Key Bucket
table = assoc Key-discrete

abbrev per_tick : Floats ℕ
per_tick = record {
  is_zero = λ rate. rate == 0;
  doubled = λ rate. rate * 2;
  add_tokens = λ rate tokens from now. tokens + rate * (now - from);
}

abbrev is_full : table.T → Bool
is_full t = is_full_at per_tick table tbf_hash_max (enter-grows Key-discrete) t

abbrev call_at : ℕ → ℕ → RateCall ℕ
call_at bucket now = record {
  arg_namespace_id = some 1;
  arg_bucket_id = some bucket;
  arg_rate = some 1;
  now = now;
  stack = 0;
}

abbrev key_of : ℕ → Key
key_of bucket = record { namespace_id = 1; padding = 0; bucket_id = bucket }

abbrev some_calls : List (RateCall ℕ)
some_calls = call_at 7 5 ∷ call_at 8 5 ∷ call_at 7 5 ∷ call_at 7 5 ∷ call_at 7 6 ∷ []

run_calls_example :
    (t' : table.T) × (rets : List Bool) × (run_calls per_tick table is_full
        (some table.create)
        some_calls
      ≡ ok (some t', rets))
    × (table.search (key_of 7) t'
        ≡ (bucket_run per_tick
            (table.search (key_of 7) table.create)
            (requests per_tick (key_of 7) some_calls)).0)
    × (answers per_tick (key_of 7) some_calls rets
        ≡ (bucket_run per_tick
            (table.search (key_of 7) table.create)
            (requests per_tick (key_of 7) some_calls)).1)
run_calls_example = run_calls-bucket_run per_tick table is_full (key_of 7) some_calls table.create (
    HasRoom-entries per_tick table tbf_hash_max (enter-grows Key-discrete) some_calls table.create
      (rw (entries-create Key-discrete) (omega arith)))

padding_example :
    (t' : table.T) × (ret : Bool) × (run_calls per_tick table is_full
        (some table.create)
        (call_at 7 5 ∷ record (call_at 7 5) { stack = 9 } ∷ [])
      ≡ ok (some t', ret ∷ true ∷ []))
padding_example =
    tbf_rate_check-padding per_tick table is_full (call_at 7 5) (key_of 7) 1 9 table.create refl
      refl (λ e. absurd (omega (arith, e)))
      (table.search-create (record { namespace_id = 1; padding = 9; bucket_id = 7 }))
      (HasRoom-entries per_tick table tbf_hash_max (enter-grows Key-discrete)
        (call_at 7 5 ∷ record (call_at 7 5) { stack = 9 } ∷ []) table.create
        (rw (entries-create Key-discrete) (omega arith)))
