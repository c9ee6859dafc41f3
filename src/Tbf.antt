-- ===== src/Tbf.antt =====
-- src/f_tbf_rate_check.c: token buckets in shared memory, and the hooks by which the memory is asked
-- for. The hash table is the interface of Cache/Table, the arithmetic on floats that of `Floats`.
pub mod Buckets
pub mod Requests
pub mod Runs
pub mod Room
pub mod Memory
pub mod Attach
pub mod Laws
mod Tests
mod Places
use yeti_pg_ext.Base.{
  ℕ, zero, suc, ◌+◌, ◌-◌, Bool, true, false, List, [], ◌∷◌, Option, none, some, ltb, if◌then◌else◌,
  min, max,
}
use yeti_pg_ext.Base.Outcome.{Outcome, ok, error, ◌>>=◌}
use yeti_pg_ext.Cache.Table.{HashTable}

-- The key is compared byte by byte, with the four bytes between its fields, which the function does
-- not set: `padding` is what the stack holds there.
pub record Key : Type 0 where
  pub namespace_id : ℕ
  pub padding : ℕ
  pub bucket_id : ℕ

pub record Bucket : Type 0 where
  pub updated_at : ℕ
  pub tokens : ℕ

-- What the machine makes of a float4: whether it is 0, `rate*2` as a Size, and
-- `tokens += rate*INSTR_TIME_GET_DOUBLE(diff)` from a time to a later one.
pub record Floats (Rate : Type 0) : Type 0 where
  pub is_zero : Rate → Bool
  pub doubled : Rate → ℕ
  pub add_tokens : Rate → ℕ → ℕ → ℕ → ℕ

-- The arguments, NULL being `none`, the time, and what stands in the padding of `key`.
pub record RateCall (Rate : Type 0) : Type 0 where
  pub arg_namespace_id : Option ℕ
  pub arg_bucket_id : Option ℕ
  pub arg_rate : Option Rate
  pub now : ℕ
  pub stack : ℕ

module _ {Rate : Type 0} (F : Floats Rate) where
  unfoldable pub bucket_max_size : Rate → ℕ
  bucket_max_size rate = if ltb (F.doubled rate) 1 then 1 else F.doubled rate

  -- The initial call for a key.
  unfoldable pub new_entry : Rate → ℕ → Bucket
  unfolding bucket_max_size
  new_entry rate now = record { updated_at = now; tokens = bucket_max_size rate - 1 }

  -- The entry that is found, with the tokens added, and whether the call passes.
  unfoldable pub update_entry : Rate → ℕ → Bucket → Bucket × Bool
  unfolding bucket_max_size
  update_entry rate now b =
      let tokens = F.add_tokens rate b.tokens b.updated_at now in
      if ltb 0 tokens
      then (let kept = if ltb (bucket_max_size rate) tokens then bucket_max_size rate else tokens in
          (record { updated_at = now; tokens = kept - 1 }, true))
      else (record b { tokens = tokens }, false)

  module _ (H : HashTable Key Bucket) (is_full : H.T → Bool) where
    -- Between the lock and its release. HASH_ENTER raises an ERROR where there is no memory.
    unfoldable pub check_key : Key → Rate → ℕ → H.T → Outcome (H.T × Bool)
    unfolding new_entry update_entry
    check_key key rate now t = elim (H.search key t) [
      | none ↦ if is_full t then error else ok (H.enter key (new_entry rate now) t, true)
      | some b ↦ let (b', ret) = update_entry rate now b in ok (H.enter key b' t, ret)
    ]

    -- The memory is `none` while `tbf` is NULL.
    unfoldable pub tbf_rate_check : Option H.T → RateCall Rate → Outcome (Option H.T × Bool)
    unfolding check_key
    tbf_rate_check none c = ok (none, true)
    tbf_rate_check (some t) c = elim c.arg_namespace_id [
      | none ↦ ok (some t, true)
      | some namespace_id ↦ elim c.arg_bucket_id [
        | none ↦ ok (some t, true)
        | some bucket_id ↦ elim c.arg_rate [
          | none ↦ ok (some t, true)
          | some rate ↦ if F.is_zero rate then ok (some t, false) else (do
            (t', ret) ←
                check_key
                  (record { namespace_id = namespace_id; padding = c.stack; bucket_id = bucket_id })
                  rate c.now t
            ok (some t', ret))
        ]
      ]
    ]

-- A hook of PostgreSQL: none, another extension's, or a function of this one.
pub data Hook : Type 0 where
  no_hook tbf_shmem_request tbf_shmem_startup : Hook
  other_hook : ℕ → Hook

pub record Hooks : Type 0 where
  pub shmem_request_hook : Hook
  pub shmem_startup_hook : Hook
  pub prev_shmem_request_hook : Hook
  pub prev_shmem_startup_hook : Hook

-- PostgreSQL 15 and later; the flag is process_shared_preload_libraries_in_progress.
unfoldable pub tbf_init : Bool → Hooks → Hooks
tbf_init false h = h
tbf_init true h = record {
  shmem_request_hook = tbf_shmem_request;
  shmem_startup_hook = tbf_shmem_startup;
  prev_shmem_request_hook = h.shmem_request_hook;
  prev_shmem_startup_hook = h.shmem_startup_hook;
}

-- The flag tells whether `tbf` is not NULL.
unfoldable pub tbf_fini : Bool → Hooks → Hooks
tbf_fini false h = h
tbf_fini true h = record h {
  shmem_request_hook = h.prev_shmem_request_hook;
  shmem_startup_hook = h.prev_shmem_startup_hook;
}
