-- ===== src/Tbf/Laws.antt =====
-- What tbf_rate_check and the hooks of src/f_tbf_rate_check.c do.
use yeti_pg_ext.Base.{
  ℕ, zero, suc, ◌<◌, Bool, true, false, List, [], ◌∷◌, none, some, min, ◌≡◌, ◌≢◌, refl, ap, ◌∙◌,
}
use yeti_pg_ext.Base.Outcome.{ok}
use yeti_pg_ext.Cache.Table.{HashTable}
use yeti_pg_ext.Tbf.Buckets.{
  first_passes, bucket_max_size-bucket_size, bucket_step, bucket_run, bucket_step-tokens, passed,
  same_time, passed-burst,
}
use yeti_pg_ext.Tbf.Requests.{same_key_refl, asks, requests, answers}
use yeti_pg_ext.Tbf.Runs.{run_calls, HasRoom, HasRoom-after, check_key-call, run_calls-Refines}
use yeti_pg_ext.Tbf.{
  Hooks, tbf_init, tbf_fini, Key, Bucket, Floats, RateCall, bucket_max_size, tbf_rate_check,
}

-- If the table is not full before any of the calls, a run of them ends, and for every key the bucket
-- left and the answers to the calls that ask for it are those of one bucket given these calls' rates
-- and times, whatever the calls for other keys are: full at first, filled up by what is added since
-- the last call that passed, up to its size, and one token less with each call that passes.
pub run_calls-bucket_run :
    {Rate : Type 0} (F : Floats Rate) (H : HashTable Key Bucket) (is_full : H.T → Bool) (k : Key)
    (cs : List (RateCall Rate)) (t : H.T)
    → HasRoom F H is_full t cs
    → (t' : H.T) × (rets : List Bool) × (run_calls F H is_full (some t) cs ≡ ok (some t', rets))
      × (H.search k t' ≡ (bucket_run F (H.search k t) (requests F k cs)).0)
      × (answers F k cs rets ≡ (bucket_run F (H.search k t) (requests F k cs)).1)
run_calls-bucket_run F H is_full k cs t room = run_calls-Refines F H is_full k cs t room

-- A call that asks for a bucket, while the table has room, ends, and leaves that bucket with fewer
-- tokens than its size.
pub tbf_rate_check-tokens :
    {Rate : Type 0} (F : Floats Rate) (H : HashTable Key Bucket) (is_full : H.T → Bool)
    (c : RateCall Rate) (key : Key) (rate : Rate) (t : H.T)
    → asks F c ≡ some (key, rate)
    → is_full t ≡ false
    → (t' : H.T) × (b : Bucket) × (ret : Bool) × (tbf_rate_check F H is_full (some t) c
        ≡ ok (some t', ret))
      × (H.search key t' ≡ some b)
      × (b.tokens < bucket_max_size F rate)
tbf_rate_check-tokens F H is_full c key rate t e room =
    let (t', f, g, other) = check_key-call F H is_full c key rate t e room in
    let (b, ret) = bucket_step F (H.search key t) rate c.now in
    (
      t',
      b,
      ret,
      f,
      g,
      rw (bucket_max_size-bucket_size F rate) (bucket_step-tokens F (H.search key t) rate c.now),
    )

-- A call with other bytes in the padding of its key passes, whatever the bucket's tokens, if no
-- entry has that padding yet and the table is not full before either call.
pub tbf_rate_check-padding :
    {Rate : Type 0} (F : Floats Rate) (H : HashTable Key Bucket) (is_full : H.T → Bool)
    (c : RateCall Rate) (key : Key) (rate : Rate) (stack : ℕ) (t : H.T)
    → asks F c ≡ some (key, rate)
    → asks F (record c { stack = stack }) ≡ some (record key { padding = stack }, rate)
    → key.padding ≢ stack
    → H.search (record key { padding = stack }) t ≡ none
    → HasRoom F H is_full t (c ∷ record c { stack = stack } ∷ [])
    → (t' : H.T) × (ret : Bool) × (run_calls F H is_full
          (some t)
          (c ∷ record c { stack = stack } ∷ [])
        ≡ ok (some t', ret ∷ true ∷ []))
tbf_rate_check-padding F H is_full c key rate stack t e f ne fresh room =
    let (u, g, stored, other) = check_key-call F H is_full c key rate t e room.0 in
    let (v, h, kept, others) =
      check_key-call F H is_full (record c { stack = stack }) (record key { padding = stack }) rate
        u f (HasRoom-after F H is_full t u _ c (record c { stack = stack } ∷ []) room g).0 in
    let found = other (record key { padding = stack }) (λ q. ne (ap Key.padding q)) ∙ fresh in
    (
      v,
      (bucket_step F (H.search key t) rate c.now).1,
      rw (g, rw found at h)
          (ap (λ b. ok (some v, (bucket_step F (H.search key t) rate c.now).1 ∷ b ∷ []))
            (first_passes F rate c.now)),
    )

abbrev pub calls : {Rate : Type 0} → ℕ → RateCall Rate → List (RateCall Rate)
calls zero c = []
calls (suc n) c = c ∷ calls n c

requests-calls :
    {Rate : Type 0} (F : Floats Rate) (n : ℕ) (c : RateCall Rate) (key : Key) (rate : Rate)
    → asks F c ≡ some (key, rate)
    → requests F key (calls n c) ≡ same_time F n rate c.now
requests-calls F zero c key rate e = refl
requests-calls F (suc n) c key rate e =
    rw (e, same_key_refl key)
      (ap (λ later. (rate, c.now) ∷ later) (requests-calls F n c key rate e))

-- Of any number of calls at one time for a bucket that is not there yet, as many pass as the bucket
-- is large, if the table is not full before any of them, and no tokens are added where no time passes.
pub passed-calls :
    {Rate : Type 0} (F : Floats Rate) (H : HashTable Key Bucket) (is_full : H.T → Bool) (n : ℕ)
    (c : RateCall Rate) (key : Key) (rate : Rate) (t : H.T)
    → asks F c ≡ some (key, rate)
    → H.search key t ≡ none
    → ((k : ℕ) → F.add_tokens rate k c.now c.now ≡ k)
    → HasRoom F H is_full t (calls n c)
    → (t' : H.T) × (rets : List Bool) × (run_calls F H is_full (some t) (calls n c)
        ≡ ok (some t', rets))
      × (passed F (answers F key (calls n c) rets) ≡ min n (bucket_max_size F rate))
passed-calls F H is_full n c key rate t e fresh still room =
    let (t', rets, f, kept, same) = run_calls-Refines F H is_full key (calls n c) t room in
    (
      t',
      rets,
      f,
      ap (passed F) same
          ∙ rw (fresh, requests-calls F n c key rate e, bucket_max_size-bucket_size F rate)
              (passed-burst F n rate c.now still),
    )

-- What tbf_init has put in place tbf_fini takes away, if the library is preloaded and has its memory
-- by then, or neither.
pub tbf_fini-tbf_init :
    (preloaded : Bool) (h : Hooks)
    → ((tbf_fini preloaded (tbf_init preloaded h)).shmem_request_hook ≡ h.shmem_request_hook)
      × ((tbf_fini preloaded (tbf_init preloaded h)).shmem_startup_hook ≡ h.shmem_startup_hook)
unfolding tbf_fini tbf_init
tbf_fini-tbf_init true h = (refl, refl)
tbf_fini-tbf_init false h = (refl, refl)
