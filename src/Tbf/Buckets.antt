-- ===== src/Tbf/Buckets.antt =====
-- One token bucket by itself, as src/f_tbf_rate_check.c means it.
use yeti_pg_ext.Base.{
  ℕ, zero, suc, ◌+◌, ◌-◌, ◌<◌, Bool, true, false, List, [], ◌∷◌, Option, none, some, ltb, lt→ltb,
  if◌then◌else◌, min, max, sym, ◌≡◌, refl, ap, arith,
}
use yeti_pg_ext.Tbf.{Bucket, Floats, bucket_max_size, new_entry, update_entry}

-- A request that finds so many tokens: of more than `size` the rest is lost, and one is spent. If
-- there is none the request fails, and the time of the bucket stays.
abbrev pub spend : ℕ → ℕ → ℕ → ℕ → Bucket × Bool
spend size now old zero = (record { updated_at = old; tokens = 0 }, false)
spend size now old (suc n) = (record { updated_at = now; tokens = min n (size - 1) }, true)

spend-tokens : (size now old n : ℕ) → 0 < size → (spend size now old n).0.tokens < size
spend-tokens size now old zero h = omega (arith, h)
spend-tokens size now old (suc n) h = omega (arith, h)

module _ {Rate : Type 0} (F : Floats Rate) where
  -- Twice the rate, and at least one.
  abbrev pub bucket_size : Rate → ℕ
  bucket_size rate = max 1 (F.doubled rate)

  bucket_size-pos : (rate : Rate) → 0 < bucket_size rate
  bucket_size-pos rate = omega arith

  -- A request at a rate and a time. The first finds a full bucket, and a later one what was left and
  -- what came since.
  abbrev pub bucket_step : Option Bucket → Rate → ℕ → Bucket × Bool
  bucket_step none rate now = spend (bucket_size rate) now now (bucket_size rate)
  bucket_step (some b) rate now =
      spend (bucket_size rate) now b.updated_at (F.add_tokens rate b.tokens b.updated_at now)

  abbrev pub bucket_run : Option Bucket → List (Rate × ℕ) → Option Bucket × List Bool
  bucket_run b [] = (b, [])
  bucket_run b ((rate, now) ∷ requests) =
      let (b', ret) = bucket_step b rate now in
      let (last, rets) = bucket_run (some b') requests in (last, ret ∷ rets)

  -- A request leaves fewer tokens than the bucket is large.
  pub bucket_step-tokens :
      (b : Option Bucket) (rate : Rate) (now : ℕ)
      → (bucket_step b rate now).0.tokens < bucket_size rate
  bucket_step-tokens none rate now =
      spend-tokens (bucket_size rate) now now (bucket_size rate) (bucket_size-pos rate)
  bucket_step-tokens (some b) rate now =
      spend-tokens (bucket_size rate) now b.updated_at (F.add_tokens rate b.tokens b.updated_at now)
        (bucket_size-pos rate)

  pub bucket_max_size-bucket_size : (rate : Rate) → bucket_max_size F rate ≡ bucket_size rate
  unfolding bucket_max_size
  bucket_max_size-bucket_size rate = ground arith

  spend_full :
      (size now : ℕ)
      → 0 < size
      → spend size now now size ≡ (record { updated_at = now; tokens = size - 1 }, true)
  spend_full zero now h = absurd (omega (arith, h))
  spend_full (suc n) now h =
      ap (λ t. (record { updated_at = now; tokens = t }, true)) {x = min n (suc n - 1)}
        {y = suc n - 1} (omega arith)

  -- The new entry of the source.
  pub new_entry-bucket_step :
      (rate : Rate) (now : ℕ) → (new_entry F rate now, true) ≡ bucket_step none rate now
  unfolding new_entry
  new_entry-bucket_step rate now =
      rw (bucket_max_size-bucket_size rate)
        (sym (spend_full (bucket_size rate) now (bucket_size-pos rate)))

  pub first_passes : (rate : Rate) (now : ℕ) → (bucket_step none rate now).1 ≡ true
  first_passes rate now = ap (λ (o : Bucket × Bool). o.1) (sym (new_entry-bucket_step rate now))

  -- The entry of the source that is found.
  pub update_entry-bucket_step :
      (b : Bucket) (rate : Rate) (now : ℕ)
      → update_entry F rate now b ≡ bucket_step (some b) rate now
  unfolding update_entry
  update_entry-bucket_step b rate now = rw (bucket_max_size-bucket_size rate) (
      spent (F.add_tokens rate b.tokens b.updated_at now) (bucket_size rate) (bucket_size-pos rate))
    where
      spent :
          (n size : ℕ)
          → 0 < size
          → (if ltb 0 n
              then (
                record { updated_at = now; tokens = (if ltb size n then size else n) - 1 },
                true,
              )
              else (record b { tokens = n }, false))
            ≡ spend size now b.updated_at n
      spent zero size h = refl
      spent (suc n) size h =
          rw (lt→ltb 0 (suc n) (omega arith))
            (ap (λ t. (record { updated_at = now; tokens = t }, true)) (ground (arith, h)))

  abbrev pub passed : List Bool → ℕ
  passed [] = 0
  passed (ret ∷ rets) = (if ret then 1 else 0) + passed rets

  abbrev pub same_time : ℕ → Rate → ℕ → List (Rate × ℕ)
  same_time zero rate now = []
  same_time (suc n) rate now = (rate, now) ∷ same_time n rate now

  -- A bucket with that many tokens, asked at the time it was left.
  passed-same_time :
      (n tokens : ℕ) (rate : Rate) (now : ℕ)
      → ((k : ℕ) → F.add_tokens rate k now now ≡ k)
      → tokens < bucket_size rate
      → passed
          (bucket_run
            (some (record { updated_at = now; tokens = tokens }))
            (same_time n rate now)).1
        ≡ min n tokens
  passed-same_time zero tokens rate now still h = omega arith
  passed-same_time (suc n) zero rate now still h =
      rw (still 0) (omega (arith, passed-same_time n 0 rate now still h))
  passed-same_time (suc n) (suc tokens) rate now still h =
      let kept : min tokens (bucket_size rate - 1) ≡ tokens = omega (arith, h) in
      rw (still (suc tokens))
        (rw kept (omega (arith, passed-same_time n tokens rate now still (omega (arith, h)))))

  -- Requests at one time for a bucket that is not there yet.
  pub passed-burst :
      (n : ℕ) (rate : Rate) (now : ℕ)
      → ((k : ℕ) → F.add_tokens rate k now now ≡ k)
      → passed (bucket_run none (same_time n rate now)).1 ≡ min n (bucket_size rate)
  passed-burst zero rate now still = omega arith
  passed-burst (suc n) rate now still =
      rw (spend_full (bucket_size rate) now (bucket_size-pos rate)) (
        omega (
          arith,
          bucket_size-pos rate,
          passed-same_time n (bucket_size rate - 1) rate now still
              (omega (arith, bucket_size-pos rate)),
        ))
