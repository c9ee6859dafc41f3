-- ===== src/Tbf/Runs.antt =====
-- Calls of tbf_rate_check, one after another under the lock.
use yeti_pg_ext.Base.{
  ℕ, Bool, true, false, List, [], ◌∷◌, Option, none, some, ◌≡◌, ◌≢◌, refl, ap, subst, ◌∙◌, inl, inr,
  Bool-cases, Option-cases,
}
use yeti_pg_ext.Base.Outcome.{Outcome, ok, ◌>>=◌}
use yeti_pg_ext.Cache.Table.{HashTable}
use yeti_pg_ext.Tbf.Buckets.{
  bucket_step, bucket_run, new_entry-bucket_step, update_entry-bucket_step,
}
use yeti_pg_ext.Tbf.{
  Key, Bucket, Floats, RateCall, new_entry, update_entry, check_key, tbf_rate_check,
}
use yeti_pg_ext.Tbf.Requests.{same_key, same_key-true, same_key-false, asks, requests, answers}

module _ {Rate : Type 0} (F : Floats Rate) (H : HashTable Key Bucket) (is_full : H.T → Bool) where
  abbrev pub run_calls : Option H.T → List (RateCall Rate) → Outcome (Option H.T × List Bool)
  run_calls t [] = ok (t, [])
  run_calls t (c ∷ cs) = do
    (t', ret) ← tbf_rate_check F H is_full t c
    (last, rets) ← run_calls t' cs
    ok (last, ret ∷ rets)

  -- The table that a call leaves.
  abbrev pub table_after : H.T → Outcome (Option H.T × Bool) → H.T
  table_after t (ok (some t', ret)) = t'
  table_after t _ = t

  -- The table is not full before any of the calls.
  abbrev pub HasRoom : H.T → List (RateCall Rate) → Type 0
  HasRoom t [] = Unit {0}
  HasRoom t (c ∷ cs) =
      (is_full t ≡ false) × HasRoom (table_after t (tbf_rate_check F H is_full (some t) c)) cs

  -- How a call ends that asks for nothing, and one that asks for a bucket.
  abbrev pub IsStep : H.T → RateCall Rate → Option (Key × Rate) → Type 0
  IsStep t c none = (ret : Bool) × (tbf_rate_check F H is_full (some t) c ≡ ok (some t, ret))
  IsStep t c (some (key, rate)) =
      tbf_rate_check F H is_full (some t) c
      ≡ (check_key F H is_full key rate c.now t >>= λ (t', ret). ok (some t', ret))

  abbrev call_of : Option ℕ → Option ℕ → Option Rate → ℕ → ℕ → RateCall Rate
  call_of n b r now stack = record {
    arg_namespace_id = n;
    arg_bucket_id = b;
    arg_rate = r;
    now = now;
    stack = stack;
  }

  rated-IsStep :
      (t : H.T) (n b : ℕ) (rate : Rate) (now stack : ℕ) (zero_rate : Bool)
      → F.is_zero rate ≡ zero_rate
      → let c = call_of (some n) (some b) (some rate) now stack in IsStep t c (asks F c)
  unfolding tbf_rate_check
  rated-IsStep t n b rate now stack true h = rw h (false, rw h refl)
  rated-IsStep t n b rate now stack false h = rw h (rw h refl)

  call_of-IsStep :
      (t : H.T) (n b : Option ℕ) (r : Option Rate) (now stack : ℕ)
      → IsStep t (call_of n b r now stack) (asks F (call_of n b r now stack))
  unfolding tbf_rate_check
  call_of-IsStep t none b r now stack = (true, refl)
  call_of-IsStep t (some n) none r now stack = (true, refl)
  call_of-IsStep t (some n) (some b) none now stack = (true, refl)
  call_of-IsStep t (some n) (some b) (some rate) now stack =
      rated-IsStep t n b rate now stack (F.is_zero rate) refl

  pub IsStep-asks : (t : H.T) (c : RateCall Rate) → IsStep t c (asks F c)
  IsStep-asks t c = call_of-IsStep t c.arg_namespace_id c.arg_bucket_id c.arg_rate c.now c.stack

  -- Where the table is not full, a check does what the key's bucket by itself would do, and
  -- nothing to any other.
  check_key-step :
      (key : Key) (rate : Rate) (now : ℕ) (t : H.T)
      → is_full t ≡ false
      → (t' : H.T) × (check_key F H is_full key rate now t
          ≡ ok (t', (bucket_step F (H.search key t) rate now).1))
        × (H.search key t' ≡ some (bucket_step F (H.search key t) rate now).0)
        × ((j : Key) → key ≢ j → H.search j t' ≡ H.search j t)
  unfolding check_key
  check_key-step key rate now t h = elim (Option-cases (H.search key t)) [
    | inl e ↦
        let b = new_entry F rate now in
        let same = new_entry-bucket_step F rate now in
        (
          H.enter key b t,
          rw (e, h, check_key) (ap (λ (o : Bucket × Bool). ok (H.enter key b t, o.1)) same),
          rw e (H.search-enter_self key b t ∙ ap (λ (o : Bucket × Bool). some o.0) same),
          λ j n. H.search-enter_ne j key b t n,
        )
    | inr (old, e) ↦
        let b = (update_entry F rate now old).0 in
        let same = update_entry-bucket_step F old rate now in
        (
          H.enter key b t,
          rw (e, check_key) (ap (λ (o : Bucket × Bool). ok (H.enter key b t, o.1)) same),
          rw e (H.search-enter_self key b t ∙ ap (λ (o : Bucket × Bool). some o.0) same),
          λ j n. H.search-enter_ne j key b t n,
        )
  ]

  -- A run ends, and one key's bucket and answers are those of its requests alone.
  abbrev pub Refines : Key → H.T → List (RateCall Rate) → Type 0
  Refines k t cs =
      (t' : H.T) × (rets : List Bool) × (run_calls (some t) cs ≡ ok (some t', rets))
      × (H.search k t' ≡ (bucket_run F (H.search k t) (requests F k cs)).0)
      × (answers F k cs rets ≡ (bucket_run F (H.search k t) (requests F k cs)).1)

  Refines-none :
      (k : Key) (t : H.T) (c : RateCall Rate) (cs : List (RateCall Rate)) (ret : Bool)
      → asks F c ≡ none
      → tbf_rate_check F H is_full (some t) c ≡ ok (some t, ret)
      → Refines k t cs
      → Refines k t (c ∷ cs)
  Refines-none k t c cs ret e f r =
      let (t', rets, g, kept, same) = r in (t', ret ∷ rets, rw (f, g) refl, rw e kept, rw e same)

  Refines-own :
      (k j : Key) (t t' : H.T) (c : RateCall Rate) (cs : List (RateCall Rate)) (rate : Rate)
      → asks F c ≡ some (j, rate)
      → same_key j k ≡ true
      → tbf_rate_check F H is_full (some t) c
        ≡ ok (some t', (bucket_step F (H.search j t) rate c.now).1)
      → H.search j t' ≡ some (bucket_step F (H.search j t) rate c.now).0
      → Refines k t' cs
      → Refines k t (c ∷ cs)
  Refines-own k j t t' c cs rate e own f h r =
      let (last, rets, g, kept, same) = r in
      let j≡k = same_key-true j k own in
      let stored = rw j≡k at h in
      (
        last,
        (bucket_step F (H.search j t) rate c.now).1 ∷ rets,
        rw (f, g) refl,
        rw (e, own) (rw stored at kept),
        rw (e, own, j≡k)
            (ap (λ xs. (bucket_step F (H.search k t) rate c.now).1 ∷ xs) (rw stored at same)),
      )

  Refines-other :
      (k j : Key) (t t' : H.T) (c : RateCall Rate) (cs : List (RateCall Rate)) (rate : Rate)
      (ret : Bool)
      → asks F c ≡ some (j, rate)
      → same_key j k ≡ false
      → tbf_rate_check F H is_full (some t) c ≡ ok (some t', ret)
      → H.search k t' ≡ H.search k t
      → Refines k t' cs
      → Refines k t (c ∷ cs)
  Refines-other k j t t' c cs rate ret e other f h r =
      let (last, rets, g, kept, same) = r in
      (last, ret ∷ rets, rw (f, g) refl, rw (e, other) (rw h at kept), rw (e, other) (rw h at same))

  pub check_key-call :
      (c : RateCall Rate) (key : Key) (rate : Rate) (t : H.T)
      → asks F c ≡ some (key, rate)
      → is_full t ≡ false
      → (t' : H.T) × (tbf_rate_check F H is_full (some t) c
          ≡ ok (some t', (bucket_step F (H.search key t) rate c.now).1))
        × (H.search key t' ≡ some (bucket_step F (H.search key t) rate c.now).0)
        × ((j : Key) → key ≢ j → H.search j t' ≡ H.search j t)
  check_key-call c key rate t e h =
      let (t', f, g, other) = check_key-step key rate c.now t h in
      (t', (rw e at (IsStep-asks t c)) ∙ rw f refl, g, other)

  pub HasRoom-after :
      (t t' : H.T) (ret : Bool) (c : RateCall Rate) (cs : List (RateCall Rate))
      → HasRoom t (c ∷ cs)
      → tbf_rate_check F H is_full (some t) c ≡ ok (some t', ret)
      → HasRoom t' cs
  HasRoom-after t t' ret c cs room e = subst (λ o. HasRoom (table_after t o) cs) e room.1

  pub run_calls-Refines :
      (k : Key) (cs : List (RateCall Rate)) (t : H.T) → HasRoom t cs → Refines k t cs
  run_calls-Refines k [] t room = (t, [], refl, refl, refl)
  run_calls-Refines k (c ∷ cs) t room = elim (Option-cases (asks F c)) [
    | inl e ↦
        let (ret, f) = rw e at (IsStep-asks t c) in
        Refines-none k t c cs ret e f (run_calls-Refines k cs t (HasRoom-after t t ret c cs room f))
    | inr ((j, rate), e) ↦
        let (t', f, g, other) = check_key-call c j rate t e room.0 in
        let ret = (bucket_step F (H.search j t) rate c.now).1 in
        let later = run_calls-Refines k cs t' (HasRoom-after t t' ret c cs room f) in
        elim (Bool-cases (same_key j k)) [
          | inl own ↦ Refines-own k j t t' c cs rate e own f g later
          | inr ne ↦
              Refines-other k j t t' c cs rate ret e ne f (other k (same_key-false j k ne)) later
        ]
  ]
