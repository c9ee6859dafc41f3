-- ===== src/Tbf/Room.antt =====
-- A table that is full at a number of entries has room for as many calls as entries are left.
use yeti_pg_ext.Base.{
  ℕ, suc, ◌+◌, ◌≤◌, Bool, List, [], ◌∷◌, some, leb, length, inl, inr, arith, Bool-cases,
  Option-cases,
}
use yeti_pg_ext.Base.Outcome.{ok, ◌>>=◌}
use yeti_pg_ext.Cache.Table.{HashTable}
use yeti_pg_ext.Tbf.{
  Key, Bucket, Floats, RateCall, new_entry, update_entry, check_key, tbf_rate_check,
}
use yeti_pg_ext.Tbf.Requests.{asks}
use yeti_pg_ext.Tbf.Runs.{table_after, HasRoom, IsStep-asks}

module _ {Rate : Type 0} (F : Floats Rate) (H : HashTable Key Bucket) (capacity : ℕ)
    (grows : (k : Key) (b : Bucket) (t : H.T)
      → length (H.entries (H.enter k b t)) ≤ suc (length (H.entries t))) where
  abbrev pub is_full_at : H.T → Bool
  is_full_at t = leb capacity (length (H.entries t))

  check_key-le :
      (key : Key) (rate : Rate) (now : ℕ) (t : H.T)
      → length (
          H.entries (
            table_after F H is_full_at t
              (check_key F H is_full_at key rate now t >>= λ (t', ret). ok (some t', ret))))
        ≤ suc (length (H.entries t))
  unfolding check_key
  check_key-le key rate now t = elim (Option-cases (H.search key t)) [
    | inl e ↦ elim (Bool-cases (is_full_at t)) [
      | inl full ↦ rw (e, check_key) (rw full (omega arith))
      | inr room ↦ rw (e, check_key) (rw room (grows key (new_entry F rate now) t))
    ]
    | inr (b, e) ↦ rw (e, check_key) (grows key (update_entry F rate now b).0 t)
  ]

  table_after-le :
      (c : RateCall Rate) (t : H.T)
      → length (H.entries (table_after F H is_full_at t (tbf_rate_check F H is_full_at (some t) c)))
        ≤ suc (length (H.entries t))
  table_after-le c t = elim (Option-cases (asks F c)) [
    | inl e ↦ let (ret, f) = rw e at (IsStep-asks F H is_full_at t c) in rw f (omega arith)
    | inr ((key, rate), e) ↦
        rw (rw e at (IsStep-asks F H is_full_at t c)) (check_key-le key rate c.now t)
  ]

  -- Calls that are no more than the entries left.
  pub HasRoom-entries :
      (cs : List (RateCall Rate)) (t : H.T)
      → length (H.entries t) + length cs ≤ capacity
      → HasRoom F H is_full_at t cs
  HasRoom-entries [] t h = tt
  HasRoom-entries (c ∷ cs) t h = (
    ground (arith, h),
    HasRoom-entries cs (table_after F H is_full_at t (tbf_rate_check F H is_full_at (some t) c))
        (omega (arith, h, table_after-le c t)),
  )
