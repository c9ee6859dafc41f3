-- ===== src/Session/Safety.antt =====
-- Which calls make no access out of bounds.
use yeti_pg_ext.Base.{
  Bytes, ℕ, ◌^◌, ◌<◌, Bool, none, some, Option, ◌≢◌, refl, inl, inr, arith, Option-cases,
}
use yeti_pg_ext.Base.Outcome.{Outcome, ok, error, fault, Outcome-cases}
use yeti_pg_ext.Cache.{Entry}
use yeti_pg_ext.Cache.Table.{HashTable}
use yeti_pg_ext.Cache.Readable.{IsStorable}
use yeti_pg_ext.Cache.Alive.{lnp_endpoints_cache_set-ok}
use yeti_pg_ext.Resolver.Resolve.{World}
use yeti_pg_ext.Resolver.Listing.{AllShort}
use yeti_pg_ext.Resolver.Steady.{AllFit}
use yeti_pg_ext.Resolver.Setting.{lnp_endpoints_set-ne-fault, lnp_set_timeout-ne-fault}
use yeti_pg_ext.Lookup.{Ending, gave, stopped, crashed, blocked}
use yeti_pg_ext.Lookup.Safe.{
  lnp_resolve_cnam-LookedUp, lnp_resolve_tagged-LookedUp, lnp_resolve_tagged_with_error-LookedUp,
}
use yeti_pg_ext.Tbf
use yeti_pg_ext.Tbf.{Key, Bucket, Floats, RateCall, Hooks, check_key}
use yeti_pg_ext.Tbf.Requests.{asks}
use yeti_pg_ext.Tbf.Runs.{IsStep, IsStep-asks}
use yeti_pg_ext.Extension.{Process}
use yeti_pg_ext.Session.{
  Command, lnp_resolve_cnam, lnp_resolve_tagged, lnp_resolve_tagged_with_error,
  lnp_endpoints_cache_set, lnp_endpoints_set, lnp_endpoints_show, lnp_set_timeout,
  lnp_set_rtt_timeout, tbf_rate_check, Statement, Value, loaded, give, settle, call_of, execute,
  run, Reach,
}
use yeti_pg_ext.Session.Sound.{IsSound, pg_init-IsSound}

give-ne-crashed {ℓ} : {A : Type ℓ} (f : A → Value) (e : Ending A) → e ≢ crashed → give f e ≢ crashed
give-ne-crashed f (gave a) n = λ q. cc
give-ne-crashed f stopped n = λ q. cc
give-ne-crashed f crashed n = absurd (n refl)
give-ne-crashed f blocked n = λ q. cc

module _ {Rate : Type 0} (F : Floats Rate) (H : HashTable Bytes Entry) (T : HashTable Key Bucket)
    (is_full : T.T → Bool) where
  check_key-ne-fault :
      (key : Key) (rate : Rate) (now : ℕ) (t : T.T) → check_key F T is_full key rate now t ≢ fault
  unfolding check_key
  check_key-ne-fault key rate now t = elim (Option-cases (T.search key t)) [
    | inl n ↦ rw (n, check_key) (ground arith)
    | inr (b, e) ↦ rw (e, check_key) (λ q. cc)
  ]

  IsStep-ne-fault :
      (t : T.T) (c : RateCall Rate) (asked : Option (Key × Rate))
      → IsStep F T is_full t c asked
      → Tbf.tbf_rate_check F T is_full (some t) c ≢ fault
  IsStep-ne-fault t c none (ret, e) = rw e (λ q. cc)
  IsStep-ne-fault t c (some (key, rate)) e =
      rw e (elim (Outcome-cases (check_key F T is_full key rate c.now t)) [
        | inl (r, k) ↦ rw k (λ q. cc)
        | inr (inl k) ↦ rw k (λ q. cc)
        | inr (inr k) ↦ absurd (check_key-ne-fault key rate c.now t k)
      ])

  tbf_rate_check-ne-fault :
      (m : Option T.T) (c : RateCall Rate) → Tbf.tbf_rate_check F T is_full m c ≢ fault
  tbf_rate_check-ne-fault none c = unfold Tbf.tbf_rate_check in λ q. cc
  tbf_rate_check-ne-fault (some t) c = IsStep-ne-fault t c (asks F c) (IsStep-asks F T is_full t c)

  module _ (inet_aton : Bytes → Option ℕ) where
    -- The arguments that a call stands: answers that can be stored, texts that fit, and datagrams
    -- that leave room for a NUL.
    abbrev pub Stands : World → Command Rate → Type 0
    Stands w (lnp_resolve_cnam db_id payload) = AllFit w.recvs
    Stands w (lnp_resolve_tagged db_id payload) = AllFit w.recvs
    Stands w (lnp_resolve_tagged_with_error db_id payload) = AllFit w.recvs
    Stands w (lnp_endpoints_cache_set key response is_error) = IsStorable response is_error
    Stands w (lnp_endpoints_set input) = AllShort inet_aton input
    Stands w _ = Unit {0}

    settle-ne-crashed :
        {A : Type 0} (p : Process H T) (o : Outcome A) (f : A → Value × Process H T)
        → o ≢ fault
        → (settle F H T is_full inet_aton p o f).0 ≢ crashed
    settle-ne-crashed p (ok a) f n = λ q. cc
    settle-ne-crashed p error f n = λ q. cc
    settle-ne-crashed p fault f n = absurd (n refl)

    execute-ne-crashed :
        (p : Process H T) (w : World) (got : Bool) (c : Command Rate)
        → IsSound F H T is_full inet_aton p
        → w.rand < 2 ^ 32
        → Stands w c
        → (execute F H T is_full inet_aton p w got c).0 ≢ crashed
    unfolding execute
    execute-ne-crashed p w got (lnp_resolve_cnam db_id payload) h r s =
        let looked =
          lnp_resolve_cnam-LookedUp H p.cache (call_of F H T is_full inet_aton p w) db_id payload
            h.well r in
        give-ne-crashed _ _ (looked.2 h.readable s)
    execute-ne-crashed p w got (lnp_resolve_tagged db_id payload) h r s =
        let looked =
          lnp_resolve_tagged-LookedUp H p.cache (call_of F H T is_full inet_aton p w) db_id payload
            h.well r in
        give-ne-crashed _ _ (looked.2 h.readable s)
    execute-ne-crashed p w got (lnp_resolve_tagged_with_error db_id payload) h r s =
        let looked =
          lnp_resolve_tagged_with_error-LookedUp H p.cache (call_of F H T is_full inet_aton p w)
            db_id payload h.well r in
        give-ne-crashed _ _ (looked.2 h.readable s)
    execute-ne-crashed p w got (lnp_endpoints_cache_set key response is_error) h r s =
        let (cache, e) = lnp_endpoints_cache_set-ok H p.cache key response is_error h.readable s in
        settle-ne-crashed p _ _ (rw e (λ q. cc))
    execute-ne-crashed p w got (lnp_endpoints_set input) h r s =
        settle-ne-crashed p _ _ (lnp_endpoints_set-ne-fault inet_aton got p.resolver input s)
    execute-ne-crashed p w got lnp_endpoints_show h r s = λ q. cc
    execute-ne-crashed p w got (lnp_set_timeout t) h r s =
        settle-ne-crashed p _ _ (lnp_set_timeout-ne-fault got p.resolver t)
    execute-ne-crashed p w got (lnp_set_rtt_timeout t) h r s = λ q. cc
    execute-ne-crashed p w got (tbf_rate_check c) h r s =
        settle-ne-crashed p _ _ (tbf_rate_check-ne-fault p.tbf c)

    -- Whatever was called since the extension was loaded, with any arguments that did not crash the
    -- process: no call of a function that keeps state makes an access out of bounds, if an answer
    -- it stores has less than 2048 bytes or no error flag, the texts of an endpoint list have at
    -- most 64 bytes, and the datagrams that a lookup gets have less than 2048.
    pub run-ne-crashed :
        (preloading : Bool) (time : ℕ) (hooks : Hooks) (q : Process H T) (s : Statement Rate)
        → Reach F H T is_full inet_aton (loaded F H T is_full inet_aton preloading time hooks) q
        → s.world.rand < 2 ^ 31
        → Stands s.world s.command
        → (run F H T is_full inet_aton q s).0 ≢ crashed
    unfolding run
    run-ne-crashed preloading time hooks q s r below fits =
        execute-ne-crashed q s.world s.got_socket s.command
          (pg_init-IsSound F H T is_full inet_aton preloading time hooks q r) (omega arith) fits
