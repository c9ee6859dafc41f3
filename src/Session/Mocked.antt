-- ===== src/Session/Mocked.antt =====
-- The answers that were set in a session, as a map, and what a lookup gives.
use yeti_pg_ext.Base.{Bytes, ℕ, Bool, Option, none, some, ◌≡◌, refl, sym, ap, subst}
use yeti_pg_ext.Base.Outcome.{Outcome, ok, error, fault}
use yeti_pg_ext.Cache
use yeti_pg_ext.Cache.{Entry}
use yeti_pg_ext.Cache.Table.{HashTable}
use yeti_pg_ext.Cache.Laws.{IsKey}
use yeti_pg_ext.Cache.Contents.{Contents, store_op, no_contents, map_step, OpFits, Holds}
use yeti_pg_ext.Cache.Contents.Refinement.{none-Holds, store-Holds}
use yeti_pg_ext.Resolver.Resolve.{World, Call, resolve}
use yeti_pg_ext.Lookup.{Ending, gave, asking, cnam_result, tagged_result, error_row_result}
use yeti_pg_ext.Lookup.Laws.{mocked_cnam, mocked_row, mocked_error_row}
use yeti_pg_ext.Lookup.Mocked.{
  mocked_or, lnp_resolve_cnam-Holds, lnp_resolve_tagged-Holds, lnp_resolve_tagged_with_error-Holds,
}
use yeti_pg_ext.Tbf.{Key, Bucket, Floats, Hooks}
use yeti_pg_ext.Extension.{Process, pg_init, init_resolver}
use yeti_pg_ext.Session.{
  Command, lnp_resolve_cnam, lnp_resolve_tagged, lnp_resolve_tagged_with_error,
  lnp_endpoints_cache_set, lnp_endpoints_set, lnp_endpoints_show, lnp_set_timeout,
  lnp_set_rtt_timeout, tbf_rate_check, Value, text_value, row_value, error_row_value, loaded,
  settle, call_of, looked_up, execute, run, Reach, here, ran, elsewhere,
}

-- A call's effect on the map.
abbrev pub noted : {Rate : Type 0} → Command Rate → Contents → Contents
noted (lnp_endpoints_cache_set key response is_error) m =
    (map_step m (store_op key response is_error)).0
noted _ m = m

abbrev pub IsKept : {Rate : Type 0} → Command Rate → Type 0
IsKept (lnp_endpoints_cache_set key response is_error) = OpFits (store_op key response is_error)
IsKept _ = Unit {0}

module _ {Rate : Type 0} (F : Floats Rate) (H : HashTable Bytes Entry) (T : HashTable Key Bucket)
    (is_full : T.T → Bool) (inet_aton : Bytes → Option ℕ) where
  -- The answers that were set on the way to a state.
  abbrev pub mocks : {p q : Process H T} → Reach F H T is_full inet_aton p q → Contents
  mocks here = no_contents
  mocks (ran s e before below done alive) = noted s.command (mocks before)
  mocks (elsewhere t before same) = mocks before

  -- Each of them is kept whole, under a key of at most 256 bytes, with no NUL in either.
  abbrev pub AllKept : {p q : Process H T} → Reach F H T is_full inet_aton p q → Type 0
  AllKept here = Unit {0}
  AllKept (ran s e before below done alive) = AllKept before × IsKept s.command
  AllKept (elsewhere t before same) = AllKept before

  settle-Holds :
      {A : Type 0} (p : Process H T) (o : Outcome A) (f : A → Value × Process H T) (m : Contents)
      → Holds H p.cache m
      → ((a : A) → Holds H (f a).1.cache m)
      → Holds H (settle F H T is_full inet_aton p o f).1.cache m
  settle-Holds p (ok a) f m h k = k a
  settle-Holds p error f m h k = h
  settle-Holds p fault f m h k = h

  execute-Holds :
      (p : Process H T) (w : World) (got : Bool) (c : Command Rate) (m : Contents)
      → Holds H p.cache m
      → IsKept c
      → Holds H (execute F H T is_full inet_aton p w got c).1.cache (noted c m)
  unfolding execute Cache.lnp_endpoints_cache_set
  execute-Holds p w got (lnp_resolve_cnam db_id payload) m h k = h
  execute-Holds p w got (lnp_resolve_tagged db_id payload) m h k = h
  execute-Holds p w got (lnp_resolve_tagged_with_error db_id payload) m h k = h
  execute-Holds p w got (lnp_endpoints_cache_set key response is_error) m h k =
      let (cache, e, i) = store-Holds H p.cache m key response is_error h k in rw e i
  execute-Holds p w got (lnp_endpoints_set input) m h k = settle-Holds p _ _ m h (λ st. h)
  execute-Holds p w got lnp_endpoints_show m h k = h
  execute-Holds p w got (lnp_set_timeout t) m h k = settle-Holds p _ _ m h (λ st. h)
  execute-Holds p w got (lnp_set_rtt_timeout t) m h k = h
  execute-Holds p w got (tbf_rate_check c) m h k = settle-Holds p _ _ m h (λ a. h)

  loaded-Holds :
      (preloading : Bool) (time : ℕ) (hooks : Hooks)
      → Holds H (loaded F H T is_full inet_aton preloading time hooks).cache no_contents
  unfolding pg_init init_resolver
  loaded-Holds preloading time hooks = none-Holds H

  Reach-Holds :
      {p q : Process H T} (r : Reach F H T is_full inet_aton p q)
      → Holds H p.cache no_contents
      → AllKept r
      → Holds H q.cache (mocks r)
  unfolding run
  Reach-Holds here h k = h
  Reach-Holds (ran {q} s e before below done alive) h (k, i) =
      subst (λ (c : Option H.T). Holds H c (noted s.command (mocks before)))
        (ap (λ (o : Ending Value × Process H T). o.1.cache) done)
        (execute-Holds q s.world s.got_socket s.command (mocks before) (Reach-Holds before h k) i)
  Reach-Holds (elsewhere t before same) h k =
      subst (λ (q : Process H T). Holds H q.cache (mocks before)) (sym same)
        (Reach-Holds before h k)

  looked_up-mocked_or :
      {A : Type 0} (q : Process H T) (w : World) (f : A → Value) (a : Option (Bytes × Bool))
      (g : Bool → Bytes → A) (asked : Ending A × Call)
      → looked_up F H T is_full inet_aton q f
          (mocked_or a (λ b s. (gave (g b s), call_of F H T is_full inet_aton q w)) asked)
        ≡ mocked_or a (λ b s. (gave (f (g b s)), q)) (looked_up F H T is_full inet_aton q f asked)
  looked_up-mocked_or q w f none g asked = refl
  looked_up-mocked_or q w f (some (s, b)) g asked = refl

  -- The call of `resolve` for a request.
  abbrev pub question : Process H T → World → ℕ → ℕ → Bytes → Call
  question q w type db_id payload = asking (call_of F H T is_full inet_aton q w) type db_id payload

  -- A lookup in the process.
  abbrev pub ask : Command Rate → World → Bool → Process H T → Ending Value × Process H T
  ask c w got q =
      run F H T is_full inet_aton q (record { command = c; world = w; got_socket = got })

  -- Whatever was called since the extension was loaded, and whatever other processes did: if every
  -- answer that was set in the session is kept whole, under a key of at most 256 bytes, with no NUL
  -- in either, then a lookup of such a key gives the answer that was set for it last, as a result
  -- or as an error, and leaves all variables as they were; if none was set for it, each of the
  -- three functions gives what it makes of the answer of `resolve`.
  pub ask-mocks :
      (preloading : Bool) (time : ℕ) (hooks : Hooks) (q : Process H T)
      (r : Reach F H T is_full inet_aton (loaded F H T is_full inet_aton preloading time hooks) q)
      (w : World) (got : Bool) (db_id : ℕ) (payload : Bytes)
      → AllKept r
      → IsKey payload
      → (ask (lnp_resolve_cnam db_id payload) w got q
          ≡ mocked_or
              ((mocks r).answer payload)
              (λ b s. (gave (text_value (mocked_cnam H b s)), q))
              (let (a, c) = resolve (question q w 1 db_id payload) in
                looked_up F H T is_full inet_aton q text_value (cnam_result a, c)))
        × (ask (lnp_resolve_tagged db_id payload) w got q
            ≡ mocked_or
                ((mocks r).answer payload)
                (λ b s. (gave (row_value (mocked_row H b s)), q))
                (let (a, c) = resolve (question q w 0 db_id payload) in
                  looked_up F H T is_full inet_aton q row_value (tagged_result a, c)))
        × (ask (lnp_resolve_tagged_with_error db_id payload) w got q
            ≡ mocked_or
                ((mocks r).answer payload)
                (λ b s. (gave (error_row_value (mocked_error_row H b s)), q))
                (let (a, c) = resolve (question q w 0 db_id payload) in
                  looked_up F H T is_full inet_aton q error_row_value (error_row_result a, c)))
  unfolding run execute
  ask-mocks preloading time hooks q r w got db_id payload k l =
      let h = Reach-Holds r (loaded-Holds preloading time hooks) k in
      let c = call_of F H T is_full inet_aton q w in
      let a = (mocks r).answer payload in
      (
        rw (lnp_resolve_cnam-Holds H q.cache (mocks r) c db_id payload h l)
            (looked_up-mocked_or q w text_value a (mocked_cnam H) _),
        rw (lnp_resolve_tagged-Holds H q.cache (mocks r) c db_id payload h l)
            (looked_up-mocked_or q w row_value a (mocked_row H) _),
        rw (lnp_resolve_tagged_with_error-Holds H q.cache (mocks r) c db_id payload h l)
            (looked_up-mocked_or q w error_row_value a (mocked_error_row H) _),
      )
