-- ===== src/Resolver/Listing.antt =====
-- The endpoint list after `lnp_endpoints_set`.
use mathlib.Core.List.{append_assoc}
use yeti_pg_ext.Base.{
  Bytes, ℕ, suc, ◌+◌, ◌≤◌, ◌<◌, Bool, true, false, ◌||◌, List, [], ◌∷◌, ◌++◌, Option, none, some,
  ◌≡◌, ◌≢◌, refl, sym, subst, ap, ◌∙◌, inl, inr, arith, ltb, ltb→lt, lt→ltb, leb, ◌==◌, ==_iff,
  Bool-cases, Option-cases, length, length-snoc, get_elem?, get_elem?-length, map,
}
use yeti_pg_ext.Base.Outcome.{ok, >>=-eq-ok}
use yeti_pg_ext.Resolver.Uri.{UriComponents, parse_addr, host_size}
use yeti_pg_ext.Resolver.Address.{HostFits, parse_addr_short}
use yeti_pg_ext.Resolver.Endpoints.{
  Endpoint, State, max_endpoints, max_endpoint_len, add_parsed, after_parse, add_endpoint, set_one,
  set_each, lnp_endpoints_set, ensure_socket, remove_all_endpoints, init_socket, set_timeout,
  default_recv_timeout, get_endpoint_at_index, show_rows, lnp_endpoints_show, lnp_set_timeout,
}

-- The identifiers count from `n` on, and the URLs fit their arrays with a NUL.
abbrev pub IsNumbered : ℕ → List Endpoint → Type 0
IsNumbered n [] = Unit {0}
IsNumbered n (e ∷ es) = (e.id ≡ n) × (length e.url < max_endpoint_len) × IsNumbered (suc n) es

pub record IsListed (st : State) : Type 0 where
  pub within : length st.endpoints ≤ max_endpoints
  pub numbered : IsNumbered 0 st.endpoints

IsNumbered-snoc :
    (n : ℕ) (es : List Endpoint) (e : Endpoint)
    → IsNumbered n es
    → e.id ≡ n + length es
    → length e.url < max_endpoint_len
    → IsNumbered n (es ++ (e ∷ []))
IsNumbered-snoc n [] e h i l = (omega arith, l, tt)
IsNumbered-snoc n (x ∷ es) e h i l = (h.0, h.1, IsNumbered-snoc (suc n) es e h.2 (omega arith) l)

ok_injective {ℓ} : {A : Type ℓ} {a b : A} → ok a ≡ ok b → a ≡ b
ok_injective h = cc

module _ (inet_aton : Bytes → Option ℕ) where
  add_parsed-IsListed :
      (st : State) (uri : Bytes) (comps : UriComponents)
      → IsListed st
      → length st.endpoints ≢ max_endpoints
      → length uri < max_endpoint_len
      → IsListed (add_parsed inet_aton st uri comps)
  unfolding add_parsed
  add_parsed-IsListed st uri comps v n l = elim (Option-cases (inet_aton comps.host)) [
    | inl e ↦ rw (e, add_parsed) v
    | inr (ip, e) ↦
        rw (e, add_parsed)
          (record {
            within = rw (length-snoc st.endpoints) (omega (arith, v.within));
            numbered = IsNumbered-snoc 0 st.endpoints _ v.numbered (omega arith) l;
          })
  ]

  after_parse-IsListed :
      (st st' : State) (uri : Bytes) (r : Option UriComponents)
      → IsListed st
      → length st.endpoints ≢ max_endpoints
      → length uri < max_endpoint_len
      → after_parse inet_aton st uri r ≡ ok st'
      → IsListed st'
  unfolding after_parse
  after_parse-IsListed st st' uri none v n l h = subst IsListed (ok_injective h) v
  after_parse-IsListed st st' uri (some comps) v n l h =
      elim (Bool-cases (leb (length comps.host) host_size)) [
        | inl e ↦ subst IsListed (ok_injective (rw e at h)) (add_parsed-IsListed st uri comps v n l)
        | inr e ↦ cc (rw e at h)
      ]

  add_endpoint-IsListed :
      (st st' : State) (uri : Bytes)
      → IsListed st
      → length uri < max_endpoint_len
      → add_endpoint inet_aton st uri ≡ ok st'
      → IsListed st'
  unfolding add_endpoint
  add_endpoint-IsListed st st' uri v l h =
      elim (Bool-cases (length st.endpoints == max_endpoints)) [
        | inl e ↦ subst IsListed (ok_injective (rw e at h)) v
        | inr e ↦
            let (r, p, s) = >>=-eq-ok _ (parse_addr uri) (rw e at h) in
            after_parse-IsListed st st' uri r v (λ q. cc (e, (==_iff _ _).1 q)) l s
      ]

  set_one-IsListed :
      (st st' : State) (uri : Bytes)
      → IsListed st
      → set_one inet_aton st uri ≡ ok st'
      → IsListed st'
  unfolding set_one
  set_one-IsListed st st' uri v h = elim (Bool-cases (ltb (length uri) max_endpoint_len)) [
    | inl e ↦ add_endpoint-IsListed st st' uri v (ltb→lt _ _ e) (rw e at h)
    | inr e ↦ cc (rw e at h)
  ]

  pub set_each-IsListed :
      (st st' : State) (uris : List (Option Bytes))
      → IsListed st
      → set_each inet_aton st uris ≡ ok st'
      → IsListed st'
  unfolding set_each
  set_each-IsListed st st' [] v h = subst IsListed (ok_injective h) v
  set_each-IsListed st st' (none ∷ uris) v h = set_each-IsListed st st' uris v h
  set_each-IsListed st st' (some uri ∷ uris) v h =
      let (t, p, s) = >>=-eq-ok _ (set_one inet_aton st uri) h in
      set_each-IsListed t st' uris (set_one-IsListed st t uri v p) s

  -- Texts short enough for the array of the host.
  abbrev pub AllShort : List (Option Bytes) → Type 0
  AllShort [] = Unit {0}
  AllShort (none ∷ uris) = AllShort uris
  AllShort (some uri ∷ uris) = (length uri ≤ host_size) × AllShort uris

  after_parse_fits :
      (st : State) (uri : Bytes) (r : Option UriComponents)
      → HostFits r
      → (st' : State) × (after_parse inet_aton st uri r ≡ ok st')
  unfolding after_parse
  after_parse_fits st uri none f = (st, refl)
  after_parse_fits st uri (some comps) f =
      let fits : leb (length comps.host) host_size ≡ true = ground (arith, f) in
      (add_parsed inet_aton st uri comps, rw fits refl)

  set_one_short :
      (st : State) (uri : Bytes)
      → length uri ≤ host_size
      → (st' : State) × (set_one inet_aton st uri ≡ ok st')
  unfolding set_one add_endpoint
  set_one_short st uri h = elim (Bool-cases (length st.endpoints == max_endpoints)) [
    | inl e ↦ (st, rw (lt→ltb (length uri) 128 (omega arith)) (rw e))
    | inr e ↦
        let (r, p, f) = parse_addr_short uri h in
        let (st', q) = after_parse_fits st uri r f in
        (st', rw (lt→ltb (length uri) 128 (omega arith)) (rw e (rw p q)))
  ]

  pub set_each_short :
      (st : State) (uris : List (Option Bytes))
      → AllShort uris
      → (st' : State) × (set_each inet_aton st uris ≡ ok st')
  unfolding set_each
  set_each_short st [] h = (st, refl)
  set_each_short st (none ∷ uris) h = set_each_short st uris h
  set_each_short st (some uri ∷ uris) h =
      let (t, p) = set_one_short st uri h.0 in let (u, q) = set_each_short t uris h.1 in (u, rw p q)

  -- With a socket to be had and texts of at most 64 bytes the call ends, whatever the list was
  -- before, with a list of at most five endpoints that are numbered from 0 on.
  pub lnp_endpoints_set-IsListed :
      (st : State) (input : List (Option Bytes))
      → AllShort input
      → (st' : State) × (lnp_endpoints_set inet_aton true st input ≡ ok st') × IsListed st'
  unfolding lnp_endpoints_set ensure_socket remove_all_endpoints
  lnp_endpoints_set-IsListed st input h =
      let fresh : (s : State) → IsListed (remove_all_endpoints s) =
        λ s. record { within = omega arith; numbered = tt } in
      elim (Bool-cases st.socket_open) [
        | inl e ↦
            let (u, p) = set_each_short (remove_all_endpoints st) input h in
            (u, ground (arith, p), set_each-IsListed _ u input (fresh st) p)
        | inr e ↦
            let s = set_timeout (record st { socket_open = true }) default_recv_timeout in
            let (u, p) = set_each_short (remove_all_endpoints s) input h in
            (u, unfold init_socket in ground (arith, p), set_each-IsListed _ u input (fresh s) p)
      ]

  abbrev pub has_long : List (Option Bytes) → Bool
  has_long [] = false
  has_long (none ∷ uris) = has_long uris
  has_long (some uri ∷ uris) = leb max_endpoint_len (length uri) || has_long uris

abbrev pub row : Endpoint → ℕ × Bytes
row e = (e.id, e.url)

show_rows-map :
    (st : State) (pre es : List Endpoint)
    → st.endpoints ≡ pre ++ es
    → show_rows st (length es) (length pre) ≡ map row es
unfolding show_rows get_endpoint_at_index
show_rows-map st pre [] h = refl
show_rows-map st pre (e ∷ es) h =
    let here : get_elem? st.endpoints (length pre) ≡ some e =
      ap (λ l. get_elem? l (length pre)) h ∙ get_elem?-length pre es e in
    let later = show_rows-map st (pre ++ (e ∷ [])) es (h ∙ sym (append_assoc pre (e ∷ []) es)) in
    rw (here, show_rows) (ap (◌∷◌ (row e)) (rw (length-snoc pre e) at later))

-- The rows shown are the endpoints, in order.
pub lnp_endpoints_show-map : (st : State) → lnp_endpoints_show st ≡ map row st.endpoints
unfolding lnp_endpoints_show
lnp_endpoints_show-map st = show_rows-map st [] st.endpoints refl

-- With a socket to be had, open or not before, `lnp_set_timeout` ends with the socket open and its
-- timeout set, and changes nothing else.
pub lnp_set_timeout_lem :
    (st : State) (t : ℕ)
    → lnp_set_timeout true st t ≡ ok (record st { socket_open = true; recv_timeout = t })
unfolding lnp_set_timeout ensure_socket init_socket set_timeout
lnp_set_timeout_lem st t = elim (Bool-cases st.socket_open) [ inl e ↦ rw e | inr e ↦ rw e ]
