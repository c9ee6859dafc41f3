-- ===== src/Resolver/Setting.antt =====
-- The functions that set the endpoints and the timeouts, on variables that are well.
use yeti_pg_ext.Base.{
  Bytes, ℕ, Bool, List, [], ◌∷◌, Option, none, some, ◌≡◌, ◌≢◌, refl, subst, ◌∙◌, inl, inr, arith,
  ltb, leb, ◌==◌, Bool-cases, Option-cases, length,
}
use yeti_pg_ext.Base.Outcome.{ok, fault, >>=-eq-ok, Outcome-cases}
use yeti_pg_ext.Resolver.Uri.{UriComponents, host_size, parse_addr}
use yeti_pg_ext.Resolver.Endpoints.{
  State, max_endpoints, max_endpoint_len, add_parsed, after_parse, add_endpoint, set_one, set_each,
  remove_all_endpoints, set_timeout, init_socket, ensure_socket, lnp_set_timeout,
  lnp_set_rtt_timeout, lnp_endpoints_set,
}
use yeti_pg_ext.Resolver.Listing.{IsListed, AllShort, set_each-IsListed, set_each_short}
use yeti_pg_ext.Resolver.Steady.{IsWell}

-- The same but for the socket and the timeouts.
record IsAlike (st st' : State) : Type 0 where
  same_list : st'.endpoints ≡ st.endpoints
  same_index : st'.curr_endpoint_index ≡ st.curr_endpoint_index
  same_id : st'.req_id ≡ st.req_id

IsAlike-IsWell : (st st' : State) → IsAlike st st' → IsWell st → IsWell st'
IsAlike-IsWell st st' a w = record {
  listed = record {
    within = rw a.same_list w.listed.within;
    numbered = rw a.same_list w.listed.numbered;
  };
  indexed = rw (a.same_list, a.same_index) w.indexed;
  numbered = rw a.same_id w.numbered;
}

alike : (st : State) → IsAlike st st
alike st = record { same_list = refl; same_index = refl; same_id = refl }

set_timeout-IsAlike : (st : State) (t : ℕ) → IsAlike st (set_timeout st t)
unfolding set_timeout
set_timeout-IsAlike st t = elim (Bool-cases st.socket_open) [
  | inl e ↦ simp e (record { same_list = refl; same_index = refl; same_id = refl })
  | inr e ↦ simp e (alike st)
]

ensure_socket-IsAlike :
    (got : Bool) (st st' : State) → ensure_socket got st ≡ ok st' → IsAlike st st'
unfolding ensure_socket init_socket set_timeout
ensure_socket-IsAlike got st st' h = record {
  same_list = ground arith;
  same_index = ground arith;
  same_id = ground arith;
}

ensure_socket-ne-fault : (got : Bool) (st : State) → ensure_socket got st ≢ fault
unfolding ensure_socket init_socket
ensure_socket-ne-fault got st h = ground arith

pub lnp_set_timeout-IsWell :
    (got : Bool) (st st' : State) (t : ℕ)
    → IsWell st
    → lnp_set_timeout got st t ≡ ok st'
    → IsWell st'
unfolding lnp_set_timeout
lnp_set_timeout-IsWell got st st' t w h =
    let (s, e, k) = >>=-eq-ok _ (ensure_socket got st) h in
    let same : set_timeout s t ≡ st' = cc in
    subst IsWell same (
      IsAlike-IsWell s (set_timeout s t) (set_timeout-IsAlike s t)
        (IsAlike-IsWell st s (ensure_socket-IsAlike got st s e) w))

pub lnp_set_timeout-ne-fault : (got : Bool) (st : State) (t : ℕ) → lnp_set_timeout got st t ≢ fault
unfolding lnp_set_timeout
lnp_set_timeout-ne-fault got st t = elim (Outcome-cases (ensure_socket got st)) [
  | inl (s, e) ↦ rw e (λ q. cc)
  | inr (inl e) ↦ rw e (λ q. cc)
  | inr (inr e) ↦ absurd (ensure_socket-ne-fault got st e)
]

pub lnp_set_rtt_timeout-IsWell :
    (st : State) (t : ℕ) → IsWell st → IsWell (lnp_set_rtt_timeout st t)
unfolding lnp_set_rtt_timeout
lnp_set_rtt_timeout-IsWell st t w =
    IsAlike-IsWell st (record st { rtt_timeout = t })
      (record { same_list = refl; same_index = refl; same_id = refl }) w

module _ (inet_aton : Bytes → Option ℕ) where
  -- The index and the request number stay.
  abbrev Keeps : State → State → Type 0
  Keeps st st' = (st'.curr_endpoint_index ≡ st.curr_endpoint_index) × (st'.req_id ≡ st.req_id)

  add_parsed-Keeps :
      (st : State) (uri : Bytes) (comps : UriComponents)
      → Keeps st (add_parsed inet_aton st uri comps)
  unfolding add_parsed
  add_parsed-Keeps st uri comps = elim (Option-cases (inet_aton comps.host)) [
    | inl e ↦ rw (e, add_parsed) (refl, refl)
    | inr (ip, e) ↦ rw (e, add_parsed) (refl, refl)
  ]

  set_one-Keeps : (st st' : State) (uri : Bytes) → set_one inet_aton st uri ≡ ok st' → Keeps st st'
  unfolding set_one add_endpoint after_parse
  set_one-Keeps st st' uri h = elim (Bool-cases (ltb (length uri) max_endpoint_len)) [
    | inr long ↦ cc (rw long at h)
    | inl short ↦ elim (Bool-cases (length st.endpoints == max_endpoints)) [
      | inl full ↦
          let same : st ≡ st' = cc (rw full at (rw short at h)) in
          subst (Keeps st) same (refl, refl)
      | inr room ↦
          let (r, p, s) = >>=-eq-ok _ (parse_addr uri) (rw room at (rw short at h)) in kept r s
    ]
  ]
    where
      kept : (r : Option UriComponents) → after_parse inet_aton st uri r ≡ ok st' → Keeps st st'
      kept none e = let same : st ≡ st' = cc in subst (Keeps st) same (refl, refl)
      kept (some comps) e = elim (Bool-cases (leb (length comps.host) host_size)) [
        | inl fits ↦
            let same : add_parsed inet_aton st uri comps ≡ st' = cc (rw fits at e) in
            subst (Keeps st) same (add_parsed-Keeps st uri comps)
        | inr long ↦ cc (rw long at e)
      ]

  set_each-Keeps :
      (st st' : State) (uris : List (Option Bytes))
      → set_each inet_aton st uris ≡ ok st'
      → Keeps st st'
  unfolding set_each
  set_each-Keeps st st' [] h = let same : st ≡ st' = cc in subst (Keeps st) same (refl, refl)
  set_each-Keeps st st' (none ∷ uris) h = set_each-Keeps st st' uris h
  set_each-Keeps st st' (some uri ∷ uris) h =
      let (t, p, s) = >>=-eq-ok _ (set_one inet_aton st uri) h in
      let (a, b) = set_one-Keeps st t uri p in
      let (c, d) = set_each-Keeps t st' uris s in (c ∙ a, d ∙ b)

  -- Whatever texts were given: a list that lnp_endpoints_set ends in is well.
  pub lnp_endpoints_set-IsWell :
      (got : Bool) (st st' : State) (input : List (Option Bytes))
      → IsWell st
      → lnp_endpoints_set inet_aton got st input ≡ ok st'
      → IsWell st'
  unfolding lnp_endpoints_set remove_all_endpoints
  lnp_endpoints_set-IsWell got st st' input w h =
      let (s, e, k) = >>=-eq-ok _ (ensure_socket got st) h in
      let fresh : IsListed (remove_all_endpoints s) = record {
        within = omega arith;
        numbered = tt;
      } in
      let (a, b) = set_each-Keeps (remove_all_endpoints s) st' input k in
      let alike = ensure_socket-IsAlike got st s e in
      record {
        listed = set_each-IsListed inet_aton (remove_all_endpoints s) st' input fresh k;
        indexed = inl a;
        numbered = rw (b ∙ alike.same_id) w.numbered;
      }

  -- Texts of at most 64 bytes make no access out of bounds.
  pub lnp_endpoints_set-ne-fault :
      (got : Bool) (st : State) (input : List (Option Bytes))
      → AllShort inet_aton input
      → lnp_endpoints_set inet_aton got st input ≢ fault
  unfolding lnp_endpoints_set
  lnp_endpoints_set-ne-fault got st input h = elim (Outcome-cases (ensure_socket got st)) [
    | inl (s, e) ↦
        let (u, p) = set_each_short inet_aton (remove_all_endpoints s) input h in
        rw e (rw p (λ q. cc))
    | inr (inl e) ↦ rw e (λ q. cc)
    | inr (inr e) ↦ absurd (ensure_socket-ne-fault got st e)
  ]
