-- ===== src/Resolver/Delivery.antt =====
-- `resolve` past silent endpoints, up to one that sends something.
use native.Mathlib.Nat.{mod-lt, mod-eq_of_lt, mod-add-mod}
use yeti_pg_ext.Base.{ℕ, zero, suc, ◌+◌, ◌%◌, ◌<◌, List, ◌++◌, ◌≡◌, sym, ap, ◌∙◌, arith, length}
use yeti_pg_ext.Resolver.Listing.{IsNumbered}
use yeti_pg_ext.Resolver.Resolve.{Reply, Call, next_index, move_next, receive, attempts, resolve}
use yeti_pg_ext.Resolver.Turns.{resolve_in_range}
use yeti_pg_ext.Resolver.Rounds.{tour, at_index, asked, attempts-turn}
use yeti_pg_ext.Resolver.Served.{
  request_behind, IsServed, tour_next, silent_turn, ready_turn, attempts-over, move_next-IsServed,
}

moved_on :
    (k size size' i j : ℕ)
    → size' ≡ size
    → j ≡ (i + 1) % size
    → (j + k) % size' ≡ (i + suc k) % size
moved_on k size size' i j e f =
    rw (e, f)
      (mod-add-mod (i + 1) size k
        ∙ ap (λ n. n % size) {x = i + 1 + k} {y = i + suc k} (omega arith))

-- The list is as it was, and the index is `k` endpoints on.
abbrev pub IsMoved : ℕ → Call → Call → Type 0
IsMoved k c c' =
    (c'.st.endpoints ≡ c.st.endpoints)
    × (c'.st.curr_endpoint_index ≡ (c.st.curr_endpoint_index + k) % length c.st.endpoints)

module _ (n : ℕ) (sends polls : List Reply) where
  -- Behind `k` silent endpoints the datagrams are read, for the request that the next one got.
  abbrev Delivers : ℕ → ℕ → Call → Type 0
  Delivers left k c =
      (c' : Call) × (attempts left c ≡ ((receive (request_behind k c) c.world.recvs).0, c'))
      × (asked c' ≡ asked c ++ tour (length c.st.endpoints) (suc k) c.st.curr_endpoint_index)
      × IsMoved k c c'

  attempts-Delivers :
      (k left : ℕ) (c : Call)
      → k < left
      → IsNumbered 0 c.st.endpoints
      → c.st.curr_endpoint_index < length c.st.endpoints
      → IsServed k n sends polls c
      → Delivers left k c
  attempts-Delivers k zero c h i l s = absurd (omega arith)
  attempts-Delivers zero (suc left) c h i l s =
      let (ep, p, q) = at_index 0 c.st.curr_endpoint_index c.st.endpoints i l in
      let (c', e, a, same_list, same_index) = ready_turn n sends polls c ep s in
      let place : ep.id ≡ c.st.curr_endpoint_index = q ∙ omega arith in
      (
        c',
        attempts-over n sends polls left c c' ep _ p e,
        a ∙ rw place,
        (same_list, same_index ∙ omega arith ∙ sym (mod-eq_of_lt (omega arith))),
      )
  attempts-Delivers (suc k) (suc left) c h i l s =
      let (ep, p, q) = at_index 0 c.st.curr_endpoint_index c.st.endpoints i l in
      let (c1, e, s1, same_list, same_index, same_req, same_recvs, a1) =
        silent_turn n sends polls k c ep s in
      let c2 = record c1 { st = move_next c1.st } in
      let size = length c.st.endpoints in
      let list : c2.st.endpoints ≡ c.st.endpoints = unfold move_next in same_list in
      let index : c2.st.curr_endpoint_index ≡ (c.st.curr_endpoint_index + 1) % size =
        unfold move_next next_index in rw (same_index, same_list) in
      let bound : c2.st.curr_endpoint_index < length c2.st.endpoints =
        rw (list, index) (mod-lt (c.st.curr_endpoint_index + 1) (omega arith)) in
      let request : request_behind k c2 ≡ request_behind (suc k) c = unfold move_next in same_req in
      let (c', r, a, (final_list, final_index)) =
        attempts-Delivers k left c2 (omega arith) (rw list i) bound
          (move_next-IsServed n sends polls k c1 s1) in
      let place : ep.id ≡ c.st.curr_endpoint_index = q ∙ omega arith in
      (
        c',
        attempts-turn left c c1 ep p e ∙ r ∙ rw (request, same_recvs),
        a
            ∙ tour_next k size (length c2.st.endpoints) c.st.curr_endpoint_index
                c2.st.curr_endpoint_index (asked c) (asked c2) (a1 ∙ rw place) (ap length list)
                index,
        (
          final_list ∙ list,
          final_index
              ∙ moved_on k size (length c2.st.endpoints) c.st.curr_endpoint_index
                  c2.st.curr_endpoint_index (ap length list) index,
        ),
      )

  -- If, from the current endpoint on, `k` take the message and are silent until the timeout and the
  -- next one takes it and something is there to read, `resolve` asks these `k + 1`, in cyclic order,
  -- and ends in what the inner loop makes of the datagrams, for the request that the last one got;
  -- that one is the current endpoint then.
  pub resolve-Delivers :
      (k : ℕ) (c : Call)
      → k < length c.st.endpoints
      → IsNumbered 0 c.st.endpoints
      → c.st.curr_endpoint_index < length c.st.endpoints
      → IsServed k n sends polls c
      → (c' : Call) × (resolve c ≡ ((receive (request_behind k c) c.world.recvs).0, c'))
        × (asked c' ≡ asked c ++ tour (length c.st.endpoints) (suc k) c.st.curr_endpoint_index)
        × IsMoved k c c'
  resolve-Delivers k c h i l s =
      let (c', r, a, m) = attempts-Delivers k (length c.st.endpoints) c h i l s in
      (c', resolve_in_range c l ∙ r, a, m)
