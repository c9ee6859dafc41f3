-- ===== src/Sort/Ranks.antt =====
-- The ranks of a partition.
use native.Mathlib.Nat.{mod-lt, zero-lt-suc}
use yeti_pg_ext.Base.{
  ℕ, zero, suc, ◌+◌, ◌-◌, ◌%◌, ◌^◌, ◌≤◌, ◌<◌, List, [], ◌∷◌, Option, none, some, leb, ◌==◌,
  if◌then◌else◌, length, map, ◌≡◌, refl, ap, ◌∙◌, arith,
}
use yeti_pg_ext.Base.Outcome.{ok, fault}
use yeti_pg_ext.Sort.Draw.{is_at, ranks, count, weights_of, IsRanked, find_row-IsRanked}
use yeti_pg_ext.Sort.{
  RowStat, ctx_max_rows, weight_of, fill_weights, add_weights, set_rank, get_next_row, draw,
  results, rank_dns_srv,
}

-- The ranks up to `rank` are given, each once, and the other rows have none.
abbrev times_given : ℕ → ℕ → ℕ → ℕ
times_given rows rank k = if k == 0 then rows - rank else if leb k rank then 1 else 0

abbrev AreGiven : ℕ → List RowStat → Type 0
AreGiven rank ctx = (k : ℕ) → count k (ranks ctx) ≡ times_given (length ctx) rank k

fill_weights_fits :
    (room : ℕ) (weights : List (Option ℕ))
    → length weights ≤ room
    → fill_weights room weights ≡ ok (map weight_of weights)
unfolding fill_weights
fill_weights_fits room [] h = refl
fill_weights_fits zero (w ∷ ws) h = absurd (omega (arith, h))
fill_weights_fits (suc room) (w ∷ ws) h = rw (fill_weights_fits room ws (omega (arith, h))) refl

fill_weights_fault :
    (room : ℕ) (weights : List (Option ℕ))
    → room < length weights
    → fill_weights room weights ≡ fault
unfolding fill_weights
fill_weights_fault room [] h = absurd (omega (arith, h))
fill_weights_fault zero (w ∷ ws) h = refl
fill_weights_fault (suc room) (w ∷ ws) h = rw (fill_weights_fault room ws (omega (arith, h))) refl

times_given-suc :
    (rows rank k n m : ℕ)
    → rank < rows
    → n + is_at k 0 ≡ m + is_at k (suc rank)
    → m ≡ times_given rows rank k
    → n ≡ times_given rows (suc rank) k
times_given-suc rows rank zero n m h e f = ground (arith, h, e, f)
times_given-suc rows rank (suc k) n m h e f = ground (arith, h, e, f)

count-weight_of :
    (k : ℕ) (weights : List (Option ℕ))
    → count k (ranks (map weight_of weights)) ≡ times_given (length (map weight_of weights)) 0 k
count-weight_of k [] = ground arith
count-weight_of k (none ∷ ws) = ground (arith, count-weight_of k ws)
count-weight_of k (some w ∷ ws) = ground (arith, count-weight_of k ws)

length-weight_of : (weights : List (Option ℕ)) → length (map weight_of weights) ≡ length weights
length-weight_of [] = refl
length-weight_of (w ∷ ws) = ap suc (length-weight_of ws)

length-ranks : (ctx : List RowStat) → length (ranks ctx) ≡ length ctx
length-ranks [] = refl
length-ranks (s ∷ ss) = ap suc (length-ranks ss)

module _ (rand_r : ℕ → ℕ × ℕ) where
  get_next_row-IsRanked :
      (spare v seed : ℕ) (ctx : List RowStat)
      → 0 < count 0 (ranks ctx)
      → weights_of ctx < 2 ^ 31
      → let (row, (seed', ctx')) = get_next_row rand_r seed ctx in
        IsRanked (set_rank spare row v ctx') v ctx
  unfolding get_next_row
  get_next_row-IsRanked spare v seed ctx c b =
      let sum = (add_weights 0 ctx).0 in
      find_row-IsRanked spare v ((rand_r seed).0 % (sum + 1)) 0 ctx c (omega (arith, b))
        (omega (arith, mod-lt (rand_r seed).0 (zero-lt-suc sum)))

  draw-AreGiven :
      (left rank seed : ℕ) (ctx : List RowStat)
      → AreGiven rank ctx
      → rank + left ≡ length ctx
      → weights_of ctx < 2 ^ 31
      → (last : List RowStat) × (draw rand_r left rank seed ctx ≡ ok last)
        × (length last ≡ length ctx)
        × AreGiven (rank + left) last
  unfolding draw
  draw-AreGiven zero rank seed ctx g h b = (
    ctx,
    refl,
    refl,
    λ k. g k ∙ ap (λ n. times_given (length ctx) n k) {y = rank + 0} (omega arith),
  )
  draw-AreGiven (suc left) rank seed ctx g h b =
      let spare = ctx_max_rows - length ctx in
      let seed' = (get_next_row rand_r seed ctx).1.0 in
      let (next, e, l, w, c) =
        get_next_row-IsRanked spare (suc rank) seed ctx (omega (arith, g 0, h)) b in
      let given : AreGiven (suc rank) next = λ k. rw l (
        times_given-suc (length ctx) rank k (count k (ranks next)) (count k (ranks ctx))
          (omega (arith, h)) (c k) (g k)) in
      let (last, f, m, all) =
        draw-AreGiven left (suc rank) seed' next given (omega (arith, h, l))
          (omega (arith, b, w)) in
      (
        last,
        rw (e, f) refl,
        m ∙ l,
        λ k. all k ∙ ap (λ n. times_given (length last) n k) {y = rank + suc left} (omega arith),
      )

results-ranks :
    (row : ℕ) (ctx : List RowStat) → row + length ctx ≤ ctx_max_rows → results row ctx ≡ ranks ctx
unfolding results
results-ranks row [] h = refl
results-ranks row (s ∷ ss) h = ground (arith, h, results-ranks (suc row) ss)

-- In a partition of at most 20 rows whose weights add up to less than 2 ^ 31, every row gets a rank,
-- and each rank from 1 to the number of rows is given once, whatever numbers are drawn.
pub rank_dns_srv-count :
    (rand_r : ℕ → ℕ × ℕ) (seed : ℕ) (weights : List (Option ℕ))
    → length weights ≤ ctx_max_rows
    → weights_of (map weight_of weights) < 2 ^ 31
    → (out : List ℕ) × (rank_dns_srv rand_r seed weights ≡ ok out)
      × (length out ≡ length weights)
      × (count 0 out ≡ 0)
      × ((k : ℕ) → count (suc k) out ≡ (if leb (suc k) (length weights) then 1 else 0))
unfolding rank_dns_srv
rank_dns_srv-count rand_r seed weights h b =
    let ctx = map weight_of weights in
    let l = length-weight_of weights in
    let (last, e, m, g) =
      draw-AreGiven rand_r (length weights) 0 seed ctx (λ k. count-weight_of k weights)
        (omega (arith, l)) b in
    (
      ranks last,
      rw
          (
            fill_weights_fits ctx_max_rows weights h,
            e,
            results-ranks 0 last (omega (arith, h, l, m)),
          )
          refl,
      length-ranks last ∙ m ∙ l,
      ground (arith, g 0, m, l),
      λ k. ground (arith, g (suc k)),
    )

-- In a partition of more than 20 rows the weight of the 21st is written behind the context, whatever
-- the weights are.
pub rank_dns_srv_fault :
    (rand_r : ℕ → ℕ × ℕ) (seed : ℕ) (weights : List (Option ℕ))
    → ctx_max_rows < length weights
    → rank_dns_srv rand_r seed weights ≡ fault
unfolding rank_dns_srv
rank_dns_srv_fault rand_r seed weights h = rw (fill_weights_fault ctx_max_rows weights h) refl
