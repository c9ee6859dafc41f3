-- ===== src/Sort.antt =====
-- src/f_sort_srv.c: the ranks of DNS SRV records by weighted draws. A weight is a natural number, as
-- in a record, or `none` for NULL; negative weights are not modelled. The context, 20 entries of
-- zeroed memory, is the list of those that the partition uses; a sum is stored as its 32-bit pattern.
pub mod Draw
pub mod Ranks
pub mod Tally
pub mod Chances
mod Tests
use yeti_pg_ext.Base.{
  ℕ, zero, suc, ◌+◌, ◌-◌, ◌%◌, ◌^◌, Bool, true, false, ◌&&◌, List, [], ◌∷◌, Option, none, some, leb,
  ltb, ◌==◌, if◌then◌else◌, length, map,
}
use yeti_pg_ext.Base.Outcome.{Outcome, ok, fault, ◌>>=◌}

abbrev pub ctx_max_rows : ℕ
ctx_max_rows = 20

pub record RowStat : Type 0 where
  pub rank : ℕ
  pub w : ℕ
  pub w_sum : ℕ

abbrev pub weight_of : Option ℕ → RowStat
weight_of none = record { rank = 0; w = 0; w_sum = 0 }
weight_of (some weight) = record { rank = 0; w = weight; w_sum = 0 }

-- The loop over the rows, with so many entries of the context left: behind the last one the write is
-- a fault. The bound of fill_distribution is stored in `row` and does not limit it.
unfoldable pub fill_weights : ℕ → List (Option ℕ) → Outcome (List RowStat)
fill_weights room [] = ok []
fill_weights zero (w ∷ ws) = fault
fill_weights (suc room) (w ∷ ws) = fill_weights room ws >>= λ rest. ok (weight_of w ∷ rest)

-- The first loop of get_next_row, from the sum so far: the last sum and the entries.
unfoldable pub add_weights : ℕ → List RowStat → ℕ × List RowStat
add_weights sum [] = (sum, [])
add_weights sum (s ∷ ss) =
    let ranked = ltb 0 s.rank in
    let sum' = if ranked then sum else sum + s.w in
    let (last, rest) = add_weights sum' ss in
    (last, (if ranked then s else record s { w_sum = sum' % 2 ^ 32 }) ∷ rest)

-- `s->w_sum >= r` for signed 32-bit numbers, of which r is not negative.
abbrev pub reaches : ℕ → ℕ → Bool
reaches w_sum r = ltb w_sum (2 ^ 31) && leb r w_sum

-- The second loop: the row at which it stops, or the number of rows.
unfoldable pub find_row : ℕ → List RowStat → ℕ
find_row r [] = 0
find_row r (s ∷ ss) =
    let later = find_row r ss in
    if ltb 0 s.rank then suc later else if reaches s.w_sum r then 0 else suc later

-- The write to (*ctx)[row], with so many entries behind those in use.
unfoldable pub set_rank : ℕ → ℕ → ℕ → List RowStat → Outcome (List RowStat)
set_rank spare row rank [] = if ltb 0 spare then ok [] else fault
set_rank spare zero rank (s ∷ ss) = ok (record s { rank = rank } ∷ ss)
set_rank spare (suc row) rank (s ∷ ss) = set_rank spare row rank ss >>= λ rest. ok (s ∷ rest)

-- What rank_dns_srv gives for the rows from this one on.
unfoldable pub results : ℕ → List RowStat → List ℕ
results row [] = []
results row (s ∷ ss) =
    (if leb ctx_max_rows row then ctx_max_rows + 1 else s.rank) ∷ results (suc row) ss

module _ (rand_r : ℕ → ℕ × ℕ) where
  -- The row, the next seed and the entries.
  unfoldable pub get_next_row : ℕ → List RowStat → ℕ × (ℕ × List RowStat)
  unfolding add_weights find_row
  get_next_row seed ctx =
      let (sum, ctx') = add_weights 0 ctx in
      let (value, seed') = rand_r seed in (find_row (value % (sum + 1)) ctx', (seed', ctx'))

  -- `while(rank < rows)`, with so many rounds left.
  unfoldable pub draw : ℕ → ℕ → ℕ → List RowStat → Outcome (List RowStat)
  unfolding get_next_row set_rank
  draw zero rank seed ctx = ok ctx
  draw (suc left) rank seed ctx =
      let (row, (seed', ctx')) = get_next_row seed ctx in
      set_rank (ctx_max_rows - length ctx) row (suc rank) ctx' >>= λ next.
      draw left (suc rank) seed' next

  -- `seed` is tv.tv_usec.
  unfoldable pub fill_distribution : ℕ → List (Option ℕ) → Outcome (List RowStat)
  unfolding fill_weights draw
  fill_distribution seed weights =
      fill_weights ctx_max_rows weights >>= λ ctx. draw (length weights) 0 seed ctx

  -- The results for the rows of a partition, of which the first fills the context.
  unfoldable pub rank_dns_srv : ℕ → List (Option ℕ) → Outcome (List ℕ)
  unfolding fill_distribution results
  rank_dns_srv seed weights = fill_distribution seed weights >>= λ ctx. ok (results 0 ctx)
