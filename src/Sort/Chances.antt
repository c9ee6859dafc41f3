-- ===== src/Sort/Chances.antt =====
-- How many of the numbers that can be drawn lead to each row.
use native.Mathlib.Nat.{mod-eq_of_lt}
use yeti_pg_ext.Base.{
  ℕ, zero, suc, ◌+◌, ◌%◌, ◌^◌, ◌≤◌, ◌<◌, true, false, List, [], ◌∷◌, leb, ltb, if◌then◌else◌, ◌≡◌,
  refl, ap, ◌∙◌, inl, inr, arith, Bool-cases,
}
use yeti_pg_ext.Sort.{RowStat, add_weights, find_row, get_next_row}
use yeti_pg_ext.Sort.Draw.{is_at, reaches_lem}
use yeti_pg_ext.Sort.Tally.{
  tally, tally_congr, tally-+, tally-suc_zero, tally-suc, tally_const, tally_const_later,
}

-- The weights of the rows with no rank.
abbrev pub free_sum : List RowStat → ℕ
free_sum [] = 0
free_sum (s ∷ ss) = if ltb 0 s.rank then free_sum ss else s.w + free_sum ss

-- The first row with no rank, or the number of rows.
abbrev pub first_free : List RowStat → ℕ
first_free [] = 0
first_free (s ∷ ss) = if ltb 0 s.rank then suc (first_free ss) else 0

-- A row's weight, if the row is there and has no rank.
abbrev pub free_weight : ℕ → List RowStat → ℕ
free_weight row [] = 0
free_weight zero (s ∷ ss) = if ltb 0 s.rank then 0 else s.w
free_weight (suc row) (s ∷ ss) = free_weight row ss

add_weights-free_sum : (sum : ℕ) (ctx : List RowStat) → (add_weights sum ctx).0 ≡ sum + free_sum ctx
unfolding add_weights
add_weights-free_sum sum [] = omega arith
add_weights-free_sum sum (s ∷ ss) = elim (Bool-cases (ltb 0 s.rank)) [
  | inl ranked ↦ rw ranked (add_weights-free_sum sum ss)
  | inr free ↦ rw free (omega (arith, add_weights-free_sum (sum + s.w) ss))
]

-- The numbers up to the sum before the rows lead to the first that has no rank.
find_row-first_free :
    (r sum : ℕ) (ctx : List RowStat)
    → r ≤ sum
    → sum + free_sum ctx < 2 ^ 31
    → find_row r (add_weights sum ctx).1 ≡ first_free ctx
unfolding add_weights find_row
find_row-first_free r sum [] h b = refl
find_row-first_free r sum (s ∷ ss) h b = elim (Bool-cases (ltb 0 s.rank)) [
  | inl ranked ↦ simp ranked (ap suc (find_row-first_free r sum ss h (simp ranked at b)))
  | inr free ↦
      let c : sum + (s.w + free_sum ss) < 2 ^ 31 = simp free at b in
      let reach = reaches_lem (sum + s.w) r (omega (arith, c)) in
      let here : leb r (sum + s.w) ≡ true = ground (arith, h) in simp (free, reach, here)
]

find_row_ranked :
    (r sum : ℕ) (s : RowStat) (ss : List RowStat)
    → ltb 0 s.rank ≡ true
    → find_row r (add_weights sum (s ∷ ss)).1 ≡ suc (find_row r (add_weights sum ss).1)
unfolding add_weights find_row
find_row_ranked r sum s ss ranked = simp ranked

find_row_here :
    (r sum : ℕ) (s : RowStat) (ss : List RowStat)
    → ltb 0 s.rank ≡ false
    → sum + s.w < 2 ^ 31
    → r ≤ sum + s.w
    → find_row r (add_weights sum (s ∷ ss)).1 ≡ 0
unfolding add_weights find_row
find_row_here r sum s ss free b h =
    let reach = reaches_lem (sum + s.w) r b in
    let here : leb r (sum + s.w) ≡ true = ground (arith, h) in simp (free, reach, here)

find_row_later :
    (r sum : ℕ) (s : RowStat) (ss : List RowStat)
    → ltb 0 s.rank ≡ false
    → sum + s.w < 2 ^ 31
    → sum + s.w < r
    → find_row r (add_weights sum (s ∷ ss)).1 ≡ suc (find_row r (add_weights (sum + s.w) ss).1)
unfolding add_weights find_row
find_row_later r sum s ss free b h =
    let reach = reaches_lem (sum + s.w) r b in
    let later : leb r (sum + s.w) ≡ false = ground (arith, h) in simp (free, reach, later)

-- A row with no rank is where the numbers up to its sum lead, and the rest go on.
tally_free :
    (sum row : ℕ) (s : RowStat) (ss : List RowStat)
    → ltb 0 s.rank ≡ false
    → sum + (s.w + free_sum ss) < 2 ^ 31
    → tally (λ r. find_row r (add_weights sum (s ∷ ss)).1) (suc sum) (s.w + free_sum ss) row
      ≡ tally (λ r. 0) (suc sum) s.w row
        + tally
            (λ r. suc (find_row r (add_weights (sum + s.w) ss).1))
            (suc (sum + s.w))
            (free_sum ss)
            row
tally_free sum row s ss free b =
    let f = λ (r : ℕ). find_row r (add_weights sum (s ∷ ss)).1 in
    let later = λ (r : ℕ). suc (find_row r (add_weights (sum + s.w) ss).1) in
    omega (
      arith,
      tally-+ f (suc sum) s.w (free_sum ss) (s.w + free_sum ss) (suc (sum + s.w)) row refl
          (omega arith),
      tally_congr f (λ r. 0) (suc sum) s.w row
          (λ r a c. find_row_here r sum s ss free (omega (arith, b)) (omega (arith, c))),
      tally_congr f later (suc (sum + s.w)) (free_sum ss) row
          (λ r a c. find_row_later r sum s ss free (omega (arith, b)) (omega (arith, a))),
    )

tally_ranked :
    (sum row : ℕ) (s : RowStat) (ss : List RowStat)
    → ltb 0 s.rank ≡ true
    → tally (λ r. find_row r (add_weights sum (s ∷ ss)).1) (suc sum) (free_sum ss) row
      ≡ tally (λ r. suc (find_row r (add_weights sum ss).1)) (suc sum) (free_sum ss) row
tally_ranked sum row s ss ranked =
    tally_congr (λ r. find_row r (add_weights sum (s ∷ ss)).1)
      (λ r. suc (find_row r (add_weights sum ss).1)) (suc sum) (free_sum ss) row
      (λ r a c. find_row_ranked r sum s ss ranked)

-- Of the numbers behind the sum before the rows, up to the sum behind them, as many lead to a row
-- as its weight says.
tally-find_row :
    (sum row : ℕ) (ctx : List RowStat)
    → sum + free_sum ctx < 2 ^ 31
    → tally (λ r. find_row r (add_weights sum ctx).1) (suc sum) (free_sum ctx) row
      ≡ free_weight row ctx
tally-find_row sum row [] b = refl
tally-find_row sum zero (s ∷ ss) b = elim (Bool-cases (ltb 0 s.rank)) [
  | inl ranked ↦ rw ranked (
      tally_ranked sum 0 s ss ranked
      ∙ tally-suc_zero (λ r. find_row r (add_weights sum ss).1) (suc sum) (free_sum ss))
  | inr free ↦
      let later = λ (r : ℕ). find_row r (add_weights (sum + s.w) ss).1 in
      rw free (
        omega (
          arith,
          tally_free sum 0 s ss free (simp free at b),
          tally_const (suc sum) s.w,
          tally-suc_zero later (suc (sum + s.w)) (free_sum ss),
        ))
]
tally-find_row sum (suc row) (s ∷ ss) b = elim (Bool-cases (ltb 0 s.rank)) [
  | inl ranked ↦ rw ranked (
      tally_ranked sum (suc row) s ss ranked
      ∙ tally-suc (λ r. find_row r (add_weights sum ss).1) (suc sum) (free_sum ss) row
      ∙ tally-find_row sum row ss (simp ranked at b))
  | inr free ↦
      let c : sum + (s.w + free_sum ss) < 2 ^ 31 = simp free at b in
      let later = λ (r : ℕ). find_row r (add_weights (sum + s.w) ss).1 in
      rw free (
        omega (
          arith,
          tally_free sum (suc row) s ss free c,
          tally_const_later (suc sum) s.w row,
          tally-suc later (suc (sum + s.w)) (free_sum ss) row,
          tally-find_row (sum + s.w) row ss (omega (arith, c)),
        ))
]

-- Of the numbers from 0 to the sum of the weights of the rows with no rank, as many make
-- get_next_row give such a row as its weight says, and one more for the first of them; none makes
-- it give a row that has a rank. The sum has to be below 2 ^ 31.
pub tally-get_next_row :
    (seed row : ℕ) (ctx : List RowStat)
    → free_sum ctx < 2 ^ 31
    → tally (λ r. (get_next_row (λ s. (r, s)) seed ctx).0) 0 (suc (free_sum ctx)) row
      ≡ is_at row (first_free ctx) + free_weight row ctx
unfolding get_next_row
tally-get_next_row seed row ctx b =
    let f = λ (r : ℕ). (get_next_row (λ s. (r, s)) seed ctx).0 in
    let g = λ (r : ℕ). find_row r (add_weights 0 ctx).1 in
    let same : (r : ℕ) → r ≤ free_sum ctx → f r ≡ g r = λ r h.
      let e : r % ((add_weights 0 ctx).0 + 1) ≡ r =
        mod-eq_of_lt (omega (arith, h, add_weights-free_sum 0 ctx)) in
      rw e refl in
    omega (
      arith,
      tally_congr f g 0 (suc (free_sum ctx)) row (λ r a c. same r (omega (arith, c))),
      ap (is_at row) (find_row-first_free 0 0 ctx (omega arith) (omega (arith, b))),
      tally-find_row 0 row ctx (omega (arith, b)),
    )
