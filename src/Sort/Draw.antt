-- ===== src/Sort/Draw.antt =====
-- One draw: the row that get_next_row gives has no rank yet.
use yeti_pg_ext.Base.{
  ℕ, suc, ◌+◌, ◌%◌, ◌^◌, ◌≤◌, ◌<◌, false, List, [], ◌∷◌, leb, ltb, ◌==◌, if◌then◌else◌, length, map,
  ◌≡◌, refl, ap, inl, inr, arith, Bool-cases,
}
use yeti_pg_ext.Base.Outcome.{Outcome, ok}
use yeti_pg_ext.Sort.{RowStat, add_weights, reaches, find_row, set_rank}

abbrev pub ranks : List RowStat → List ℕ
ranks ctx = map RowStat.rank ctx

abbrev pub is_at : ℕ → ℕ → ℕ
is_at k x = if x == k then 1 else 0

abbrev pub count : ℕ → List ℕ → ℕ
count k [] = 0
count k (x ∷ xs) = is_at k x + count k xs

abbrev pub weights_of : List RowStat → ℕ
weights_of [] = 0
weights_of (s ∷ ss) = s.w + weights_of ss

-- The first loop changes only the sums, and adds no more than there is.
pub add_weights_le : (sum : ℕ) (ctx : List RowStat) → (add_weights sum ctx).0 ≤ sum + weights_of ctx
unfolding add_weights
add_weights_le sum [] = omega arith
add_weights_le sum (s ∷ ss) = elim (Bool-cases (ltb 0 s.rank)) [
  | inl ranked ↦ rw ranked (omega (arith, add_weights_le sum ss))
  | inr free ↦ rw free (omega (arith, add_weights_le (sum + s.w) ss))
]

add_weights_ranked :
    (sum : ℕ) (ctx : List RowStat) → count 0 (ranks ctx) ≡ 0 → (add_weights sum ctx).0 ≡ sum
unfolding add_weights
add_weights_ranked sum [] h = refl
add_weights_ranked sum (s ∷ ss) h = elim (Bool-cases (ltb 0 s.rank)) [
  | inl ranked ↦ rw ranked (add_weights_ranked sum ss (ground (arith, h, ranked)))
  | inr free ↦ absurd (ground (arith, h, free))
]

abbrev IsSame : List RowStat → List RowStat → Type 0
IsSame ctx ctx' =
    (ranks ctx ≡ ranks ctx') × (weights_of ctx ≡ weights_of ctx') × (length ctx ≡ length ctx')

add_weights-IsSame : (sum : ℕ) (ctx : List RowStat) → IsSame (add_weights sum ctx).1 ctx
unfolding add_weights
add_weights-IsSame sum [] = (refl, refl, refl)
add_weights-IsSame sum (s ∷ ss) = elim (Bool-cases (ltb 0 s.rank)) [
  | inl ranked ↦
      let (a, b, c) = add_weights-IsSame sum ss in
      rw ranked (ap (λ xs. s.rank ∷ xs) a, ap (λ n. s.w + n) b, ap suc c)
  | inr free ↦
      let (a, b, c) = add_weights-IsSame (sum + s.w) ss in
      rw free (ap (λ xs. s.rank ∷ xs) a, ap (λ n. s.w + n) b, ap suc c)
]

-- A rank is put in the place of a 0, and nothing else changes but the sums.
abbrev pub IsRanked : Outcome (List RowStat) → ℕ → List RowStat → Type 0
IsRanked m v ctx =
    (next : List RowStat) × (m ≡ ok next)
    × (length next ≡ length ctx)
    × (weights_of next ≡ weights_of ctx)
    × ((k : ℕ) → count k (ranks next) + is_at k 0 ≡ count k (ranks ctx) + is_at k v)

IsRanked-cons :
    (spare v row : ℕ) (s s' : RowStat) (ss ss' : List RowStat)
    → s'.rank ≡ s.rank
    → s'.w ≡ s.w
    → IsRanked (set_rank spare row v ss') v ss
    → IsRanked (set_rank spare (suc row) v (s' ∷ ss')) v (s ∷ ss)
unfolding set_rank
IsRanked-cons spare v row s s' ss ss' e f (next, g, l, w, c) =
    (s' ∷ next, rw g refl, ap suc l, omega (arith, f, w), λ k. omega (arith, c k, ap (is_at k) e))

IsRanked-here :
    (spare v : ℕ) (s s' : RowStat) (ss ss' : List RowStat)
    → s.rank ≡ 0
    → s'.w ≡ s.w
    → IsSame ss' ss
    → IsRanked (set_rank spare 0 v (s' ∷ ss')) v (s ∷ ss)
unfolding set_rank
IsRanked-here spare v s s' ss ss' e f (a, b, c) = (
  record s' { rank = v } ∷ ss',
  refl,
  ap suc c,
  omega (arith, f, b),
  λ k. omega (arith, ap (count k) a, ap (is_at k) e),
)

pub reaches_lem : (sum r : ℕ) → sum < 2 ^ 31 → reaches (sum % 2 ^ 32) r ≡ leb r sum
reaches_lem sum r h = let e : sum % 2 ^ 32 ≡ sum = omega (arith, h) in rw e (ground (arith, h))

some_free :
    (r sum : ℕ) (ctx : List RowStat)
    → r ≤ (add_weights sum ctx).0
    → leb r sum ≡ false
    → 0 < count 0 (ranks ctx)
some_free r sum ctx h later = elim (Bool-cases (ltb 0 (count 0 (ranks ctx)))) [
  | inl some_left ↦ ground (arith, some_left)
  | inr no_left ↦
      let last = add_weights_ranked sum ctx (ground (arith, no_left)) in
      absurd (ground (arith, h, later, last))
]

pub find_row-IsRanked :
    (spare v r sum : ℕ) (ctx : List RowStat)
    → 0 < count 0 (ranks ctx)
    → sum + weights_of ctx < 2 ^ 31
    → r ≤ (add_weights sum ctx).0
    → IsRanked (set_rank spare (find_row r (add_weights sum ctx).1) v (add_weights sum ctx).1) v ctx
unfolding add_weights find_row
find_row-IsRanked spare v r sum [] c b h = absurd (omega (arith, c))
find_row-IsRanked spare v r sum (s ∷ ss) c b h = elim (Bool-cases (ltb 0 s.rank)) [
  | inl ranked ↦ simp ranked (
      IsRanked-cons spare v (find_row r (add_weights sum ss).1) s s ss (add_weights sum ss).1 refl
        refl
        (find_row-IsRanked spare v r sum ss (ground (arith, c, ranked)) (omega (arith, b))
          (simp ranked at h)))
  | inr free ↦
      let s' = record s { w_sum = (sum + s.w) % 2 ^ 32 } in
      let rest = (add_weights (sum + s.w) ss).1 in
      let reach = reaches_lem (sum + s.w) r (omega (arith, b)) in
      elim (Bool-cases (leb r (sum + s.w))) [
        | inl here ↦
            simp (free, reach, here)
              (IsRanked-here spare v s s' ss rest (ground (arith, free)) refl
                (add_weights-IsSame (sum + s.w) ss))
        | inr later ↦
            simp (free, reach, later)
              (IsRanked-cons spare v (find_row r rest) s s' ss rest refl refl (
                find_row-IsRanked spare v r (sum + s.w) ss
                  (some_free r (sum + s.w) ss (simp free at h) later) (omega (arith, b))
                  (simp free at h)))
      ]
]
