-- ===== src/Sort/Tally.antt =====
-- Counting the numbers that lead to a row.
use yeti_pg_ext.Base.{ℕ, zero, suc, ◌+◌, ◌≤◌, ◌<◌, ◌≡◌, refl, arith}
use yeti_pg_ext.Sort.Draw.{is_at}

-- How many of the `n` numbers from `from` on lead to a row.
abbrev pub tally : (ℕ → ℕ) → ℕ → ℕ → ℕ → ℕ
tally f from zero row = 0
tally f from (suc n) row = is_at row (f from) + tally f (suc from) n row

pub tally_congr :
    (f g : ℕ → ℕ) (from n row : ℕ)
    → ((r : ℕ) → from ≤ r → r < from + n → f r ≡ g r)
    → tally f from n row ≡ tally g from n row
tally_congr f g from zero row h = refl
tally_congr f g from (suc n) row h =
    let rest =
      tally_congr f g (suc from) n row (λ r a b. h r (omega (arith, a)) (omega (arith, b))) in
    rw (h from (omega arith) (omega arith), rest) refl

pub tally-+ :
    (f : ℕ → ℕ) (from n m all mid row : ℕ)
    → all ≡ n + m
    → mid ≡ from + n
    → tally f from all row ≡ tally f from n row + tally f mid m row
tally-+ f from zero m all mid row h k =
    let p : all ≡ m = omega (arith, h) in
    let q : mid ≡ from = omega (arith, k) in rw (p, q) (omega arith)
tally-+ f from (suc n) m zero mid row h k = absurd (omega (arith, h))
tally-+ f from (suc n) m (suc all) mid row h k =
    omega (arith, tally-+ f (suc from) n m all mid row (omega (arith, h)) (omega (arith, k)))

pub tally-suc_zero : (f : ℕ → ℕ) (from n : ℕ) → tally (λ r. suc (f r)) from n 0 ≡ 0
tally-suc_zero f from zero = refl
tally-suc_zero f from (suc n) = ground (arith, tally-suc_zero f (suc from) n)

pub tally-suc :
    (f : ℕ → ℕ) (from n row : ℕ) → tally (λ r. suc (f r)) from n (suc row) ≡ tally f from n row
tally-suc f from zero row = refl
tally-suc f from (suc n) row = ground (arith, tally-suc f (suc from) n row)

pub tally_const : (from n : ℕ) → tally (λ r. 0) from n 0 ≡ n
tally_const from zero = refl
tally_const from (suc n) = ground (arith, tally_const (suc from) n)

pub tally_const_later : (from n row : ℕ) → tally (λ r. 0) from n (suc row) ≡ 0
tally_const_later from zero row = refl
tally_const_later from (suc n) row = ground (arith, tally_const_later (suc from) n row)
