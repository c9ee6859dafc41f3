-- ===== src/Sort/Tests.antt =====
-- Three records, the last with no weight, and a generator that counts up.
use yeti_pg_ext.Base.{
  ℕ, suc, ◌+◌, List, [], ◌∷◌, Option, none, some, leb, if◌then◌else◌, length, map, replicate, ◌≡◌,
  refl, arith,
}
use yeti_pg_ext.Base.Outcome.{ok, fault}
use yeti_pg_ext.Sort.Draw.{count}
use yeti_pg_ext.Sort.Ranks.{rank_dns_srv-count, rank_dns_srv_fault}
use yeti_pg_ext.Sort.Tally.{tally}
use yeti_pg_ext.Sort.Chances.{tally-get_next_row}
use yeti_pg_ext.Sort.{RowStat, weight_of, get_next_row, rank_dns_srv}

abbrev next_number : ℕ → ℕ × ℕ
next_number seed = (seed, seed + 1)

abbrev weights : List (Option ℕ)
weights = some 10 ∷ some 30 ∷ none ∷ []

rank_dns_srv_run : rank_dns_srv next_number 15 weights ≡ ok (2 ∷ 1 ∷ 3 ∷ [])
unfolding rank_dns_srv
rank_dns_srv_run = refl

rank_dns_srv_example :
    (out : List ℕ) × (rank_dns_srv next_number 15 weights ≡ ok out)
    × (length out ≡ length weights)
    × (count 0 out ≡ 0)
    × ((k : ℕ) → count (suc k) out ≡ (if leb (suc k) (length weights) then 1 else 0))
rank_dns_srv_example = rank_dns_srv-count next_number 15 weights (omega arith) (omega arith)

rank_dns_srv_many : rank_dns_srv next_number 15 (replicate 21 (some 1)) ≡ fault
rank_dns_srv_many = rank_dns_srv_fault next_number 15 (replicate 21 (some 1)) (omega arith)

-- The first record is drawn by 11 of the 41 numbers from 0 to 40.
abbrev records : List RowStat
records = map weight_of weights

abbrev row_for : ℕ → ℕ
row_for r = (get_next_row (λ s. (r, s)) 15 records).0

tally-get_next_row_example : tally row_for 0 41 0 ≡ 11
tally-get_next_row_example = tally-get_next_row 15 0 records (omega arith)
