-- ===== src/Regexp/Ready.antt =====
-- The arguments for one chunk, in the loops of src/f_regexp_replace_rand.c.
use yeti_pg_ext.Base.{
  Bytes, ℕ, suc, none, ◌≡◌, refl, inl, inr, arith, if◌then◌else◌, Option-cases, Bool-cases, ltb,
}
use yeti_pg_ext.Regexp.Chunks.{first_chunk}
use yeti_pg_ext.Regexp.{search_split_token, Args, replace_rule, replace_result, tail_args}

-- Before the first round the arguments are the texts that are walked over, where no chunk is to be
-- put for them.
abbrev pub IsReady : ℕ → Args → Bytes → Bytes → Type 0
IsReady n a rule result =
    (n ≡ 0 → search_split_token rule ≡ none → a.arg_rule ≡ rule)
    × (n ≡ 0 → search_split_token result ≡ none → a.arg_result ≡ result)

pub IsReady-suc : (n : ℕ) (a : Args) (rule result : Bytes) → IsReady (suc n) a rule result
IsReady-suc n a rule result = (λ e. absurd (omega (arith, e)), λ e. absurd (omega (arith, e)))

abbrev pub AreArgs : Args → Bytes → Bytes → Bytes → Type 0
AreArgs a v rule result = (a.arg_in ≡ v) × (a.arg_rule ≡ rule) × (a.arg_result ≡ result)

-- The arguments for the last chunk of a rule.
pub tail_args-AreArgs :
    (a : Args) (n : ℕ) (rule result : Bytes)
    → search_split_token rule ≡ none
    → IsReady n a rule result
    → AreArgs
        (tail_args a n rule result)
        a.arg_in
        rule
        (first_chunk result (search_split_token result))
unfolding tail_args
tail_args-AreArgs a n rule result e (r, s) = elim (Option-cases (search_split_token result)) [
  | inl f ↦ elim (Bool-cases (ltb 0 n)) [
    | inl later ↦ rw (f, later, tail_args) (refl, refl, refl)
    | inr first ↦
        rw (f, first, tail_args) (refl, r (ground (arith, first)) e, s (ground (arith, first)) f)
  ]
  | inr ((chunk, rest), f) ↦ elim (Bool-cases (ltb 0 n)) [
    | inl later ↦ rw (f, later, tail_args) (refl, refl, refl)
    | inr first ↦ rw (f, first, tail_args) (refl, r (ground (arith, first)) e, refl)
  ]
]

-- The arguments where the result has no more chunks.
abbrev pub last_args : Args → ℕ → Bytes → Bytes → Args
last_args a n chunk result =
    let a' = replace_rule a chunk in if ltb 0 n then replace_result a' result else a'

pub last_args-AreArgs :
    (a : Args) (n : ℕ) (rule chunk result : Bytes)
    → search_split_token result ≡ none
    → IsReady n a rule result
    → AreArgs (last_args a n chunk result) a.arg_in chunk result
last_args-AreArgs a n rule chunk result f (r, s) = elim (Bool-cases (ltb 0 n)) [
  | inl later ↦ rw later (refl, refl, refl)
  | inr first ↦ rw first (refl, refl, s (ground (arith, first)) f)
]
