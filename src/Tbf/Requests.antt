-- ===== src/Tbf/Requests.antt =====
-- The calls of tbf_rate_check that ask for one key, and the answers to them.
use yeti_pg_ext.Base.{
  ℕ, Bool, true, false, ◌&&◌, List, [], ◌∷◌, Option, none, some, ◌==◌, if◌then◌else◌, ◌≡◌, ◌≢◌, ap,
  inl, inr, Bool-cases, inl, inr, Bool-cases, ◌∙◌, arith,
}
use yeti_pg_ext.Tbf.{Key, Floats, RateCall}

abbrev pub same_key : Key → Key → Bool
same_key j k =
    j.namespace_id == k.namespace_id && (j.padding == k.padding && j.bucket_id == k.bucket_id)

pub same_key-true : (j k : Key) → same_key j k ≡ true → j ≡ k
same_key-true j k h =
    let a : j.namespace_id ≡ k.namespace_id = ground (arith, h) in
    let b : j.padding ≡ k.padding = ground (arith, h) in
    let c : j.bucket_id ≡ k.bucket_id = ground (arith, h) in
    ap (λ n. record { namespace_id = n; padding = j.padding; bucket_id = j.bucket_id }) a
    ∙ ap (λ n. record { namespace_id = k.namespace_id; padding = n; bucket_id = j.bucket_id }) b
    ∙ ap (λ n. record { namespace_id = k.namespace_id; padding = k.padding; bucket_id = n }) c

pub same_key_refl : (k : Key) → same_key k k ≡ true
same_key_refl k = ground arith

pub same_key-false : (j k : Key) → same_key j k ≡ false → j ≢ k
same_key-false j k h =
    λ e. absurd (ground (arith, h, ap Key.namespace_id e, ap Key.padding e, ap Key.bucket_id e))

abbrev pub Key-discrete : Discrete Key
Key-discrete j k = elim (Bool-cases (same_key j k)) [
  | inl same ↦ yes (same_key-true j k same)
  | inr differ ↦ no (same_key-false j k differ)
]

module _ {Rate : Type 0} (F : Floats Rate) where
  -- The key that a call asks for, and its rate; `none` where it looks at no bucket.
  abbrev pub asks : RateCall Rate → Option (Key × Rate)
  asks c = elim c.arg_namespace_id [
    | none ↦ none
    | some namespace_id ↦ elim c.arg_bucket_id [
      | none ↦ none
      | some bucket_id ↦ elim c.arg_rate [
        | none ↦ none
        | some rate ↦
            if F.is_zero rate
            then none
            else some (
              record { namespace_id = namespace_id; padding = c.stack; bucket_id = bucket_id },
              rate,
            )
      ]
    ]
  ]

  abbrev request_for : Key → ℕ → Option (Key × Rate) → List (Rate × ℕ) → List (Rate × ℕ)
  request_for k now none later = later
  request_for k now (some (j, rate)) later = if same_key j k then (rate, now) ∷ later else later

  -- The requests for one key.
  abbrev pub requests : Key → List (RateCall Rate) → List (Rate × ℕ)
  requests k [] = []
  requests k (c ∷ cs) = request_for k c.now (asks c) (requests k cs)

  abbrev answer_for : Key → Bool → Option (Key × Rate) → List Bool → List Bool
  answer_for k ret none later = later
  answer_for k ret (some (j, rate)) later = if same_key j k then ret ∷ later else later

  -- The answers to those.
  abbrev pub answers : Key → List (RateCall Rate) → List Bool → List Bool
  answers k [] rets = []
  answers k (c ∷ cs) [] = []
  answers k (c ∷ cs) (ret ∷ rets) = answer_for k ret (asks c) (answers k cs rets)
