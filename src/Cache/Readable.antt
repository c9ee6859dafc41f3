-- ===== src/Cache/Readable.antt =====
-- Which entries can be read as strings, so that printing the table stays within its memory.
use mathlib.Core.List.{append-nil, append_assoc}
use native.Mathlib.Decide.{ℕ_discrete}
use yeti_pg_ext.Base.{
  Bytes, ℕ, zero, suc, ◌-◌, ◌≤◌, ◌<◌, Bool, true, false, ◌||◌, List, [], ◌∷◌, ◌++◌, some, ◌≡◌, ◌⊎◌,
  refl, sym, ap, ◌∙◌, inl, inr, arith, if◌then◌else◌, Bool-cases, length, length-take, min, take,
  replicate,
}
use yeti_pg_ext.Base.CString.{
  strncpy, c_string, until_nul, length-until_nul, has_nul, c_string-until_nul, c_string_fault,
  until_nul_id, has_nul-append, until_nul-append, strncpy_fits,
}
use yeti_pg_ext.Base.Outcome.{Outcome, ok, fault, ◌>>=◌}
use yeti_pg_ext.Cache.Table.{HashTable, AllPairs, IsFresh}
use yeti_pg_ext.Cache.{
  Entry, done, response_max_length, response_memory, read_response, make_entry, print_each,
  print_elements,
}

pub Bytes-discrete : Discrete Bytes
Bytes-discrete = hlevel ℕ_discrete

abbrev pub HasEnd : Entry → Type 0
HasEnd e = has_nul (response_memory e) ≡ true

has_nul-replicate : (n : ℕ) → 0 < n → has_nul (replicate n 0) ≡ true
has_nul-replicate zero h = elim h [ ]
has_nul-replicate (suc n) h = refl

-- A response that leaves room for a NUL, or is no error: its flag is then the end.
abbrev pub IsStorable : Bytes → Bool → Type 0
IsStorable response is_error = (is_error ≡ false) ⊎ (length response < response_max_length)

abbrev flag_byte : Bool → ℕ
flag_byte b = if b then 1 else 0

has_nul_memory :
    (s : Bytes) (n : ℕ) (b : Bool)
    → (b ≡ false) ⊎ (0 < n)
    → has_nul ((s ++ replicate n 0) ++ (flag_byte b ∷ [])) ≡ true
has_nul_memory s n b h =
    rw (has_nul-append (s ++ replicate n 0))
      (rw (has_nul-append s) (ground (arith, has_nul-replicate n)))

pub make_entry-HasEnd :
    (response : Bytes) (is_error : Bool)
    → IsStorable response is_error
    → HasEnd (make_entry response is_error)
unfolding make_entry response_memory strncpy
make_entry-HasEnd response is_error h =
    has_nul_memory (until_nul (take (min (length response) 2048) response)) _ is_error (elim h [
      | inl e ↦ inl e
      | inr short ↦ inr (
          omega (
            arith,
            length-until_nul (take (min (length response) 2048) response),
            length-take (min (length response) 2048) response,
          ))
    ])

until_nul_memory :
    (r : Bytes) (n : ℕ) (b : Bool)
    → has_nul r ≡ false
    → (b ≡ false) ⊎ (0 < n)
    → until_nul ((r ++ replicate n 0) ++ (flag_byte b ∷ [])) ≡ r
until_nul_memory r zero false h k = rw (append-nil r) (until_nul-append r [] h)
until_nul_memory r zero true h k = ground arith
until_nul_memory r (suc n) b h k =
    rw (append_assoc r (0 ∷ replicate n 0) (flag_byte b ∷ []))
      (until_nul-append r (replicate n 0 ++ (flag_byte b ∷ [])) h)

-- A response with no NUL in it is read back as it was stored.
pub read_response-make_entry :
    (response : Bytes) (is_error : Bool)
    → IsStorable response is_error
    → has_nul response ≡ false
    → length response ≤ response_max_length
    → read_response (make_entry response is_error) ≡ ok response
unfolding read_response
read_response-make_entry response is_error h n k =
    c_string-until_nul (response_memory (make_entry response is_error))
      (make_entry-HasEnd response is_error h)
    ∙ ap ok (
        unfold make_entry response_memory in
        rw (strncpy_fits 2048 (min (length response) 2048) response n (omega arith))
          (until_nul_memory response (2048 - length response) is_error n (room h)))
  where
    room : IsStorable response is_error → (is_error ≡ false) ⊎ (0 < 2048 - length response)
    room (inl e) = inl e
    room (inr short) = inr (omega arith)

has_nul-take : (n : ℕ) (cs : Bytes) → has_nul cs ≡ false → has_nul (take n cs) ≡ false
has_nul-take zero cs h = refl
has_nul-take (suc n) [] h = refl
has_nul-take (suc n) (c ∷ cs) h = ground (arith, has_nul-take n cs)

-- An error of 2048 bytes or more has no end within its entry.
pub make_entry_no_end :
    (response : Bytes)
    → has_nul response ≡ false
    → response_max_length ≤ length response
    → has_nul (response_memory (make_entry response true)) ≡ false
unfolding make_entry response_memory strncpy
make_entry_no_end response n k =
    let cut = take (min (length response) response_max_length) response in
    let whole : until_nul cut ≡ cut = until_nul_id cut (has_nul-take _ response n) in
    let full : response_max_length - length cut ≡ 0 =
      omega (arith, length-take (min (length response) 2048) response) in
    rw whole
      (rw full (rw (append-nil cut) (rw (has_nul-append cut) (rw (has_nul-take _ response n)))))

then_fault {ℓ} :
    {B : Type ℓ} (cs : Bytes) (m : Outcome B) → m ≡ fault → (c_string cs >>= λ _. m) ≡ fault
then_fault cs m h = elim (Bool-cases (has_nul cs)) [
  | inl e ↦ rw (c_string-until_nul cs e) h
  | inr e ↦ rw (c_string_fault cs e)
]

module _ (H : HashTable Bytes Entry) where
  -- Every entry of the table can be read.
  abbrev pub IsReadable : H.T → Type 0
  IsReadable t = (k : Bytes) (e : Entry) → H.search k t ≡ some e → HasEnd e

  all_readable :
      (t : H.T) (xs : List (Bytes × Entry))
      → IsReadable t
      → AllPairs (λ k e. H.search k t ≡ some e) xs
      → print_each H xs ≡ ok tt
  unfolding print_each read_response
  all_readable t [] r h = refl
  all_readable t ((k, e) ∷ rest) r (s, later) =
      rw
        (c_string-until_nul (k ++ response_memory e)
          (has_nul-append k (response_memory e) ∙ rw (r k e s) or_true))
        (rw (c_string-until_nul (response_memory e) (r k e s)) (all_readable t rest r later))
    where
      or_true : (has_nul k || true) ≡ true
      or_true = ground arith

  pub print_elements-IsReadable : (t : H.T) → IsReadable t → print_elements H (some t) ≡ ok done
  unfolding print_elements
  print_elements-IsReadable t r = rw (all_readable t (H.entries t) r (H.entries-search t))

  -- An entry with no end makes the printing leave its memory.
  unreadable :
      (t : H.T) (k : Bytes) (e : Entry) (xs : List (Bytes × Entry))
      → H.search k t ≡ some e
      → has_nul (response_memory e) ≡ false
      → AllPairs (λ j v. H.search j t ≡ some v) xs
      → ¬ IsFresh k xs
      → print_each H xs ≡ fault
  unfolding print_each read_response
  unreadable t k e [] s n h fresh = absurd (fresh tt)
  unreadable t k e ((j, v) ∷ rest) s n (found, later) fresh = elim (Bytes-discrete j k) [
    | yes p ↦
        let same : v ≡ e = cc (found, p, s) in
        then_fault (j ++ response_memory v) _ (rw (c_string_fault (response_memory v) (rw same n)))
    | no q ↦
        then_fault (j ++ response_memory v) _
          (then_fault (response_memory v) _ (unreadable t k e rest s n later (λ f. fresh (q, f))))
  ]

  pub print_elements_fault :
      (t : H.T) (k : Bytes) (e : Entry)
      → H.search k t ≡ some e
      → has_nul (response_memory e) ≡ false
      → print_elements H (some t) ≡ fault
  unfolding print_elements
  print_elements_fault t k e s n =
      rw (unreadable t k e (H.entries t) s n (H.entries-search t) present)
    where
      present : ¬ IsFresh k (H.entries t)
      present f = cc (H.search-fresh k t f, s)

  pub enter-IsReadable :
      (t : H.T) (k : Bytes) (e : Entry) → IsReadable t → HasEnd e → IsReadable (H.enter k e t)
  enter-IsReadable t k e r h j v s = elim (Bytes-discrete k j) [
    | yes p ↦ let same : e ≡ v = cc (H.search-enter_self k e t, p, s) in rw (← same) h
    | no q ↦ r j v (sym (H.search-enter_ne j k e t q) ∙ s)
  ]

  pub delete-IsReadable : (t : H.T) (k : Bytes) → IsReadable t → IsReadable (H.delete k t)
  delete-IsReadable t k r j v s = elim (Bytes-discrete k j) [
    | yes p ↦ cc (H.search-delete_self k t, p, s)
    | no q ↦ r j v (sym (H.search-delete_ne j k t q) ∙ s)
  ]
