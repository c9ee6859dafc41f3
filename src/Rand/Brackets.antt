-- ===== src/Rand/Brackets.antt =====
-- What stands between the brackets of a placeholder, and the placeholder it makes.
use yeti_pg_ext.Base.{
  Bytes, ℕ, suc, ◌+◌, ◌-◌, ◌<◌, Bool, true, false, [], ◌∷◌, ◌++◌, List, Option, none, some, ◌≡◌,
  refl, ap, ◌∙◌, ◌*◌, arith, length, length-append, inl, inr, Option-cases,
}
use yeti_pg_ext.Base.CString.{digits_value, has_byte, memchr_first}
use yeti_pg_ext.Rand.{
  Replacing, long_digits, signed_long, sscanf_long, clamp, Found, skip_to, placeholder,
  after_bracket, after_start, judge_start, find_placeholders,
}
use yeti_pg_ext.Rand.Scan.{
  find_placeholders-skip, find_placeholders-skip_to, find_placeholders-placeholder,
  find_placeholders_short,
}

digits_value-append :
    (acc : ℕ) (cs rest : Bytes) → digits_value acc (cs ++ (b')' ∷ rest)) ≡ digits_value acc cs
unfolding digits_value
digits_value-append acc [] rest = refl
digits_value-append acc (c ∷ cs) rest =
    rw (digits_value-append (10 * acc + (c - b'0')) cs rest) refl

long_digits-append :
    (negative : Bool) (cs rest : Bytes)
    → long_digits negative (cs ++ (b')' ∷ rest)) ≡ long_digits negative cs
long_digits-append negative [] rest = refl
long_digits-append negative (c ∷ cs) rest = rw (digits_value-append 0 (c ∷ cs) rest) refl

signed_long-append : (cs rest : Bytes) → signed_long (cs ++ (b')' ∷ rest)) ≡ signed_long cs
unfolding signed_long
signed_long-append [] rest = refl
signed_long-append (c ∷ cs) rest =
    rw
      (
        long_digits-append true cs rest,
        long_digits-append false cs rest,
        long_digits-append false (c ∷ cs) rest,
      )
      refl

-- Nothing behind a closing bracket is read.
pub sscanf_long-append : (cs rest : Bytes) → sscanf_long (cs ++ (b')' ∷ rest)) ≡ sscanf_long cs
unfolding sscanf_long
sscanf_long-append [] rest = unfold signed_long in refl
sscanf_long-append (c ∷ cs) rest =
    rw (sscanf_long-append cs rest, signed_long-append (c ∷ cs) rest) refl

-- What "r(", these bytes and a bracket at `pos` add to the placeholders behind them.
abbrev pub add_placeholder : ℕ → Bytes → Option (Bool × ℕ) → List Replacing → List Replacing
add_placeholder pos arg none more = more
add_placeholder pos arg (some value) more =
    record { start = pos; end = pos + 2 + length arg; value = clamp value } ∷ more

abbrev judged_arg : Bytes → Found
judged_arg arg = elim (sscanf_long arg) [
  | none ↦ skip_to (suc (length arg))
  | some value ↦ placeholder (suc (length arg)) (clamp value)
]

after_bracket-append :
    (arg rest : Bytes)
    → has_byte b')' arg ≡ false
    → after_bracket (arg ++ (b')' ∷ rest)) ≡ judged_arg arg
unfolding after_bracket
after_bracket-append arg rest h =
    rw (memchr_first b')' arg rest h, sscanf_long-append arg rest, after_bracket) refl

judge_start-after_bracket :
    (cs : Bytes) → 1 < length cs → judge_start b'r' (b'(' ∷ cs) ≡ after_bracket cs
unfolding judge_start after_start
judge_start-after_bracket cs h = ground arith

after_arg :
    (pos : ℕ) (arg rest : Bytes)
    → find_placeholders (suc pos) (suc (length arg)) (b'(' ∷ (arg ++ (b')' ∷ rest)))
      ≡ find_placeholders (pos + 3 + length arg) 0 rest
after_arg pos arg rest =
    find_placeholders-skip (suc pos) (b'(' ∷ arg) (b')' ∷ rest)
    ∙ find_placeholders-skip_to (suc pos + suc (length arg)) b')' 0 rest
        (unfold judge_start in refl)
    ∙ ap (λ p. find_placeholders p 0 rest) (omega arith)

arg_long :
    (pos : ℕ) (arg rest : Bytes)
    → has_byte b')' arg ≡ false
    → 1 < length (arg ++ (b')' ∷ rest))
    → find_placeholders pos 0 (b'r' ∷ b'(' ∷ (arg ++ (b')' ∷ rest)))
      ≡ add_placeholder pos arg (sscanf_long arg) (find_placeholders (pos + 3 + length arg) 0 rest)
arg_long pos arg rest h k =
    let text = b'(' ∷ (arg ++ (b')' ∷ rest)) in
    let judged =
      judge_start-after_bracket (arg ++ (b')' ∷ rest)) k ∙ after_bracket-append arg rest h in
    elim (Option-cases (sscanf_long arg)) [
      | inl e ↦
          find_placeholders-skip_to pos b'r' (suc (length arg)) text (rw (e, judged_arg) at judged)
          ∙ after_arg pos arg rest
          ∙ rw (e, add_placeholder) refl
      | inr (value, e) ↦
          find_placeholders-placeholder pos b'r' (suc (length arg)) (clamp value) text
            (rw (e, judged_arg) at judged)
          ∙ rw (e, after_arg pos arg rest, add_placeholder)
              (ap
                (λ n.
                  record { start = pos; end = n; value = clamp value }
                  ∷ find_placeholders (pos + 3 + length arg) 0 rest)
                (omega arith))
    ]

-- Behind "r(", what stands before the bracket is read as a number.
pub find_placeholders_arg :
    (pos : ℕ) (arg rest : Bytes)
    → has_byte b')' arg ≡ false
    → find_placeholders pos 0 (b'r' ∷ b'(' ∷ (arg ++ (b')' ∷ rest)))
      ≡ add_placeholder pos arg (sscanf_long arg) (find_placeholders (pos + 3 + length arg) 0 rest)
find_placeholders_arg pos [] [] h =
    find_placeholders_short pos 0 (b'r' ∷ b'(' ∷ b')' ∷ []) (omega arith)
    ∙ unfold sscanf_long find_placeholders in refl
find_placeholders_arg pos [] (c ∷ rest) h = arg_long pos [] (c ∷ rest) h (omega arith)
find_placeholders_arg pos (c ∷ arg) rest h =
    arg_long pos (c ∷ arg) rest h (omega (arith, length-append arg (b')' ∷ rest)))
