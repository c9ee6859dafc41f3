-- ===== src/Rand/Scan.antt =====
-- Where `replace` finds placeholders.
use yeti_pg_ext.Base.{
  Bytes, ℕ, zero, suc, ◌+◌, ◌<◌, false, ◌&&◌, [], ◌∷◌, ◌++◌, none, ◌≡◌, ◌⊎◌, refl, sym, ap, ◌∙◌,
  arith, ltb, ◌==◌, length, inl, inr, Bool-cases,
}
use yeti_pg_ext.Base.CString.{has_byte, memchr-none}
use yeti_pg_ext.Templates.Search.{memmem, IsClear, prepend-none}
use yeti_pg_ext.Rand.{
  stop, skip_to, placeholder, unless_short, after_bracket, after_start, judge_start,
  find_placeholders,
}

-- The bytes to pass over are passed over.
pub find_placeholders-skip :
    (pos : ℕ) (xs ys : Bytes)
    → find_placeholders pos (length xs) (xs ++ ys) ≡ find_placeholders (pos + length xs) 0 ys
unfolding find_placeholders
find_placeholders-skip pos [] ys = ap (λ p. find_placeholders p 0 ys) (omega arith)
find_placeholders-skip pos (x ∷ xs) ys =
    find_placeholders-skip (suc pos) xs ys ∙ ap (λ p. find_placeholders p 0 ys) (omega arith)

pub find_placeholders-nil : (pos skip : ℕ) → find_placeholders pos skip [] ≡ []
unfolding find_placeholders
find_placeholders-nil pos skip = refl

find_placeholders-suc :
    (pos skip c : ℕ) (cs : Bytes)
    → find_placeholders pos (suc skip) (c ∷ cs) ≡ find_placeholders (suc pos) skip cs
unfolding find_placeholders
find_placeholders-suc pos skip c cs = refl

-- The three ways on from a place.
pub find_placeholders-stop :
    (pos c : ℕ) (cs : Bytes) → judge_start c cs ≡ stop → find_placeholders pos 0 (c ∷ cs) ≡ []
unfolding find_placeholders
find_placeholders-stop pos c cs h = rw (h, find_placeholders)

pub find_placeholders-skip_to :
    (pos c skip : ℕ) (cs : Bytes)
    → judge_start c cs ≡ skip_to skip
    → find_placeholders pos 0 (c ∷ cs) ≡ find_placeholders (suc pos) skip cs
unfolding find_placeholders
find_placeholders-skip_to pos c skip cs h = rw (h, find_placeholders)

pub find_placeholders-placeholder :
    (pos c skip value : ℕ) (cs : Bytes)
    → judge_start c cs ≡ placeholder skip value
    → find_placeholders pos 0 (c ∷ cs)
      ≡ record { start = pos; end = suc pos + skip; value = value }
        ∷ find_placeholders (suc pos) skip cs
unfolding find_placeholders
find_placeholders-placeholder pos c skip value cs h = rw (h, find_placeholders)

judge_start_short :
    (c : ℕ) (cs : Bytes)
    → length (c ∷ cs) < 4
    → (judge_start c cs ≡ stop) ⊎ (judge_start c cs ≡ skip_to 0)
unfolding judge_start
judge_start_short c cs h = ground arith

-- Three bytes hold no placeholder.
pub find_placeholders_short :
    (pos skip : ℕ) (cs : Bytes) → length cs < 4 → find_placeholders pos skip cs ≡ []
find_placeholders_short pos skip [] h = find_placeholders-nil pos skip
find_placeholders_short pos (suc skip) (c ∷ cs) h =
    find_placeholders-suc pos skip c cs ∙ find_placeholders_short (suc pos) skip cs (omega arith)
find_placeholders_short pos zero (c ∷ cs) h = elim (judge_start_short c cs h) [
  | inl e ↦ find_placeholders-stop pos c cs e
  | inr e ↦
      find_placeholders-skip_to pos c 0 cs e ∙ find_placeholders_short (suc pos) 0 cs (omega arith)
]

judge_start_miss :
    (c d : ℕ) (cs : Bytes)
    → (c == b'r' && d == b'(') ≡ false
    → (judge_start c (d ∷ cs) ≡ skip_to 0)
      ⊎ ((judge_start c (d ∷ cs) ≡ stop) × (length (d ∷ cs) < 4))
unfolding judge_start after_start
judge_start_miss c d cs h = ground arith

-- A byte at which no "r(" stands is passed over.
pub find_placeholders-cons :
    (pos c d : ℕ) (cs : Bytes)
    → (c == b'r' && d == b'(') ≡ false
    → find_placeholders pos 0 (c ∷ d ∷ cs) ≡ find_placeholders (suc pos) 0 (d ∷ cs)
find_placeholders-cons pos c d cs h = elim (judge_start_miss c d cs h) [
  | inl e ↦ find_placeholders-skip_to pos c 0 (d ∷ cs) e
  | inr (e, short) ↦
      find_placeholders-stop pos c (d ∷ cs) e
      ∙ sym (find_placeholders_short (suc pos) 0 (d ∷ cs) short)
]

-- Text in which no "r(" begins is passed over.
pub find_placeholders_clear :
    (pos : ℕ) (cs rest : Bytes)
    → IsClear b'r' b'(' cs
    → find_placeholders pos 0 (cs ++ (b'r' ∷ rest))
      ≡ find_placeholders (pos + length cs) 0 (b'r' ∷ rest)
unfolding memmem
find_placeholders_clear pos [] rest h = ap (λ p. find_placeholders p 0 (b'r' ∷ rest)) (omega arith)
find_placeholders_clear pos (c ∷ []) rest h =
    find_placeholders-cons pos c b'r' rest (ground arith)
    ∙ ap (λ p. find_placeholders p 0 (b'r' ∷ rest)) (omega arith)
find_placeholders_clear pos (c ∷ d ∷ cs) rest h =
    find_placeholders-cons pos c d (cs ++ (b'r' ∷ rest)) (ground arith)
    ∙ find_placeholders_clear (suc pos) (d ∷ cs) rest (ground arith)
    ∙ ap (λ p. find_placeholders p 0 (b'r' ∷ rest)) (omega arith)

after_bracket_open :
    (cs : Bytes) → has_byte b')' cs ≡ false → after_bracket cs ≡ unless_short cs (skip_to 1)
unfolding after_bracket
after_bracket_open cs h = rw (memchr-none b')' cs h, after_bracket)

judge_start_open :
    (c : ℕ) (cs : Bytes)
    → has_byte b')' cs ≡ false
    → (judge_start c cs ≡ stop) ⊎ ((skip : ℕ) × (judge_start c cs ≡ skip_to skip))
unfolding judge_start after_start
judge_start_open c [] h = ground arith
judge_start_open c (d ∷ cs) h = elim (Bool-cases (c == b'r' && d == b'(')) [
  | inl e ↦ elim (Bool-cases (ltb (length cs) 4)) [
    | inl short ↦ inl (ground (arith, after_bracket_open cs))
    | inr long ↦ inr (1, ground (arith, after_bracket_open cs))
  ]
  | inr e ↦ elim (judge_start_miss c d cs e) [ inl f ↦ inr (0, f) | inr (f, short) ↦ inl f ]
]

-- Without a closing bracket there is no placeholder.
pub find_placeholders_open :
    (pos skip : ℕ) (cs : Bytes) → has_byte b')' cs ≡ false → find_placeholders pos skip cs ≡ []
find_placeholders_open pos skip [] h = find_placeholders-nil pos skip
find_placeholders_open pos (suc skip) (c ∷ cs) h =
    find_placeholders-suc pos skip c cs ∙ find_placeholders_open (suc pos) skip cs (ground arith)
find_placeholders_open pos zero (c ∷ cs) h = elim (judge_start_open c cs (ground arith)) [
  | inl e ↦ find_placeholders-stop pos c cs e
  | inr (skip, e) ↦
      find_placeholders-skip_to pos c skip cs e
      ∙ find_placeholders_open (suc pos) skip cs (ground arith)
]

memmem_tail :
    (x y c d : ℕ) (cs : Bytes)
    → memmem x y (c ∷ d ∷ cs) ≡ none
    → ((c == x && d == y) ≡ false) × (memmem x y (d ∷ cs) ≡ none)
unfolding memmem
memmem_tail x y c d cs h = elim (Bool-cases (c == x && d == y)) [
  | inl hit ↦ absurd (ground (arith, hit, h))
  | inr miss ↦ (miss, prepend-none c (memmem x y (d ∷ cs)) (rw miss at h))
]

-- A text without "r(" has no placeholder.
pub find_placeholders_plain :
    (pos : ℕ) (cs : Bytes) → memmem b'r' b'(' cs ≡ none → find_placeholders pos 0 cs ≡ []
find_placeholders_plain pos [] h = find_placeholders-nil pos 0
find_placeholders_plain pos (c ∷ []) h = find_placeholders_short pos 0 (c ∷ []) (omega arith)
find_placeholders_plain pos (c ∷ d ∷ cs) h =
    let (miss, none_left) = memmem_tail b'r' b'(' c d cs h in
    find_placeholders-cons pos c d cs miss ∙ find_placeholders_plain (suc pos) (d ∷ cs) none_left
