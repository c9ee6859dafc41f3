-- ===== src/Templates/Search.antt =====
-- `memmem` for two bytes, as src/f_process_templates.c uses it.
use yeti_pg_ext.Base.{
  ℕ, Bool, true, false, ◌&&◌, [], ◌∷◌, ◌++◌, Option, none, some, ◌≡◌, refl, ap, inl, inr, arith,
  Bool-cases, ◌==◌, if◌then◌else◌, Bytes,
}

abbrev pub prepend : ℕ → Option (Bytes × Bytes) → Option (Bytes × Bytes)
prepend c none = none
prepend c (some (before, after)) = some (c ∷ before, after)

-- The bytes before the first place where `x` and `y` stand side by side, and those behind them.
unfoldable pub memmem : ℕ → ℕ → Bytes → Option (Bytes × Bytes)
memmem x y [] = none
memmem x y (c ∷ []) = none
memmem x y (c ∷ d ∷ cs) =
    let later = memmem x y (d ∷ cs) in if c == x && d == y then some ([], cs) else prepend c later

abbrev pub starts_with : Bytes → Bytes → Bool
starts_with [] cs = true
starts_with (p ∷ ps) [] = false
starts_with (p ∷ ps) (c ∷ cs) = p == c && starts_with ps cs

-- No place in the text and the byte `x` put behind it has the two side by side.
abbrev pub IsClear : ℕ → ℕ → Bytes → Type 0
IsClear x y cs = memmem x y (cs ++ (x ∷ [])) ≡ none

pub memmem_first :
    (x y : ℕ) (cs rest : Bytes)
    → IsClear x y cs
    → memmem x y (cs ++ (x ∷ y ∷ rest)) ≡ some (cs, rest)
unfolding memmem
memmem_first x y [] rest h = ground arith
memmem_first x y (c ∷ []) rest h = ground arith
memmem_first x y (c ∷ d ∷ cs) rest h = ground (arith, memmem_first x y (d ∷ cs) rest)

prepend-eq-some :
    (c : ℕ) (o : Option (Bytes × Bytes)) {before after : Bytes}
    → prepend c o ≡ some (before, after)
    → (tail : Bytes) × (o ≡ some (tail, after)) × (before ≡ c ∷ tail)
prepend-eq-some c none h = cc
prepend-eq-some c (some (b, a)) h = (b, ground arith, ground arith)

pub prepend-none : (c : ℕ) (o : Option (Bytes × Bytes)) → prepend c o ≡ none → o ≡ none
prepend-none c none h = refl
prepend-none c (some (b, a)) h = cc

IsClear-nil : (x y : ℕ) → IsClear x y []
unfolding memmem
IsClear-nil x y = refl

IsClear-cons :
    (x y c d : ℕ) (cs tail after : Bytes)
    → d ∷ cs ≡ tail ++ (x ∷ y ∷ after)
    → (c == x && d == y) ≡ false
    → IsClear x y tail
    → IsClear x y (c ∷ tail)
unfolding memmem
IsClear-cons x y c d cs [] after e n k = ground arith
IsClear-cons x y c d cs (t ∷ tail) after e n k = ground arith

pub memmem_split :
    (x y : ℕ) (cs before after : Bytes)
    → memmem x y cs ≡ some (before, after)
    → (cs ≡ before ++ (x ∷ y ∷ after)) × IsClear x y before
unfolding memmem
memmem_split x y [] before after h = cc
memmem_split x y (c ∷ []) before after h = cc
memmem_split x y (c ∷ d ∷ cs) before after h = elim (Bool-cases (c == x && d == y)) [
  | inl hit ↦ ground (arith, IsClear-nil x y)
  | inr miss ↦
      let (tail, found, e) = prepend-eq-some c (memmem x y (d ∷ cs)) (rw miss at h) in
      let (whole, clear) = memmem_split x y (d ∷ cs) tail after found in
      rw e (ap (◌∷◌ c) whole, IsClear-cons x y c d cs tail after whole miss clear)
]
