-- ===== src/Rand/Texts.antt =====
-- Texts of src/replace_rand.c as what they are made of.
use yeti_pg_ext.Base.{
  Bytes, ℕ, zero, suc, ◌+◌, ◌<◌, Bool, true, false, not, [], ◌∷◌, ◌++◌, List, Option, none, some,
  ◌≡◌, refl, ap, ◌∙◌, inl, inr, arith, length, length-append, Option-cases,
}
use yeti_pg_ext.Base.CString.{has_byte, memchr, memchr_split, memchr-eq-none}
use yeti_pg_ext.Templates.Search.{memmem, IsClear, memmem_split}
use yeti_pg_ext.Rand.Scan.{find_placeholders_clear, find_placeholders_open, find_placeholders_plain}
use yeti_pg_ext.Rand.Brackets.{find_placeholders_arg, add_placeholder}
use yeti_pg_ext.Rand.{Replacing, sscanf_long, find_placeholders, is_nil}

-- Text without "r(" to the end; text, "r(", what stands before the next bracket, the bracket and
-- more; or text, "r(" and a tail without a bracket.
pub data RandText : Type 0 where
  plain : Bytes → RandText
  call : Bytes → Bytes → RandText → RandText
  unclosed : Bytes → Bytes → RandText

abbrev pub print : RandText → Bytes
print (plain text) = text
print (call text arg t) = text ++ (b'r' ∷ b'(' ∷ (arg ++ (b')' ∷ print t)))
print (unclosed text tail) = text ++ (b'r' ∷ b'(' ∷ tail)

abbrev pub IsRandText : RandText → Type 0
IsRandText (plain text) = memmem b'r' b'(' text ≡ none
IsRandText (call text arg t) = IsClear b'r' b'(' text × (has_byte b')' arg ≡ false) × IsRandText t
IsRandText (unclosed text tail) = IsClear b'r' b'(' text × (has_byte b')' tail ≡ false)

abbrev pub replacings : ℕ → RandText → List Replacing
replacings pos (plain text) = []
replacings pos (call text arg t) =
    add_placeholder (pos + length text) arg (sscanf_long arg)
      (replacings (pos + length text + 3 + length arg) t)
replacings pos (unclosed text tail) = []

abbrev pub or_number : Option (Bool × ℕ) → Bool → Bool
or_number none later = later
or_number (some value) later = true

-- Some call has a number.
abbrev pub has_number : RandText → Bool
has_number (plain text) = false
has_number (call text arg t) = or_number (sscanf_long arg) (has_number t)
has_number (unclosed text tail) = false

add_placeholder-is_nil :
    (pos : ℕ) (arg : Bytes) (o : Option (Bool × ℕ)) (more : List Replacing) (later : Bool)
    → is_nil more ≡ not later
    → is_nil (add_placeholder pos arg o more) ≡ not (or_number o later)
add_placeholder-is_nil pos arg none more later h = h
add_placeholder-is_nil pos arg (some value) more later h = refl

-- There are placeholders where a call has a number.
pub is_nil-replacings : (pos : ℕ) (t : RandText) → is_nil (replacings pos t) ≡ not (has_number t)
is_nil-replacings pos (plain text) = refl
is_nil-replacings pos (unclosed text tail) = refl
is_nil-replacings pos (call text arg t) =
    let pos' = pos + length text + 3 + length arg in
    add_placeholder-is_nil (pos + length text) arg (sscanf_long arg) (replacings pos' t)
      (has_number t) (is_nil-replacings pos' t)

pub find-replacings :
    (pos : ℕ) (t : RandText) → IsRandText t → find_placeholders pos 0 (print t) ≡ replacings pos t
find-replacings pos (plain text) w = find_placeholders_plain pos text w
find-replacings pos (unclosed text tail) w =
    find_placeholders_clear pos text (b'(' ∷ tail) w.0
    ∙ find_placeholders_open (pos + length text) 0 (b'r' ∷ b'(' ∷ tail) w.1
find-replacings pos (call text arg t) w =
    find_placeholders_clear pos text (b'(' ∷ (arg ++ (b')' ∷ print t))) w.0
    ∙ find_placeholders_arg (pos + length text) arg (print t) w.1
    ∙ ap (add_placeholder (pos + length text) arg (sscanf_long arg))
        (find-replacings (pos + length text + 3 + length arg) t w.2)

abbrev pub Reading : Bytes → Type 0
Reading s = (t : RandText) × IsRandText t × (print t ≡ s)

-- The text behind "r(", from those of what follows the bracket.
Reading-open :
    (text after : Bytes)
    → IsClear b'r' b'(' text
    → ((rest : Bytes) → length rest < length after → Reading rest)
    → Reading (text ++ (b'r' ∷ b'(' ∷ after))
Reading-open text after c later = elim (Option-cases (memchr b')' after)) [
  | inl e ↦ (unclosed text after, (c, memchr-eq-none b')' after e), refl)
  | inr ((arg, rest), e) ↦
      let (whole, clear) = memchr_split b')' after arg rest e in
      let (t, w, p) =
        later rest (omega (arith, ap length whole, length-append arg (b')' ∷ rest))) in
      (call text arg t, (c, clear, w), rw (p, whole) refl)
]

Reading-fuel : (fuel : ℕ) (s : Bytes) → length s < fuel → Reading s
Reading-fuel zero s h = elim h [ ]
Reading-fuel (suc fuel) s h = elim (Option-cases (memmem b'r' b'(' s)) [
  | inl e ↦ (plain s, e, refl)
  | inr ((text, after), e) ↦
      let (whole, clear) = memmem_split b'r' b'(' s text after e in
      rw whole (
        Reading-open text after clear (λ rest k.
          Reading-fuel fuel rest
            (omega (arith, ap length whole, length-append text (b'r' ∷ b'(' ∷ after)))))
]

-- Every text is one of those.
pub reading : (s : Bytes) → Reading s
reading s = Reading-fuel (suc (length s)) s (omega arith)
