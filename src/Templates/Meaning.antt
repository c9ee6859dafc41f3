-- ===== src/Templates/Meaning.antt =====
-- Templates as what they are made of, and what they stand for.
use mathlib.Core.List.{append-nil, append_assoc}
use yeti_pg_ext.Base.{
  Bytes, ℕ, zero, suc, ◌<◌, ◌≤◌, [], ◌∷◌, ◌++◌, Option, none, some, ◌≡◌, refl, sym, ap, ◌∙◌, inl,
  inr, arith, length, length-append, Option-cases,
}
use yeti_pg_ext.Templates.Search.{memmem, IsClear, memmem_first, memmem_split}
use yeti_pg_ext.Templates.{
  Jsonb, ParserState, st_normal, st_placeholder, Loop, expand, step, run, replace_placeholders,
}

-- Plain text to the end; text, a placeholder's name, and more; or text and an opening bracket that
-- is never closed.
pub data Template : Type 0 where
  plain : Bytes → Template
  placeholder : Bytes → Bytes → Template → Template
  unclosed : Bytes → Bytes → Template

abbrev pub print : Template → Bytes
print (plain text) = text
print (placeholder text name t) = text ++ (b'{' ∷ b'{' ∷ (name ++ (b'}' ∷ b'}' ∷ print t)))
print (unclosed text tail) = text ++ (b'{' ∷ b'{' ∷ tail)

-- The texts hold no opening bracket, the names no closing one.
abbrev pub IsTemplate : Template → Type 0
IsTemplate (plain text) = memmem b'{' b'{' text ≡ none
IsTemplate (placeholder text name t) =
    IsClear b'{' b'{' text × IsClear b'}' b'}' name × IsTemplate t
IsTemplate (unclosed text tail) = IsClear b'{' b'{' text × (memmem b'}' b'}' tail ≡ none)

module _ {Numeric : Type 0} (numeric_out : Numeric → Bytes) (values : Jsonb Numeric) where
  -- Each placeholder is put for its value, an opening bracket with no end is dropped.
  abbrev pub meaning : Template → Bytes
  meaning (plain text) = text
  meaning (placeholder text name t) = text ++ (expand numeric_out values name ++ meaning t)
  meaning (unclosed text tail) = text ++ tail

  abbrev at : ParserState → Bytes → Bytes → Loop
  at st rest sinfo = record { st = st; rest = rest; sinfo = sinfo }

  abbrev run_from : ℕ → Loop → Option Bytes
  run_from fuel l = run numeric_out fuel values l

  run_done : (fuel : ℕ) (st : ParserState) (out : Bytes) → run_from fuel (at st [] out) ≡ some out
  unfolding run
  run_done zero st out = refl
  run_done (suc fuel) st out = refl

  run_round :
      (fuel : ℕ) (st : ParserState) (rest out : Bytes)
      → 0 < length rest
      → run_from (suc fuel) (at st rest out)
        ≡ run_from fuel (step numeric_out values st (at st rest out))
  unfolding run
  run_round fuel st [] out h = absurd (omega arith)
  run_round fuel st (c ∷ cs) out h = refl

  -- No more brackets: the rest is copied.
  run_tail :
      (fuel : ℕ) (st : ParserState) (rest out : Bytes)
      → step numeric_out values st (at st rest out) ≡ at st [] (out ++ rest)
      → length rest ≤ fuel
      → run_from fuel (at st rest out) ≡ some (out ++ rest)
  run_tail fuel st [] out e h = run_done fuel st out ∙ ap some (sym (append-nil out))
  run_tail zero st (c ∷ cs) out e h = absurd (omega arith)
  run_tail (suc fuel) st (c ∷ cs) out e h =
      run_round fuel st (c ∷ cs) out (omega arith) ∙ rw e (run_done fuel st (out ++ (c ∷ cs)))

  step_open :
      (text rest out : Bytes)
      → IsClear b'{' b'{' text
      → step numeric_out values st_normal (at st_normal (text ++ (b'{' ∷ b'{' ∷ rest)) out)
        ≡ at st_placeholder rest (out ++ text)
  unfolding step
  step_open text rest out h = rw (memmem_first b'{' b'{' text rest h, step)

  step_close :
      (name rest out : Bytes)
      → IsClear b'}' b'}' name
      → step numeric_out values st_placeholder
          (at st_placeholder (name ++ (b'}' ∷ b'}' ∷ rest)) out)
        ≡ at st_normal rest (out ++ expand numeric_out values name)
  unfolding step
  step_close name rest out h = rw (memmem_first b'}' b'}' name rest h, step)

  step_plain :
      (text out : Bytes)
      → memmem b'{' b'{' text ≡ none
      → step numeric_out values st_normal (at st_normal text out) ≡ at st_normal [] (out ++ text)
  unfolding step
  step_plain text out h = rw h

  step_unclosed :
      (text out : Bytes)
      → memmem b'}' b'}' text ≡ none
      → step numeric_out values st_placeholder (at st_placeholder text out)
        ≡ at st_placeholder [] (out ++ text)
  unfolding step
  step_unclosed text out h = rw h

  run_open :
      (fuel : ℕ) (text rest out : Bytes)
      → IsClear b'{' b'{' text
      → run_from (suc fuel) (at st_normal (text ++ (b'{' ∷ b'{' ∷ rest)) out)
        ≡ run_from fuel (at st_placeholder rest (out ++ text))
  run_open fuel text rest out h =
      run_round fuel st_normal (text ++ (b'{' ∷ b'{' ∷ rest)) out
        (omega (arith, length-append text (b'{' ∷ b'{' ∷ rest)))
      ∙ ap (run_from fuel) (step_open text rest out h)

  run_close :
      (fuel : ℕ) (name rest out : Bytes)
      → IsClear b'}' b'}' name
      → run_from (suc fuel) (at st_placeholder (name ++ (b'}' ∷ b'}' ∷ rest)) out)
        ≡ run_from fuel (at st_normal rest (out ++ expand numeric_out values name))
  run_close fuel name rest out h =
      run_round fuel st_placeholder (name ++ (b'}' ∷ b'}' ∷ rest)) out
        (omega (arith, length-append name (b'}' ∷ b'}' ∷ rest)))
      ∙ ap (run_from fuel) (step_close name rest out h)

  run-meaning :
      (t : Template) (fuel : ℕ) (out : Bytes)
      → IsTemplate t
      → length (print t) ≤ fuel
      → run_from fuel (at st_normal (print t) out) ≡ some (out ++ meaning t)
  run-meaning (plain text) fuel out w h = run_tail fuel st_normal text out (step_plain text out w) h
  run-meaning (unclosed text tail) zero out w h =
      absurd (omega (arith, length-append text (b'{' ∷ b'{' ∷ tail)))
  run-meaning (unclosed text tail) (suc fuel) out w h =
      run_open fuel text tail out w.0
      ∙ run_tail fuel st_placeholder tail (out ++ text) (step_unclosed tail (out ++ text) w.1)
          (omega (arith, length-append text (b'{' ∷ b'{' ∷ tail)))
      ∙ ap some (append_assoc out text tail)
  run-meaning (placeholder text name t) zero out w h =
      absurd (omega (arith, length-append text (b'{' ∷ b'{' ∷ (name ++ (b'}' ∷ b'}' ∷ print t)))))
  run-meaning (placeholder text name t) (suc zero) out w h =
      absurd (omega (arith, length-append text (b'{' ∷ b'{' ∷ (name ++ (b'}' ∷ b'}' ∷ print t)))))
  run-meaning (placeholder text name t) (suc (suc fuel)) out w h =
      run_open (suc fuel) text (name ++ (b'}' ∷ b'}' ∷ print t)) out w.0
      ∙ run_close fuel name (print t) (out ++ text) w.1
      ∙ run-meaning t fuel ((out ++ text) ++ expand numeric_out values name) w.2 (
          omega (
            arith,
            length-append text (b'{' ∷ b'{' ∷ (name ++ (b'}' ∷ b'}' ∷ print t))),
            length-append name (b'}' ∷ b'}' ∷ print t),
          ))
      ∙ ap some (
          append_assoc (out ++ text) (expand numeric_out values name) (meaning t)
          ∙ append_assoc out text (expand numeric_out values name ++ meaning t))

  -- Enough fuel is given, and the result is the template's meaning.
  replace_placeholders-print :
      (t : Template)
      → IsTemplate t
      → replace_placeholders numeric_out (print t) values ≡ some (meaning t)
  unfolding replace_placeholders
  replace_placeholders-print t w = run-meaning t (length (print t)) [] w (omega arith)

-- A template whose text is `tpl`.
abbrev pub Reading : Bytes → Type 0
Reading tpl = (t : Template) × IsTemplate t × (print t ≡ tpl)

-- The template behind an opening bracket, from those of what follows its closing one.
Reading-open :
    (text after : Bytes)
    → IsClear b'{' b'{' text
    → ((rest : Bytes) → length rest < length after → Reading rest)
    → Reading (text ++ (b'{' ∷ b'{' ∷ after))
Reading-open text after c later = elim (Option-cases (memmem b'}' b'}' after)) [
  | inl e ↦ (unclosed text after, (c, e), refl)
  | inr ((name, rest), e) ↦
      let (whole, clear) = memmem_split b'}' b'}' after name rest e in
      let (t, w, p) =
        later rest (omega (arith, ap length whole, length-append name (b'}' ∷ b'}' ∷ rest))) in
      (placeholder text name t, (c, clear, w), rw (p, whole))
]

Reading-fuel : (fuel : ℕ) (tpl : Bytes) → length tpl < fuel → Reading tpl
Reading-fuel zero tpl h = elim h [ ]
Reading-fuel (suc fuel) tpl h = elim (Option-cases (memmem b'{' b'{' tpl)) [
  | inl e ↦ (plain tpl, e, refl)
  | inr ((text, after), e) ↦
      let (whole, clear) = memmem_split b'{' b'{' tpl text after e in
      rw whole (
        Reading-open text after clear (λ rest k.
          Reading-fuel fuel rest
            (omega (arith, ap length whole, length-append text (b'{' ∷ b'{' ∷ after)))))
]

-- Every text is a template, so the statement above covers all inputs.
reading : (tpl : Bytes) → Reading tpl
reading tpl = Reading-fuel (suc (length tpl)) tpl (omega arith)

-- Whatever the text, the loop ends within the fuel given, and gives the meaning of the template
-- that the text is.
pub replace_placeholders-meaning :
    {Numeric : Type 0} (numeric_out : Numeric → Bytes) (values : Jsonb Numeric) (tpl : Bytes)
    → (t : Template) × IsTemplate t
      × (print t ≡ tpl)
      × (replace_placeholders numeric_out tpl values ≡ some (meaning numeric_out values t))
replace_placeholders-meaning numeric_out values tpl =
    let (t, w, p) = reading tpl in
    (t, w, p, rw p at (replace_placeholders-print numeric_out values t w))
