-- ===== src/Templates/Tests.antt =====
-- Templates over one variable, with numbers as texts.
use yeti_pg_ext.Base.{
  Bytes, ◌==◌, if◌then◌else◌, true, [], ◌∷◌, ◌++◌, Option, none, some, ◌≡◌, refl,
}
use yeti_pg_ext.Templates.{
  prefix, Jsonb, jbv_string, replace_placeholders, Texts, text_array, process_templates,
}
use yeti_pg_ext.Templates.Meaning.{
  Template, print, IsTemplate, meaning, replace_placeholders-meaning,
}
use yeti_pg_ext.Templates.Process.{Processed, process_templates-Processed}

abbrev print_number : Bytes → Bytes
print_number n = n

-- { "x": "7" }
abbrev one_value : Jsonb Bytes
one_value = record {
  is_object = true;
  get_value = λ name. elim name [
    | [] ↦ none
    | c ∷ cs ↦ if c == b'x' then some (jbv_string (b'7' ∷ [])) else none
  ];
}

-- a{{vars.x}}b
abbrev with_placeholder : Bytes
with_placeholder = b'a' ∷ b'{' ∷ b'{' ∷ (prefix ++ (b'x' ∷ b'}' ∷ b'}' ∷ b'b' ∷ []))

replace_placeholders_example :
    (t : Template) × IsTemplate t
    × (print t ≡ with_placeholder)
    × (replace_placeholders print_number with_placeholder one_value
        ≡ some (meaning print_number one_value t))
replace_placeholders_example = replace_placeholders-meaning print_number one_value with_placeholder

replace_placeholders_run :
    replace_placeholders print_number with_placeholder one_value ≡ some (b'a' ∷ b'7' ∷ b'b' ∷ [])
unfolding replace_placeholders
replace_placeholders_run = refl

process_templates_example :
    (r : Option Texts) × (process_templates print_number
        (some (text_array (none ∷ some with_placeholder ∷ [])))
        (some one_value)
      ≡ some r)
    × Processed print_number one_value (text_array (none ∷ some with_placeholder ∷ [])) r
process_templates_example =
    process_templates-Processed print_number one_value
      (text_array (none ∷ some with_placeholder ∷ [])) refl
