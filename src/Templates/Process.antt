-- ===== src/Templates/Process.antt =====
-- What `process_templates` gives for each kind of argument.
use yeti_pg_ext.Base.{Bytes, true, List, [], ◌∷◌, Option, none, some, ◌≡◌, refl}
use yeti_pg_ext.Templates.Meaning.{
  Template, print, IsTemplate, meaning, replace_placeholders-meaning,
}
use yeti_pg_ext.Templates.{
  Jsonb, Texts, text, text_array, other_type, replace_each, process_templates,
}

module _ {Numeric : Type 0} (numeric_out : Numeric → Bytes) (values : Jsonb Numeric) where
  -- `out` is what the template `tpl` stands for.
  abbrev pub Means : Bytes → Bytes → Type 0
  Means tpl out =
      (t : Template) × IsTemplate t × (print t ≡ tpl) × (meaning numeric_out values t ≡ out)

  -- Element by element: a NULL for a NULL, and for a text what it stands for.
  abbrev pub EachMeans : List (Option Bytes) → List (Option Bytes) → Type 0
  EachMeans [] [] = Unit {0}
  EachMeans (none ∷ xs) (none ∷ ys) = EachMeans xs ys
  EachMeans (some x ∷ xs) (some y ∷ ys) = Means x y × EachMeans xs ys
  EachMeans _ _ = ⊥

  abbrev pub Processed : Texts → Option Texts → Type 0
  Processed (text tpl) (some (text out)) = Means tpl out
  Processed (text_array xs) (some (text_array ys)) = EachMeans xs ys
  Processed other_type none = Unit {0}
  Processed _ _ = ⊥

  replace_each-EachMeans :
      (xs : List (Option Bytes))
      → (ys : List (Option Bytes)) × (replace_each numeric_out values xs ≡ some ys)
        × EachMeans xs ys
  unfolding replace_each
  replace_each-EachMeans [] = ([], refl, tt)
  replace_each-EachMeans (none ∷ xs) =
      let (ys, e, m) = replace_each-EachMeans xs in (none ∷ ys, rw e, m)
  replace_each-EachMeans (some x ∷ xs) =
      let (ys, e, m) = replace_each-EachMeans xs in
      let (t, w, p, r) = replace_placeholders-meaning numeric_out values x in
      (some (meaning numeric_out values t) ∷ ys, simp (r, e, replace_each), ((t, w, p, refl), m))

  -- With an object of variables the call ends and every text is put for what it stands for.
  pub process_templates-Processed :
      (arg : Texts)
      → values.is_object ≡ true
      → (r : Option Texts) × (process_templates numeric_out (some arg) (some values) ≡ some r)
        × Processed arg r
  unfolding process_templates
  process_templates-Processed other_type h = (none, refl, tt)
  process_templates-Processed (text tpl) h =
      let (t, w, p, r) = replace_placeholders-meaning numeric_out values tpl in
      (some (text (meaning numeric_out values t)), simp (h, r), (t, w, p, refl))
  process_templates-Processed (text_array xs) h =
      let (ys, e, m) = replace_each-EachMeans xs in (some (text_array ys), simp (h, e), m)
