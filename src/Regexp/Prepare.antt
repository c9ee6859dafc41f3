-- ===== src/Regexp/Prepare.antt =====
-- What the preparation of the arguments in src/f_regexp_replace_rand.c gives.
use yeti_pg_ext.Base.{
  Bytes, ℕ, Bool, true, false, Option, none, some, ◌≡◌, refl, ap, inl, inr, Bool-cases, arith,
}
use yeti_pg_ext.Base.Outcome.{ok}
use yeti_pg_ext.Templates.{Jsonb}
use yeti_pg_ext.Templates.Meaning
use yeti_pg_ext.Templates.Meaning.{replace_placeholders-meaning}
use yeti_pg_ext.Rand.Texts.{has_number}
use yeti_pg_ext.Rand.Fill.{meaning}
use yeti_pg_ext.Rand.Meaning.{replace-meaning}
use yeti_pg_ext.Regexp.Calls.{Saved, or_orig, put_values, prepare_args}
use yeti_pg_ext.Regexp.{Args, replace_result}

-- `saved` has the texts of `a`, or knows what they were.
abbrev pub IsSaved : Args → Saved → Type 0
IsSaved a saved =
    (saved.args.arg_in ≡ a.arg_in)
    × (or_orig saved.args.arg_rule saved.orig_rule ≡ a.arg_rule)
    × (or_orig saved.args.arg_result saved.orig_result ≡ a.arg_result)

-- With an object of variables both texts are put aside.
abbrev pub HasOriginals : Args → Saved → Type 0
HasOriginals a saved = (saved.orig_rule ≡ some a.arg_rule) × (saved.orig_result ≡ some a.arg_result)

abbrev pub is_object_of : {Numeric : Type 0} → Option (Jsonb Numeric) → Bool
is_object_of none = false
is_object_of (some values) = values.is_object

module _ {Numeric : Type 0} (rand_r : ℕ → ℕ × ℕ) (numeric_out : Numeric → Bytes) where
  put_values-IsSaved :
      (a : Args) (saved : Saved) (vars : Option (Jsonb Numeric))
      → IsSaved a saved
      → saved.args.arg_rule ≡ a.arg_rule
      → (out : Saved) × (put_values rand_r numeric_out saved a.arg_result vars ≡ ok out)
        × IsSaved a out
        × (is_object_of vars ≡ true → HasOriginals a out)
  unfolding put_values
  put_values-IsSaved a saved none w e = (saved, refl, w, λ h. cc)
  put_values-IsSaved a saved (some values) w e =
      let (t, x, p, result) =
        replace_placeholders-meaning numeric_out values saved.args.arg_result in
      let (u, y, q, rule) = replace_placeholders-meaning numeric_out values saved.args.arg_rule in
      elim (Bool-cases values.is_object) [
        | inl object ↦ (
          record {
            args = record {
              arg_in = saved.args.arg_in;
              arg_rule = Meaning.meaning numeric_out values u;
              arg_result = Meaning.meaning numeric_out values t;
            };
            orig_rule = some saved.args.arg_rule;
            orig_result = some a.arg_result;
          },
          simp (object, result, rule) refl,
          (w.0, e, refl),
          λ h. (ap some e, refl),
        )
        | inr other ↦ (saved, rw other refl, w, λ h. absurd (ground (arith, h, other)))
      ]

  pub prepare_args-IsSaved :
      (seed : ℕ) (vars : Option (Jsonb Numeric)) (a : Args)
      → (saved : Saved) × (prepare_args rand_r numeric_out seed vars a ≡ ok saved)
        × IsSaved a saved
        × (is_object_of vars ≡ true → HasOriginals a saved)
  unfolding prepare_args
  prepare_args-IsSaved seed vars a =
      let (t, w, p, e) = replace-meaning rand_r seed a.arg_result in
      elim (Bool-cases (has_number t)) [
        | inl some_number ↦
            let put : Saved = record {
              args = replace_result a (meaning rand_r seed t);
              orig_rule = none;
              orig_result = some a.arg_result;
            } in
            let (saved, f, v, h) = put_values-IsSaved a put vars (refl, refl, refl) refl in
            (saved, rw (e, some_number) f, v, h)
        | inr no_number ↦
            let put : Saved = record { args = a; orig_rule = none; orig_result = none } in
            let (saved, f, v, h) = put_values-IsSaved a put vars (refl, refl, refl) refl in
            (saved, rw (e, no_number) f, v, h)
      ]
