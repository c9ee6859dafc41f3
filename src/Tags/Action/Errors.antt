-- ===== src/Tags/Action/Errors.antt =====
-- When `tag_action` raises an ERROR, and which operations keep to their memory.
use yeti_pg_ext.Base.{ℕ, ◌*◌, Option, none, some, ◌≡◌, ◌≢◌, ◌⊎◌, ◌↔◌, ap, arith, length}
use yeti_pg_ext.Base.Outcome.{error, fault}
use yeti_pg_ext.Tags.Sets.{Array}
use yeti_pg_ext.Tags.Buffer.{datum_size}
use yeti_pg_ext.Tags.Action.{
  op_clear, op_remove, op_append, op_intersection, op_replace, intersect_values, combine,
  tag_action,
}
use yeti_pg_ext.Tags.Action.Loops.{collect-add_all, intersect_common}
use yeti_pg_ext.Tags.Action.Laws.{
  tags, buffer_of, buffer_of-Fits, remove_values-without, append_values_cases,
}

-- The operations that the switch knows.
abbrev pub IsOp : ℕ → Type 0
IsOp op =
    (op ≡ op_clear)
    ⊎ (op ≡ op_remove)
    ⊎ (op ≡ op_append)
    ⊎ (op ≡ op_intersection)
    ⊎ (op ≡ op_replace)

-- Three arguments that are not NULL, and a number that is no operation.
abbrev pub HasUnknownOp : Option ℕ → Option Array → Option Array → Type 0
HasUnknownOp (some n) (some x) (some y) = ¬ IsOp n
HasUnknownOp _ _ _ = ⊥

combine-ne-error : (op : ℕ) (a b : Array) → combine op a b ≢ error
unfolding combine intersect_values
combine-ne-error op a b = rw (collect-add_all a) (
    rw (remove_values-without (length a * datum_size) (tags a) b (buffer_of-Fits a)) (
      rw (append_values_cases a b)
        (rw (intersect_common (buffer_of a) b (buffer_of-Fits a)) (λ e. ground arith))))

combine-ne-fault : (op : ℕ) (a b : Array) → op ≢ op_append → combine op a b ≢ fault
unfolding combine intersect_values
combine-ne-fault op a b other = rw (collect-add_all a) (
    rw (remove_values-without (length a * datum_size) (tags a) b (buffer_of-Fits a))
      (rw (intersect_common (buffer_of a) b (buffer_of-Fits a)) (λ e. ground arith)))

-- Whatever the arrays, no operation but APPEND leaves the memory that it asked for.
pub tag_action-ne-fault :
    (op : Option ℕ) (a b : Option Array) → op ≢ some op_append → tag_action op a b ≢ fault
unfolding tag_action
tag_action-ne-fault op none b h = λ e. cc
tag_action-ne-fault op (some a) none h = λ e. cc
tag_action-ne-fault none (some a) (some b) h = λ e. cc
tag_action-ne-fault (some n) (some a) (some b) h =
    λ e. ground (arith, combine-ne-fault n a b (λ k. h (ap some k)))

-- An ERROR is raised exactly for an unknown operation between arrays that are not NULL.
pub tag_action-eq-error_iff :
    (op : Option ℕ) (a b : Option Array) → (tag_action op a b ≡ error) ↔ HasUnknownOp op a b
unfolding tag_action
tag_action-eq-error_iff none none b = (λ e. cc, λ u. absurd u)
tag_action-eq-error_iff (some n) none b = (λ e. cc, λ u. absurd u)
tag_action-eq-error_iff none (some a) none = (λ e. cc, λ u. absurd u)
tag_action-eq-error_iff (some n) (some a) none = (λ e. cc, λ u. absurd u)
tag_action-eq-error_iff none (some a) (some b) = (λ e. cc, λ u. absurd u)
tag_action-eq-error_iff (some n) (some a) (some b) =
    (λ e. ground (arith, combine-ne-error n a b), λ u. ground arith)
