-- ===== src/Tags/Tests.antt =====
-- `tag_action` and `tag_compare` at concrete arrays.
use yeti_pg_ext.Base.{not, ◌&&◌, ◌||◌, [], ◌∷◌, none, some, ◌≡◌, ◌≢◌, refl, arith}
use yeti_pg_ext.Base.Outcome.{ok, fault}
use yeti_pg_ext.Tags.Sets.{Array, has}
use yeti_pg_ext.Tags.Action.{op_remove, op_append, op_intersection, op_replace, tag_action}
use yeti_pg_ext.Tags.Action.Laws.{
  IsSetOf, tag_action-remove, tag_action-intersection, tag_action-append,
  tag_action-append_distinct,
}
use yeti_pg_ext.Tags.Action.Errors.{tag_action-ne-fault}
use yeti_pg_ext.Tags.Compare.{mode_of, matched_with_null, tag_compare}
use yeti_pg_ext.Tags.Compare.Verdict.{tag_compare-verdict}

abbrev with_null : Array
with_null = some 1 ∷ none ∷ some 2 ∷ some 1 ∷ []

abbrev other_tags : Array
other_tags = some 2 ∷ some 5 ∷ none ∷ []

abbrev eight_nulls : Array
eight_nulls = none ∷ none ∷ none ∷ none ∷ none ∷ none ∷ none ∷ some 7 ∷ []

tag_compare_nulls : tag_compare (some with_null) (some other_tags) none ≡ ok matched_with_null
unfolding mode_of
tag_compare_nulls = tag_compare-verdict with_null other_tags none

tag_action_removes :
    IsSetOf
      (tag_action (some op_remove) (some with_null) (some other_tags))
      (λ v. has with_null v && not (has other_tags v))
tag_action_removes = tag_action-remove with_null other_tags

tag_action_intersects :
    IsSetOf
      (tag_action (some op_intersection) (some with_null) (some other_tags))
      (λ v. has with_null v && has other_tags v)
tag_action_intersects = tag_action-intersection with_null other_tags

tag_action_appends :
    IsSetOf
      (tag_action (some op_append) (some []) (some eight_nulls))
      (λ v. has [] v || has eight_nulls v)
tag_action_appends = tag_action-append [] eight_nulls (omega arith)

tag_action_leaves_memory_distinct :
    tag_action (some op_append) (some with_null) (some (some 5 ∷ some 6 ∷ [])) ≡ fault
tag_action_leaves_memory_distinct =
    tag_action-append_distinct with_null (some 5 ∷ some 6 ∷ []) refl (omega arith)

tag_action_keeps_memory : tag_action (some op_replace) (some with_null) (some other_tags) ≢ fault
tag_action_keeps_memory =
    tag_action-ne-fault (some op_replace) (some with_null) (some other_tags) (λ h. ground arith)
