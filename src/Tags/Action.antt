-- ===== src/Tags/Action.antt =====
-- src/f_tag_action.c: `tag_action(op, a, b)`. An argument that is SQL NULL is `none`, and so is a
-- NULL result; `op` is the 32-bit pattern of the int4 argument.
pub mod Loops
pub mod Laws
pub mod Errors
use yeti_pg_ext.Base.{
  ℕ, ◌+◌, ◌*◌, Bool, true, false, List, [], ◌∷◌, Option, none, some, ◌==◌, if◌then◌else◌, length,
}
use yeti_pg_ext.Base.Outcome.{Outcome, ok, error, ◌>>=◌}
use yeti_pg_ext.Tags.Sets.{Array}
use yeti_pg_ext.Tags.Buffer.{
  datum_size, Buffer, palloc, set_contains_value, push, fill, construct_array,
}

abbrev pub op_clear : ℕ
op_clear = 1

abbrev pub op_remove : ℕ
op_remove = 2

abbrev pub op_append : ℕ
op_append = 3

abbrev pub op_intersection : ℕ
op_intersection = 4

abbrev pub op_replace : ℕ
op_replace = 5

-- `pos < 0`
abbrev pub is_empty : List ℕ → Bool
is_empty [] = true
is_empty (x ∷ xs) = false

-- construct_empty_array or construct_array
abbrev pub array_of : Buffer → Outcome Array
array_of s = if is_empty s.items then ok [] else construct_array s

-- The unique non-NULL values of an array, in a buffer with room for each of its elements.
unfoldable pub collect : Array → Outcome Buffer
unfolding fill
collect arr = fill (palloc (length arr * datum_size)) arr

-- `for(i = 0; i <= apos; i++)`: the entries of `aset` that are not in `bset`
unfoldable pub subtract : Buffer → Buffer → List ℕ → Outcome Buffer
unfolding set_contains_value push
subtract bset rset [] = ok rset
subtract bset rset (x ∷ xs) = do
  found ← set_contains_value bset x
  r ← if found then ok rset else push rset x
  subtract bset r xs

unfoldable pub remove_values : Buffer → Array → Outcome Array
unfolding collect subtract construct_array
remove_values aset b = if is_empty aset.items then ok [] else do
  bset ← collect b
  if is_empty bset.items
      then construct_array aset
      else (subtract bset (palloc (length aset.items * datum_size)) aset.items >>= array_of)

-- repalloc(aset, apos + 1 + b_len): the new size is a number of bytes
unfoldable pub repalloc : Buffer → ℕ → Buffer
repalloc s n = record s { bytes = n }

unfoldable pub append_values : Buffer → Array → Outcome Array
unfolding fill repalloc construct_array
append_values aset b = fill (repalloc aset (length aset.items + length b)) b >>= array_of

-- One element of `b`: skipped if `rset` has it, or if `aset` has not.
unfoldable pub keep_common : Buffer → Buffer → ℕ → Outcome Buffer
unfolding set_contains_value push
keep_common aset rset v = do
  found ← set_contains_value rset v
  common ← if found then ok false else set_contains_value aset v
  if common then push rset v else ok rset

unfoldable pub intersect : Buffer → Buffer → Array → Outcome Buffer
unfolding keep_common
intersect aset rset [] = ok rset
intersect aset rset (none ∷ vs) = intersect aset rset vs
intersect aset rset (some v ∷ vs) = do r ← keep_common aset rset v; intersect aset r vs

unfoldable pub intersect_values : Buffer → Array → Outcome Array
unfolding intersect construct_array
intersect_values aset b = intersect aset (palloc (length aset.items * datum_size)) b >>= array_of

-- The second switch, behind the construction of `aset`.
unfoldable pub combine : ℕ → Array → Array → Outcome Array
unfolding collect remove_values append_values intersect_values
combine op a b = do
  aset ← collect a
  if op == op_remove
      then remove_values aset b
      else if op == op_append
      then append_values aset b
      else intersect_values aset b

unfoldable pub apply_op : ℕ → Array → Array → Outcome Array
unfolding combine
apply_op op a b =
    if op == op_clear
    then ok []
    else if op == op_replace
    then ok b
    else if op == op_remove
    then combine op a b
    else if op == op_append
    then combine op a b
    else if op == op_intersection
    then combine op a b
    else error

unfoldable pub tag_action : Option ℕ → Option Array → Option Array → Outcome (Option Array)
unfolding apply_op
tag_action op none b = ok none
tag_action op (some a) none = ok none
tag_action none (some a) (some b) = ok (some a)
tag_action (some op) (some a) (some b) = do r ← apply_op op a b; ok (some r)
