-- ===== src/Regexp/Extra.antt =====
-- What regexp_replace_rand_array_noopt tries for an element, round by round.
use yeti_pg_ext.Base.{Bytes, ℕ, suc, [], ◌∷◌, ◌++◌, none, some, ◌≡◌, refl}
use yeti_pg_ext.Regexp.Chunks.{
  later_pairs, first_chunk, pairs-last_rule, pairs-last_result, pairs-both,
}
use yeti_pg_ext.Regexp.Arrays.{extra, extra_after, element_pairs}
use yeti_pg_ext.Regexp.{search_split_token}

pub element_pairs-last_rule :
    (k : ℕ) (rule result : Bytes)
    → search_split_token rule ≡ none
    → element_pairs (suc k) rule result
      ≡ (rule, first_chunk result (search_split_token result)) ∷ []
element_pairs-last_rule k rule result e = rw (pairs-last_rule k rule result e, e, extra) refl

pub element_pairs-last_result :
    (k : ℕ) (rule result chunk rest : Bytes)
    → search_split_token rule ≡ some (chunk, rest)
    → search_split_token result ≡ none
    → element_pairs (suc k) rule result ≡ (chunk, result) ∷ []
element_pairs-last_result k rule result chunk rest e f =
    rw (pairs-last_result k rule result chunk rest e f, e, f, extra) refl

pub element_pairs-both :
    (k : ℕ) (rule result chunk rest result_chunk result_rest : Bytes)
    → search_split_token rule ≡ some (chunk, rest)
    → search_split_token result ≡ some (result_chunk, result_rest)
    → element_pairs (suc k) rule result
      ≡ (chunk, result_chunk)
        ∷ (later_pairs k rest result_rest
            ++ extra_after k rule result_chunk rest result_rest (extra k rest result_rest))
element_pairs-both k rule result chunk rest result_chunk result_rest e f =
    rw (pairs-both k rule result chunk rest result_chunk result_rest e f, e, f, extra) refl
