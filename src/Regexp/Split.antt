-- ===== src/Regexp/Split.antt =====
-- The token search of src/f_regexp_replace_rand.c, and the chunks of a text.
use mathlib.Core.List.{append-nil, append_assoc}
use yeti_pg_ext.Base.{
  Bytes, ℕ, zero, suc, ◌≤◌, ◌<◌, Bool, true, false, not, ◌&&◌, [], ◌∷◌, ◌++◌, List, Option, none,
  some, ◌≡◌, refl, sym, ap, subst, ◌∙◌, inl, inr, arith, ◌==◌, ==_iff, if◌then◌else◌, length,
  length-append, drop, Option-cases, Bool-cases,
}
use yeti_pg_ext.Base.CString.{memchr, has_byte, memchr_split, memchr-eq-none}
use yeti_pg_ext.Templates.Search.{memmem, prepend}
use yeti_pg_ext.Regexp.{is_empty_text, put_before, after_bar, search_from, search_split_token}

-- A byte that is not the first of the token is passed over.
memmem-cons :
    (x y c : ℕ) (cs : Bytes) → (c == x) ≡ false → memmem x y (c ∷ cs) ≡ prepend c (memmem x y cs)
unfolding memmem
memmem-cons x y c [] h = refl
memmem-cons x y c (d ∷ cs) h = rw h refl

put_before-cons :
    (c : ℕ) (cs : Bytes) (o : Option (Bytes × Bytes))
    → prepend c (put_before cs o) ≡ put_before (c ∷ cs) o
put_before-cons c cs none = refl
put_before-cons c cs (some (before, after)) = refl

put_before-nil : (o : Option (Bytes × Bytes)) → put_before [] o ≡ o
put_before-nil none = refl
put_before-nil (some (before, after)) = refl

put_before-append :
    (cs ds : Bytes) (o : Option (Bytes × Bytes))
    → put_before cs (put_before ds o) ≡ put_before (cs ++ ds) o
put_before-append cs ds none = refl
put_before-append cs ds (some (before, after)) =
    ap (λ text. some (text, after)) (sym (append_assoc cs ds before))

memmem-append :
    (x y : ℕ) (cs rest : Bytes)
    → has_byte x cs ≡ false
    → memmem x y (cs ++ rest) ≡ put_before cs (memmem x y rest)
memmem-append x y [] rest h = sym (put_before-nil (memmem x y rest))
memmem-append x y (c ∷ cs) rest h =
    memmem-cons x y c (cs ++ rest) (ground arith)
    ∙ ap (prepend c) (memmem-append x y cs rest (ground arith))
    ∙ put_before-cons c cs (memmem x y rest)

prepend_two :
    (d : ℕ) (o : Option (Bytes × Bytes)) → prepend b'|' (prepend d o) ≡ put_before (b'|' ∷ d ∷ []) o
prepend_two d none = refl
prepend_two d (some (before, after)) = refl

after_other :
    (before : Bytes) (d : ℕ) (cs : Bytes)
    → put_before before (prepend b'|' (prepend d (memmem b'|' b'|' cs))) ≡ (
        if is_empty_text cs
        then none
        else put_before (before ++ (b'|' ∷ d ∷ [])) (memmem b'|' b'|' cs))
unfolding memmem
after_other before d [] = refl
after_other before d (c ∷ cs) =
    let found = memmem b'|' b'|' (c ∷ cs) in
    ap (put_before before) (prepend_two d found) ∙ put_before-append before (b'|' ∷ d ∷ []) found

-- What stands at and behind the first '|'.
after_bar-memmem :
    (before after : Bytes)
    → put_before before (memmem b'|' b'|' (b'|' ∷ after))
      ≡ after_bar before after (memmem b'|' b'|' (drop 1 after))
unfolding memmem
after_bar-memmem before [] = refl
after_bar-memmem before (d ∷ cs) = elim (Bool-cases (d == b'|')) [
  | inl hit ↦ rw hit (ap (λ text. some (text, cs)) (append-nil before))
  | inr miss ↦ rw (miss, memmem-cons b'|' b'|' d cs miss) (after_other before d cs)
]

memmem-none : (s : Bytes) → has_byte b'|' s ≡ false → memmem b'|' b'|' s ≡ none
unfolding memmem
memmem-none [] h = refl
memmem-none (c ∷ s) h =
    memmem-cons b'|' b'|' c s (ground arith) ∙ ap (prepend c) (memmem-none s (ground arith))

length-drop_le : (after : Bytes) → length (drop 1 after) ≤ length after
length-drop_le [] = omega arith
length-drop_le (c ∷ cs) = omega arith

shorter :
    (s before after : Bytes) (fuel : ℕ)
    → s ≡ before ++ (b'|' ∷ after)
    → length s < suc fuel
    → length (drop 1 after) < fuel
shorter s before after fuel whole h =
    omega (arith, h, ap length whole, length-append before (b'|' ∷ after), length-drop_le after)

search_from-memmem :
    (fuel : ℕ) (s : Bytes) → length s < fuel → search_from fuel s ≡ memmem b'|' b'|' s
unfolding search_from
search_from-memmem zero s h = elim h [ ]
search_from-memmem (suc fuel) s h = elim (Option-cases (memchr b'|' s)) [
  | inl e ↦ rw (e, search_from) (sym (memmem-none s (memchr-eq-none b'|' s e)))
  | inr ((before, after), e) ↦
      let (whole, clear) = memchr_split b'|' s before after e in
      rw
        (
          e,
          search_from-memmem fuel (drop 1 after) (shorter s before after fuel whole h),
          search_from,
        )
        (sym (after_bar-memmem before after)
          ∙ sym (memmem-append b'|' b'|' before (b'|' ∷ after) clear)
          ∙ ap (memmem b'|' b'|') (sym whole))
]

-- The token search, which takes two bytes at a time behind a bar that is alone, finds the first "||".
pub search_split_token-memmem : (s : Bytes) → search_split_token s ≡ memmem b'|' b'|' s
unfolding search_split_token
search_split_token-memmem s = search_from-memmem (suc (length s)) s (omega arith)

abbrev cons_head : ℕ → List Bytes → List Bytes
cons_head c [] = (c ∷ []) ∷ []
cons_head c (chunk ∷ chunks) = (c ∷ chunk) ∷ chunks

abbrev pub unless_end : Bytes → List Bytes → List Bytes
unless_end rest chunks = if is_empty_text rest then [] else chunks

-- The chunks of a text, or, after a '|', of it and that bar before it.
abbrev chunks_from : Bool → Bytes → List Bytes
chunks_from bar [] = (if bar then b'|' ∷ [] else []) ∷ []
chunks_from bar (c ∷ cs) =
    let later = chunks_from (not bar && c == b'|') cs in
    if bar
    then (if c == b'|' then [] ∷ unless_end cs later else cons_head b'|' (cons_head c later))
    else if c == b'|'
    then later
    else cons_head c later

-- A text cut at every "||", without a last chunk that is empty and not the only one.
abbrev pub chunks : Bytes → List Bytes
chunks s = chunks_from false s

abbrev with_bar : Bool → Bytes → Bytes
with_bar bar s = if bar then b'|' ∷ s else s

abbrev pub chunks_at : Option (Bytes × Bytes) → Bytes → List Bytes
chunks_at none s = s ∷ []
chunks_at (some (before, after)) s = before ∷ unless_end after (chunks after)

cons_head-chunks_at :
    (c : ℕ) (o : Option (Bytes × Bytes)) (s : Bytes)
    → cons_head c (chunks_at o s) ≡ chunks_at (prepend c o) (c ∷ s)
cons_head-chunks_at c none s = refl
cons_head-chunks_at c (some (before, after)) s = refl

chunks_from-memmem :
    (bar : Bool) (s : Bytes)
    → chunks_from bar s ≡ chunks_at (memmem b'|' b'|' (with_bar bar s)) (with_bar bar s)
unfolding memmem
chunks_from-memmem true [] = refl
chunks_from-memmem false [] = refl
chunks_from-memmem true (c ∷ cs) = elim (Bool-cases (c == b'|')) [
  | inl hit ↦ rw hit refl
  | inr miss ↦
      rw (miss, memmem-cons b'|' b'|' c cs miss)
        (ap (λ xs. cons_head b'|' (cons_head c xs)) (chunks_from-memmem false cs)
          ∙ ap (cons_head b'|') (cons_head-chunks_at c (memmem b'|' b'|' cs) cs)
          ∙ cons_head-chunks_at b'|' (prepend c (memmem b'|' b'|' cs)) (c ∷ cs))
]
chunks_from-memmem false (c ∷ cs) = elim (Bool-cases (c == b'|')) [
  | inl hit ↦ rw hit (
      subst (λ d. chunks_from true cs ≡ chunks_at (memmem b'|' b'|' (d ∷ cs)) (d ∷ cs))
        (sym ((==_iff c b'|').0 hit)) (chunks_from-memmem true cs))
  | inr miss ↦
      rw (miss, memmem-cons b'|' b'|' c cs miss)
        (ap (cons_head c) (chunks_from-memmem false cs)
          ∙ cons_head-chunks_at c (memmem b'|' b'|' cs) cs)
]

-- The first chunk ends where the search finds the token.
pub chunks_lem : (s : Bytes) → chunks s ≡ chunks_at (search_split_token s) s
chunks_lem s = rw (search_split_token-memmem s) (chunks_from-memmem false s)
