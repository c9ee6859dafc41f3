-- ===== src/Tags/Compare/Loops.antt =====
-- What the loops of `tag_compare` compute.
use yeti_pg_ext.Base.{
  ℕ, ◌*◌, ◌≤◌, Bool, true, false, ◌&&◌, ◌||◌, [], ◌∷◌, none, some, ◌≡◌, ◌≢◌, refl, ◌∙◌, inl, inr,
  arith, if◌then◌else◌, Bool-cases, length,
}
use yeti_pg_ext.Base.Outcome.{ok, ◌>>=◌}
use yeti_pg_ext.Tags.Sets.{Array, contains, add_one, add_all, length-add_one, length-le-add_all}
use yeti_pg_ext.Tags.Buffer.{
  datum_size, Buffer, Fits, add, set_contains_value-contains, add-add_one,
}
use yeti_pg_ext.Tags.Compare.{
  Mode, b_in_a, mutual_match, intersection, Code, not_matched, matched_with_null, returned, scanned,
  break_with, go_on, fill_a, judge, scan_b,
}

-- Tests on the tags of an array, its NULL elements left aside.
abbrev pub all_of : (ℕ → Bool) → Array → Bool
all_of p [] = true
all_of p (none ∷ vs) = all_of p vs
all_of p (some v ∷ vs) = p v && all_of p vs

abbrev pub any_of : (ℕ → Bool) → Array → Bool
any_of p [] = false
any_of p (none ∷ vs) = any_of p vs
any_of p (some v ∷ vs) = p v || any_of p vs

abbrev pub has_null : Array → Bool
has_null [] = false
has_null (none ∷ vs) = true
has_null (some v ∷ vs) = has_null vs

module _ (s : Buffer) (v : ℕ) (vs : Array)
    (room : length (add_all (add_one s.items v) vs) * datum_size ≤ s.bytes) where
  -- One more tag, where there is room for it and the tags behind it.
  add_with_room : add s v ≡ ok (record s { items = add_one s.items v })
  add_with_room =
      add-add_one s v (omega (arith, length-le-add_all (add_one s.items v) vs))
        (length-add_one s.items v).1

pub fill_a_lem :
    (s : Buffer) (flag : Bool) (vs : Array)
    → length (add_all s.items vs) * datum_size ≤ s.bytes
    → fill_a s flag vs ≡ ok (record s { items = add_all s.items vs }, flag || has_null vs)
unfolding fill_a
fill_a_lem s flag [] h = ground arith
fill_a_lem s flag (none ∷ vs) h = fill_a_lem s true vs h ∙ ground arith
fill_a_lem s flag (some v ∷ vs) h =
    rw (add_with_room s v vs h) (fill_a_lem (record s { items = add_one s.items v }) flag vs h)

-- The code for a tag of `b` that `a` lacks.
abbrev pub missing : Bool → Code
missing null = if null then matched_with_null else not_matched

judge_known :
    (mode : Mode) (null : Bool) (ret : Code)
    → mode ≢ intersection
    → judge mode null true ret ≡ go_on ret
unfolding judge
judge_known b_in_a null ret m = refl
judge_known mutual_match null ret m = refl
judge_known intersection null ret m = absurd (m refl)

judge_break :
    (mode : Mode) (null : Bool) (ret : Code)
    → mode ≢ intersection
    → (mode ≡ mutual_match → null ≡ false)
    → judge mode null false ret ≡ break_with (missing null)
unfolding judge
judge_break b_in_a true ret m n = refl
judge_break b_in_a false ret m n = refl
judge_break mutual_match true ret m n = cc (n refl)
judge_break mutual_match false ret m n = refl
judge_break intersection null ret m n = absurd (m refl)

judge_unknown :
    (null : Bool) (ret : Code) → judge intersection null false ret ≡ go_on (missing null)
unfolding judge
judge_unknown true ret = refl
judge_unknown false ret = refl

module _ (aset : Buffer) (fits : Fits aset) where
  -- Every tag of `b` is known: the loop runs to the end, and leaves `ret` alone.
  pub scan_b_known :
      (mode : Mode) (null : Bool) (s : Buffer) (ret : Code) (vs : Array)
      → mode ≢ intersection
      → length (add_all s.items vs) * datum_size ≤ s.bytes
      → all_of (contains aset.items) vs ≡ true
      → scan_b mode null aset s ret vs ≡ ok (scanned (record s { items = add_all s.items vs }) ret)
  unfolding scan_b
  scan_b_known mode null s ret [] m h k = refl
  scan_b_known mode null s ret (none ∷ vs) m h k = scan_b_known mode null s ret vs m h k
  scan_b_known mode null s ret (some v ∷ vs) m h k = elim (Bool-cases (contains aset.items v)) [
    | inl e ↦ rw (set_contains_value-contains aset v fits) (
        rw e (
          rw (judge_known mode null ret m, ◌>>=◌)
            (rw (add_with_room s v vs h) (
              scan_b_known mode null (record s { items = add_one s.items v }) ret vs m h
                (rw e at k)))))
    | inr e ↦ cc (rw e at k)
  ]

  -- Some tag is not, and the mode leaves the loop at the first such tag.
  pub scan_b_break :
      (mode : Mode) (null : Bool) (s : Buffer) (ret : Code) (vs : Array)
      → mode ≢ intersection
      → (mode ≡ mutual_match → null ≡ false)
      → length (add_all s.items vs) * datum_size ≤ s.bytes
      → all_of (contains aset.items) vs ≡ false
      → (t : Buffer) × (scan_b mode null aset s ret vs ≡ ok (scanned t (missing null))) × Fits t
  unfolding scan_b
  scan_b_break mode null s ret [] m n h k = cc
  scan_b_break mode null s ret (none ∷ vs) m n h k = scan_b_break mode null s ret vs m n h k
  scan_b_break mode null s ret (some v ∷ vs) m n h k = elim (Bool-cases (contains aset.items v)) [
    | inl e ↦ rw (set_contains_value-contains aset v fits) (
        rw e (
          rw (judge_known mode null ret m, ◌>>=◌)
            (rw (add_with_room s v vs h) (
              scan_b_break mode null (record s { items = add_one s.items v }) ret vs m n h
                (rw e at k)))))
    | inr e ↦ (
      s,
      rw (set_contains_value-contains aset v fits)
          (rw e (rw (judge_break mode null ret m n, ◌>>=◌))),
      omega (arith, length-le-add_all s.items (some v ∷ vs)),
    )
  ]

  -- MUTUAL with a NULL in `a` goes on behind a tag that is not known.
  pub scan_b_mutual :
      (s : Buffer) (ret : Code) (vs : Array)
      → length (add_all s.items vs) * datum_size ≤ s.bytes
      → scan_b mutual_match true aset s ret vs
        ≡ ok (
            scanned
              (record s { items = add_all s.items vs })
              (if all_of (contains aset.items) vs then ret else matched_with_null))
  unfolding scan_b judge
  scan_b_mutual s ret [] h = refl
  scan_b_mutual s ret (none ∷ vs) h = scan_b_mutual s ret vs h
  scan_b_mutual s ret (some v ∷ vs) h =
      rw (set_contains_value-contains aset v fits) (elim (Bool-cases (contains aset.items v)) [
        | inl e ↦ rw e (
            rw (add_with_room s v vs h)
              (scan_b_mutual (record s { items = add_one s.items v }) ret vs h))
        | inr e ↦ rw e (
            rw (add_with_room s v vs h) (
              scan_b_mutual (record s { items = add_one s.items v }) matched_with_null vs h
              ∙ ground arith))
      ])

  -- INTERSECTION returns at the first known tag.
  pub scan_b_meets :
      (null : Bool) (s : Buffer) (ret : Code) (vs : Array)
      → length (add_all s.items vs) * datum_size ≤ s.bytes
      → any_of (contains aset.items) vs ≡ true
      → scan_b intersection null aset s ret vs ≡ ok returned
  unfolding scan_b
  scan_b_meets null s ret [] h k = cc
  scan_b_meets null s ret (none ∷ vs) h k = scan_b_meets null s ret vs h k
  scan_b_meets null s ret (some v ∷ vs) h k = elim (Bool-cases (contains aset.items v)) [
    | inl e ↦ rw (set_contains_value-contains aset v fits) (rw e (unfold judge in refl))
    | inr e ↦ rw (set_contains_value-contains aset v fits) (
        rw e (
          rw (judge_unknown null ret, ◌>>=◌)
            (rw (add_with_room s v vs h) (
              scan_b_meets null (record s { items = add_one s.items v }) (missing null) vs h
                (rw e at k)))))
  ]

  -- It runs to the end if there is none.
  pub scan_b_apart :
      (null : Bool) (s : Buffer) (ret : Code) (vs : Array)
      → length (add_all s.items vs) * datum_size ≤ s.bytes
      → any_of (contains aset.items) vs ≡ false
      → scan_b intersection null aset s ret vs
        ≡ ok (
            scanned
              (record s { items = add_all s.items vs })
              (if any_of (λ _. true) vs then missing null else ret))
  unfolding scan_b
  scan_b_apart null s ret [] h k = refl
  scan_b_apart null s ret (none ∷ vs) h k = scan_b_apart null s ret vs h k
  scan_b_apart null s ret (some v ∷ vs) h k = elim (Bool-cases (contains aset.items v)) [
    | inl e ↦ cc (rw e at k)
    | inr e ↦ rw (set_contains_value-contains aset v fits) (
        rw e (
          rw (judge_unknown null ret, ◌>>=◌)
            (rw (add_with_room s v vs h) (
              scan_b_apart null (record s { items = add_one s.items v }) (missing null) vs h
                (rw e at k)
              ∙ ground arith))))
  ]
