-- ===== src/Rand/Fill.antt =====
-- The text that src/replace_rand.c writes.
use mathlib.Core.List.{append_assoc}
use yeti_pg_ext.Base.{
  Bytes, ℕ, zero, suc, ◌+◌, ◌≤◌, Bool, [], ◌∷◌, ◌++◌, List, Option, none, some, ◌≡◌, refl, sym, ap,
  ◌∙◌, arith, length, length-append, drop, true, false, leb, if◌then◌else◌,
}
use yeti_pg_ext.Base.Outcome.{ok}
use yeti_pg_ext.Rand.Brackets.{add_placeholder}
use yeti_pg_ext.Rand.Texts.{RandText, plain, call, unclosed, print, IsRandText, replacings}
use yeti_pg_ext.Rand.Output.{drop-append, write-ok, fill_output-nil, fill_output-cons}
use yeti_pg_ext.Rand.{Replacing, sscanf_long, clamp, values, lengths, random_digits, fill_output}

-- How many digits a number asks for: as many as it says, from none to 64.
abbrev pub digit_count : Bool × ℕ → ℕ
digit_count (true, n) = 0
digit_count (false, n) = if leb n 64 then n else 64

clamp-digit_count : (value : Bool × ℕ) → clamp value ≡ digit_count value
clamp-digit_count (true, n) = refl
clamp-digit_count (false, n) = ground arith

module _ (rand_r : ℕ → ℕ × ℕ) where
  -- A call with a number becomes that many random digits, another one stays as it is.
  abbrev pub filled : ℕ → Bytes → Option (Bool × ℕ) → Bytes × ℕ
  filled seed arg none = (b'r' ∷ b'(' ∷ (arg ++ (b')' ∷ [])), seed)
  filled seed arg (some value) = random_digits rand_r (digit_count value) seed

  -- The seed goes from each number to the next.
  abbrev pub meaning : ℕ → RandText → Bytes
  meaning seed (plain text) = text
  meaning seed (call text arg t) =
      let (put, seed') = filled seed arg (sscanf_long arg) in text ++ (put ++ meaning seed' t)
  meaning seed (unclosed text tail) = text ++ (b'r' ∷ b'(' ∷ tail)

  pub length-random_digits : (k seed : ℕ) → length (random_digits rand_r k seed).0 ≡ k
  unfolding random_digits
  length-random_digits zero seed = refl
  length-random_digits (suc k) seed = ap suc (length-random_digits k (rand_r seed).1)

  length-filled :
      (pos seed : ℕ) (arg : Bytes) (o : Option (Bool × ℕ)) (more : List Replacing)
      → length (filled seed arg o).0 + lengths (add_placeholder pos arg o more) + values more
        ≡ 3 + length arg + lengths more + values (add_placeholder pos arg o more)
  length-filled pos seed arg none more = omega (arith, length-append arg (b')' ∷ []))
  length-filled pos seed arg (some value) more =
      omega (arith, length-random_digits (digit_count value) seed, clamp-digit_count value)

  -- The length that is allocated is that of the result.
  pub output_length-meaning :
      (pos seed : ℕ) (t : RandText)
      → length (print t) + values (replacings pos t)
        ≡ lengths (replacings pos t) + length (meaning seed t)
  output_length-meaning pos seed (plain text) = omega arith
  output_length-meaning pos seed (unclosed text tail) = omega arith
  output_length-meaning pos seed (call text arg t) =
      let o = sscanf_long arg in
      let pos' = pos + length text + 3 + length arg in
      let (put, seed') = filled seed arg o in
      omega (
        arith,
        length-append text (b'r' ∷ b'(' ∷ (arg ++ (b')' ∷ print t))),
        length-append arg (b')' ∷ print t),
        length-append text (put ++ meaning seed' t),
        length-append put (meaning seed' t),
        length-filled (pos + length text) seed arg o (replacings pos' t),
        output_length-meaning pos' seed' t,
      )

  append_call :
      (head arg rest : Bytes)
      → (head ++ (b'r' ∷ b'(' ∷ (arg ++ (b')' ∷ [])))) ++ rest
        ≡ head ++ (b'r' ∷ b'(' ∷ (arg ++ (b')' ∷ rest)))
  append_call head arg rest =
      append_assoc head (b'r' ∷ b'(' ∷ (arg ++ (b')' ∷ []))) rest
      ∙ ap (λ cs. head ++ (b'r' ∷ b'(' ∷ cs)) (append_assoc arg (b')' ∷ []) rest)

  length-append_call :
      (head arg : Bytes)
      → length (head ++ (b'r' ∷ b'(' ∷ (arg ++ (b')' ∷ [])))) ≡ length head + 3 + length arg
  length-append_call head arg = omega (
    arith,
    length-append head (b'r' ∷ b'(' ∷ (arg ++ (b')' ∷ []))),
    length-append arg (b')' ∷ []),
  )

  -- The output is filled up to the end of `t`, whatever text `mid` stands before it.
  abbrev pub Fills : RandText → Type 0
  Fills t =
      (cap p seed : ℕ) (s mid out : Bytes)
      → IsRandText t
      → drop p s ≡ mid ++ print t
      → length out + length mid + length (meaning seed t) ≤ cap
      → fill_output rand_r cap s p seed (replacings (p + length mid) t) out
        ≡ ok (out ++ (mid ++ meaning seed t))

  fill_output-tail :
      (cap p seed : ℕ) (s tail out : Bytes)
      → drop p s ≡ tail
      → length out + length tail ≤ cap
      → fill_output rand_r cap s p seed [] out ≡ ok (out ++ tail)
  fill_output-tail cap p seed s tail out e room =
      fill_output-nil rand_r cap p seed s out ∙ rw e (write-ok cap out tail room)

  fill_output-digits :
      (t : RandText) (cap p seed n : ℕ) (s head arg out : Bytes)
      → Fills t
      → IsRandText t
      → drop p s ≡ head ++ (b'r' ∷ b'(' ∷ (arg ++ (b')' ∷ print t)))
      → let (digits, seed') = random_digits rand_r n seed in
        length out + length head + length digits + length (meaning seed' t) ≤ cap
        → fill_output rand_r cap s p seed
            (record { start = p + length head; end = p + length head + 2 + length arg; value = n }
              ∷ replacings (p + length head + 3 + length arg) t)
            out
          ≡ (let (digits, seed') = random_digits rand_r n seed in
              ok (out ++ (head ++ (digits ++ meaning seed' t))))
  fill_output-digits t cap p seed n s head arg out fills w e room =
      let (digits, seed') = random_digits rand_r n seed in
      let start = p + length head in
      let text = head ++ (b'r' ∷ b'(' ∷ (arg ++ (b')' ∷ []))) in
      let behind =
        drop-append p (length text) s text (print t) (e ∙ sym (append_call head arg (print t)))
          refl in
      ap
        (λ k.
          fill_output rand_r cap s p seed
            (record { start = start; end = k; value = n } ∷ replacings (start + 3 + length arg) t)
            out)
        {x = start + 2 + length arg} {y = start + (2 + length arg)} (omega arith)
      ∙ fill_output-cons rand_r cap p seed start n (2 + length arg) s head
          (b'r' ∷ b'(' ∷ (arg ++ (b')' ∷ print t))) out (replacings (start + 3 + length arg) t) e
          refl (omega (arith, room))
      ∙ ap
          (λ k.
            fill_output rand_r cap s (start + (2 + length arg) + 1) seed' (replacings k t)
              ((out ++ head) ++ digits))
          {x = start + 3 + length arg} {y = start + (2 + length arg) + 1 + 0} (omega arith)
      ∙ fills cap (start + (2 + length arg) + 1) seed' s [] ((out ++ head) ++ digits) w
          (ap (λ k. drop k s) {x = start + (2 + length arg) + 1} {y = p + length text}
              (omega (arith, length-append_call head arg))
            ∙ behind)
          (omega (arith, room, length-append (out ++ head) digits, length-append out head))
      ∙ ap ok (
          append_assoc (out ++ head) digits (meaning seed' t)
          ∙ append_assoc out head (digits ++ meaning seed' t))

  fill_output-call :
      (t : RandText) (o : Option (Bool × ℕ)) (cap p seed : ℕ) (s head arg out : Bytes)
      → Fills t
      → IsRandText t
      → drop p s ≡ head ++ (b'r' ∷ b'(' ∷ (arg ++ (b')' ∷ print t)))
      → let (put, seed') = filled seed arg o in
        length out + length head + length put + length (meaning seed' t) ≤ cap
        → fill_output rand_r cap s p seed
            (add_placeholder
              (p + length head)
              arg
              o
              (replacings (p + length head + 3 + length arg) t))
            out
          ≡ (let (put, seed') = filled seed arg o in ok (out ++ (head ++ (put ++ meaning seed' t))))
  fill_output-call t (some value) cap p seed s head arg out fills w e room =
      ap
        (λ n.
          fill_output rand_r cap s p seed
            (record { start = p + length head; end = p + length head + 2 + length arg; value = n }
              ∷ replacings (p + length head + 3 + length arg) t)
            out)
        (clamp-digit_count value)
      ∙ fill_output-digits t cap p seed (digit_count value) s head arg out fills w e room
  fill_output-call t none cap p seed s head arg out fills w e room =
      let text = head ++ (b'r' ∷ b'(' ∷ (arg ++ (b')' ∷ []))) in
      ap (λ k. fill_output rand_r cap s p seed (replacings k t) out)
        {x = p + length head + 3 + length arg} {y = p + length text}
        (omega (arith, length-append_call head arg))
      ∙ fills cap p seed s text out w (e ∙ sym (append_call head arg (print t)))
          (omega (arith, room, length-append_call head arg, length-append arg (b')' ∷ [])))
      ∙ ap (λ cs. ok (out ++ cs))
          (append_assoc head (b'r' ∷ b'(' ∷ (arg ++ (b')' ∷ []))) (meaning seed t))

  pub fill_output-meaning : (t : RandText) → Fills t
  fill_output-meaning (plain text) cap p seed s mid out w e room =
      fill_output-tail cap p seed s (mid ++ text) out e
        (omega (arith, room, length-append mid text))
  fill_output-meaning (unclosed text tail) cap p seed s mid out w e room =
      let rest = text ++ (b'r' ∷ b'(' ∷ tail) in
      fill_output-tail cap p seed s (mid ++ rest) out e
        (omega (arith, room, length-append mid rest))
  fill_output-meaning (call text arg t) cap p seed s mid out w e room =
      let o = sscanf_long arg in
      let (put, seed') = filled seed arg o in
      let head = mid ++ text in
      ap
        (λ k.
          fill_output rand_r cap s p seed
            (add_placeholder k arg o (replacings (k + 3 + length arg) t)) out)
        {x = p + length mid + length text} {y = p + length head}
        (omega (arith, length-append mid text))
      ∙ fill_output-call t o cap p seed s head arg out (fill_output-meaning t) w.2
          (e ∙ sym (append_assoc mid text (b'r' ∷ b'(' ∷ (arg ++ (b')' ∷ print t)))))
          (omega (
            arith,
            room,
            length-append mid text,
            length-append text (put ++ meaning seed' t),
            length-append put (meaning seed' t),
          ))
      ∙ ap (λ cs. ok (out ++ cs)) (append_assoc mid text (put ++ meaning seed' t))
