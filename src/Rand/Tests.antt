-- ===== src/Rand/Tests.antt =====
-- A generator that counts up.
use yeti_pg_ext.Base.{Bytes, ℕ, ◌+◌, ◌*◌, ◌≤◌, [], ◌∷◌, length, ◌≡◌, refl}
use yeti_pg_ext.Base.Outcome.{ok}
use yeti_pg_ext.Base.CString.{memchr}
use yeti_pg_ext.Rand.{replace_rand}
use yeti_pg_ext.Rand.Texts.{RandText, print, IsRandText}
use yeti_pg_ext.Rand.Fill.{meaning}
use yeti_pg_ext.Rand.Meaning.{ReadsAlike, replace_rand-meaning, length-replace_rand-le}

abbrev next_number : ℕ → ℕ × ℕ
next_number seed = (seed, seed + 1)

-- ar(3)b r(x)
abbrev with_call : Bytes
with_call = b'a' ∷ b'r' ∷ b'(' ∷ b'3' ∷ b')' ∷ b'b' ∷ b' ' ∷ b'r' ∷ b'(' ∷ b'x' ∷ b')' ∷ []

replace_rand_run :
    replace_rand next_number 8 with_call
    ≡ ok (b'a' ∷ b'8' ∷ b'9' ∷ b'0' ∷ b'b' ∷ b' ' ∷ b'r' ∷ b'(' ∷ b'x' ∷ b')' ∷ [])
unfolding replace_rand memchr
replace_rand_run = refl

replace_rand_example :
    (t : RandText) × IsRandText t
    × (print t ≡ with_call)
    × ReadsAlike (b'7' ∷ []) t
    × (replace_rand next_number 8 with_call ≡ ok (meaning next_number 8 t))
replace_rand_example = replace_rand-meaning next_number 8 with_call (b'7' ∷ [])

length-replace_rand_example :
    (out : Bytes) × (replace_rand next_number 8 with_call ≡ ok out)
    × (length out ≤ 16 * length with_call)
length-replace_rand_example = length-replace_rand-le next_number 8 with_call
