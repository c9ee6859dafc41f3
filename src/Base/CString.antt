-- ===== src/Base/CString.antt =====
-- Byte buffers and C strings, as the extension's calls of the C library use them.
use Prim.Native.Nat.{ℕ, ◌+◌, ◌-◌, ◌*◌, ◌≤◌}
use mathlib.Core.Bool.{◌&&◌, Bool, true, false, ◌||◌}
use mathlib.Core.List.{[], ◌∷◌, ◌++◌}
use mathlib.Core.Path.{◌≡◌, refl, ap}
use native.Mathlib.Omega.{arith}
use mathlib.Core.Option.{Option, none, some}
use mathlib.Core.Logic.{inl, inr}
use yeti_pg_ext.Base.Tests.{Bool-cases, leb, ◌==◌, if◌then◌else◌}
use yeti_pg_ext.Base.Lists.{Bytes, length, take, replicate, take_all}
use yeti_pg_ext.Base.Outcome.{Outcome, ok, fault, ◌>>=◌}

-- The bytes before the first NUL.
abbrev pub until_nul : Bytes → Bytes
until_nul [] = []
until_nul (c ∷ cs) = if c == 0 then [] else c ∷ until_nul cs

abbrev pub has_nul : Bytes → Bool
has_nul [] = false
has_nul (c ∷ cs) = c == 0 || has_nul cs

-- A buffer of `size` bytes, zeroed and then filled by `strncpy(buf, src, n)`.
unfoldable pub strncpy : ℕ → ℕ → Bytes → Bytes
strncpy size n src = let s = until_nul (take n src) in s ++ replicate (size - length s) 0

-- The string that a pointer to this memory is read as; with no NUL the read leaves the memory.
unfoldable pub c_string : Bytes → Outcome Bytes
c_string [] = fault
c_string (c ∷ cs) = if c == 0 then ok [] else (c_string cs >>= λ s. ok (c ∷ s))

pub c_string-until_nul : (cs : Bytes) → has_nul cs ≡ true → c_string cs ≡ ok (until_nul cs)
unfolding c_string
c_string-until_nul [] h = cc
c_string-until_nul (c ∷ cs) h = ground (arith, c_string-until_nul cs)

pub c_string_fault : (cs : Bytes) → has_nul cs ≡ false → c_string cs ≡ fault
unfolding c_string
c_string_fault [] h = refl
c_string_fault (c ∷ cs) h = ground (arith, c_string_fault cs)

pub until_nul_id : (cs : Bytes) → has_nul cs ≡ false → until_nul cs ≡ cs
until_nul_id [] h = refl
until_nul_id (c ∷ cs) h = ground (arith, until_nul_id cs)

pub length-until_nul : (cs : Bytes) → length (until_nul cs) ≤ length cs
length-until_nul [] = omega arith
length-until_nul (c ∷ cs) = ground (arith, length-until_nul cs)

pub has_nul-append : (cs ds : Bytes) → has_nul (cs ++ ds) ≡ (has_nul cs || has_nul ds)
has_nul-append [] ds = refl
has_nul-append (c ∷ cs) ds = ground (arith, has_nul-append cs ds)

pub until_nul-append : (cs ds : Bytes) → has_nul cs ≡ false → until_nul (cs ++ (0 ∷ ds)) ≡ cs
until_nul-append [] ds h = refl
until_nul-append (c ∷ cs) ds h = ground (arith, until_nul-append cs ds)

-- A string that fits is copied whole.
pub strncpy_fits :
    (size n : ℕ) (src : Bytes)
    → has_nul src ≡ false
    → length src ≤ n
    → strncpy size n src ≡ src ++ replicate (size - length src) 0
unfolding strncpy
strncpy_fits size n src h k = rw (take_all n src k, until_nul_id src h)

abbrev shift : ℕ → Option (Bytes × Bytes) → Option (Bytes × Bytes)
shift c none = none
shift c (some (before, after)) = some (c ∷ before, after)

-- memchr, and strchr on a C string: what stands before the first `x` and behind it.
unfoldable pub memchr : ℕ → Bytes → Option (Bytes × Bytes)
memchr x [] = none
memchr x (c ∷ cs) = let later = memchr x cs in if c == x then some ([], cs) else shift c later

abbrev pub has_byte : ℕ → Bytes → Bool
has_byte x [] = false
has_byte x (c ∷ cs) = c == x || has_byte x cs

pub memchr_first :
    (x : ℕ) (cs rest : Bytes)
    → has_byte x cs ≡ false
    → memchr x (cs ++ (x ∷ rest)) ≡ some (cs, rest)
unfolding memchr
memchr_first x [] rest h = ground arith
memchr_first x (c ∷ cs) rest h = ground (arith, memchr_first x cs rest)

pub memchr-none : (x : ℕ) (cs : Bytes) → has_byte x cs ≡ false → memchr x cs ≡ none
unfolding memchr
memchr-none x [] h = refl
memchr-none x (c ∷ cs) h = ground (arith, memchr-none x cs)

shift-eq-none : (c : ℕ) (o : Option (Bytes × Bytes)) → shift c o ≡ none → o ≡ none
shift-eq-none c none h = refl
shift-eq-none c (some (b, a)) h = cc

shift-eq-some :
    (c : ℕ) (o : Option (Bytes × Bytes)) {before after : Bytes}
    → shift c o ≡ some (before, after)
    → (tail : Bytes) × (o ≡ some (tail, after)) × (before ≡ c ∷ tail)
shift-eq-some c none h = cc
shift-eq-some c (some (b, a)) h = (b, ground arith, ground arith)

pub memchr-eq-none : (x : ℕ) (cs : Bytes) → memchr x cs ≡ none → has_byte x cs ≡ false
unfolding memchr
memchr-eq-none x [] h = refl
memchr-eq-none x (c ∷ cs) h = elim (Bool-cases (c == x)) [
  | inl hit ↦ absurd (ground (arith, h))
  | inr miss ↦ rw (miss, memchr-eq-none x cs (shift-eq-none c (memchr x cs) (rw miss at h))) refl
]

pub memchr_split :
    (x : ℕ) (cs before after : Bytes)
    → memchr x cs ≡ some (before, after)
    → (cs ≡ before ++ (x ∷ after)) × (has_byte x before ≡ false)
unfolding memchr
memchr_split x [] before after h = cc
memchr_split x (c ∷ cs) before after h = elim (Bool-cases (c == x)) [
  | inl hit ↦ ground arith
  | inr miss ↦
      let (tail, found, e) = shift-eq-some c (memchr x cs) (rw miss at h) in
      let (whole, clear) = memchr_split x cs tail after found in
      rw e (ap (◌∷◌ c) whole, rw (miss, clear) refl)
]

abbrev pub is_space : ℕ → Bool
is_space c = c == b' ' || (leb 9 c && leb c 13)

abbrev pub is_digit : ℕ → Bool
is_digit c = leb b'0' c && leb c b'9'

unfoldable pub digits_value : ℕ → Bytes → ℕ
digits_value acc [] = acc
digits_value acc (c ∷ cs) =
    let more = digits_value (10 * acc + (c - b'0')) cs in if is_digit c then more else acc
