-- ===== src/Rand.antt =====
-- src/replace_rand.c and src/f_replace_rand.c: `r(n)` in a text stands for n random digits. A
-- pointer into the text is its offset. Allocations succeed, so that `replace` has no NULL result.
pub mod Scan
pub mod Brackets
pub mod Texts
pub mod Output
pub mod Fill
pub mod Meaning
mod Tests
use yeti_pg_ext.Base.{
  Bytes, ℕ, zero, suc, ◌+◌, ◌-◌, ◌*◌, ◌%◌, Bool, true, false, not, [], ◌∷◌, ◌++◌, List, Option,
  none, some, leb, ltb, ◌==◌, if◌then◌else◌, length, take, drop, min,
}
use yeti_pg_ext.Base.CString.{memchr, is_space, is_digit, digits_value}
use yeti_pg_ext.Base.Outcome.{Outcome, ok, fault, ◌>>=◌}

abbrev pub rand_completed_min_len : ℕ
rand_completed_min_len = 4

abbrev pub rand_max_len : ℕ
rand_max_len = 64

pub record Replacing : Type 0 where
  pub start : ℕ
  pub end : ℕ
  pub value : ℕ

-- Digits, of which there must be one, behind a sign.
abbrev pub long_digits : Bool → Bytes → Option (Bool × ℕ)
long_digits negative [] = none
long_digits negative (c ∷ cs) =
    if is_digit c then some (negative, digits_value 0 (c ∷ cs)) else none

unfoldable pub signed_long : Bytes → Option (Bool × ℕ)
unfolding digits_value
signed_long [] = none
signed_long (c ∷ cs) =
    if c == b'-'
    then long_digits true cs
    else if c == b'+'
    then long_digits false cs
    else long_digits false (c ∷ cs)

-- sscanf(…, "%ld", …) of the bytes from its argument to the end of the text. The text has no NUL
-- there, and the C function reads on; Rand/Meaning says that the number does not depend on what
-- it finds. A sign and a magnitude, or `none` where it does not return 1. A magnitude
-- beyond `long` is on the same side of the limits as LONG_MIN and LONG_MAX, which sscanf gives.
unfoldable pub sscanf_long : Bytes → Option (Bool × ℕ)
unfolding signed_long
sscanf_long [] = none
sscanf_long (c ∷ cs) =
    let later = sscanf_long cs in if is_space c then later else signed_long (c ∷ cs)

-- The value set to RAND_MIN_LEN and RAND_MAX_LEN.
abbrev pub clamp : Bool × ℕ → ℕ
clamp (negative, n) = if negative then 0 else min n rand_max_len

-- What the loop makes of the place at `p`: leave the loop, go on behind it and that many bytes
-- more, or do so with a placeholder of this value.
pub data Found : Type 0 where
  stop : Found
  skip_to : ℕ → Found
  placeholder : ℕ → ℕ → Found

-- Where `p + RAND_COMPLETED_MIN_LEN > s_end` ends the loop.
abbrev pub unless_short : Bytes → Found → Found
unless_short cs found = if ltb (length cs) rand_completed_min_len then stop else found

-- Behind "r(".
unfoldable pub after_bracket : Bytes → Found
unfolding sscanf_long
after_bracket cs = elim (memchr b')' cs) [
  | none ↦ unless_short cs (skip_to 1)
  | some (arg, rest) ↦ elim (sscanf_long cs) [
    | none ↦ skip_to (suc (length arg))
    | some value ↦ placeholder (suc (length arg)) (clamp value)
  ]
]

-- Behind "r".
unfoldable pub after_start : Bytes → Found
unfolding after_bracket
after_start [] = stop
after_start (c ∷ cs) = if c == b'(' then after_bracket cs else unless_short (c ∷ cs) (skip_to 0)

-- A byte of the text that memchr looks at, and what follows it.
unfoldable pub judge_start : ℕ → Bytes → Found
unfolding after_start
judge_start c cs = if c == b'r' then unless_short (c ∷ cs) (after_start cs) else skip_to 0

-- The loop over the text, from the offset `pos` on, with `skip` bytes to pass over.
unfoldable pub find_placeholders : ℕ → ℕ → Bytes → List Replacing
unfolding judge_start
find_placeholders pos skip [] = []
find_placeholders pos (suc skip) (c ∷ cs) = find_placeholders (suc pos) skip cs
find_placeholders pos zero (c ∷ cs) = elim (judge_start c cs) [
  | stop ↦ []
  | skip_to skip ↦ find_placeholders (suc pos) skip cs
  | placeholder skip value ↦
      record { start = pos; end = suc pos + skip; value = value }
      ∷ find_placeholders (suc pos) skip cs
]

-- The dynamic cache: what is in it, its size and the size it grows by.
pub record DynamicCache : Type 0 where
  pub items : List Replacing
  pub c_size : ℕ
  pub c_size_inc : ℕ

abbrev pub empty_cache : DynamicCache
empty_cache = record { items = []; c_size = 0; c_size_inc = 4 }

-- `if(c_size<n)` with realloc
unfoldable pub make_room : DynamicCache → DynamicCache
make_room c =
    if ltb c.c_size (suc (length c.items))
    then record c { c_size = c.c_size + c.c_size_inc; c_size_inc = min (c.c_size_inc * 2) 64 }
    else c

-- The write at c[n-1]; past the cache it is a fault.
unfoldable pub push_replacing : DynamicCache → Replacing → Outcome DynamicCache
unfolding make_room
push_replacing c r =
    let c' = make_room c in
    if ltb (length c.items) c'.c_size then ok (record c' { items = c.items ++ (r ∷ []) }) else fault

unfoldable pub push_all : DynamicCache → List Replacing → Outcome DynamicCache
unfolding push_replacing
push_all c [] = ok c
push_all c (r ∷ rs) = push_replacing c r >>= λ c'. push_all c' rs

abbrev pub values : List Replacing → ℕ
values [] = 0
values (c ∷ cs) = c.value + values cs

abbrev pub lengths : List Replacing → ℕ
lengths [] = 0
lengths (c ∷ cs) = (c.end - c.start + 1) + lengths cs

-- The loop that computes `ret_len`: size_t wraps, so the order of its steps does not matter.
unfoldable pub output_length : ℕ → List Replacing → ℕ
output_length s_len cs = s_len + values cs - lengths cs

-- Bytes written into the output of `cap` bytes, at its position.
unfoldable pub write : ℕ → Bytes → Bytes → Outcome Bytes
write cap out bytes = if leb (length out + length bytes) cap then ok (out ++ bytes) else fault

abbrev pub is_nil : List Replacing → Bool
is_nil [] = true
is_nil (c ∷ cs) = false

-- `rand_r` of the C library: a seed to a value and the next seed.
module _ (rand_r : ℕ → ℕ × ℕ) where
  unfoldable pub random_digits : ℕ → ℕ → Bytes × ℕ
  random_digits zero seed = ([], seed)
  random_digits (suc k) seed =
      let (r, seed') = rand_r seed in
      let (digits, last) = random_digits k seed' in ((b'0' + r % 10) ∷ digits, last)

  -- The loop that fills the output, `p` behind the last placeholder, and the copy of the tail.
  unfoldable pub fill_output : ℕ → Bytes → ℕ → ℕ → List Replacing → Bytes → Outcome Bytes
  unfolding write random_digits
  fill_output cap s p seed [] out = write cap out (drop p s)
  fill_output cap s p seed (c ∷ cs) out = do
    head ← write cap out (take (c.start - p) (drop p s))
    let (digits, seed') = random_digits c.value seed
    next ← write cap head digits
    fill_output cap s (c.end + 1) seed' cs next

  -- The text given back, and `*replaced`; `seed` is tv.tv_usec.
  unfoldable pub replace : ℕ → Bytes → Outcome (Bytes × Bool)
  unfolding find_placeholders push_all output_length fill_output
  replace seed s = do
    c ← push_all empty_cache (find_placeholders 0 0 s)
    if is_nil c.items
        then ok (s, false)
        else fill_output (output_length (length s) c.items) s 0 seed c.items [] >>= λ out.
            ok (out, true)

  -- The SQL function: a copy of the input where nothing is replaced.
  unfoldable pub replace_rand : ℕ → Bytes → Outcome Bytes
  unfolding replace
  replace_rand seed s = replace seed s >>= λ (out, replaced). ok (if replaced then out else s)
