-- ===== src/Rand/Output.antt =====
-- The cache and the output buffer of src/replace_rand.c.
use mathlib.Core.List.{append-nil, append_assoc}
use yeti_pg_ext.Base.{
  Bytes, ℕ, zero, suc, ◌+◌, ◌-◌, ◌*◌, ◌≤◌, ◌<◌, [], ◌∷◌, ◌++◌, List, ◌≡◌, refl, sym, ap, ◌∙◌, inl,
  inr, arith, length, length-append, take, drop, drop-length_append, take-length_append, Bool-cases,
  ltb, lt→ltb, min,
}
use yeti_pg_ext.Base.Outcome.{ok}
use yeti_pg_ext.Rand.{
  Replacing, DynamicCache, push_all, push_replacing, make_room, write, random_digits, fill_output,
}

abbrev pub IsCache : DynamicCache → Type 0
IsCache c = (0 < c.c_size_inc) × (length c.items ≤ c.c_size)

-- What make_room leaves has room for one more.
make_room-IsCache :
    (c : DynamicCache)
    → IsCache c
    → (d : DynamicCache) × (make_room c ≡ d)
      × (d.items ≡ c.items)
      × (0 < d.c_size_inc)
      × (length c.items < d.c_size)
unfolding make_room
make_room-IsCache c (i, h) = elim (Bool-cases (ltb c.c_size (suc (length c.items)))) [
  | inl full ↦ (
    record c { c_size = c.c_size + c.c_size_inc; c_size_inc = min (c.c_size_inc * 2) 64 },
    rw full refl,
    refl,
    omega (arith, i),
    omega (arith, i, h),
  )
  | inr room ↦ (c, rw room refl, refl, i, ground (arith, h, room))
]

-- The write at c[n-1] is inside the cache, which stays as it should be.
push_replacing-IsCache :
    (c : DynamicCache) (r : Replacing)
    → IsCache c
    → (d : DynamicCache) × (push_replacing c r ≡ ok d) × (d.items ≡ c.items ++ (r ∷ [])) × IsCache d
unfolding push_replacing
push_replacing-IsCache c r w =
    let (d, e, items, i, room) = make_room-IsCache c w in
    (
      record d { items = c.items ++ (r ∷ []) },
      rw (e, lt→ltb (length c.items) d.c_size room) refl,
      refl,
      (i, omega (arith, room, length-append c.items (r ∷ []))),
    )

pub push_all-IsCache :
    (c : DynamicCache) (rs : List Replacing)
    → IsCache c
    → (d : DynamicCache) × (push_all c rs ≡ ok d) × (d.items ≡ c.items ++ rs)
unfolding push_all
push_all-IsCache c [] w = (c, refl, sym (append-nil c.items))
push_all-IsCache c (r ∷ rs) w =
    let (d, e, items, v) = push_replacing-IsCache c r w in
    let (last, f, all) = push_all-IsCache d rs v in
    (last, rw (e, f) refl, all ∙ ap (λ cs. cs ++ rs) items ∙ append_assoc c.items (r ∷ []) rs)

drop_eq : (m n : ℕ) (s : Bytes) → m ≡ n → drop m s ≡ drop n s
drop_eq m n s e = ap (λ k. drop k s) e

drop_nil : (n : ℕ) → drop {A = ℕ} n [] ≡ []
drop_nil zero = refl
drop_nil (suc n) = refl

drop-drop : (p n : ℕ) (s : Bytes) → drop (p + n) s ≡ drop n (drop p s)
drop-drop zero n s = drop_eq (0 + n) n s (omega arith)
drop-drop (suc p) n [] = drop_nil (suc p + n) ∙ sym (drop_nil n)
drop-drop (suc p) n (c ∷ s) =
    drop_eq (suc p + n) (suc (p + n)) (c ∷ s) (omega arith) ∙ drop-drop p n s

pub drop-append :
    (p n : ℕ) (s head rest : Bytes)
    → drop p s ≡ head ++ rest
    → length head ≡ n
    → drop (p + n) s ≡ rest
drop-append p n s head rest e l = drop-drop p n s ∙ rw (e, sym l) (drop-length_append head rest)

take-drop :
    (p n : ℕ) (s head rest : Bytes)
    → drop p s ≡ head ++ rest
    → length head ≡ n
    → take n (drop p s) ≡ head
take-drop p n s head rest e l = rw (e, sym l) (take-length_append head rest)

pub write-ok :
    (cap : ℕ) (out bytes : Bytes)
    → length out + length bytes ≤ cap
    → write cap out bytes ≡ ok (out ++ bytes)
unfolding write
write-ok cap out bytes h = ground (arith, h)

module _ (rand_r : ℕ → ℕ × ℕ) where
  pub fill_output-nil :
      (cap p seed : ℕ) (s out : Bytes)
      → fill_output rand_r cap s p seed [] out ≡ write cap out (drop p s)
  unfolding fill_output
  fill_output-nil cap p seed s out = refl

  -- Text between `p` and a placeholder, the digits for it.
  pub fill_output-cons :
      (cap p seed start value width : ℕ) (s head rest out : Bytes) (cs : List Replacing)
      → drop p s ≡ head ++ rest
      → start ≡ p + length head
      → let (digits, seed') = random_digits rand_r value seed in
        length out + length head + length digits ≤ cap
        → fill_output rand_r cap s p seed
            (record { start = start; end = start + width; value = value } ∷ cs)
            out
          ≡ fill_output rand_r cap s
              (start + width + 1)
              (random_digits rand_r value seed).1
              cs
              ((out ++ head) ++ (random_digits rand_r value seed).0)
  unfolding fill_output
  fill_output-cons cap p seed start value width s head rest out cs e k room =
      rw
        (
          take-drop p (start - p) s head rest e (omega (arith, k)),
          write-ok cap out head (omega (arith, room)),
          write-ok cap (out ++ head) (random_digits rand_r value seed).0
              (omega (arith, room, length-append out head)),
        )
        refl
