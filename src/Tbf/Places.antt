-- ===== src/Tbf/Places.antt =====
-- A segment that keeps a struct and a table under each name, and the startup of two processes on it.
use yeti_pg_ext.Base.{
  ℕ, ◌+◌, ◌*◌, Bool, true, false, Option, none, some, ◌≡◌, ◌≢◌, ◌&&◌, ◌==◌, if◌then◌else◌, inl, inr,
  Bool-cases, refl, ap, sym, ◌∙◌, arith,
}
use yeti_pg_ext.Base.Outcome.{Outcome, ok, error}
use yeti_pg_ext.Tbf.{Hooks, no_hook, other_hook, tbf_shmem_startup, tbf_shmem_request}
use yeti_pg_ext.Tbf.Memory.{
  Name, tbf_shmem_entry_name, tbf_shmem_hash_entry_name, Sizes, Shmem, shmem_startup, call_prev,
  tbf_shmem_size,
}
use yeti_pg_ext.Tbf.Attach.{attached_to, shmem_startup-again}

abbrev Places : Type 0
Places = (Name → Option (ℕ × Option ℕ)) × (Name → Option ((ℕ × ℕ) × ℕ))

abbrev put : {A : Type 0} → Name → A → (Name → A) → Name → A
put tbf_shmem_entry_name a f tbf_shmem_entry_name = a
put tbf_shmem_entry_name a f tbf_shmem_hash_entry_name = f tbf_shmem_hash_entry_name
put tbf_shmem_hash_entry_name a f tbf_shmem_entry_name = f tbf_shmem_entry_name
put tbf_shmem_hash_entry_name a f tbf_shmem_hash_entry_name = a

put_self : {A : Type 0} (n : Name) (a : A) (f : Name → A) → put n a f n ≡ a
put_self tbf_shmem_entry_name a f = refl
put_self tbf_shmem_hash_entry_name a f = refl

abbrev struct_or_new : Name → ℕ → Places → Option (ℕ × Option ℕ) → Outcome (Places × Bool)
struct_or_new n size p none = ok ((put n (some (size, none)) p.0, p.1), false)
struct_or_new n size p (some (old, l)) = if old == size then ok (p, true) else error

-- A new table is known by its number, 3.
abbrev table_or_new : Name → ℕ × ℕ → Places → Option ((ℕ × ℕ) × ℕ) → Outcome (Places × ℕ)
table_or_new n made p none = ok ((p.0, put n (some (made, 3)) p.1), 3)
table_or_new n made p (some (old, t)) =
    if old.0 == made.0 && old.1 == made.1 then ok (p, t) else error

abbrev with_lock : ℕ → Option (ℕ × Option ℕ) → Option (ℕ × Option ℕ)
with_lock l none = none
with_lock l (some (size, old)) = some (size, some l)

same_number : (n : ℕ) → (n == n) ≡ true
same_number n = ground arith

struct_again :
    (n : Name) (size : ℕ) (p : Places) (l : Option ℕ) (o : Option (ℕ × Option ℕ))
    → o ≡ some (size, l)
    → struct_or_new n size p o ≡ ok (p, true)
struct_again n size p l o e = rw e (rw (same_number size) refl)

struct_other :
    (n : Name) (size old : ℕ) (p : Places) (l : Option ℕ) (o : Option (ℕ × Option ℕ))
    → o ≡ some (old, l)
    → old ≢ size
    → struct_or_new n size p o ≡ error
struct_other n size old p l o e ne =
    let differ : (old == size) ≡ false = ground (arith, ne) in rw e (rw differ refl)

struct_new :
    (n : Name) (size : ℕ) (p p' : Places) (found : Bool) (o : Option (ℕ × Option ℕ))
    → o ≡ none
    → struct_or_new n size p o ≡ ok (p', found)
    → (found ≡ false) × (l : Option ℕ) × (p'.0 n ≡ some (size, l))
struct_new n size p p' found none e h =
    let same : ◌≡◌ {A = Places} (put n (some (size, none)) p.0, p.1) p' = cc in
    (ground arith, none, ap (λ (q : Places). q.0 n) (sym same) ∙ put_self n (some (size, none)) p.0)
struct_new n size p p' found (some l) e h = cc

struct_keeps :
    (m n : Name) (size : ℕ) (p p' : Places) (found : Bool) (o : Option (ℕ × Option ℕ))
    → struct_or_new n size p o ≡ ok (p', found)
    → p'.1 m ≡ p.1 m
struct_keeps m n size p p' found none h =
    let same : ◌≡◌ {A = Places} (put n (some (size, none)) p.0, p.1) p' = cc in
    ap (λ (q : Places). q.1 m) (sym same)
struct_keeps m n size p p' found (some (old, l)) h = elim (Bool-cases (old == size)) [
  | inl e ↦ let same : p ≡ p' = cc (rw e at h) in ap (λ (q : Places). q.1 m) (sym same)
  | inr e ↦ cc (rw e at h)
]

table_again :
    (n : Name) (size entry : ℕ) (p : Places) (t : ℕ) (o : Option ((ℕ × ℕ) × ℕ))
    → o ≡ some ((size, entry), t)
    → table_or_new n (size, entry) p o ≡ ok (p, t)
table_again n size entry p t o e = rw e (rw (same_number size, same_number entry) refl)

table_new :
    (n : Name) (size entry : ℕ) (p p' : Places) (t : ℕ) (o : Option ((ℕ × ℕ) × ℕ))
    → o ≡ none
    → table_or_new n (size, entry) p o ≡ ok (p', t)
    → p'.1 n ≡ some ((size, entry), t)
table_new n size entry p p' t none e h =
    let same : ◌≡◌ {A = Places} (p.0, put n (some ((size, entry), 3)) p.1) p' = cc in
    let three : ◌≡◌ {A = ℕ} 3 t = cc in
    ap (λ (q : Places). q.1 n) (sym same)
    ∙ put_self n (some ((size, entry), 3)) p.1
    ∙ ap (λ k. some ((size, entry), k)) three
table_new n size entry p p' t (some u) e h = cc

table_keeps :
    (m n : Name) (made : ℕ × ℕ) (p p' : Places) (t : ℕ) (o : Option ((ℕ × ℕ) × ℕ))
    → table_or_new n made p o ≡ ok (p', t)
    → p'.0 m ≡ p.0 m
table_keeps m n made p p' t none h =
    let same : ◌≡◌ {A = Places} (p.0, put n (some (made, 3)) p.1) p' = cc in
    ap (λ (q : Places). q.0 m) (sym same)
table_keeps m n made p p' t (some (old, u)) h =
    elim (Bool-cases (old.0 == made.0 && old.1 == made.1)) [
      | inl e ↦ let same : p ≡ p' = cc (rw e at h) in ap (λ (q : Places). q.0 m) (sym same)
      | inr e ↦ cc (rw e at h)
    ]

abbrev places : Shmem ℕ ℕ
places = record {
  Segment = Places;
  struct = λ n p. p.0 n;
  table = λ n p. p.1 n;
  init_struct = λ n size p. struct_or_new n size p (p.0 n);
  write_lock = λ n l p. (put n (with_lock l (p.0 n)) p.0, p.1);
  init_hash = λ n size entry p. table_or_new n (size, entry) p (p.1 n);
  get_tranche = λ n p. ok 9;
  init_struct_again = λ n size p l e. struct_again n size p l (p.0 n) e;
  init_struct_other = λ n size old p l e ne. struct_other n size old p l (p.0 n) e ne;
  init_struct_new = λ n size p p' found e h. struct_new n size p p' found (p.0 n) e h;
  table-init_struct = λ m n size p p' found h. struct_keeps m n size p p' found (p.0 n) h;
  struct-write_lock = λ n size l old p e. put_self n (with_lock l (p.0 n)) p.0 ∙ ap (with_lock l) e;
  table-write_lock = λ m n l p. refl;
  init_hash_again = λ n size entry p t e. table_again n size entry p t (p.1 n) e;
  init_hash_new = λ n size entry p p' t e h. table_new n size entry p p' t (p.1 n) e h;
  struct-init_hash = λ m n size entry p p' t h. table_keeps m n (size, entry) p p' t (p.1 n) h;
}

abbrev empty_places : Places
empty_places = (λ n. none, λ n. none)

abbrev set_up : Places
set_up = (
  put tbf_shmem_entry_name (some (8, some 9))
      (put tbf_shmem_entry_name (some (8, none)) (λ n. none)),
  put tbf_shmem_hash_entry_name (some ((5000, 32), 3)) (λ n. none),
)

abbrev sizes : Sizes
sizes = record {
  maxalign = λ n. n;
  add_size = λ m n. ok (m + n);
  hash_estimate_size = λ n size. ok (n * size);
  instr_time_size = 8;
}

-- Another library had a hook, which changes nothing of these places.
abbrev hooks : Hooks
hooks = record {
  shmem_request_hook = tbf_shmem_request;
  shmem_startup_hook = tbf_shmem_startup;
  prev_shmem_request_hook = no_hook;
  prev_shmem_startup_hook = other_hook 1;
}

abbrev idle : ℕ → Places → Outcome Places
idle n p = ok p

started : shmem_startup places sizes idle hooks empty_places ≡ ok (set_up, attached_to 3)
unfolding shmem_startup
started = refl

shmem_startup-again_example :
    (l : ℕ) × (t : ℕ) × (set_up.0 tbf_shmem_entry_name ≡ some (8, some l))
    × (attached_to 3 ≡ attached_to t)
    × (shmem_startup places sizes idle hooks set_up ≡ ok (set_up, attached_to t))
unfolding call_prev
shmem_startup-again_example =
    shmem_startup-again places sizes idle idle hooks hooks empty_places empty_places set_up
      (attached_to 3) refl refl refl started refl

asked_size : tbf_shmem_size sizes ≡ ok 160008
unfolding tbf_shmem_size
asked_size = refl
