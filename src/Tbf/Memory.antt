-- ===== src/Tbf/Memory.antt =====
-- src/f_tbf_rate_check.c: how much shared memory the extension asks for, and how a process gets at
-- its lock and its table there.
use yeti_pg_ext.Base.{ℕ, ◌+◌, Bool, true, false, List, [], ◌∷◌, ◌++◌, Option, none, some, ◌≡◌, ◌≢◌}
use yeti_pg_ext.Base.Outcome.{Outcome, ok, error, fault, ◌>>=◌}
use yeti_pg_ext.Tbf.{Hook, no_hook, tbf_shmem_request, tbf_shmem_startup, other_hook, Hooks}

-- The names under which the struct, the lock and the table are known.
pub data Name : Type 0 where
  tbf_shmem_entry_name tbf_shmem_hash_entry_name : Name

abbrev pub tbf_hash_max : ℕ
tbf_hash_max = 5000

-- sizeof of a struct that holds a pointer, and of one with the key, a time and a Size.
abbrev pub shared_state_size : ℕ
shared_state_size = 8

abbrev pub entry_size : ℕ → ℕ
entry_size instr_time_size = 16 + instr_time_size + 8

-- What is asked for while libraries are preloaded, in order.
pub data ShmemRequest : Type 0 where
  addin_space : ℕ → ShmemRequest
  named_tranche : Name → ℕ → ShmemRequest

-- MAXALIGN, add_size and hash_estimate_size of PostgreSQL; the last two raise an ERROR on overflow.
pub record Sizes : Type 0 where
  pub maxalign : ℕ → ℕ
  pub add_size : ℕ → ℕ → Outcome ℕ
  pub hash_estimate_size : ℕ → ℕ → Outcome ℕ
  pub instr_time_size : ℕ

unfoldable pub tbf_shmem_size : Sizes → Outcome ℕ
tbf_shmem_size z = do
  estimate ← z.hash_estimate_size tbf_hash_max (entry_size z.instr_time_size)
  z.add_size (z.maxalign shared_state_size) estimate

-- A hook that is NULL is passed over; `others` is what hooks of other libraries do. A hook of this
-- extension that stands in its own `prev_` variable calls itself without end.
unfoldable pub call_prev {ℓ} : {S : Type ℓ} → (ℕ → S → Outcome S) → Hook → S → Outcome S
call_prev others no_hook s = ok s
call_prev others (other_hook n) s = others n s
call_prev others tbf_shmem_request s = fault
call_prev others tbf_shmem_startup s = fault

-- The two calls that ask for memory and a lock: the body of the hook, and with a PostgreSQL before
-- 15 a part of tbf_init.
unfoldable pub request_memory : Sizes → List ShmemRequest → Outcome (List ShmemRequest)
unfolding tbf_shmem_size
request_memory z asked = do
  size ← tbf_shmem_size z
  ok (asked ++ (addin_space size ∷ named_tranche tbf_shmem_entry_name 1 ∷ []))

module _ (z : Sizes) (others : ℕ → List ShmemRequest → Outcome (List ShmemRequest)) where
  unfoldable pub shmem_request : Hooks → List ShmemRequest → Outcome (List ShmemRequest)
  unfolding call_prev request_memory
  shmem_request h asked =
      call_prev others h.prev_shmem_request_hook asked >>= λ asked'. request_memory z asked'

-- tbf_init of PostgreSQL 14 and earlier, which has no hook for requests.
unfoldable pub tbf_init_before_15 :
    Sizes → Bool → Hooks × List ShmemRequest → Outcome (Hooks × List ShmemRequest)
unfolding request_memory
tbf_init_before_15 z false (h, asked) = ok (h, asked)
tbf_init_before_15 z true (h, asked) = do
  asked' ← request_memory z asked
  ok (
    record h {
      prev_shmem_startup_hook = h.shmem_startup_hook;
      shmem_startup_hook = tbf_shmem_startup;
    },
    asked',
  )

-- PostgreSQL's shared memory as the startup relies on it: what stands under a name, a struct with its
-- size and the lock in its field, which is `none` for NULL, or a table with its number of entries and
-- their size; ShmemInitStruct with `found`, ShmemInitHash, and GetNamedLWLockTranche.
pub record Shmem (Lock : Type 0) (Table : Type 0) : Type 1 where
  pub Segment : Type 0
  pub struct : Name → Segment → Option (ℕ × Option Lock)
  pub table : Name → Segment → Option ((ℕ × ℕ) × Table)
  pub init_struct : Name → ℕ → Segment → Outcome (Segment × Bool)
  pub write_lock : Name → Lock → Segment → Segment
  pub init_hash : Name → ℕ → ℕ → Segment → Outcome (Segment × Table)
  pub get_tranche : Name → Segment → Outcome Lock
  -- A struct of the size asked for is found as it is, and one of another size is an ERROR.
  pub init_struct_again :
      (n : Name) (size : ℕ) (s : Segment) (l : Option Lock)
      → struct n s ≡ some (size, l)
      → init_struct n size s ≡ ok (s, true)
  pub init_struct_other :
      (n : Name) (size old : ℕ) (s : Segment) (l : Option Lock)
      → struct n s ≡ some (old, l)
      → old ≢ size
      → init_struct n size s ≡ error
  -- A new one has the size asked for.
  pub init_struct_new :
      (n : Name) (size : ℕ) (s s' : Segment) (found : Bool)
      → struct n s ≡ none
      → init_struct n size s ≡ ok (s', found)
      → (found ≡ false) × (l : Option Lock) × (struct n s' ≡ some (size, l))
  pub table-init_struct :
      (m n : Name) (size : ℕ) (s s' : Segment) (found : Bool)
      → init_struct n size s ≡ ok (s', found)
      → table m s' ≡ table m s
  pub struct-write_lock :
      (n : Name) (size : ℕ) (l : Lock) (old : Option Lock) (s : Segment)
      → struct n s ≡ some (size, old)
      → struct n (write_lock n l s) ≡ some (size, some l)
  pub table-write_lock :
      (m n : Name) (l : Lock) (s : Segment) → table m (write_lock n l s) ≡ table m s
  -- The same for tables.
  pub init_hash_again :
      (n : Name) (size entry : ℕ) (s : Segment) (t : Table)
      → table n s ≡ some ((size, entry), t)
      → init_hash n size entry s ≡ ok (s, t)
  pub init_hash_new :
      (n : Name) (size entry : ℕ) (s s' : Segment) (t : Table)
      → table n s ≡ none
      → init_hash n size entry s ≡ ok (s', t)
      → table n s' ≡ some ((size, entry), t)
  pub struct-init_hash :
      (m n : Name) (size entry : ℕ) (s s' : Segment) (t : Table)
      → init_hash n size entry s ≡ ok (s', t)
      → struct m s' ≡ struct m s

-- The variables of a process: `tbf` points to the struct or is NULL, and `tbf_hash`.
pub record Attached (Table : Type 0) : Type 0 where
  pub tbf : Bool
  pub tbf_hash : Option Table

module _ {Lock Table : Type 0} (M : Shmem Lock Table) where
  -- `if(!found)`: the lock is that of the tranche.
  unfoldable pub set_lock : Bool → M.Segment → Outcome M.Segment
  set_lock true s = ok s
  set_lock false s = do
    l ← M.get_tranche tbf_shmem_entry_name s
    ok (M.write_lock tbf_shmem_entry_name l s)

  unfoldable pub init_shared_state : M.Segment → Outcome M.Segment
  unfolding set_lock
  init_shared_state s = do
    (s', found) ← M.init_struct tbf_shmem_entry_name shared_state_size s
    set_lock found s'

  -- Behind the previous hook, under AddinShmemInitLock.
  unfoldable pub attach : Sizes → M.Segment → Outcome (M.Segment × Attached Table)
  unfolding init_shared_state
  attach z s = do
    s' ← init_shared_state s
    (s'', t) ← M.init_hash tbf_shmem_hash_entry_name tbf_hash_max (entry_size z.instr_time_size) s'
    ok (s'', record { tbf = true; tbf_hash = some t })

  module _ (z : Sizes) (others : ℕ → M.Segment → Outcome M.Segment) where
    unfoldable pub shmem_startup : Hooks → M.Segment → Outcome (M.Segment × Attached Table)
    unfolding call_prev attach
    shmem_startup h s = call_prev others h.prev_shmem_startup_hook s >>= λ s'. attach z s'
