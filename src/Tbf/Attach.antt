-- ===== src/Tbf/Attach.antt =====
-- What processes find in the shared memory of src/f_tbf_rate_check.c once one has set it up.
use yeti_pg_ext.Base.{ℕ, Bool, Option, true, false, List, none, some, ◌≡◌, refl, sym, ◌∙◌}
use yeti_pg_ext.Base.Outcome.{Outcome, ok, ◌>>=◌, >>=-eq-ok}
use yeti_pg_ext.Tbf.{Hooks, no_hook, tbf_init}
use yeti_pg_ext.Tbf.Memory.{
  tbf_shmem_entry_name, tbf_shmem_hash_entry_name, tbf_hash_max, shared_state_size, entry_size,
  Sizes, call_prev, Shmem, Attached, ShmemRequest, tbf_init_before_15, shmem_request, set_lock,
  init_shared_state, attach, shmem_startup,
}

-- What a process has that is attached to the table.
abbrev pub attached_to : {Table : Type 0} → Table → Attached Table
attached_to t = record { tbf = true; tbf_hash = some t }

module _ {Lock Table : Type 0} (M : Shmem Lock Table) where
  -- The struct and the table have the sizes of the source, and the lock is set.
  pub record IsSetUp (z : Sizes) (s : M.Segment) (l : Lock) (t : Table) : Type 0 where
    pub locked : M.struct tbf_shmem_entry_name s ≡ some (shared_state_size, some l)
    pub tabled :
        M.table tbf_shmem_hash_entry_name s ≡ some ((tbf_hash_max, entry_size z.instr_time_size), t)

  attach-IsSetUp :
      (z : Sizes) (s : M.Segment) (l : Lock) (t : Table)
      → IsSetUp z s l t
      → attach M z s ≡ ok (s, attached_to t)
  unfolding attach init_shared_state set_lock
  attach-IsSetUp z s l t h =
      rw (M.init_struct_again tbf_shmem_entry_name shared_state_size s (some l) h.locked) (
        rw
          (M.init_hash_again tbf_shmem_hash_entry_name tbf_hash_max (entry_size z.instr_time_size) s
            t h.tabled)
          refl)

  -- A struct that was just made gets its lock, and no table.
  set_lock_new :
      (found : Bool) (s s' : M.Segment) (old : Option Lock)
      → found ≡ false
      → M.struct tbf_shmem_entry_name s ≡ some (shared_state_size, old)
      → set_lock M found s ≡ ok s'
      → (l : Lock) × (M.struct tbf_shmem_entry_name s' ≡ some (shared_state_size, some l))
        × (M.table tbf_shmem_hash_entry_name s' ≡ M.table tbf_shmem_hash_entry_name s)
  unfolding set_lock
  set_lock_new true s s' old n made h = cc
  set_lock_new false s s' old n made h =
      let (l, e, w) = >>=-eq-ok _ (M.get_tranche tbf_shmem_entry_name s) h in
      let same : M.write_lock tbf_shmem_entry_name l s ≡ s' = cc in
      (
        l,
        rw (← same) (M.struct-write_lock tbf_shmem_entry_name shared_state_size l old s made),
        rw (← same) (M.table-write_lock tbf_shmem_hash_entry_name tbf_shmem_entry_name l s),
      )

  init_shared_state_new :
      (s s' : M.Segment)
      → M.struct tbf_shmem_entry_name s ≡ none
      → init_shared_state M s ≡ ok s'
      → (l : Lock) × (M.struct tbf_shmem_entry_name s' ≡ some (shared_state_size, some l))
        × (M.table tbf_shmem_hash_entry_name s' ≡ M.table tbf_shmem_hash_entry_name s)
  unfolding init_shared_state
  init_shared_state_new s s' new h =
      let ((s1, found), e, w) =
        >>=-eq-ok _ (M.init_struct tbf_shmem_entry_name shared_state_size s) h in
      let (n, old, made) =
        M.init_struct_new tbf_shmem_entry_name shared_state_size s s1 found new e in
      let (l, locked, kept) = set_lock_new found s1 s' old n made w in
      (
        l,
        locked,
        kept
            ∙ M.table-init_struct tbf_shmem_hash_entry_name tbf_shmem_entry_name shared_state_size s
                s1 found e,
      )

  attach_new :
      (z : Sizes) (s s' : M.Segment) (a : Attached Table)
      → M.struct tbf_shmem_entry_name s ≡ none
      → M.table tbf_shmem_hash_entry_name s ≡ none
      → attach M z s ≡ ok (s', a)
      → (l : Lock) × (t : Table) × IsSetUp z s' l t × (a ≡ attached_to t)
  unfolding attach
  attach_new z s s' a new no_table h =
      let (s1, e, w) = >>=-eq-ok _ (init_shared_state M s) h in
      let (l, k, kept) = init_shared_state_new s s1 new e in
      let entry = entry_size z.instr_time_size in
      let ((s2, t), e2, w2) =
        >>=-eq-ok _ (M.init_hash tbf_shmem_hash_entry_name tbf_hash_max entry s1) w in
      let same : s2 ≡ s' = cc in
      let on : attached_to t ≡ a = cc in
      (
        l,
        t,
        record {
          locked = rw (← same) (
              M.struct-init_hash tbf_shmem_entry_name tbf_shmem_hash_entry_name tbf_hash_max entry
                s1 s2 t e2
              ∙ k);
          tabled = rw (← same) (
              M.init_hash_new tbf_shmem_hash_entry_name tbf_hash_max entry s1 s2 t (kept ∙ no_table)
                e2);
        },
        sym on,
      )

  -- If the startup of a process ends, behind a previous hook that leaves a segment with neither the
  -- struct nor the table, the struct has a lock, the process is attached to a table, and any other
  -- process of the same PostgreSQL, whose previous hook leaves the segment as it is, asks for what
  -- the first one made, is attached to the same table and sets no other lock.
  pub shmem_startup-again :
      (z : Sizes) (others later : ℕ → M.Segment → Outcome M.Segment) (h k : Hooks)
      → (s before after : M.Segment) → (a : Attached Table)
      → call_prev others h.prev_shmem_startup_hook s ≡ ok before
      → M.struct tbf_shmem_entry_name before ≡ none
      → M.table tbf_shmem_hash_entry_name before ≡ none
      → shmem_startup M z others h s ≡ ok (after, a)
      → call_prev later k.prev_shmem_startup_hook after ≡ ok after
      → (l : Lock) × (t : Table) × (M.struct tbf_shmem_entry_name after
          ≡ some (shared_state_size, some l))
        × (a ≡ attached_to t)
        × (shmem_startup M z later k after ≡ ok (after, attached_to t))
  unfolding shmem_startup
  shmem_startup-again z others later h k s before after a first new no_table start second =
      let (l, t, set, on) = attach_new z before after a new no_table (rw first at start) in
      (l, t, set.locked, on, rw second (attach-IsSetUp z after l t set))

-- Loaded while libraries are preloaded and where no other library has a hook for requests, the
-- extension asks for the same memory and the same lock in every version of PostgreSQL, or fails in
-- each, and installs the same hook for the startup.
pub tbf_init-versions :
    (z : Sizes) (others : ℕ → List ShmemRequest → Outcome (List ShmemRequest)) (h : Hooks)
    → (asked : List ShmemRequest) → h.shmem_request_hook ≡ no_hook
    → tbf_init_before_15 z true (h, asked) ≡ (
        shmem_request z others (tbf_init true h) asked >>= λ asked'. ok (
          record h {
            shmem_startup_hook = (tbf_init true h).shmem_startup_hook;
            prev_shmem_startup_hook = (tbf_init true h).prev_shmem_startup_hook;
          },
          asked',
        ))
unfolding tbf_init_before_15 shmem_request tbf_init
tbf_init-versions z others h asked e = rw (e, call_prev) refl
