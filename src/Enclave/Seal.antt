-- ===== src/Enclave/Seal.antt =====
-- `enclave_init` against its specification: it runs as one step, but for the lock of a region in
-- which the structure was not found.
use security_monitor.Thread.Atomic.{left_locked, load_spec, thread_load-eq-spec}
use security_monitor.Prelude.{ℕ, ◌≡◌, refl, sym, ◌∙◌, Bool, false, arith, if◌then◌else◌}
use security_monitor.Types.{
  ApiResult, RegionMap, EnclaveMetadata, SmKeys, Machine, monitor_ok, invalid_state, page_enclave,
  page_data_loaded, initialized,
}
use security_monitor.Address.{addr_to_region_id}
use security_monitor.Call.{Result, returned}
use security_monitor.Metadata.{enclave_metadata_pages, is_ok}
use security_monitor.Crypto.{Crypto}
use security_monitor.Thread.{is_page_data_loaded, thread_load}
use security_monitor.Enclave.{create_commit, enclave_create, initialize, init_commit, enclave_init}
use security_monitor.Locks.Held.{no_regions, hold, held, add, none-Taken}
use security_monitor.Locks.Steps.{check_after-step, machine-step, commit-step}
use security_monitor.Locks.Commit.{Apart, commit-regions, refuse-regions}
use security_monitor.Metadata.Steps.{
  lock_status, metadata_status, free_pages_status, valid_metadata-step, free_pages-step,
}

module _ (c : Crypto) where
  unfoldable pub init_spec : ℕ → Machine → Result ApiResult
  init_spec enclave_id m =
      let status = metadata_status m no_regions enclave_id page_enclave in
      if is_ok status
      then (if is_page_data_loaded (m.enclaves enclave_id).init_state
          then returned monitor_ok (init_commit c enclave_id m)
          else returned invalid_state m)
      else returned status (left_locked m enclave_id status)

  init_commit-Apart : (e : ℕ) → Apart (init_commit c e)
  unfolding init_commit hold
  init_commit-Apart e = record {
    under = λ l u k m. refl;
    regions = λ m j. refl;
    cores = λ m j. refl;
    untrusted = λ m. refl;
  }

  -- `enclave_init` is its specification: a pointer whose region is locked but is refused leaves that lock
  -- held, every other refusal leaves the machine as it was.
  pub enclave_init-eq-spec : (e : ℕ) (m : Machine) → enclave_init c e m ≡ init_spec e m
  unfolding enclave_init init_spec hold held
  enclave_init-eq-spec e m =
      let l : RegionMap = add no_regions (addr_to_region_id e) in
      valid_metadata-step no_regions false no_regions m _ e _ _ _ page_enclave (none-Taken m)
        (λ t. machine-step l false no_regions m _ _ (
          check_after-step _ _ _ _ _ _
            (λ _.
              commit-step l false no_regions m _ _ _ (commit-regions (init_commit-Apart e) l m t))
            (refuse-regions l m t _)))
        refl

  -- Whether the enclave's pages are free is asked before any change.
  unfoldable pub create_spec : ℕ → ℕ → ℕ → ℕ → Bool → Machine → Result ApiResult
  create_spec enclave_id base mask n debug m =
      let status = free_pages_status m no_regions enclave_id (enclave_metadata_pages n) in
      if is_ok status
      then returned monitor_ok (create_commit c enclave_id base mask n debug m)
      else returned status (left_locked m enclave_id status)

  create_commit-Apart :
      (e base mask n : ℕ) (debug : Bool) → Apart (create_commit c e base mask n debug)
  unfolding create_commit hold
  create_commit-Apart e base mask n debug = record {
    under = λ l u k m. refl;
    regions = λ m j. refl;
    cores = λ m j. refl;
    untrusted = λ m. refl;
  }

  -- `enclave_create` is its specification: pages that are refused with their region locked leave that lock
  -- held, every other refusal leaves the machine as it was.
  pub enclave_create-eq-spec :
      (e base mask n : ℕ) (debug : Bool) (m : Machine)
      → enclave_create c e base mask n debug m ≡ create_spec e base mask n debug m
  unfolding enclave_create create_spec hold held
  enclave_create-eq-spec e base mask n debug m =
      let l : RegionMap = add no_regions (addr_to_region_id e) in
      free_pages-step no_regions false no_regions m _ e _ _ _ (enclave_metadata_pages n)
        (none-Taken m)
        (λ t.
          commit-step l false no_regions m _ _ _
            (commit-regions (create_commit-Apart e base mask n debug) l m t))
        refl

  init_spec-ok :
      (e : ℕ) (m n : Machine)
      → init_spec e m ≡ returned monitor_ok n
      → (metadata_status m no_regions e page_enclave ≡ monitor_ok)
        × ((m.enclaves e).init_state ≡ page_data_loaded)
        × (n ≡ init_commit c e m)
  unfolding init_spec
  init_spec-ok e m n h = ground arith

  init_commit-status :
      (e : ℕ) (m : Machine)
      → metadata_status (init_commit c e m) no_regions e page_enclave
        ≡ metadata_status m no_regions e page_enclave
  unfolding init_commit metadata_status lock_status
  init_commit-status e m = refl

  init_commit-enclave :
      (e : ℕ) (m : Machine) → (init_commit c e m).enclaves e ≡ initialize c m.sm.keys (m.enclaves e)
  unfolding init_commit
  init_commit-enclave e m = ground arith

  initialize-state :
      (k : SmKeys) (d : EnclaveMetadata) → (initialize c k d).init_state ≡ initialized
  unfolding initialize
  initialize-state k d = refl

  initialize-measurement :
      (k : SmKeys) (d : EnclaveMetadata)
      → (initialize c k d).measurement ≡ c.hash_finalize d.hash_context
  unfolding initialize
  initialize-measurement k d = refl

  refused_init :
      (a : ℕ) (x : Machine)
      → metadata_status x no_regions a page_enclave ≡ monitor_ok
      → (x.enclaves a).init_state ≡ initialized
      → init_spec a x ≡ returned invalid_state x
  unfolding init_spec
  refused_init a x p q = rw (p, q) refl

  refused_load :
      (a t pc sp limit : ℕ) (x : Machine)
      → metadata_status x no_regions a page_enclave ≡ monitor_ok
      → (x.enclaves a).init_state ≡ initialized
      → load_spec c a t pc sp limit x ≡ returned invalid_state x
  unfolding load_spec
  refused_load a t pc sp limit x p q = rw (p, q) refl

  -- An enclave is closed once: when `enclave_init` succeeds, the enclave's pages had been loaded, its
  -- measurement is the digest of the context that the calls so far have left, and on the machine that it leaves both a second
  -- `enclave_init` and the load of a thread are refused and change nothing.
  pub enclave_init-closes :
      (e : ℕ) (m n : Machine)
      → enclave_init c e m ≡ returned monitor_ok n
      → ((m.enclaves e).init_state ≡ page_data_loaded)
        × ((n.enclaves e).measurement ≡ c.hash_finalize (m.enclaves e).hash_context)
        × (enclave_init c e n ≡ returned invalid_state n)
        × ((t pc sp limit : ℕ) → thread_load c e t pc sp limit n ≡ returned invalid_state n)
  enclave_init-closes e m n h =
      let (s, was, eq) = init_spec-ok e m n (sym (enclave_init-eq-spec e m) ∙ h) in
      let status : metadata_status n no_regions e page_enclave ≡ monitor_ok =
        rw eq (init_commit-status e m ∙ s) in
      let state : (n.enclaves e).init_state ≡ initialized =
        rw (eq, init_commit-enclave e m) (initialize-state _ _) in
      (
        was,
        rw (eq, init_commit-enclave e m) (initialize-measurement _ _),
        enclave_init-eq-spec e n ∙ refused_init e n status state,
        λ t pc sp limit.
            thread_load-eq-spec c e t pc sp limit n ∙ refused_load e t pc sp limit n status state,
      )
