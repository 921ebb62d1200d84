-- ===== src/Enclave/Load.antt =====
-- src/api/enclave_load_*.c and src/common/load_page_table_entry.c: an enclave is filled by its
-- handler, its page tables and its pages, at rising physical addresses.
use security_monitor.Prelude.{
  ℕ, zero, suc, ◌+◌, ◌*◌, ◌/◌, ◌%◌, ◌^◌, bit_and, bit_or, Bool, true, false, not, ◌&&◌, ◌||◌, ltb,
  leb, ◌==◌, if◌then◌else◌, update,
}
use security_monitor.Types.{
  Bytes, word_mod, page_size, num_cores, stack_size, handler_len, owner_untrusted, ApiResult,
  EnclaveInitState, EnclaveMetadata, Machine, monitor_ok, invalid_value, invalid_state,
  concurrent_call, created, handler_loaded, page_tables_loaded, page_data_loaded,
}
use security_monitor.Address.{addr_to_region_id, is_valid_region_id}
use security_monitor.Call.{
  machine, M, pure, ◌>>=◌, ◌>>◌, modify, check_after, check, Result, run, leave, fault,
}
use security_monitor.Locks.{unlock_regions, add_lock_region}
use security_monitor.Metadata.{is_ok, add_lock_region_iff_valid_enclave}
use security_monitor.Platform.{set_enclave}
use security_monitor.Region.{region_owner, region_owner_lock_free}
use security_monitor.Memory.{le_bytes, read_ram, zero_words, copy_words}
use security_monitor.Crypto.{Crypto}

-- `(x & (1ul << n)) != 0`
abbrev pub bit : ℕ → ℕ → Bool
bit x n = x / 2 ^ n % 2 == 1

-- `PTE_V`, `PTE_R`, `PTE_W`, `PTE_X` by their bits.
abbrev pub pte_valid : ℕ → Bool
pte_valid acl = bit acl 0 && not (not (bit acl 1) && bit acl 2)

abbrev pub acl_mask : ℕ → ℕ
acl_mask x = x % 2 ^ 10

abbrev pub ppn_mask : ℕ → ℕ
ppn_mask x = x % 2 ^ 44

-- The linker's symbols: the handlers' code, in words by offset, its bytes, and its length.
pub record Image : Type 0 where
  pub handler_words : ℕ → ℕ
  pub handler_bytes : Bytes
  pub size_handler : ℕ
  pub trap_vector_from_untrusted : ℕ
  pub stack_ptr : ℕ

abbrev pub put_eptbr : ℕ → ℕ → Machine → Machine
put_eptbr enclave_id eptbr m =
    let d = m.enclaves enclave_id in
    set_enclave enclave_id (record d { platform_csr = record d.platform_csr { eptbr = eptbr } }) m

-- Whether the table at `pte_base` lies in a region of the enclave: `flags[…]` of a number that is no
-- region's is out of bounds.
unfoldable pub table_owned : {R : Type 0} → ℕ → ℕ → M R Bool
table_owned enclave_id pte_base f =
    let r = addr_to_region_id pte_base in
    if is_valid_region_id r
    then (do
      owner ← if f.locked r then region_owner_lock_free r else region_owner r
      pure (owner == enclave_id))
        f
    else fault

-- The entry of `virtual_addr` in the table of level `i`.
abbrev pub pte_addr : ℕ → ℕ → ℕ → ℕ
pte_addr pte_base virtual_addr i = pte_base + (virtual_addr / 2 ^ (12 + 9 * i) % 2 ^ 9) * 8

-- What the checks of an inner entry refuse: no entry, a reserved one, or a leaf.
abbrev pub is_inner : ℕ → Bool
is_inner pte = pte_valid (acl_mask pte) && not (bit pte 1) && not (bit pte 3)

abbrev pub make_pte : ℕ → ℕ → ℕ
make_pte phys_addr acl = ppn_mask (phys_addr / 2 ^ 12) * 2 ^ 10 + acl_mask acl

module _ (enclave_id phys_addr virtual_addr level acl : ℕ) where
  -- The loop from the level `i` down to `level`.
  unfoldable pub walk : {R : Type 0} → ℕ → ℕ → M R ApiResult
  walk zero pte_base =
      if leb level 0
      then (do
        modify (λ m. record m {
          words = update m.words (pte_addr pte_base virtual_addr 0) (make_pte phys_addr acl);
        })
        pure monitor_ok)
      else pure monitor_ok
  walk (suc i) pte_base =
      if ltb (suc i) level
      then pure monitor_ok
      else if suc i == level
      then (do
        modify (λ m. record m {
          words = update m.words (pte_addr pte_base virtual_addr (suc i)) (make_pte phys_addr acl);
        })
        pure monitor_ok)
      else (do
        m ← machine
        let pte = m.words (pte_addr pte_base virtual_addr (suc i))
        let next_base = ppn_mask (pte / 2 ^ 10) * 2 ^ 12
        if not (is_inner pte) then pure invalid_state else (do
          ok ← table_owned enclave_id next_base
          if not ok then pure invalid_state else walk i next_base))

  -- The root table: the page number and the mode Sv39.
  unfoldable pub load_root : {R : Type 0} → M R ApiResult
  load_root = do
    modify (put_eptbr enclave_id (bit_or (phys_addr / 2 ^ 12) (8 * 2 ^ 60)))
    pure monitor_ok

  unfoldable pub load_page_table_entry : {R : Type 0} → M R ApiResult
  unfolding walk table_owned load_root
  load_page_table_entry = do
    m ← machine
    let root = (m.enclaves enclave_id).platform_csr.eptbr
    let pte_base = ppn_mask root * 2 ^ 12
    if level == 3 then load_root else (do
      ok ← table_owned enclave_id pte_base
      if not ok then pure invalid_state else walk 2 pte_base)

abbrev pub in_evrange : EnclaveMetadata → ℕ → Bool
in_evrange d virtual_addr =
    (bit_and virtual_addr d.platform_csr.ev_mask == d.platform_csr.ev_base)
    && (bit_and ((virtual_addr + page_size) % word_mod) d.platform_csr.ev_mask
        == d.platform_csr.ev_base)

abbrev pub state_at_least_tables : EnclaveInitState → Bool
state_at_least_tables page_tables_loaded = true
state_at_least_tables page_data_loaded = true
state_at_least_tables _ = false

abbrev pub state_handler_or_tables : EnclaveInitState → Bool
state_handler_or_tables handler_loaded = true
state_handler_or_tables page_tables_loaded = true
state_handler_or_tables _ = false

abbrev pub is_created : EnclaveInitState → Bool
is_created created = true
is_created _ = false

-- `~((~HANDLER_LEN) % HANDLER_LEN)` on `int`: `~0x8000` is -32769, its remainder is -1, and `~` of that
-- is 0.
abbrev pub handler_mask : ℕ
handler_mask = 0

module _ (c : Crypto) where
  open c use {hash_extend}

  unfoldable pub page_table_commit : ℕ → ℕ → ℕ → ℕ → ℕ → Machine → Machine
  page_table_commit enclave_id phys_addr virtual_addr level acl m =
      let d = m.enclaves enclave_id in
      let h0 = hash_extend d.hash_context (le_bytes 8 virtual_addr) in
      let h1 = hash_extend h0 (le_bytes 8 level) in
      let h2 = hash_extend h1 (le_bytes 8 acl) in
      set_enclave enclave_id
        (record d {
          last_phys_addr_loaded = phys_addr;
          init_state = page_tables_loaded;
          hash_context = h2;
        })
        m

  enclave_load_page_table_body : ℕ → ℕ → ℕ → ℕ → ℕ → M ApiResult (Unit {0})
  enclave_load_page_table_body enclave_id phys_addr virtual_addr level acl = do
    result ← add_lock_region_iff_valid_enclave enclave_id
    check (is_ok result) result
    m ← machine
    let d = m.enclaves enclave_id
    check_after (state_handler_or_tables d.init_state) unlock_regions invalid_state
    check_after (phys_addr % page_size == 0) unlock_regions invalid_value
    check_after (leb d.last_phys_addr_loaded phys_addr) unlock_regions invalid_value
    owner ← region_owner (addr_to_region_id phys_addr)
    check_after (owner == enclave_id) unlock_regions invalid_state
    check_after (in_evrange d virtual_addr) unlock_regions invalid_value
    check_after (leb level 3) unlock_regions invalid_value
    check (pte_valid acl) invalid_value
    check (not ((bit acl 1 || bit acl 3) && not (level == 0))) invalid_value
    got ← add_lock_region (addr_to_region_id phys_addr)
    check_after got unlock_regions invalid_value
    result ← load_page_table_entry enclave_id phys_addr virtual_addr level acl
    check_after (is_ok result) unlock_regions result
    modify (page_table_commit enclave_id phys_addr virtual_addr level acl)
    leave unlock_regions

  unfoldable pub enclave_load_page_table : ℕ → ℕ → ℕ → ℕ → ℕ → Machine → Result ApiResult
  unfolding enclave_load_page_table_body
  enclave_load_page_table enclave_id phys_addr virtual_addr level acl =
      run (enclave_load_page_table_body enclave_id phys_addr virtual_addr level acl) monitor_ok

  unfoldable pub page_commit : ℕ → ℕ → ℕ → ℕ → ℕ → Machine → Machine
  page_commit enclave_id phys_addr virtual_addr os_addr acl m =
      let d = m.enclaves enclave_id in
      let h0 = hash_extend d.hash_context (le_bytes 8 virtual_addr) in
      let h1 = hash_extend h0 (le_bytes 8 acl) in
      let n = copy_words phys_addr (λ k. m.words (os_addr + k)) page_size m in
      let h2 = hash_extend h1 (read_ram n.words os_addr page_size) in
      set_enclave enclave_id
        (record d {
          last_phys_addr_loaded = (phys_addr + page_size) % word_mod;
          init_state = page_data_loaded;
          hash_context = h2;
        })
        n

  enclave_load_page_body : ℕ → ℕ → ℕ → ℕ → ℕ → M ApiResult (Unit {0})
  enclave_load_page_body enclave_id phys_addr virtual_addr os_addr acl = do
    result ← add_lock_region_iff_valid_enclave enclave_id
    check (is_ok result) result
    m ← machine
    let d = m.enclaves enclave_id
    check_after (state_at_least_tables d.init_state) unlock_regions invalid_state
    check_after (phys_addr % page_size == 0) unlock_regions invalid_value
    check_after (leb d.last_phys_addr_loaded phys_addr) unlock_regions invalid_value
    owner ← region_owner (addr_to_region_id phys_addr)
    check_after (owner == enclave_id) unlock_regions invalid_state
    check_after (in_evrange d virtual_addr) unlock_regions invalid_value
    check_after (os_addr % page_size == 0) unlock_regions invalid_value
    os_owner ← region_owner (addr_to_region_id os_addr)
    check_after (os_owner == owner_untrusted) unlock_regions invalid_state
    check (pte_valid acl && (bit acl 1 || bit acl 3)) invalid_value
    got ← add_lock_region (addr_to_region_id phys_addr)
    check_after got unlock_regions invalid_value
    os_got ← add_lock_region (addr_to_region_id os_addr)
    check_after os_got unlock_regions invalid_value
    result ← load_page_table_entry enclave_id phys_addr virtual_addr 0 acl
    check_after (is_ok result) unlock_regions result
    modify (page_commit enclave_id phys_addr virtual_addr os_addr acl)
    leave unlock_regions

  unfoldable pub enclave_load_page : ℕ → ℕ → ℕ → ℕ → ℕ → Machine → Result ApiResult
  unfolding enclave_load_page_body
  enclave_load_page enclave_id phys_addr virtual_addr os_addr acl =
      run (enclave_load_page_body enclave_id phys_addr virtual_addr os_addr acl) monitor_ok

  module _ (image : Image) where
    open image use {size_handler, handler_words, handler_bytes}

    abbrev pub size_stacks : ℕ
    size_stacks = num_cores * stack_size

    abbrev pub handler_end : ℕ → ℕ
    handler_end phys_addr = (phys_addr + size_stacks + size_handler) % word_mod

    unfoldable pub handler_commit : ℕ → ℕ → Machine → Machine
    handler_commit enclave_id phys_addr m =
        let d = m.enclaves enclave_id in
        let code_addr = (phys_addr + size_stacks) % word_mod in
        set_enclave enclave_id
          (record d {
            fault_sp_base = code_addr;
            platform_csr = record d.platform_csr {
              meparbase = code_addr;
              meparmask = handler_mask;
            };
            hash_context = hash_extend d.hash_context handler_bytes;
            init_state = handler_loaded;
            fault_pc = code_addr;
            last_phys_addr_loaded = handler_end phys_addr;
          })
          (copy_words code_addr handler_words size_handler (zero_words phys_addr size_stacks m))

    enclave_load_handler_body : ℕ → ℕ → M ApiResult (Unit {0})
    enclave_load_handler_body enclave_id phys_addr = do
      result ← add_lock_region_iff_valid_enclave enclave_id
      check (is_ok result) result
      m ← machine
      let d = m.enclaves enclave_id
      check_after (is_created d.init_state) unlock_regions invalid_value
      check_after (phys_addr % handler_len == 0) unlock_regions invalid_value
      check_after (leb d.last_phys_addr_loaded phys_addr) unlock_regions invalid_value
      check_after (addr_to_region_id phys_addr == addr_to_region_id (handler_end phys_addr))
          unlock_regions invalid_value
      owner ← region_owner (addr_to_region_id phys_addr)
      check_after (owner == enclave_id) unlock_regions invalid_state
      got ← add_lock_region (addr_to_region_id phys_addr)
      check_after got unlock_regions concurrent_call
      modify (handler_commit enclave_id phys_addr)
      leave unlock_regions

    unfoldable pub enclave_load_handler : ℕ → ℕ → Machine → Result ApiResult
    unfolding enclave_load_handler_body
    enclave_load_handler enclave_id phys_addr =
        run (enclave_load_handler_body enclave_id phys_addr) monitor_ok
