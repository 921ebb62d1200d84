-- ===== src/Enclave.antt =====
-- src/api/enclave_{create,init,delete,get_attest,get_keys}.c and get_public_field.c.
pub mod Return
pub mod Load
pub mod Measure
pub mod Seal
pub mod Switch
use security_monitor.Prelude.{
  ℕ, zero, suc, ◌^◌, Bool, not, ◌&&◌, Option, none, some, [], ◌∷◌, ltb, ◌==◌, if◌then◌else◌, update,
}
use security_monitor.Types.{
  Bytes, num_regions, owner_sm, ApiResult, RegionMap, EnclaveMetadata, SmKeys, Machine,
  zero_enclave, monitor_ok, invalid_value, invalid_state, concurrent_call, blocked, page_enclave,
  created, initialized,
}
use security_monitor.Address.{addr_to_region_id}
use security_monitor.Call.{
  machine, M, ◌>>=◌, ◌>>◌, modify, check_after, check, Result, run, leave, returned,
}
use security_monitor.Locks.{
  set_region, lock_region, lock_core, lock_untrusted_state, unlock_regions, mark_locked,
}
use security_monitor.Metadata.{
  enclave_metadata_pages, is_ok, add_lock_region_iff_valid_enclave,
  add_lock_region_iff_free_metadata_pages,
}
use security_monitor.Platform.{set_enclave}
use security_monitor.Region.{unlock_core_untrusted_regions, unlock_untrusted_regions, erase_region}
use security_monitor.Memory.{put_user, le_bytes}
use security_monitor.Crypto.{Crypto}
use security_monitor.Thread.{is_page_data_loaded, claim_pages, release_pages}
use security_monitor.Mail.{is_initialized}

-- The bytes of `debug`, a `bool`.
abbrev pub bool_byte : Bool → Bytes
bool_byte b = (if b then 1 else 0) ∷ []

module _ (c : Crypto) where
  open c use {
    hash_init, hash_extend, hash_finalize, hash_closed, create_secret_signing_key,
    compute_public_signing_key, sign,
  }

  -- What the hash of a new enclave has taken in: its parameters.
  unfoldable pub measure_parameters : ℕ → ℕ → ℕ → Bool → Bytes
  measure_parameters ev_base ev_mask num_mailboxes debug =
      let h0 = hash_extend hash_init (le_bytes 8 ev_base) in
      let h1 = hash_extend h0 (le_bytes 8 ev_mask) in
      let h2 = hash_extend h1 (le_bytes 8 num_mailboxes) in hash_extend h2 (bool_byte debug)

  -- The fields that are not written are those of free pages.
  unfoldable pub create_commit : ℕ → ℕ → ℕ → ℕ → Bool → Machine → Machine
  unfolding measure_parameters
  create_commit enclave_id ev_base ev_mask num_mailboxes debug m =
      let d = m.enclaves enclave_id in
      record m {
        page_info =
            claim_pages enclave_id (enclave_metadata_pages num_mailboxes) page_enclave m.page_info;
        enclaves = update m.enclaves enclave_id (record d {
          init_state = created;
          last_phys_addr_loaded = 0;
          hash_context = measure_parameters ev_base ev_mask num_mailboxes debug;
          platform_csr = record d.platform_csr { ev_base = ev_base; ev_mask = ev_mask };
          num_mailboxes = num_mailboxes;
          debug = debug;
        });
      }

  enclave_create_body : ℕ → ℕ → ℕ → ℕ → Bool → M ApiResult (Unit {0})
  enclave_create_body enclave_id ev_base ev_mask num_mailboxes debug = do
    result ←
        add_lock_region_iff_free_metadata_pages enclave_id (enclave_metadata_pages num_mailboxes)
    check (is_ok result) result
    modify (create_commit enclave_id ev_base ev_mask num_mailboxes debug)
    leave unlock_regions

  unfoldable pub enclave_create : ℕ → ℕ → ℕ → ℕ → Bool → Machine → Result ApiResult
  unfolding enclave_create_body
  enclave_create enclave_id ev_base ev_mask num_mailboxes debug =
      run (enclave_create_body enclave_id ev_base ev_mask num_mailboxes debug) monitor_ok

  -- The measurement is closed; the enclave's keys come from the monitor's secret key and the
  -- measurement; the attestation signs the measurement with the enclave's public key.
  unfoldable pub initialize : SmKeys → EnclaveMetadata → EnclaveMetadata
  initialize keys d =
      let measurement = hash_finalize d.hash_context in
      let key_seed =
        hash_finalize (hash_extend (hash_extend hash_init keys.software_secret_key) measurement) in
      let secret_key = create_secret_signing_key key_seed in
      let public_key = compute_public_signing_key secret_key in
      let attestation =
        hash_finalize (hash_extend (hash_extend hash_init measurement) public_key) in
      record d {
        hash_context = hash_closed d.hash_context;
        measurement = measurement;
        secret_key = secret_key;
        public_key = public_key;
        attestation = sign attestation keys.software_public_key keys.software_secret_key;
        init_state = initialized;
      }

  unfoldable pub init_commit : ℕ → Machine → Machine
  unfolding initialize
  init_commit enclave_id m = set_enclave enclave_id (initialize m.sm.keys (m.enclaves enclave_id)) m

  enclave_init_body : ℕ → M ApiResult (Unit {0})
  enclave_init_body enclave_id = do
    result ← add_lock_region_iff_valid_enclave enclave_id
    check (is_ok result) result
    m ← machine
    check_after (is_page_data_loaded (m.enclaves enclave_id).init_state) unlock_regions
        invalid_state
    modify (init_commit enclave_id)
    leave unlock_regions

  unfoldable pub enclave_init : ℕ → Machine → Result ApiResult
  unfolding enclave_init_body
  enclave_init enclave_id = run (enclave_init_body enclave_id) monitor_ok

-- The loop that locks every region of the enclave, from the region `i` on, with `n` rounds left, and
-- what follows it. A region that the call has locked already, the enclave's metadata's, would refuse.
unfoldable pub lock_flagged : RegionMap → ℕ → ℕ → M ApiResult (Unit {0}) → M ApiResult (Unit {0})
lock_flagged flags i zero rest = rest
lock_flagged flags i (suc n) rest =
    if flags i
    then (do
      got ← lock_region i
      check_after got unlock_regions concurrent_call
      mark_locked i
      lock_flagged flags (suc i) n rest)
    else lock_flagged flags (suc i) n rest

-- `num_threads > 0`, on a signed number.
abbrev pub is_positive : ℕ → Bool
is_positive x = ltb 0 x && ltb x (2 ^ 63)

abbrev pub block_region : ℕ → Machine → Machine
block_region i m = set_region i (record (m.sm.regions i) { state = blocked; owner = owner_sm }) m

-- The loop that blocks the enclave's regions, from the region `i` on, with `n` rounds left. A round
-- reads the enclave's flags anew, and what it clears is the region of the enclave's metadata.
unfoldable pub block_flagged : ℕ → ℕ → ℕ → Machine → Machine
block_flagged enclave_id i zero m = m
block_flagged enclave_id i (suc n) m = block_flagged enclave_id (suc i) n (
    if (m.enclaves enclave_id).regions i
    then erase_region (addr_to_region_id enclave_id) (block_region i m)
    else m)

-- The page map and the metadata are written over last; `num_mailboxes` is read after the loop.
unfoldable pub delete_enclave_commit : ℕ → Machine → Machine
unfolding block_flagged
delete_enclave_commit enclave_id m =
    let n = block_flagged enclave_id 0 num_regions m in
    record n {
      page_info =
          release_pages enclave_id (enclave_metadata_pages (n.enclaves enclave_id).num_mailboxes)
            n.page_info;
      enclaves = update n.enclaves enclave_id zero_enclave;
    }

enclave_delete_body : ℕ → ℕ → M ApiResult (Unit {0})
unfolding lock_flagged
enclave_delete_body core enclave_id = do
  result ← add_lock_region_iff_valid_enclave enclave_id
  check (is_ok result) result
  m ← machine
  check_after (not (is_positive (m.enclaves enclave_id).num_threads)) unlock_regions invalid_state
  lock_flagged (m.enclaves enclave_id).regions 0 num_regions (do
    untrusted_locked ← lock_untrusted_state
    check_after untrusted_locked unlock_regions invalid_state
    core_locked ← lock_core core
    check_after core_locked unlock_untrusted_regions invalid_state
    modify (delete_enclave_commit enclave_id)
    leave (unlock_core_untrusted_regions core))

unfoldable pub enclave_delete : ℕ → ℕ → Machine → Result ApiResult
unfolding enclave_delete_body
enclave_delete core enclave_id = run (enclave_delete_body core enclave_id) monitor_ok

unfoldable pub attest_commit : ℕ → ℕ → ℕ → ℕ → Machine → Machine
attest_commit enclave_id addr_m addr_pk addr_s m =
    let d = m.enclaves enclave_id in
    put_user addr_s d.attestation (put_user addr_pk d.public_key (put_user addr_m d.measurement m))

enclave_get_attest_body : ℕ → ℕ → ℕ → ℕ → M ApiResult (Unit {0})
enclave_get_attest_body enclave_id addr_m addr_pk addr_s = do
  result ← add_lock_region_iff_valid_enclave enclave_id
  check (is_ok result) result
  m ← machine
  check_after (is_initialized (m.enclaves enclave_id).init_state) unlock_regions invalid_state
  modify (attest_commit enclave_id addr_m addr_pk addr_s)
  leave unlock_regions

unfoldable pub enclave_get_attest : ℕ → ℕ → ℕ → ℕ → Machine → Result ApiResult
unfolding enclave_get_attest_body
enclave_get_attest enclave_id addr_m addr_pk addr_s =
    run (enclave_get_attest_body enclave_id addr_m addr_pk addr_s) monitor_ok

unfoldable pub keys_commit : ℕ → ℕ → ℕ → ℕ → ℕ → Machine → Machine
keys_commit caller addr_m addr_pk addr_sk addr_s m =
    let d = m.enclaves caller in
    put_user addr_s d.attestation (
      put_user addr_sk d.secret_key
        (put_user addr_pk d.public_key (put_user addr_m d.measurement m)))

enclave_get_keys_body : ℕ → ℕ → ℕ → ℕ → ℕ → M ApiResult (Unit {0})
enclave_get_keys_body caller addr_m addr_pk addr_sk addr_s = do
  result ← add_lock_region_iff_valid_enclave caller
  check (is_ok result) result
  modify (keys_commit caller addr_m addr_pk addr_sk addr_s)
  leave unlock_regions

unfoldable pub enclave_get_keys : ℕ → ℕ → ℕ → ℕ → ℕ → Machine → Result ApiResult
unfolding enclave_get_keys_body
enclave_get_keys core addr_m addr_pk addr_sk addr_s m =
    run (enclave_get_keys_body (m.sm.cores core).owner addr_m addr_pk addr_sk addr_s) monitor_ok m

-- `public_field_t`, by number; another number is refused.
unfoldable pub public_field : SmKeys → ℕ → Option Bytes
public_field keys field =
    if field == 0
    then some keys.manufacturer_public_key
    else if field == 1
    then some keys.device_public_key
    else if field == 2
    then some keys.software_public_key
    else if field == 3
    then some keys.software_measurement
    else if field == 4
    then some keys.device_signature
    else if field == 5
    then some keys.software_signature
    else none

unfoldable pub get_public_field : ℕ → ℕ → Machine → Result ApiResult
unfolding public_field
get_public_field field out_buffer m = elim (public_field m.sm.keys field) [
  | none ↦ returned invalid_value m
  | some bytes ↦ returned monitor_ok (put_user out_buffer bytes m)
]
