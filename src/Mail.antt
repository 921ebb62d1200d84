-- ===== src/Mail.antt =====
-- src/api/mail_*.c: mailboxes of the untrusted system and of the enclaves. A mailbox is opened for one
-- sender, filled by it, and read by its owner.
pub mod Accept
pub mod Message
pub mod Send
pub mod Delivery
use security_monitor.Prelude.{
  ℕ, Bool, true, false, not, ◌&&◌, ltb, ◌==◌, if◌then◌else◌, update, replicate,
}
use security_monitor.Types.{
  Bytes, num_untrusted_mailboxes, mailbox_size, owner_untrusted, ApiResult, MailboxState,
  EnclaveInitState, RegionMap, Mailbox, Machine, monitor_ok, invalid_value, invalid_state,
  concurrent_call, empty, full, initialized,
}
use security_monitor.Address.{addr_to_region_id}
use security_monitor.Call.{machine, M, ◌>>=◌, ◌>>◌, modify, check_after, check, Result, run, leave}
use security_monitor.Locks.{
  lock_region, lock_untrusted_state, unlock_untrusted_state, unlock_regions, add_lock_region,
}
use security_monitor.Metadata.{is_ok, add_lock_region_iff_valid_enclave}
use security_monitor.Platform.{set_enclave}
use security_monitor.Region.{unlock_untrusted_regions, unlock_one}
use security_monitor.Memory.{read_user, put_user}

abbrev pub is_empty : MailboxState → Bool
is_empty empty = true
is_empty _ = false

abbrev pub is_full : MailboxState → Bool
is_full full = true
is_full _ = false

abbrev pub is_initialized : EnclaveInitState → Bool
is_initialized initialized = true
is_initialized _ = false

-- A mailbox of the untrusted system, or of the enclave `who`.
abbrev pub mailbox : ℕ → ℕ → Machine → Mailbox
mailbox who id m =
    if who == owner_untrusted then m.sm.untrusted_mailboxes id else (m.enclaves who).mailboxes id

abbrev pub set_mailbox : ℕ → ℕ → Mailbox → Machine → Machine
set_mailbox who id box m =
    if who == owner_untrusted
    then record m {
      sm = record m.sm { untrusted_mailboxes = update m.sm.untrusted_mailboxes id box };
    }
    else set_enclave who
        (record (m.enclaves who) { mailboxes = update (m.enclaves who).mailboxes id box }) m

unfoldable pub accept_commit : ℕ → ℕ → ℕ → Machine → Machine
accept_commit caller id expected_sender m =
    set_mailbox caller id
      (record (mailbox caller id m) { state = empty; expected_sender = expected_sender }) m

abbrev pub unlock_untrusted_only : Machine → RegionMap → Machine
unlock_untrusted_only m locked = unlock_untrusted_state m

-- An id out of an enclave's range returns with the enclave's region locked.
mail_accept_untrusted : ℕ → ℕ → M ApiResult (Unit {0})
mail_accept_untrusted id expected_sender = do
  check (ltb id num_untrusted_mailboxes) invalid_value
  got ← lock_untrusted_state
  check got concurrent_call
  modify (accept_commit owner_untrusted id expected_sender)
  leave unlock_untrusted_only

mail_accept_enclave : ℕ → ℕ → ℕ → M ApiResult (Unit {0})
mail_accept_enclave caller id expected_sender = do
  got ← lock_region (addr_to_region_id caller)
  check got concurrent_call
  m ← machine
  check (ltb id (m.enclaves caller).num_mailboxes) invalid_value
  modify (accept_commit caller id expected_sender)
  leave (unlock_one (addr_to_region_id caller))

unfoldable pub mail_accept : ℕ → ℕ → ℕ → Machine → Result ApiResult
unfolding mail_accept_untrusted mail_accept_enclave
mail_accept core id expected_sender m =
    let caller = (m.sm.cores core).owner in
    run
      (if caller == owner_untrusted
        then mail_accept_untrusted id expected_sender
        else mail_accept_enclave caller id expected_sender)
      monitor_ok m

unfoldable pub receive_commit : ℕ → ℕ → ℕ → ℕ → Machine → Machine
receive_commit caller id out_message out_sender_measurement m =
    let box = mailbox caller id m in
    let n =
      put_user out_message box.message (put_user out_sender_measurement box.sender_measurement m) in
    set_mailbox caller id (record (mailbox caller id n) { state = full }) n

mail_receive_untrusted : ℕ → ℕ → ℕ → M ApiResult (Unit {0})
mail_receive_untrusted id out_message out_sender_measurement = do
  check (ltb id num_untrusted_mailboxes) invalid_value
  got ← lock_untrusted_state
  check got concurrent_call
  m ← machine
  check_after (is_full (mailbox owner_untrusted id m).state) unlock_untrusted_regions invalid_state
  modify (receive_commit owner_untrusted id out_message out_sender_measurement)
  leave unlock_untrusted_regions

mail_receive_enclave : ℕ → ℕ → ℕ → ℕ → M ApiResult (Unit {0})
mail_receive_enclave caller id out_message out_sender_measurement = do
  got ← add_lock_region (addr_to_region_id caller)
  check got concurrent_call
  m ← machine
  check_after (ltb id (m.enclaves caller).num_mailboxes) unlock_regions invalid_value
  check_after (is_full (mailbox caller id m).state) unlock_regions invalid_state
  modify (receive_commit caller id out_message out_sender_measurement)
  leave unlock_regions

unfoldable pub mail_receive : ℕ → ℕ → ℕ → ℕ → Machine → Result ApiResult
unfolding mail_receive_untrusted mail_receive_enclave
mail_receive core id out_message out_sender_measurement m =
    let caller = (m.sm.cores core).owner in
    run
      (if caller == owner_untrusted
        then mail_receive_untrusted id out_message out_sender_measurement
        else mail_receive_enclave caller id out_message out_sender_measurement)
      monitor_ok m

-- The measurement that the monitor vouches for: none for the untrusted system.
abbrev pub sender_measurement : ℕ → Machine → Bytes
sender_measurement caller m =
    if caller == owner_untrusted then replicate 64 0 else (m.enclaves caller).measurement

unfoldable pub send_commit : ℕ → ℕ → ℕ → ℕ → Machine → Machine
unfolding read_user
send_commit caller recipient id in_message m =
    set_mailbox recipient id
      (record (mailbox recipient id m) {
        sender_measurement = sender_measurement caller m;
        message = read_user m.user in_message mailbox_size;
        state = full;
      })
      m

abbrev pub unlock_if_untrusted : Bool → Machine → RegionMap → Machine
unlock_if_untrusted untrusted_locked m locked =
    unlock_regions (if untrusted_locked then unlock_untrusted_state m else m) locked

-- The last part, with the sender and the mailbox locked.
unfoldable pub send_checked : ℕ → ℕ → ℕ → ℕ → Bool → M ApiResult (Unit {0})
send_checked caller recipient id in_message untrusted_locked = do
  m ← machine
  check_after
      ((mailbox recipient id m).expected_sender == caller
        && is_empty (mailbox recipient id m).state)
      (unlock_if_untrusted untrusted_locked) invalid_state
  modify (send_commit caller recipient id in_message)
  leave (unlock_if_untrusted untrusted_locked)

-- The middle part: the caller's lock, unless the recipient's serves.
unfoldable pub send_from : ℕ → ℕ → ℕ → ℕ → Bool → M ApiResult (Unit {0})
unfolding send_checked
send_from caller recipient id in_message untrusted_locked =
    if not (caller == recipient) && not (addr_to_region_id caller == addr_to_region_id recipient)
    then (if caller == owner_untrusted
        then (do
          got ← lock_untrusted_state
          check_after got unlock_regions concurrent_call
          send_checked caller recipient id in_message true)
        else (do
          got ← add_lock_region (addr_to_region_id caller)
          check_after got (unlock_if_untrusted untrusted_locked) concurrent_call
          send_checked caller recipient id in_message untrusted_locked))
    else send_checked caller recipient id in_message untrusted_locked

mail_send_untrusted : ℕ → ℕ → ℕ → M ApiResult (Unit {0})
unfolding send_from
mail_send_untrusted caller id in_message = do
  check (ltb id num_untrusted_mailboxes) invalid_value
  got ← lock_untrusted_state
  check got concurrent_call
  send_from caller owner_untrusted id in_message true

mail_send_enclave : ℕ → ℕ → ℕ → ℕ → M ApiResult (Unit {0})
unfolding send_from
mail_send_enclave caller recipient id in_message = do
  result ← add_lock_region_iff_valid_enclave recipient
  check (is_ok result) result
  m ← machine
  check_after (ltb id (m.enclaves recipient).num_mailboxes) unlock_regions invalid_value
  check_after (is_initialized (m.enclaves recipient).init_state) unlock_regions invalid_state
  send_from caller recipient id in_message false

unfoldable pub mail_send : ℕ → ℕ → ℕ → ℕ → Machine → Result ApiResult
unfolding mail_send_untrusted mail_send_enclave
mail_send core recipient id in_message m =
    let caller = (m.sm.cores core).owner in
    run
      (if recipient == owner_untrusted
        then mail_send_untrusted caller id in_message
        else mail_send_enclave caller recipient id in_message)
      monitor_ok m
