-- ===== src/Region/Untouched.antt =====
-- The calls on enclaves, threads and mail leave the ownership of regions alone.
use security_monitor.Mail.Accept.{accept_spec}
use security_monitor.Prelude.{
  ℕ, ◌≡◌, refl, Bool, true, false, not, ◌||◌, arith, ltb, ◌==◌, if◌then◌else◌,
}
use security_monitor.Types.{
  num_untrusted_mailboxes, owner_untrusted, ApiResult, RegionMap, Machine, monitor_ok,
  invalid_value, invalid_state, concurrent_call, page_enclave, page_thread,
}
use security_monitor.Address.{addr_to_region_id}
use security_monitor.Call.{Result, after, returned}
use security_monitor.Locks.{region_lock, untrusted_lock}
use security_monitor.Metadata.{thread_metadata_pages, enclave_metadata_pages, is_ok}
use security_monitor.Mail.{is_initialized, accept_commit, receive_commit, send_commit}
use security_monitor.Crypto.{Crypto}
use security_monitor.Thread.{is_page_data_loaded, load_commit, delete_commit}
use security_monitor.Enclave.{create_commit, initialize, init_commit}
use security_monitor.Metadata.Steps.{metadata_status, free_pages_status}
use security_monitor.Locks.Held.{no_regions, hold, held, add}
use security_monitor.Thread.Atomic.{left_locked, load_spec, delete_spec}
use security_monitor.Enclave.Seal.{init_spec, create_spec}
use security_monitor.Mail.Delivery.{receive_spec}
use security_monitor.Mail.Send.{deliver, needs_lock, send_spec}
use security_monitor.Region.Ownership.{Consistent}

-- What a call may not change if it is to leave the ownership of regions alone: the table at `j`, and
-- the maps there, those of the enclave `x` among them.
pub record Same (m n : Machine) (x j : ℕ) : Type 0 where
  pub owner : (n.sm.regions j).owner ≡ (m.sm.regions j).owner
  pub type : (n.sm.regions j).type ≡ (m.sm.regions j).type
  pub state : (n.sm.regions j).state ≡ (m.sm.regions j).state
  pub untrusted : n.sm.untrusted_regions j ≡ m.sm.untrusted_regions j
  pub flags : (n.enclaves x).regions j ≡ (m.enclaves x).regions j

pub Same-Consistent : (m n : Machine) (x j : ℕ) → Same m n x j → Consistent m x j → Consistent n x j
Same-Consistent m n x j s v = ground (arith, s, v)

Same-refl : (m : Machine) (x j : ℕ) → Same m m x j
Same-refl m x j = record { owner = refl; type = refl; state = refl; untrusted = refl; flags = refl }

left_locked-Same :
    (m : Machine) (ptr : ℕ) (s : ApiResult) (x j : ℕ) → Same m (left_locked m ptr s) x j
unfolding hold held
left_locked-Same m ptr invalid_state x j = ground arith
left_locked-Same m ptr _ x j = ground arith

-- A call that ends with `r` from the machine `m`.
pub record Keeps (m : Machine) (r : Result ApiResult) (x j : ℕ) : Type 0 where
  pub same : Same m (after m r) x j

module _ {m : Machine} {x j : ℕ} where
  Keeps-if :
      (b : Bool) {p q : Result ApiResult}
      → Keeps m p x j
      → Keeps m q x j
      → Keeps m (if b then p else q) x j
  Keeps-if true h k = h
  Keeps-if false h k = k

  Keeps-refuse : (r : ApiResult) → Keeps m (returned r m) x j
  Keeps-refuse r = record { same = Same-refl m x j }

  Keeps-left_locked : (ptr : ℕ) (s : ApiResult) → Keeps m (returned s (left_locked m ptr s)) x j
  Keeps-left_locked ptr s = record { same = left_locked-Same m ptr s x j }

module _ (c : Crypto) where
  init_commit-Keeps :
      (e : ℕ) (m : Machine) (x j : ℕ) → Keeps m (returned monitor_ok (init_commit c e m)) x j
  unfolding init_commit initialize
  init_commit-Keeps e m x j = record { same = ground arith }

  pub init_spec-Keeps : (e : ℕ) (m : Machine) (x j : ℕ) → Keeps m (init_spec c e m) x j
  unfolding init_spec
  init_spec-Keeps e m x j =
      Keeps-if _ (Keeps-if _ (init_commit-Keeps e m x j) (Keeps-refuse invalid_state))
        (Keeps-left_locked e (metadata_status m no_regions e page_enclave))

  create_commit-Keeps :
      (e base mask n : ℕ) (debug : Bool) (m : Machine) (x j : ℕ)
      → Keeps m (returned monitor_ok (create_commit c e base mask n debug m)) x j
  unfolding create_commit
  create_commit-Keeps e base mask n debug m x j = record { same = ground arith }

  pub create_spec-Keeps :
      (e base mask n : ℕ) (debug : Bool) (m : Machine) (x j : ℕ)
      → Keeps m (create_spec c e base mask n debug m) x j
  unfolding create_spec
  create_spec-Keeps e base mask n debug m x j =
      Keeps-if _ (create_commit-Keeps e base mask n debug m x j)
        (Keeps-left_locked e (free_pages_status m no_regions e (enclave_metadata_pages n)))

  load_commit-Keeps :
      (e t pc sp limit : ℕ) (m : Machine) (x j : ℕ)
      → Keeps m (returned monitor_ok (load_commit c e t pc sp limit m)) x j
  unfolding load_commit
  load_commit-Keeps e t pc sp limit m x j = record { same = ground arith }

  pub load_spec-Keeps :
      (e t pc sp limit : ℕ) (m : Machine) (x j : ℕ) → Keeps m (load_spec c e t pc sp limit m) x j
  unfolding load_spec
  load_spec-Keeps e t pc sp limit m x j =
      let l : RegionMap = add no_regions (addr_to_region_id e) in
      Keeps-if (is_ok (metadata_status m no_regions e page_enclave))
        (Keeps-if (is_page_data_loaded (m.enclaves e).init_state)
          (Keeps-if (is_ok (free_pages_status m l t thread_metadata_pages))
            (load_commit-Keeps e t pc sp limit m x j)
            (Keeps-refuse (free_pages_status m l t thread_metadata_pages)))
          (Keeps-refuse invalid_state))
        (Keeps-left_locked e (metadata_status m no_regions e page_enclave))

delete_commit-Keeps :
    (t : ℕ) (m : Machine) (x j : ℕ) → Keeps m (returned monitor_ok (delete_commit t m)) x j
unfolding delete_commit
delete_commit-Keeps t m x j = record { same = ground arith }

pub delete_spec-Keeps : (t : ℕ) (m : Machine) (x j : ℕ) → Keeps m (delete_spec t m) x j
unfolding delete_spec
delete_spec-Keeps t m x j =
    let r : ℕ = addr_to_region_id (m.threads t).owner in
    Keeps-if (is_ok (metadata_status m no_regions t page_thread))
      (Keeps-if (add no_regions (addr_to_region_id t) r || not (region_lock m r))
        (Keeps-if (not (m.threads t).is_scheduled) (delete_commit-Keeps t m x j)
          (Keeps-refuse invalid_state))
        (Keeps-refuse concurrent_call))
      (Keeps-left_locked t (metadata_status m no_regions t page_thread))

pub receive_spec-Keeps :
    (core id out out_sender : ℕ) (m : Machine) (x j : ℕ)
    → Keeps m (receive_spec core id out out_sender m) x j
unfolding receive_spec receive_commit
receive_spec-Keeps core id out out_sender m x j = record { same = ground arith }

pub accept_spec-Keeps :
    (core id sender : ℕ) (m : Machine) (x j : ℕ) → Keeps m (accept_spec core id sender m) x j
unfolding accept_spec accept_commit
accept_spec-Keeps core id sender m x j = record { same = ground arith }

deliver-Keeps :
    (caller r id msg : ℕ) (m : Machine) (x j : ℕ) → Keeps m (deliver caller r id msg m) x j
unfolding send_commit
deliver-Keeps caller r id msg m x j = record { same = ground arith }

pub send_spec-Keeps :
    (core r id msg : ℕ) (m : Machine) (x j : ℕ) → Keeps m (send_spec core r id msg m) x j
unfolding send_spec
send_spec-Keeps core r id msg m x j =
    let d = deliver-Keeps (m.sm.cores core).owner r id msg m x j in
    let busy : Keeps m (returned concurrent_call m) x j = Keeps-refuse concurrent_call in
    let a : ℕ = addr_to_region_id (m.sm.cores core).owner in
    let locks : Bool = needs_lock (m.sm.cores core).owner r in
    let status : ApiResult = metadata_status m no_regions r page_enclave in
    Keeps-if (r == owner_untrusted)
      (Keeps-if (ltb id num_untrusted_mailboxes)
        (Keeps-if (not (untrusted_lock m))
          (Keeps-if locks (Keeps-if (not (region_lock m a)) d busy) d) busy)
        (Keeps-refuse invalid_value))
      (Keeps-if (is_ok status)
        (Keeps-if (ltb id (m.enclaves r).num_mailboxes)
          (Keeps-if (is_initialized (m.enclaves r).init_state)
            (Keeps-if locks
              (Keeps-if ((m.sm.cores core).owner == owner_untrusted)
                (Keeps-if (not (untrusted_lock m)) d busy)
                (Keeps-if (add no_regions (addr_to_region_id r) a || not (region_lock m a)) d busy))
              d)
            (Keeps-refuse invalid_state))
          (Keeps-refuse invalid_value))
        (Keeps-left_locked r status))
