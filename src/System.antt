-- ===== src/System.antt =====
-- The calls together: those on regions, enclaves, threads and mail, in any order on the two cores.
use security_monitor.Mail.Accept.{mail_accept-eq-spec}
use security_monitor.Prelude.{ℕ, ◌<◌, ◌≡◌, ◌≢◌, Bool, true, false, arith}
use security_monitor.Types.{num_regions, owner_untrusted, ApiResult, Machine, sm_region}
use security_monitor.Address.{addr_to_region_id}
use security_monitor.Call.{Result, after}
use security_monitor.Mail.{mail_accept, mail_receive, mail_send}
use security_monitor.Crypto.{Crypto}
use security_monitor.Thread.{thread_load, thread_delete}
use security_monitor.Enclave.{enclave_create, enclave_init}
use security_monitor.Thread.Atomic.{thread_load-eq-spec, thread_delete-eq-spec}
use security_monitor.Enclave.Seal.{enclave_init-eq-spec, enclave_create-eq-spec}
use security_monitor.Mail.Delivery.{mail_receive-eq-spec}
use security_monitor.Mail.Send.{mail_send-eq-spec}
use security_monitor.Region.Ownership.{Consistent, RegionCall, call, FromCore, call-Consistent}
use security_monitor.Region.Untouched.{
  Same-Consistent, Keeps, init_spec-Keeps, create_spec-Keeps, load_spec-Keeps, delete_spec-Keeps,
  receive_spec-Keeps, accept_spec-Keeps, send_spec-Keeps,
}

-- The calls on regions, enclaves, threads and mail that are atomic.
pub data Call : Type 0 where
  region : RegionCall → Call
  create : ℕ → ℕ → ℕ → ℕ → Bool → Call
  init : ℕ → Call
  load_thread : ℕ → ℕ → ℕ → ℕ → ℕ → Call
  delete_thread : ℕ → Call
  accept : ℕ → ℕ → ℕ → Call
  send : ℕ → ℕ → ℕ → ℕ → Call
  receive : ℕ → ℕ → ℕ → ℕ → Call

-- The core exists; a caller's or an owner's number that is looked up is in the RAM.
abbrev pub Allowed : Call → Machine → Type 0
Allowed (region r) m = FromCore r
Allowed (delete_thread t) m = addr_to_region_id (m.threads t).owner < num_regions
Allowed (accept core id sender) m =
    (m.sm.cores core).owner ≢ owner_untrusted
    → addr_to_region_id (m.sm.cores core).owner < num_regions
Allowed (send core r id msg) m =
    (m.sm.cores core).owner ≢ owner_untrusted
    → addr_to_region_id (m.sm.cores core).owner < num_regions
Allowed (receive core id out out_sender) m =
    (m.sm.cores core).owner ≢ owner_untrusted
    → addr_to_region_id (m.sm.cores core).owner < num_regions
Allowed _ m = Unit {0}

module _ (c : Crypto) where
  abbrev pub perform : Call → Machine → Result ApiResult
  perform (region r) = call r
  perform (create e base mask n debug) = enclave_create c e base mask n debug
  perform (init e) = enclave_init c e
  perform (load_thread e t pc sp limit) = thread_load c e t pc sp limit
  perform (delete_thread t) = thread_delete t
  perform (accept core id sender) = mail_accept core id sender
  perform (send core r id msg) = mail_send core r id msg
  perform (receive core id out out_sender) = mail_receive core id out out_sender

  Keeps-Consistent :
      (m : Machine) (r : Result ApiResult) (x j : ℕ)
      → Keeps m r x j
      → Consistent m x j
      → Consistent (after m r) x j
  Keeps-Consistent m r x j k v = Same-Consistent m (after m r) x j k.same v

  -- Every call that is allowed, whichever way it ends, keeps the table of regions and the maps in
  -- agreement: its core exists, and the enclave whose address it looks up is in the RAM.
  pub perform-Consistent :
      (a : Call) (m : Machine) (x j : ℕ)
      → Allowed a m
      → Consistent m x j
      → Consistent (after m (perform a m)) x j
  perform-Consistent (region r) m x j h v = call-Consistent r m x j h v
  perform-Consistent (create e base mask n debug) m x j h v =
      rw (enclave_create-eq-spec c e base mask n debug m)
        (Keeps-Consistent m _ x j (create_spec-Keeps c e base mask n debug m x j) v)
  perform-Consistent (init e) m x j h v =
      rw (enclave_init-eq-spec c e m) (Keeps-Consistent m _ x j (init_spec-Keeps c e m x j) v)
  perform-Consistent (load_thread e t pc sp limit) m x j h v =
      rw (thread_load-eq-spec c e t pc sp limit m)
        (Keeps-Consistent m _ x j (load_spec-Keeps c e t pc sp limit m x j) v)
  perform-Consistent (delete_thread t) m x j h v =
      rw (thread_delete-eq-spec t m h) (Keeps-Consistent m _ x j (delete_spec-Keeps t m x j) v)
  perform-Consistent (accept core id sender) m x j h v =
      rw (mail_accept-eq-spec core id sender m h)
        (Keeps-Consistent m _ x j (accept_spec-Keeps core id sender m x j) v)
  perform-Consistent (send core r id msg) m x j h v =
      rw (mail_send-eq-spec core r id msg m h)
        (Keeps-Consistent m _ x j (send_spec-Keeps core r id msg m x j) v)
  perform-Consistent (receive core id out out_sender) m x j h v =
      rw (mail_receive-eq-spec core id out out_sender m h)
        (Keeps-Consistent m _ x j (receive_spec-Keeps core id out out_sender m x j) v)

  -- Any sequence of calls.
  pub data Reaches (m : Machine) : Machine → Type 0 where
    here : Reaches m m
    later : {n : Machine} (a : Call) → Reaches m n → Allowed a n → Reaches m (after n (perform a n))

  Reaches-Consistent : {m n : Machine} (x j : ℕ) → Reaches m n → Consistent m x j → Consistent n x j
  Reaches-Consistent x j here v = v
  Reaches-Consistent x j (later {n} a r h) v =
      perform-Consistent a n x j h (Reaches-Consistent x j r v)

  -- After any allowed calls from a state in which the table of regions and the maps agree, a region in an
  -- enclave's map is in no other enclave's map, not in the untrusted system's, and is no region of the
  -- monitor.
  pub regions_exclusive :
      {m n : Machine} (e d i : ℕ)
      → ((x : ℕ) → Consistent m x i)
      → Reaches m n
      → (n.enclaves e).regions i ≡ true
      → ((n.enclaves d).regions i ≡ true → d ≡ e)
        × (n.sm.untrusted_regions i ≡ false)
        × ((n.sm.regions i).type ≢ sm_region)
  regions_exclusive {m} {n} e d i v r h =
      let a = Reaches-Consistent e i r (v e) in
      let b = Reaches-Consistent d i r (v d) in ground (arith, a, b)
