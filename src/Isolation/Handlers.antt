-- ===== src/Isolation/Handlers.antt =====
-- Both handlers, whatever the caller's registers hold.
use security_monitor.Prelude.{
  ℕ, ◌<◌, ◌≡◌, ap, subst, Bool, true, false, not, none, some, arith, ◌==◌, if◌then◌else◌,
}
use security_monitor.Types.{
  num_cores, ApiResult, CoreState, Machine, monitor_ok, invalid_value, invalid_state,
  concurrent_call, async_exit, access_denied, unsupported,
}
use security_monitor.Call.{Result, after, returned, undefined}
use security_monitor.Crypto.{Crypto}
use security_monitor.Region.{region_block, region_update}
use security_monitor.Enclave.{enclave_delete}
use security_monitor.Enclave.Load.{Image}
use security_monitor.Enclave.Switch.{enclave_enter, enclave_exit}
use security_monitor.Dispatch.{
  Reply, reply_value, reply, reply_unless_switched, is_kernel_call, ecall_from_s_trap,
  ecall_from_enclave_trap, reached, exited, resumed, switched, to_kernel, stuck,
}
use security_monitor.Region.Ownership.{
  RegionCall, call, FromCore, block, assign, free_region, create_metadata,
}
use security_monitor.Isolation.{View}
use security_monitor.Isolation.Creation.{
  enclave_create_kept, enclave_init_kept, thread_load_kept, thread_delete_kept,
  enclave_get_attest_kept, enclave_get_keys_kept, get_public_field_kept,
}
use security_monitor.Isolation.Loading.{
  enclave_load_page_table_kept, enclave_load_page_kept, enclave_load_handler_kept,
}
use security_monitor.Isolation.Messages.{mail_accept_kept, mail_receive_kept, mail_send_kept}
use security_monitor.Isolation.Sharing.{
  region_check_owned_kept, region_owner_kept, region_state_kept, region_flush_kept,
  region_cache_partitioning_kept,
}

-- What the calls that are not quiet have to keep, on the machine that they find.
module _ (view : View) (image : Image) (core mtime : ℕ) (regs : CoreState) (m : Machine) where
  pub record UntrustedCalls : Type 0 where
    pub on_region : (r : RegionCall) → FromCore r → view.holds (after m (call r m))
    pub updates : view.holds (after m (region_update core m))
    pub deletes : (e : ℕ) → view.holds (after m (enclave_delete core e m))
    pub enters : (e t : ℕ) → view.holds (after m (enclave_enter image core e t regs mtime m))

pub record EnclaveCalls (view : View) (core : ℕ) (m : Machine) : Type 0 where
  pub blocks : (i : ℕ) → view.holds (after m (region_block core i m))
  pub exits : view.holds (after m (enclave_exit core m))

-- The machine to go on from, which is the one from before where there is none after.
abbrev pub machine_after : Machine → Reply → Machine
machine_after m (resumed regs n) = n
machine_after m (switched n) = n
machine_after m to_kernel = m
machine_after m stuck = m

some_inj : {m n : Machine} → some m ≡ some n → m ≡ n
some_inj {m} e = ap (λ o. elim o [ none ↦ m | some x ↦ x ]) e

pub reached-holds :
    (P : Machine → Type 0) (m n : Machine) (r : Reply)
    → P (machine_after m r)
    → reached m r ≡ some n
    → P n
reached-holds P m n (resumed regs x) v e = subst P (some_inj e) v
reached-holds P m n (switched x) v e = subst P (some_inj e) v
reached-holds P m n to_kernel v e = subst P (some_inj e) v
reached-holds P m n stuck v e = absurd (ground arith)

pub exited-holds :
    (P : Machine → Type 0) (m n : Machine) (r : Result ApiResult)
    → P (after m r)
    → exited r ≡ some n
    → P n
exited-holds P m n (returned monitor_ok x) v e = subst P (some_inj e) v
exited-holds P m n (returned invalid_value x) v e = absurd (ground arith)
exited-holds P m n (returned invalid_state x) v e = absurd (ground arith)
exited-holds P m n (returned concurrent_call x) v e = absurd (ground arith)
exited-holds P m n (returned async_exit x) v e = absurd (ground arith)
exited-holds P m n (returned access_denied x) v e = absurd (ground arith)
exited-holds P m n (returned unsupported x) v e = absurd (ground arith)
exited-holds P m n undefined v e = absurd (ground arith)

-- What an answer of the handler leaves.
pub record Handled (view : View) (m : Machine) (r : Reply) : Type 0 where
  pub handled : view.holds (machine_after m r)

module _ {view : View} {m : Machine} where
  if-Handled :
      (b : Bool) {p q : Reply}
      → Handled view m p
      → Handled view m q
      → Handled view m (if b then p else q)
  if-Handled true h k = h
  if-Handled false h k = k

  reply-Handled :
      (regs : CoreState) (r : Result ApiResult)
      → view.holds m
      → view.holds (after m r)
      → Handled view m (reply regs r)
  reply-Handled regs (returned s n) v w = record { handled = w }
  reply-Handled regs undefined v w = record { handled = v }

  reply_value-Handled :
      (regs : CoreState) (r : Result ℕ)
      → view.holds m
      → view.holds (after m r)
      → Handled view m (reply_value regs r)
  reply_value-Handled regs (returned s n) v w = record { handled = w }
  reply_value-Handled regs undefined v w = record { handled = v }

  switched-Handled :
      (regs : CoreState) (r : Result ApiResult)
      → view.holds m
      → view.holds (after m r)
      → Handled view m (reply_unless_switched regs r)
  switched-Handled regs (returned monitor_ok n) v w = record { handled = w }
  switched-Handled regs (returned invalid_value n) v w = record { handled = w }
  switched-Handled regs (returned invalid_state n) v w = record { handled = w }
  switched-Handled regs (returned concurrent_call n) v w = record { handled = w }
  switched-Handled regs (returned async_exit n) v w = record { handled = w }
  switched-Handled regs (returned access_denied n) v w = record { handled = w }
  switched-Handled regs (returned unsupported n) v w = record { handled = w }
  switched-Handled regs undefined v w = record { handled = v }

module _ (view : View) (c : Crypto) (image : Image) (core mtime : ℕ) (regs : CoreState)
    (m : Machine) where
  pub ecall_from_enclave-Handled :
      (debug_enclave : Bool)
      → EnclaveCalls view core m
      → view.holds m
      → Handled view m (ecall_from_enclave_trap c image core mtime regs m debug_enclave)
  unfolding ecall_from_enclave_trap
  ecall_from_enclave-Handled debug_enclave k v =
      let code = regs 17 in
      let same : (x : CoreState) → Handled view m (resumed x m) = λ x. record { handled = v } in
      let kernel : Handled view m to_kernel = record { handled = v } in
      if-Handled (is_kernel_call code) (if-Handled debug_enclave kernel (same regs)) (
        if-Handled (code == 1003) (switched-Handled regs (enclave_exit core m) v k.exits) (
          if-Handled (code == 1010)
            (reply-Handled regs _ v (enclave_get_keys_kept view core _ _ _ _ m v))
            (if-Handled (code == 1011) (reply-Handled regs _ v (get_public_field_kept view _ _ m v))
              (if-Handled (code == 1020)
                (reply-Handled regs _ v (mail_accept_kept view core _ _ m v))
                (if-Handled (code == 1021)
                  (reply-Handled regs _ v (mail_receive_kept view core _ _ _ m v))
                  (if-Handled (code == 1022)
                    (reply-Handled regs _ v (mail_send_kept view core _ _ _ m v))
                    (if-Handled (code == 1031) (reply-Handled regs _ v (k.blocks _)) (
                      if-Handled (code == 1032)
                        (reply-Handled regs _ v (region_check_owned_kept view core _ m v))
                        (same _)))))))))

  pub ecall_from_s-Handled :
      core < num_cores
      → UntrustedCalls view image core mtime regs m
      → view.holds m
      → Handled view m (ecall_from_s_trap c image core mtime regs m)
  unfolding ecall_from_s_trap
  ecall_from_s-Handled h k v =
      let code = regs 17 in
      let a0 = regs 10 in
      let a1 = regs 11 in
      let a2 = regs 12 in
      let a3 = regs 13 in
      let a4 = regs 14 in
      let same : (x : CoreState) → Handled view m (resumed x m) = λ x. record { handled = v } in
      if-Handled (is_kernel_call code) (record { handled = v })
        (if-Handled (code == 1000)
          (reply-Handled regs _ v (enclave_create_kept view c a0 a1 a2 a3 (not (a4 == 0)) m v))
          (if-Handled (code == 1001) (reply-Handled regs _ v (k.deletes a0)) (
            if-Handled (code == 1002) (switched-Handled regs _ v (k.enters a0 a1)) (
              if-Handled (code == 1004) (reply-Handled regs _ v (enclave_init_kept view c a0 m v)) (
                if-Handled (code == 1005)
                  (reply-Handled regs _ v (enclave_load_handler_kept view c image a0 a1 m v))
                  (if-Handled (code == 1006)
                    (reply-Handled regs _ v
                      (enclave_load_page_table_kept view c a0 a1 a2 a3 a4 m v))
                    (if-Handled (code == 1007)
                      (reply-Handled regs _ v (enclave_load_page_kept view c a0 a1 a2 a3 a4 m v))
                      (if-Handled (code == 1008) (same _) (
                        if-Handled (code == 1009)
                          (reply-Handled regs _ v (enclave_get_attest_kept view a0 a1 a2 a3 m v))
                          (if-Handled (code == 1011)
                            (reply-Handled regs _ v (get_public_field_kept view _ a1 m v))
                            (if-Handled (code == 1020)
                              (reply-Handled regs _ v (mail_accept_kept view core a0 a1 m v))
                              (if-Handled (code == 1021)
                                (reply-Handled regs _ v (mail_receive_kept view core a0 a1 a2 m v))
                                (if-Handled (code == 1022)
                                  (reply-Handled regs _ v (mail_send_kept view core a0 a1 a2 m v))
                                  (if-Handled (code == 1030)
                                    (reply-Handled regs _ v (k.on_region (assign core a0 a1) h))
                                    (if-Handled (code == 1031)
                                      (reply-Handled regs _ v (k.on_region (block core a0) h))
                                      (if-Handled (code == 1033) (reply-Handled regs _ v k.updates)
                                        (if-Handled (code == 1034)
                                          (reply-Handled regs _ v (k.on_region (free_region a0) tt))
                                          (if-Handled (code == 1035)
                                            (reply-Handled regs _ v
                                              (k.on_region (create_metadata a0) tt))
                                            (if-Handled (code == 1036) (same _) (
                                              if-Handled (code == 1037) (same _) (
                                                if-Handled (code == 1038)
                                                  (reply_value-Handled regs _ v
                                                    (region_owner_kept view a0 m v))
                                                  (if-Handled (code == 1039)
                                                    (reply_value-Handled regs _ v
                                                      (region_state_kept view a0 m v))
                                                    (if-Handled (code == 1040)
                                                      (reply-Handled regs _ v (
                                                        region_cache_partitioning_kept view a0 m v))
                                                      (if-Handled (code == 1041)
                                                        (reply-Handled regs _ v
                                                          (region_flush_kept view a0 m v))
                                                        (if-Handled (code == 1050)
                                                          (reply-Handled regs _ v
                                                            (thread_delete_kept view a0 m v))
                                                          (if-Handled (code == 1051)
                                                            (reply-Handled regs _ v (
                                                            thread_load_kept view c a0 a1 a2 a3 a4 m
                                                            v))
                                                            (if-Handled (code == 1052) (same _)
                                                            (same _))))))))))))))))))))))))))))
