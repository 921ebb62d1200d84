-- ===== src/Mail/Delivery.antt =====
-- `mail_receive` against its specification.
use security_monitor.Prelude.{
  ℕ, ◌<◌, ◌≡◌, refl, ◌≢◌, inl, inr, true, false, not, arith, ltb, ◌==◌, if◌then◌else◌, Bool-cases,
}
use security_monitor.Types.{
  num_regions, num_untrusted_mailboxes, owner_untrusted, ApiResult, RegionMap, Mailbox, Machine,
  monitor_ok, invalid_value, invalid_state, concurrent_call,
}
use security_monitor.Address.{addr_to_region_id}
use security_monitor.Call.{Result, returned}
use security_monitor.Locks.{region_lock, untrusted_lock}
use security_monitor.Mail.{is_full, mailbox, set_mailbox, receive_commit, mail_receive}
use security_monitor.Locks.Held.{no_regions, hold, held, Taken, add, none-Taken}
use security_monitor.Locks.Steps.{
  check_after-step, machine-step, add_lock_region-step, lock_untrusted_state-step, commit-step,
}
use security_monitor.Locks.Commit.{
  Apart, commit-regions, commit-untrusted, refuse-regions, refuse-untrusted,
}

set_mailbox-Apart :
    (who id : ℕ) (f : Mailbox → Mailbox) → Apart (λ m. set_mailbox who id (f (mailbox who id m)) m)
unfolding hold
set_mailbox-Apart who id f = record {
  under = λ l u c m. ground arith;
  regions = λ m j. ground arith;
  cores = λ m j. ground arith;
  untrusted = λ m. ground arith;
}

receive_commit-Apart : (who id out out_sender : ℕ) → Apart (receive_commit who id out out_sender)
unfolding receive_commit hold
receive_commit-Apart who id out out_sender = record {
  under = λ l u c m. ground arith;
  regions = λ m j. ground arith;
  cores = λ m j. ground arith;
  untrusted = λ m. ground arith;
}

-- What `mail_receive` does to a machine, as one step.
unfoldable pub receive_spec : ℕ → ℕ → ℕ → ℕ → Machine → Result ApiResult
receive_spec core id out out_sender m =
    let caller = (m.sm.cores core).owner in
    let done = returned monitor_ok (receive_commit caller id out out_sender m) in
    let read = if is_full (mailbox caller id m).state then done else returned invalid_state m in
    if caller == owner_untrusted
    then (if ltb id num_untrusted_mailboxes
        then (if not (untrusted_lock m) then read else returned concurrent_call m)
        else returned invalid_value m)
    else (if not (region_lock m (addr_to_region_id caller))
        then (if ltb id (m.enclaves caller).num_mailboxes then read else returned invalid_value m)
        else returned concurrent_call m)

-- `mail_receive` is its specification, for a caller that is the untrusted system or lies in the RAM.
pub mail_receive-eq-spec :
    (core id out out_sender : ℕ) (m : Machine)
    → ((m.sm.cores core).owner ≢ owner_untrusted
        → addr_to_region_id (m.sm.cores core).owner < num_regions)
    → mail_receive core id out out_sender m ≡ receive_spec core id out out_sender m
unfolding mail_receive receive_spec hold held
mail_receive-eq-spec core id out out_sender m h =
    let caller : ℕ = (m.sm.cores core).owner in
    let l : RegionMap = add no_regions (addr_to_region_id caller) in
    elim (Bool-cases (caller == owner_untrusted)) [
      | inl a ↦
          let p : caller ≡ owner_untrusted = ground arith in
          let t : Taken no_regions m = none-Taken m in
          rw p (
            check_after-step _ _ _ _ _ (held no_regions false no_regions m)
              (λ _.
                lock_untrusted_state-step no_regions false no_regions m _ _ _ _ refl
                  (λ e. machine-step no_regions true no_regions m _ _ (
                    check_after-step _ _ _ _ _ _
                      (λ _. commit-step no_regions true no_regions m _ _ _ (
                        commit-untrusted (receive_commit-Apart owner_untrusted id out out_sender)
                          no_regions m t e))
                      (refuse-untrusted no_regions m t _ e)))
                  refl)
              refl)
      | inr a ↦ rw a (
          add_lock_region-step no_regions false no_regions m _ _ _ _ _ (none-Taken m)
            (h (ground arith))
            (λ t. machine-step l false no_regions m _ _ (
              check_after-step _ _ _ _ _ _
                (λ _.
                  check_after-step _ _ _ _ _ _
                    (λ _.
                      commit-step l false no_regions m _ _ _
                        (commit-regions (receive_commit-Apart caller id out out_sender) l m t))
                    (refuse-regions l m t _))
                (refuse-regions l m t _)))
            refl)
    ]
