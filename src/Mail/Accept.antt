-- ===== src/Mail/Accept.antt =====
-- `mail_accept` against its specification.
use security_monitor.Prelude.{
  ℕ, ◌<◌, ◌≡◌, refl, ap, ◌∙◌, fun_ext, ◌≢◌, inl, inr, true, false, not, arith, ltb, ◌==◌,
  if◌then◌else◌, Bool-cases,
}
use security_monitor.Types.{
  num_regions, num_untrusted_mailboxes, owner_untrusted, ApiResult, Machine, monitor_ok,
  invalid_value, concurrent_call,
}
use security_monitor.Address.{addr_to_region_id}
use security_monitor.Call.{Result, returned}
use security_monitor.Locks.{region_lock, untrusted_lock, put_region_lock, unlock_untrusted_state}
use security_monitor.Mail.{accept_commit, mail_accept}
use security_monitor.Locks.Held.{no_regions, hold, held, add, Machine-eq, unlock_untrusted-hold}
use security_monitor.Locks.Steps.{
  check_after-step, lock_untrusted_state-step, commit-step, owning, read-step, end-step,
  lock_region-step,
}
use security_monitor.Locks.Commit.{Apart, commit-region}

-- What `mail_accept` does to a machine, as one step: an id out of an enclave's range leaves the lock of
-- the enclave's region held.
unfoldable pub accept_spec : ℕ → ℕ → ℕ → Machine → Result ApiResult
accept_spec core id sender m =
    let caller = (m.sm.cores core).owner in
    let done = returned monitor_ok (accept_commit caller id sender m) in
    let r = addr_to_region_id caller in
    if caller == owner_untrusted
    then (if ltb id num_untrusted_mailboxes
        then (if not (untrusted_lock m) then done else returned concurrent_call m)
        else returned invalid_value m)
    else (if not (region_lock m r)
        then (if ltb id (m.enclaves caller).num_mailboxes
            then done
            else returned invalid_value (put_region_lock r true m))
        else returned concurrent_call m)

accept_commit-Apart : (who id sender : ℕ) → Apart (accept_commit who id sender)
unfolding accept_commit hold
accept_commit-Apart who id sender = record {
  under = λ l u c m. ground arith;
  regions = λ m j. ground arith;
  cores = λ m j. ground arith;
  untrusted = λ m. ground arith;
}

owning_lem :
    (i : ℕ) (m : Machine) → hold (add no_regions i) false no_regions m ≡ put_region_lock i true m
unfolding hold
owning_lem i m = Machine-eq (put_region_lock i true m) (fun_ext λ j. ground arith) refl refl

unlock_untrusted-commit :
    {g : Machine → Machine} (a : Apart g) (m : Machine)
    → untrusted_lock m ≡ false
    → unlock_untrusted_state (g (hold no_regions true no_regions m)) ≡ g m
unfolding hold
unlock_untrusted-commit {g} a m e =
    ap unlock_untrusted_state (a.under no_regions true no_regions m)
    ∙ unlock_untrusted-hold no_regions (g m) (a.untrusted m ∙ e)

-- `mail_accept` is its specification, for a caller that is the untrusted system or lies in the RAM.
pub mail_accept-eq-spec :
    (core id sender : ℕ) (m : Machine)
    → ((m.sm.cores core).owner ≢ owner_untrusted
        → addr_to_region_id (m.sm.cores core).owner < num_regions)
    → mail_accept core id sender m ≡ accept_spec core id sender m
unfolding mail_accept accept_spec hold held owning
mail_accept-eq-spec core id sender m h =
    let caller : ℕ = (m.sm.cores core).owner in
    let r : ℕ = addr_to_region_id caller in
    elim (Bool-cases (caller == owner_untrusted)) [
      | inl a ↦
          let p : caller ≡ owner_untrusted = ground arith in
          rw p (
            check_after-step _ _ _ _ _ (held no_regions false no_regions m)
              (λ _.
                lock_untrusted_state-step no_regions false no_regions m _ _ _ _ refl
                  (λ e.
                    commit-step no_regions true no_regions m _ _ _
                      (unlock_untrusted-commit (accept_commit-Apart owner_untrusted id sender) m e))
                  refl)
              refl)
      | inr a ↦ rw a (
          lock_region-step _ _ r m _ _ (h (ground arith))
            (λ e. read-step _ _ (owning r m) (
              check_after-step _ _ _ _ _ _
                (λ _.
                  end-step _ _ _ (owning r m)
                    (commit-region (accept_commit-Apart caller id sender) r m e))
                (ap (returned invalid_value) (owning_lem r m))))
            refl)
    ]
