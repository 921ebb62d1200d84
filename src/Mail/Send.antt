-- ===== src/Mail/Send.antt =====
-- `mail_send` against its specification.
use security_monitor.Prelude.{
  ℕ, ◌<◌, ◌≡◌, refl, ◌≢◌, inl, inr, Bool, true, false, not, ◌&&◌, ◌||◌, arith, ltb, ◌==◌,
  if◌then◌else◌, Bool-cases,
}
use security_monitor.Types.{
  num_regions, num_untrusted_mailboxes, owner_untrusted, ApiResult, RegionMap, Machine, monitor_ok,
  invalid_value, invalid_state, concurrent_call, page_enclave,
}
use security_monitor.Address.{addr_to_region_id}
use security_monitor.Call.{Frame, M, Result, finish, returned}
use security_monitor.Locks.{region_lock, untrusted_lock}
use security_monitor.Metadata.{is_ok}
use security_monitor.Mail.{
  is_empty, is_initialized, mailbox, send_commit, send_checked, send_from, mail_send,
}
use security_monitor.Locks.Held.{no_regions, hold, held, Taken, add, none-Taken}
use security_monitor.Locks.Steps.{
  check_after-step, machine-step, add_lock_region-step, lock_untrusted_state-step, commit-step,
}
use security_monitor.Locks.Commit.{
  Apart, commit-regions, commit-untrusted, refuse-regions, refuse-untrusted,
}
use security_monitor.Metadata.Steps.{metadata_status, valid_metadata-step}
use security_monitor.Thread.Atomic.{left_locked}

send_commit-Apart : (caller r id msg : ℕ) → Apart (send_commit caller r id msg)
unfolding send_commit hold
send_commit-Apart caller r id msg = record {
  under = λ l u c m. ground arith;
  regions = λ m j. ground arith;
  cores = λ m j. ground arith;
  untrusted = λ m. ground arith;
}

-- The mailbox waits for this sender.
abbrev pub expects : ℕ → ℕ → ℕ → Machine → Bool
expects caller r id m =
    (mailbox r id m).expected_sender == caller && is_empty (mailbox r id m).state

abbrev pub deliver : ℕ → ℕ → ℕ → ℕ → Machine → Result ApiResult
deliver caller r id msg m =
    if expects caller r id m
    then returned monitor_ok (send_commit caller r id msg m)
    else returned invalid_state m

-- The caller's own lock, unless it is the recipient or its metadata lies in the same region.
abbrev pub needs_lock : ℕ → ℕ → Bool
needs_lock caller r = not (caller == r) && not (addr_to_region_id caller == addr_to_region_id r)

-- What `mail_send` does to a machine, as one step.
unfoldable pub send_spec : ℕ → ℕ → ℕ → ℕ → Machine → Result ApiResult
send_spec core r id msg m =
    let caller = (m.sm.cores core).owner in
    let done = deliver caller r id msg m in
    let untrusted = if not (untrusted_lock m) then done else returned concurrent_call m in
    if r == owner_untrusted
    then (if ltb id num_untrusted_mailboxes
        then (if not (untrusted_lock m)
            then (if needs_lock caller r
                then (if not (region_lock m (addr_to_region_id caller))
                    then done
                    else returned concurrent_call m)
                else done)
            else returned concurrent_call m)
        else returned invalid_value m)
    else (let status = metadata_status m no_regions r page_enclave in
        let l = add no_regions (addr_to_region_id r) in
        if is_ok status
        then (if ltb id (m.enclaves r).num_mailboxes
            then (if is_initialized (m.enclaves r).init_state
                then (if needs_lock caller r
                    then (if caller == owner_untrusted
                        then untrusted
                        else if l (addr_to_region_id caller)
                            || not (region_lock m (addr_to_region_id caller))
                        then done
                        else returned concurrent_call m)
                    else done)
                else returned invalid_state m)
            else returned invalid_value m)
        else returned status (left_locked m r status))

send_checked-eq :
    (caller r id msg : ℕ) (u : Bool) (l : RegionMap) (m : Machine)
    → Taken l m
    → (u ≡ true → untrusted_lock m ≡ false)
    → finish monitor_ok (send_checked caller r id msg u (held l u no_regions m))
      ≡ deliver caller r id msg m
unfolding send_checked hold held
send_checked-eq caller r id msg true l m t e = machine-step l true no_regions m _ _ (
    check_after-step _ _ _ _ _ _
      (λ _.
        commit-step l true no_regions m _ _ _
          (commit-untrusted (send_commit-Apart caller r id msg) l m t (e refl)))
      (refuse-untrusted l m t _ (e refl)))
send_checked-eq caller r id msg false l m t e = machine-step l false no_regions m _ _ (
    check_after-step _ _ _ _ _ _
      (λ _.
        commit-step l false no_regions m _ _ _
          (commit-regions (send_commit-Apart caller r id msg) l m t))
      (refuse-regions l m t _))

send_from-untrusted :
    (caller id msg : ℕ) (m : Machine)
    → (caller ≢ owner_untrusted → addr_to_region_id caller < num_regions)
    → untrusted_lock m ≡ false
    → finish monitor_ok
        (send_from caller owner_untrusted id msg true (held no_regions true no_regions m))
      ≡ (if needs_lock caller owner_untrusted
          then (if not (region_lock m (addr_to_region_id caller))
              then deliver caller owner_untrusted id msg m
              else returned concurrent_call m)
          else deliver caller owner_untrusted id msg m)
unfolding send_from hold held
send_from-untrusted caller id msg m h e = elim (Bool-cases (needs_lock caller owner_untrusted)) [
  | inr a ↦
      rw a (send_checked-eq caller owner_untrusted id msg true no_regions m (none-Taken m) (λ _. e))
  | inl a ↦
      let p : (caller == owner_untrusted) ≡ false = ground arith in
      rw (a, p)
        (add_lock_region-step no_regions true no_regions m _ _ _ _ _ (none-Taken m)
          (h (ground arith))
          (λ t. send_checked-eq caller owner_untrusted id msg true _ m t (λ _. e))
          (refuse-untrusted no_regions m (none-Taken m) _ e))
]

send_from-enclave :
    (caller r id msg : ℕ) (l : RegionMap) (m : Machine)
    → (caller ≢ owner_untrusted → addr_to_region_id caller < num_regions)
    → Taken l m
    → finish monitor_ok (send_from caller r id msg false (held l false no_regions m)) ≡ (
        if needs_lock caller r
        then (if caller == owner_untrusted
            then (if not (untrusted_lock m)
                then deliver caller r id msg m
                else returned concurrent_call m)
            else if l (addr_to_region_id caller) || not (region_lock m (addr_to_region_id caller))
            then deliver caller r id msg m
            else returned concurrent_call m)
        else deliver caller r id msg m)
unfolding send_from hold held
send_from-enclave caller r id msg l m h t = elim (Bool-cases (needs_lock caller r)) [
  | inr a ↦ rw a (send_checked-eq caller r id msg false l m t (λ x. absurd (no x)))
  | inl a ↦ elim (Bool-cases (caller == owner_untrusted)) [
    | inl b ↦
        rw (a, b)
          (lock_untrusted_state-step l false no_regions m _ _ _ _ refl
            (λ e. send_checked-eq caller r id msg true l m t (λ _. e)) (refuse-regions l m t _))
    | inr b ↦
        rw (a, b)
          (add_lock_region-step l false no_regions m _ _ _ _ _ t (h (ground arith))
            (λ k. send_checked-eq caller r id msg false _ m k (λ x. absurd (no x)))
            (refuse-regions l m t _))
  ]
]
  where
    no : false ≡ true → ⊥
    no x = cc

either-body :
    {R : Type 0} (r0 : R) (b : Bool) (x y : M R (Unit {0})) (f : Frame) {s t : Result R}
    → (b ≡ true → finish r0 (x f) ≡ s)
    → finish r0 (y f) ≡ t
    → finish r0 ((if b then x else y) f) ≡ (if b then s else t)
either-body r0 true x y f p q = p refl
either-body r0 false x y f p q = q

-- `mail_send` is its specification, for a caller that is the untrusted system or lies in the RAM.
pub mail_send-eq-spec :
    (core r id msg : ℕ) (m : Machine)
    → ((m.sm.cores core).owner ≢ owner_untrusted
        → addr_to_region_id (m.sm.cores core).owner < num_regions)
    → mail_send core r id msg m ≡ send_spec core r id msg m
unfolding mail_send send_spec send_from send_checked hold held
mail_send-eq-spec core r id msg m h =
    let caller : ℕ = (m.sm.cores core).owner in
    let l : RegionMap = add no_regions (addr_to_region_id r) in
    either-body _ (r == owner_untrusted) _ _ (held no_regions false no_regions m)
      (λ a.
        let p : r ≡ owner_untrusted = ground arith in
        rw p (
          check_after-step _ _ _ _ _ (held no_regions false no_regions m)
            (λ _.
              lock_untrusted_state-step no_regions false no_regions m _ _ _ _ refl
                (λ e. send_from-untrusted caller id msg m h e) refl)
            refl))
      (valid_metadata-step no_regions false no_regions m _ r _ _ _ page_enclave (none-Taken m)
        (λ t. machine-step l false no_regions m _ _ (
          check_after-step _ _ _ _ _ _
            (λ _.
              check_after-step _ _ _ _ _ _ (λ _. send_from-enclave caller r id msg l m h t)
                (refuse-regions l m t _))
            (refuse-regions l m t _)))
        refl)
