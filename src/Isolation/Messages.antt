-- ===== src/Isolation/Messages.antt =====
-- The calls on mailboxes.
use security_monitor.Prelude.{ℕ, Bool, true, false, arith, ◌==◌}
use security_monitor.Types.{owner_untrusted, Mailbox, Machine, monitor_ok}
use security_monitor.Call.{after}
use security_monitor.Region.{unlock_untrusted_regions, unlock_one}
use security_monitor.Mail.{
  set_mailbox, accept_commit, mail_accept, receive_commit, mail_receive, send_commit,
  unlock_if_untrusted, send_checked, send_from, mail_send,
}
use security_monitor.Region.Untouched.{Same}
use security_monitor.Isolation.{
  SameCores, View, untouched, Keeping, Sound, SoundWith, bind-Keeping, if-Keeping, machine-Keeping,
  run-Keeping, Same-Sound,
}
use security_monitor.Isolation.Locking.{
  unlock_region-Sound, unlock_regions-Sound, unlock_untrusted-Sound, nothing-Sound, compose-Sound,
  lock_region-Keeping, lock_untrusted_state-Keeping, add_lock_region-Keeping,
  valid_metadata-Keeping, check_then, commit_then,
}

module _ (view : View) where
  set_mailbox_kept :
      (who id : ℕ) (box : Mailbox) (m : Machine) (x : ℕ)
      → Same m (set_mailbox who id box m) x view.region
  set_mailbox_kept who id box m x = ground arith

  set_mailbox_cores :
      (who id : ℕ) (box : Mailbox) (m : Machine) → SameCores m (set_mailbox who id box m)
  set_mailbox_cores who id box m = untouched (ground arith) (ground arith) (ground arith)

  accept_commit-Sound : (caller id sender : ℕ) → Sound view (accept_commit caller id sender)
  unfolding accept_commit
  accept_commit-Sound caller id sender =
      Same-Sound (λ m. set_mailbox_kept caller id _ m) (λ m. set_mailbox_cores caller id _ m)

  receive_commit-Sound :
      (caller id out out_sender : ℕ) → Sound view (receive_commit caller id out out_sender)
  unfolding receive_commit
  receive_commit-Sound caller id out out_sender =
      Same-Sound (λ m x. ground arith) (λ m. untouched (ground arith) (ground arith) (ground arith))

  send_commit-Sound : (caller r id msg : ℕ) → Sound view (send_commit caller r id msg)
  unfolding send_commit
  send_commit-Sound caller r id msg =
      Same-Sound (λ m. set_mailbox_kept r id _ m) (λ m. set_mailbox_cores r id _ m)

  both-Sound : SoundWith view unlock_untrusted_regions
  both-Sound = compose-Sound unlock_untrusted-Sound unlock_regions-Sound

  unlock_one-Sound : (i : ℕ) → SoundWith view (unlock_one i)
  unlock_one-Sound i = unlock_region-Sound i

  pub mail_accept_kept :
      (core id sender : ℕ) (m : Machine)
      → view.holds m
      → view.holds (after m (mail_accept core id sender m))
  unfolding mail_accept
  mail_accept_kept core id sender m = run-Keeping {view = view} monitor_ok m (
      if-Keeping ((m.sm.cores core).owner == owner_untrusted)
        (check_then _ _ nothing-Sound (
          bind-Keeping lock_untrusted_state-Keeping (λ got.
            check_then _ _ nothing-Sound
              (commit_then (accept_commit-Sound _ id sender) unlock_untrusted-Sound))))
        (bind-Keeping (lock_region-Keeping _) (λ got. check_then _ _ nothing-Sound (
          bind-Keeping machine-Keeping (λ n.
            check_then _ _ nothing-Sound
              (commit_then (accept_commit-Sound _ id sender) (unlock_one-Sound _)))))))

  pub mail_receive_kept :
      (core id out out_sender : ℕ) (m : Machine)
      → view.holds m
      → view.holds (after m (mail_receive core id out out_sender m))
  unfolding mail_receive
  mail_receive_kept core id out out_sender m = run-Keeping {view = view} monitor_ok m (
      if-Keeping ((m.sm.cores core).owner == owner_untrusted)
        (check_then _ _ nothing-Sound (
          bind-Keeping lock_untrusted_state-Keeping (λ got. check_then _ _ nothing-Sound (
            bind-Keeping machine-Keeping (λ n.
              check_then _ _ both-Sound
                (commit_then (receive_commit-Sound _ id out out_sender) both-Sound))))))
        (bind-Keeping (add_lock_region-Keeping _) (λ got. check_then _ _ nothing-Sound (
          bind-Keeping machine-Keeping (λ n. check_then _ _ unlock_regions-Sound (
            check_then _ _ unlock_regions-Sound
              (commit_then (receive_commit-Sound _ id out out_sender) unlock_regions-Sound)))))))

  unlock_if_untrusted-Sound : (b : Bool) → SoundWith view (unlock_if_untrusted b)
  unlock_if_untrusted-Sound true = both-Sound
  unlock_if_untrusted-Sound false = unlock_regions-Sound

  send_checked-Keeping :
      (caller r id msg : ℕ) (b : Bool) → Keeping view (send_checked caller r id msg b)
  unfolding send_checked
  send_checked-Keeping caller r id msg b = bind-Keeping machine-Keeping (λ n.
      check_then _ _ (unlock_if_untrusted-Sound b)
        (commit_then (send_commit-Sound caller r id msg) (unlock_if_untrusted-Sound b)))

  send_from-Keeping : (caller r id msg : ℕ) (b : Bool) → Keeping view (send_from caller r id msg b)
  unfolding send_from
  send_from-Keeping caller r id msg b =
      if-Keeping _
        (if-Keeping (caller == owner_untrusted)
          (bind-Keeping lock_untrusted_state-Keeping (λ got.
            check_then _ _ unlock_regions-Sound (send_checked-Keeping caller r id msg true)))
          (bind-Keeping (add_lock_region-Keeping _) (λ got.
            check_then _ _ (unlock_if_untrusted-Sound b) (send_checked-Keeping caller r id msg b))))
        (send_checked-Keeping caller r id msg b)

  pub mail_send_kept :
      (core r id msg : ℕ) (m : Machine)
      → view.holds m
      → view.holds (after m (mail_send core r id msg m))
  unfolding mail_send
  mail_send_kept core r id msg m = run-Keeping {view = view} monitor_ok m (
      if-Keeping (r == owner_untrusted)
        (check_then _ _ nothing-Sound (
          bind-Keeping lock_untrusted_state-Keeping (λ got.
            check_then _ _ nothing-Sound (send_from-Keeping _ owner_untrusted id msg true))))
        (bind-Keeping (valid_metadata-Keeping _ _) (λ s. check_then _ _ nothing-Sound (
          bind-Keeping machine-Keeping (λ n.
            check_then _ _ unlock_regions-Sound
              (check_then _ _ unlock_regions-Sound (send_from-Keeping _ r id msg false)))))))
