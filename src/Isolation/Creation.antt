-- ===== src/Isolation/Creation.antt =====
-- The calls that make enclaves and threads, and those that read the keys.
use security_monitor.Prelude.{ℕ, refl, inl, Bool, Option, none, some, arith}
use security_monitor.Types.{Bytes, Machine, monitor_ok, invalid_value}
use security_monitor.Call.{after, returned}
use security_monitor.Memory.{put_user}
use security_monitor.Crypto.{Crypto}
use security_monitor.Thread.{load_commit, thread_load, delete_commit, thread_delete}
use security_monitor.Enclave.{
  create_commit, enclave_create, initialize, init_commit, enclave_init, attest_commit,
  enclave_get_attest, keys_commit, enclave_get_keys, public_field, get_public_field,
}
use security_monitor.Isolation.{
  Quiet, View, same_cores, untouched, elsewhere, Sound, bind-Keeping, machine-Keeping, run-Keeping,
  Same-Sound, Quiet-Sound,
}
use security_monitor.Isolation.Locking.{
  unlock_regions-Sound, nothing-Sound, add_lock_region-Keeping, valid_metadata-Keeping,
  free_pages-Keeping, check_then, commit_then,
}

module _ (view : View) where
  module _ (c : Crypto) where
    create_commit-Sound :
        (e base mask n : ℕ) (debug : Bool) → Sound view (create_commit c e base mask n debug)
    unfolding create_commit
    create_commit-Sound e base mask n debug =
        Same-Sound (λ m x. ground arith) (λ m. untouched refl refl refl)

    pub enclave_create_kept :
        (e base mask n : ℕ) (debug : Bool) (m : Machine)
        → view.holds m
        → view.holds (after m (enclave_create c e base mask n debug m))
    unfolding enclave_create
    enclave_create_kept e base mask n debug m = run-Keeping {view = view} monitor_ok m (
        bind-Keeping (free_pages-Keeping _ _) (λ r.
          check_then _ _ nothing-Sound
            (commit_then (create_commit-Sound e base mask n debug) unlock_regions-Sound)))

    init_commit-Sound : (e : ℕ) → Sound view (init_commit c e)
    unfolding init_commit initialize
    init_commit-Sound e = Same-Sound (λ m x. ground arith) (λ m. untouched refl refl refl)

    pub enclave_init_kept :
        (e : ℕ) (m : Machine) → view.holds m → view.holds (after m (enclave_init c e m))
    unfolding enclave_init
    enclave_init_kept e m = run-Keeping {view = view} monitor_ok m (
        bind-Keeping (valid_metadata-Keeping _ _) (λ r. check_then _ _ nothing-Sound (
          bind-Keeping machine-Keeping (λ n.
            check_then _ _ unlock_regions-Sound
              (commit_then (init_commit-Sound e) unlock_regions-Sound)))))

    load_commit-Sound : (e t pc sp limit : ℕ) → Sound view (load_commit c e t pc sp limit)
    unfolding load_commit
    load_commit-Sound e t pc sp limit =
        Same-Sound (λ m x. ground arith) (λ m. same_cores refl refl (λ i. inl (ground arith)))

    pub thread_load_kept :
        (e t pc sp limit : ℕ) (m : Machine)
        → view.holds m
        → view.holds (after m (thread_load c e t pc sp limit m))
    unfolding thread_load
    thread_load_kept e t pc sp limit m = run-Keeping {view = view} monitor_ok m (
        bind-Keeping (valid_metadata-Keeping _ _) (λ r. check_then _ _ nothing-Sound (
          bind-Keeping machine-Keeping (λ n. check_then _ _ unlock_regions-Sound (
            bind-Keeping (free_pages-Keeping _ _) (λ s.
              check_then _ _ unlock_regions-Sound
                (commit_then (load_commit-Sound e t pc sp limit) unlock_regions-Sound)))))))

  delete_commit-Sound : (t : ℕ) → Sound view (delete_commit t)
  unfolding delete_commit
  delete_commit-Sound t =
      Same-Sound (λ m x. ground arith) (λ m. same_cores refl refl (λ i. ground arith))

  pub thread_delete_kept :
      (t : ℕ) (m : Machine) → view.holds m → view.holds (after m (thread_delete t m))
  unfolding thread_delete
  thread_delete_kept t m = run-Keeping {view = view} monitor_ok m (
      bind-Keeping (valid_metadata-Keeping _ _) (λ r. check_then _ _ nothing-Sound (
        bind-Keeping machine-Keeping (λ n. bind-Keeping (add_lock_region-Keeping _) (λ got.
          check_then _ _ unlock_regions-Sound (
            check_then _ _ unlock_regions-Sound
              (commit_then (delete_commit-Sound t) unlock_regions-Sound)))))))

  -- What is written to the program's memory.
  user-Quiet : (user : ℕ → ℕ) (m : Machine) → Quiet view.region m (record m { user = user })
  user-Quiet user m = elsewhere refl refl refl (untouched refl refl refl)

  attest_commit-Sound : (e a b d : ℕ) → Sound view (attest_commit e a b d)
  unfolding attest_commit
  attest_commit-Sound e a b d = Quiet-Sound (λ m. user-Quiet _ m)

  pub enclave_get_attest_kept :
      (e a b d : ℕ) (m : Machine)
      → view.holds m
      → view.holds (after m (enclave_get_attest e a b d m))
  unfolding enclave_get_attest
  enclave_get_attest_kept e a b d m = run-Keeping {view = view} monitor_ok m (
      bind-Keeping (valid_metadata-Keeping _ _) (λ r. check_then _ _ nothing-Sound (
        bind-Keeping machine-Keeping (λ n.
          check_then _ _ unlock_regions-Sound
            (commit_then (attest_commit-Sound e a b d) unlock_regions-Sound)))))

  keys_commit-Sound : (e a b d f : ℕ) → Sound view (keys_commit e a b d f)
  unfolding keys_commit
  keys_commit-Sound e a b d f = Quiet-Sound (λ m. user-Quiet _ m)

  pub enclave_get_keys_kept :
      (core a b d f : ℕ) (m : Machine)
      → view.holds m
      → view.holds (after m (enclave_get_keys core a b d f m))
  unfolding enclave_get_keys
  enclave_get_keys_kept core a b d f m = run-Keeping {view = view} monitor_ok m (
      bind-Keeping (valid_metadata-Keeping _ _) (λ r.
        check_then _ _ nothing-Sound
          (commit_then (keys_commit-Sound _ a b d f) unlock_regions-Sound)))

  pub get_public_field_kept :
      (field out : ℕ) (m : Machine)
      → view.holds m
      → view.holds (after m (get_public_field field out m))
  unfolding get_public_field
  get_public_field_kept field out m v = written (public_field m.sm.keys field)
    where
      written :
          (r : Option Bytes)
          → view.holds (
              after m (elim r [
                | none ↦ returned invalid_value m
                | some b ↦ returned monitor_ok (put_user out b m)
              ]))
      written none = v
      written (some b) = view.quiet m _ (user-Quiet _ m) v
