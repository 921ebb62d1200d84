-- ===== src/Isolation/Loading.antt =====
-- The calls that fill an enclave.
use security_monitor.Prelude.{ℕ, zero, suc, refl, not, arith, ltb, leb, ◌==◌, update}
use security_monitor.Types.{Machine, monitor_ok, invalid_state}
use security_monitor.Address.{addr_to_region_id, is_valid_region_id}
use security_monitor.Call.{pure, ◌>>◌, modify, after}
use security_monitor.Crypto.{Crypto}
use security_monitor.Enclave.Load.{
  Image, table_owned, walk, load_root, load_page_table_entry, page_table_commit,
  enclave_load_page_table, page_commit, enclave_load_page, handler_commit, enclave_load_handler,
}
use security_monitor.Isolation.{
  Quiet, View, untouched, elsewhere, Keeping, Sound, if-Ends, bind-Keeping, seq-Keeping,
  pure-Keeping, if-Keeping, machine-Keeping, modify-Keeping, run-Keeping, Same-Sound, Quiet-Sound,
}
use security_monitor.Isolation.Locking.{
  unlock_regions-Sound, nothing-Sound, add_lock_region-Keeping, valid_metadata-Keeping,
  region_owner-Keeping, region_owner_lock_free-Keeping, check_then, commit_then,
}

module _ (view : View) where
  words-Quiet : (words : ℕ → ℕ) (m : Machine) → Quiet view.region m (record m { words = words })
  words-Quiet words m = elsewhere refl refl refl (untouched refl refl refl)

  module _ {R : Type 0} where
    table_owned-Keeping : (e base : ℕ) → Keeping view (table_owned {R = R} e base)
    unfolding table_owned
    table_owned-Keeping e base = record {
      ends = λ f v.
          let r = addr_to_region_id base in
          if-Ends view.holds (is_valid_region_id r) _ _
            ((bind-Keeping {view = view}
                (if-Keeping (f.locked r) (region_owner_lock_free-Keeping r)
                  (region_owner-Keeping r))
                (λ owner. pure-Keeping (owner == e))).ends
              f v)
            tt;
    }

    write_entry :
        (at value : ℕ)
        → Keeping view (
            (modify {R = R} (λ m. record m { words = update m.words at value })) >> pure monitor_ok)
    write_entry at value =
        seq-Keeping (modify-Keeping (Quiet-Sound (λ m. words-Quiet _ m))) (pure-Keeping monitor_ok)

    module _ (e phys_addr virtual_addr level acl : ℕ) where
      walk-Keeping :
          (i base : ℕ) → Keeping view (walk e phys_addr virtual_addr level acl {R = R} i base)
      unfolding walk
      walk-Keeping zero base = if-Keeping (leb level 0) (write_entry _ _) (pure-Keeping monitor_ok)
      walk-Keeping (suc i) base = if-Keeping (ltb (suc i) level) (pure-Keeping monitor_ok) (
          if-Keeping (suc i == level) (write_entry _ _) (
            bind-Keeping machine-Keeping (λ m. if-Keeping _ (pure-Keeping invalid_state) (
              bind-Keeping (table_owned-Keeping e _)
                (λ ok. if-Keeping (not ok) (pure-Keeping invalid_state) (walk-Keeping i _))))))

      load_root-Keeping : Keeping view (load_root e phys_addr virtual_addr level acl {R = R})
      unfolding load_root
      load_root-Keeping =
          seq-Keeping
            (modify-Keeping (Same-Sound (λ m x. ground arith) (λ m. untouched refl refl refl)))
            (pure-Keeping monitor_ok)

      pub load_page_table_entry-Keeping :
          Keeping view (load_page_table_entry e phys_addr virtual_addr level acl {R = R})
      unfolding load_page_table_entry
      load_page_table_entry-Keeping = bind-Keeping machine-Keeping (λ m.
          if-Keeping (level == 3) load_root-Keeping (
            bind-Keeping (table_owned-Keeping e _)
              (λ ok. if-Keeping (not ok) (pure-Keeping invalid_state) (walk-Keeping 2 _))))

  module _ (c : Crypto) where
    page_table_commit-Sound :
        (e phys_addr virtual_addr level acl : ℕ)
        → Sound view (page_table_commit c e phys_addr virtual_addr level acl)
    unfolding page_table_commit
    page_table_commit-Sound e phys_addr virtual_addr level acl =
        Same-Sound (λ m x. ground arith) (λ m. untouched refl refl refl)

    pub enclave_load_page_table_kept :
        (e phys_addr virtual_addr level acl : ℕ) (m : Machine)
        → view.holds m
        → view.holds (after m (enclave_load_page_table c e phys_addr virtual_addr level acl m))
    unfolding enclave_load_page_table
    enclave_load_page_table_kept e phys_addr virtual_addr level acl m =
        let loaded =
          bind-Keeping (load_page_table_entry-Keeping e phys_addr virtual_addr level acl) (λ s.
            check_then _ _ unlock_regions-Sound (
              commit_then (page_table_commit-Sound e phys_addr virtual_addr level acl)
                unlock_regions-Sound)) in
        run-Keeping {view = view} monitor_ok m (
          bind-Keeping (valid_metadata-Keeping _ _) (λ r. check_then _ _ nothing-Sound (
            bind-Keeping machine-Keeping (λ n. check_then _ _ unlock_regions-Sound (
              check_then _ _ unlock_regions-Sound (
                check_then _ _ unlock_regions-Sound (
                  bind-Keeping (region_owner-Keeping _) (λ o. check_then _ _ unlock_regions-Sound (
                    check_then _ _ unlock_regions-Sound (
                      check_then _ _ unlock_regions-Sound (
                        check_then _ _ nothing-Sound (
                          check_then _ _ nothing-Sound (
                            bind-Keeping (add_lock_region-Keeping _)
                              (λ got. check_then _ _ unlock_regions-Sound loaded))))))))))))))

    page_commit-Sound :
        (e phys_addr virtual_addr os_addr acl : ℕ)
        → Sound view (page_commit c e phys_addr virtual_addr os_addr acl)
    unfolding page_commit
    page_commit-Sound e phys_addr virtual_addr os_addr acl =
        Same-Sound (λ m x. ground arith) (λ m. untouched refl refl refl)

    pub enclave_load_page_kept :
        (e phys_addr virtual_addr os_addr acl : ℕ) (m : Machine)
        → view.holds m
        → view.holds (after m (enclave_load_page c e phys_addr virtual_addr os_addr acl m))
    unfolding enclave_load_page
    enclave_load_page_kept e phys_addr virtual_addr os_addr acl m =
        let loaded =
          bind-Keeping (load_page_table_entry-Keeping e phys_addr virtual_addr 0 acl) (λ s.
            check_then _ _ unlock_regions-Sound (
              commit_then (page_commit-Sound e phys_addr virtual_addr os_addr acl)
                unlock_regions-Sound)) in
        let locked = bind-Keeping (add_lock_region-Keeping (addr_to_region_id phys_addr)) (λ got.
          check_then _ _ unlock_regions-Sound (
            bind-Keeping (add_lock_region-Keeping (addr_to_region_id os_addr))
              (λ os_got. check_then _ _ unlock_regions-Sound loaded))) in
        run-Keeping {view = view} monitor_ok m (
          bind-Keeping (valid_metadata-Keeping _ _) (λ r. check_then _ _ nothing-Sound (
            bind-Keeping machine-Keeping (λ n. check_then _ _ unlock_regions-Sound (
              check_then _ _ unlock_regions-Sound (
                check_then _ _ unlock_regions-Sound (
                  bind-Keeping (region_owner-Keeping _) (λ o. check_then _ _ unlock_regions-Sound (
                    check_then _ _ unlock_regions-Sound (
                      check_then _ _ unlock_regions-Sound (
                        bind-Keeping (region_owner-Keeping _) (λ os_owner.
                          check_then _ _ unlock_regions-Sound
                            (check_then _ _ nothing-Sound locked)))))))))))))

    module _ (image : Image) where
      handler_commit-Sound : (e phys_addr : ℕ) → Sound view (handler_commit c image e phys_addr)
      unfolding handler_commit
      handler_commit-Sound e phys_addr =
          Same-Sound (λ m x. ground arith) (λ m. untouched refl refl refl)

      pub enclave_load_handler_kept :
          (e phys_addr : ℕ) (m : Machine)
          → view.holds m
          → view.holds (after m (enclave_load_handler c image e phys_addr m))
      unfolding enclave_load_handler
      enclave_load_handler_kept e phys_addr m =
          let locked = bind-Keeping (add_lock_region-Keeping (addr_to_region_id phys_addr)) (λ got.
            check_then _ _ unlock_regions-Sound
              (commit_then (handler_commit-Sound e phys_addr) unlock_regions-Sound)) in
          run-Keeping {view = view} monitor_ok m (
            bind-Keeping (valid_metadata-Keeping _ _) (λ r. check_then _ _ nothing-Sound (
              bind-Keeping machine-Keeping (λ n. check_then _ _ unlock_regions-Sound (
                check_then _ _ unlock_regions-Sound (
                  check_then _ _ unlock_regions-Sound (
                    check_then _ _ unlock_regions-Sound (
                      bind-Keeping (region_owner-Keeping _)
                        (λ o. check_then _ _ unlock_regions-Sound locked)))))))))
