-- ===== src/Isolation/Locking.antt =====
-- The locks are no part of an invariant.
use security_monitor.Prelude.{
  ℕ, refl, inl, Bool, true, false, not, ◌&&◌, arith, ltb, if◌then◌else◌, update,
}
use security_monitor.Types.{
  num_cores, ApiResult, MetadataPage, RegionMap, Machine, invalid_value, concurrent_call,
}
use security_monitor.Address.{addr_to_region_id, is_valid_region_id, is_page_aligned}
use security_monitor.Call.{Frame, M, ◌>>◌, modify, check_after, leave, next}
use security_monitor.Locks.{
  put_region_lock, put_core_lock, put_untrusted_lock, lock_region, unlock_region, lock_core,
  unlock_core, lock_untrusted_state, unlock_untrusted_state, unlock_regions, add_lock_region,
  mark_locked,
}
use security_monitor.Metadata.{
  is_ok, region_status, unlock_unless_ok, add_lock_region_iff, add_lock_region_iff_valid_metadata,
  add_lock_region_iff_free_metadata_pages,
}
use security_monitor.Region.{region_owner, region_owner_lock_free}
use security_monitor.Isolation.{
  View, untouched, elsewhere, Keeping, Sound, SoundWith, if-Ends, bind-Keeping, seq-Keeping,
  pure-Keeping, if-Keeping, machine-Keeping, modify-Keeping, check-Keeping, leave-Keeping,
}

module _ (view : View) where
  region_lock_kept :
      (i : ℕ) (b : Bool) (m : Machine) → view.holds m → view.holds (put_region_lock i b m)
  region_lock_kept i b m =
      view.quiet m _ (record { same = λ x. ground arith; cores = untouched refl refl refl })

  pub core_lock_kept :
      (i : ℕ) (b : Bool) (m : Machine) → view.holds m → view.holds (put_core_lock i b m)
  core_lock_kept i b m = view.quiet m _ (
      elsewhere refl refl refl (record {
        core_owner = λ c. ground arith;
        core_thread = λ c. ground arith;
        core_mmrbm = λ c. ground arith;
        core_memrbm = λ c. ground arith;
        csr_mmrbm = λ c. refl;
        csr_memrbm = λ c. refl;
        saved = λ t. inl refl;
      }))

  untrusted_lock_kept :
      (b : Bool) (m : Machine) → view.holds m → view.holds (put_untrusted_lock b m)
  untrusted_lock_kept b m =
      view.quiet m _ (record { same = λ x. ground arith; cores = untouched refl refl refl })

  unlock_regions_kept :
      (m : Machine) (l : RegionMap) → view.holds m → view.holds (unlock_regions m l)
  unlock_regions_kept m l =
      view.quiet m _ (record { same = λ x. ground arith; cores = untouched refl refl refl })

module _ {view : View} where
  pub unlock_region-Sound : (i : ℕ) → SoundWith view (λ m l. unlock_region i m)
  unlock_region-Sound i = record { keeps_with = λ m l. region_lock_kept view i false m }

  pub unlock_core-Sound : (i : ℕ) → SoundWith view (λ m l. unlock_core i m)
  unlock_core-Sound i = record { keeps_with = λ m l. core_lock_kept view i false m }

  pub unlock_regions-Sound : SoundWith view unlock_regions
  unlock_regions-Sound = record { keeps_with = unlock_regions_kept view }

  pub unlock_untrusted-Sound : SoundWith view (λ m l. unlock_untrusted_state m)
  unlock_untrusted-Sound = record { keeps_with = λ m l. untrusted_lock_kept view false m }

  pub nothing-Sound : SoundWith view (λ m l. m)
  nothing-Sound = record { keeps_with = λ m l v. v }

  pub compose-Sound :
      {g h : Machine → RegionMap → Machine}
      → SoundWith view g
      → SoundWith view h
      → SoundWith view (λ m l. h (g m l) l)
  compose-Sound p q = record { keeps_with = λ m l v. q.keeps_with _ l (p.keeps_with m l v) }

  module _ {R : Type 0} where
    pub lock_region-Keeping : (i : ℕ) → Keeping view (lock_region {R = R} i)
    unfolding lock_region
    lock_region-Keeping i = record {
      ends = λ f v.
          if-Ends view.holds (is_valid_region_id i) _ _ (region_lock_kept view i true f.machine v)
            tt;
    }

    pub lock_core-Keeping : (i : ℕ) → Keeping view (lock_core {R = R} i)
    unfolding lock_core
    lock_core-Keeping i = record {
      ends = λ f v.
          if-Ends view.holds (ltb i num_cores) _ _ (core_lock_kept view i true f.machine v) tt;
    }

    pub lock_untrusted_state-Keeping : Keeping view (lock_untrusted_state {R = R})
    unfolding lock_untrusted_state
    lock_untrusted_state-Keeping = record {
      ends = λ f v. untrusted_lock_kept view true f.machine v;
    }

    pub mark_locked-Keeping : (i : ℕ) → Keeping view (mark_locked {R = R} i)
    unfolding mark_locked
    mark_locked-Keeping i = record { ends = λ f v. v }

    add_locked :
        (i : ℕ) (got : Bool)
        → Keeping view {R = R}
            (λ g. next got (if got then record g { locked = update g.locked i true } else g))
    add_locked i true = record { ends = λ f v. v }
    add_locked i false = record { ends = λ f v. v }

    pub add_lock_region-Keeping : (i : ℕ) → Keeping view (add_lock_region {R = R} i)
    unfolding add_lock_region
    add_lock_region-Keeping i = record {
      ends = λ f v.
          if-Ends view.holds (is_valid_region_id i) _ _
            (if-Ends view.holds (f.locked i) _ _ v
              ((bind-Keeping (lock_region-Keeping i) (add_locked i)).ends f v))
            tt;
    }

    unlock_unless_ok-Keeping :
        (b : Bool) (i : ℕ) (s : ApiResult) → Keeping view (unlock_unless_ok {R = R} b i s)
    unfolding unlock_unless_ok
    unlock_unless_ok-Keeping b i s = record { ends = λ f v. unlocked (not (is_ok s) && b) f v }
      where
        unlocked :
            (d : Bool) (f : Frame)
            → view.holds f.machine
            → view.holds
                ((if d then record f { machine = unlock_region i f.machine } else f).machine)
        unlocked true f v = region_lock_kept view i false f.machine v
        unlocked false f v = v

    add_lock_region_iff-Keeping :
        (i : ℕ) (ok : (ℕ → ℕ → MetadataPage) → Bool)
        → Keeping view (add_lock_region_iff {R = R} i ok)
    unfolding add_lock_region_iff
    add_lock_region_iff-Keeping i ok = record {
      ends = λ f v.
          let after_lock = λ (got : Bool) (m : Machine).
            if-Keeping (not got) (pure-Keeping concurrent_call)
              (unlock_unless_ok-Keeping (f.locked i) i (region_status m i (ok m.page_info))) in
          (bind-Keeping (add_lock_region-Keeping i)
              (λ got. bind-Keeping machine-Keeping (after_lock got))).ends
            f v;
    }

    pub valid_metadata-Keeping :
        (ptr : ℕ) (t : MetadataPage)
        → Keeping view (add_lock_region_iff_valid_metadata {R = R} ptr t)
    unfolding add_lock_region_iff_valid_metadata
    valid_metadata-Keeping ptr t =
        if-Keeping (not (is_page_aligned ptr)) (pure-Keeping invalid_value) (
          if-Keeping (not (is_valid_region_id (addr_to_region_id ptr))) (pure-Keeping invalid_value)
            (add_lock_region_iff-Keeping _ _))

    pub free_pages-Keeping :
        (ptr n : ℕ) → Keeping view (add_lock_region_iff_free_metadata_pages {R = R} ptr n)
    unfolding add_lock_region_iff_free_metadata_pages
    free_pages-Keeping ptr n = if-Keeping (not (is_page_aligned ptr)) (pure-Keeping invalid_value) (
        if-Keeping (not (is_valid_region_id (addr_to_region_id ptr))) (pure-Keeping invalid_value)
          (if-Keeping _ (pure-Keeping invalid_value) (add_lock_region_iff-Keeping _ _)))

    pub region_owner-Keeping : (i : ℕ) → Keeping view (region_owner {R = R} i)
    unfolding region_owner
    region_owner-Keeping i = if-Keeping (not (is_valid_region_id i)) (pure-Keeping _) (
        bind-Keeping (lock_region-Keeping i) (λ got. bind-Keeping machine-Keeping (λ m.
          if-Keeping (not got) (pure-Keeping _) (
            seq-Keeping
              (modify-Keeping (record { keeps = λ n v. region_lock_kept view i false n v }))
              (pure-Keeping _)))))

    pub region_owner_lock_free-Keeping : (i : ℕ) → Keeping view (region_owner_lock_free {R = R} i)
    unfolding region_owner_lock_free
    region_owner_lock_free-Keeping i =
        if-Keeping (not (is_valid_region_id i)) (pure-Keeping _)
          (bind-Keeping machine-Keeping (λ m. pure-Keeping _))

    -- A check with its early return, and the rest.
    pub check_then :
        {A : Type 0} (b : Bool) {before : Machine → RegionMap → Machine} (r : R) {k : M R A}
        → SoundWith view before
        → Keeping view k
        → Keeping view (check_after b before r >> k)
    check_then b r p q = seq-Keeping (check-Keeping b r p) q

    -- The change of the machine and the release of the locks that end a call.
    pub commit_then :
        {g : Machine → Machine} {after : Machine → RegionMap → Machine}
        → Sound view g
        → SoundWith view after
        → Keeping view (modify {R = R} g >> leave after)
    commit_then p q = seq-Keeping (modify-Keeping p) (leave-Keeping q)
