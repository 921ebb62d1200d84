-- ===== src/Isolation/Hardware/Regions.antt =====
-- The calls that move a region from one owner to another, and the deletion of an enclave.
use security_monitor.Prelude.{
  ℕ, zero, suc, ◌<◌, ◌≡◌, refl, inl, inr, true, false, arith, ◌==◌, if◌then◌else◌, Bool-cases,
  update,
}
use security_monitor.Types.{
  num_regions, num_cores, owner_untrusted, owner_sm, SmRegion, Machine, free, owned,
  untrusted_region, enclave_region, metadata_region,
}
use security_monitor.Address.{addr_to_region_id}
use security_monitor.Call.{after}
use security_monitor.Locks.{set_region}
use security_monitor.Platform.{
  platform_update_memory_protection, platform_update_untrusted_regions,
  platform_update_enclave_regions,
}
use security_monitor.Platform.Bitmap.{accessible-bitmap}
use security_monitor.Region.{
  set_owner, remove_region, block_commit, add_region, assign_commit, free_commit, erase_region,
  metadata_create_commit,
}
use security_monitor.Region.Block.{block_spec, region_block-eq-spec}
use security_monitor.Region.Assign.{assign_spec, region_assign-eq-spec}
use security_monitor.Region.Free.{
  reaches, free_spec, region_free-eq-spec, metadata_create_spec, region_metadata_create-eq-spec,
}
use security_monitor.Region.Ownership.{
  remove_region-regions, add_region-regions, RegionCall, call, FromCore, call-Consistent, block,
  assign, free_region, create_metadata,
}
use security_monitor.Enclave.{block_region, block_flagged, delete_enclave_commit}
use security_monitor.Isolation.{Agrees, untouched, Sound}
use security_monitor.Isolation.Deletion.{block_one, cleared}
use security_monitor.Isolation.Hardware.{
  Guarded, Protected, accessible-zero, kept-Guarded, protection,
}

module _ {j : ℕ} (h : j < num_regions) where
  block-Guarded :
      (core i : ℕ) (m : Machine) (c : ℕ)
      → Agrees j m
      → Guarded m j c
      → Guarded (block_commit core i m) j c
  unfolding block_commit remove_region platform_update_untrusted_regions
      platform_update_enclave_regions platform_update_memory_protection
  block-Guarded core i m c v g = ground (
    arith,
    g,
    v (m.sm.cores core).owner,
    accessible-bitmap (update m.sm.untrusted_regions i false) j h,
    accessible-bitmap m.sm.untrusted_regions j h,
    accessible-bitmap (m.enclaves (m.sm.cores core).owner).regions j h,
    accessible-bitmap (update (m.enclaves (m.sm.cores core).owner).regions i false) j h,
    accessible-zero j,
  )

  assign-Guarded :
      (core i o : ℕ) (m : Machine) (c : ℕ)
      → (m.sm.regions i).state ≡ free
      → Agrees j m
      → Guarded m j c
      → Guarded (assign_commit core i o m) j c
  unfolding assign_commit add_region platform_update_untrusted_regions
      platform_update_enclave_regions platform_update_memory_protection
  assign-Guarded core i o m c f v g = ground (
    arith,
    g,
    f,
    v (m.sm.cores core).owner,
    accessible-bitmap (update m.sm.untrusted_regions i true) j h,
    accessible-bitmap m.sm.untrusted_regions j h,
    accessible-bitmap (m.enclaves (m.sm.cores core).owner).regions j h,
    accessible-bitmap (update (m.enclaves (m.sm.cores core).owner).regions i true) j h,
    accessible-zero j,
  )

  free-Guarded :
      (i : ℕ) (m : Machine)
      → ((c : ℕ) → c < num_cores → reaches m i c ≡ false)
      → ((c : ℕ) → c < num_cores → Guarded m j c)
      → (c : ℕ) → c < num_cores
      → Guarded (free_commit i m) j c
  free-Guarded i m r g c k = ground (arith, r c k, g c k)

  create-Guarded :
      (i : ℕ) (m : Machine) (c : ℕ)
      → (m.sm.regions i).state ≡ free
      → Guarded m j c
      → Guarded (metadata_create_commit i m) j c
  unfolding metadata_create_commit erase_region
  create-Guarded i m c f g = ground (arith, f, g, accessible-zero j)

  block_spec-Guarded :
      (core i : ℕ) (m : Machine)
      → Protected j m
      → (c : ℕ) → c < num_cores
      → Guarded (after m (block_spec core i m)) j c
  unfolding block_spec
  block_spec-Guarded core i m v c k =
      ground (arith, v.guarded c k, block-Guarded core i m c v.agrees (v.guarded c k))

  assign_spec-Guarded :
      (core i o : ℕ) (m : Machine)
      → Protected j m
      → (c : ℕ) → c < num_cores
      → Guarded (after m (assign_spec core i o m)) j c
  unfolding assign_spec
  assign_spec-Guarded core i o m v c k = ground (arith, v.guarded c k, assign-Guarded core i o m c)

  free_spec-Guarded :
      (i : ℕ) (m : Machine)
      → Protected j m
      → (c : ℕ) → c < num_cores
      → Guarded (after m (free_spec i m)) j c
  unfolding free_spec
  free_spec-Guarded i m v c k = ground (arith, v.guarded c k, free-Guarded i m)

  create_spec-Guarded :
      (i : ℕ) (m : Machine)
      → Protected j m
      → (c : ℕ) → c < num_cores
      → Guarded (after m (metadata_create_spec i m)) j c
  unfolding metadata_create_spec
  create_spec-Guarded i m v c k = ground (arith, v.guarded c k, create-Guarded i m c)

-- A metadata region is the monitor's, and stays so.
abbrev MetadataFixed : ℕ → Machine → Type 0
MetadataFixed j m =
    (m.sm.regions j).type ≡ metadata_region
    → ((m.sm.regions j).owner ≡ owner_sm) × ((m.sm.regions j).state ≡ owned)

call-MetadataFixed :
    (r : RegionCall) (m : Machine) (j : ℕ)
    → FromCore r
    → MetadataFixed j m
    → MetadataFixed j (after m (call r m))
unfolding block_spec assign_spec free_spec metadata_create_spec metadata_create_commit block_commit
    assign_commit
call-MetadataFixed (block core i) m j h v =
    let n : Machine = set_owner i owner_sm m in
    rw (region_block-eq-spec core i m h)
      (ground (arith, v, remove_region-regions core i (m.sm.regions i).owner n))
call-MetadataFixed (assign core i o) m j h v =
    let r : SmRegion = record (m.sm.regions i) {
      owner = o;
      type = if o == owner_untrusted then untrusted_region else enclave_region;
      state = owned;
    } in
    rw (region_assign-eq-spec core i o m h)
      (ground (arith, v, add_region-regions core i o (set_region i r m)))
call-MetadataFixed (free_region i) m j h v = rw (region_free-eq-spec i m) (ground (arith, v))
call-MetadataFixed (create_metadata i) m j h v =
    rw (region_metadata_create-eq-spec i m) (ground (arith, v))

call-Guarded :
    (r : RegionCall) (m : Machine) (j : ℕ)
    → j < num_regions
    → FromCore r
    → Protected j m
    → (c : ℕ) → c < num_cores
    → Guarded (after m (call r m)) j c
call-Guarded (block core i) m j h k v c l =
    rw (region_block-eq-spec core i m k) (block_spec-Guarded h core i m v c l)
call-Guarded (assign core i o) m j h k v c l =
    rw (region_assign-eq-spec core i o m k) (assign_spec-Guarded h core i o m v c l)
call-Guarded (free_region i) m j h k v c l =
    rw (region_free-eq-spec i m) (free_spec-Guarded h i m v c l)
call-Guarded (create_metadata i) m j h k v c l =
    rw (region_metadata_create-eq-spec i m) (create_spec-Guarded h i m v c l)

pub call-Protected :
    (r : RegionCall) (m : Machine) (j : ℕ)
    → j < num_regions
    → FromCore r
    → Protected j m
    → Protected j (after m (call r m))
call-Protected r m j h k v = record {
  agrees = λ x. call-Consistent r m x j k (v.agrees x);
  guarded = call-Guarded r m j h k v;
  metadata_fixed = call-MetadataFixed r m j k v.metadata_fixed;
}

-- A round of the deletion's loop.
block_one-Protected :
    (e i : ℕ) (m : Machine) (j : ℕ)
    → (m.enclaves e).regions i ≡ true
    → Protected j m
    → Protected j (erase_region (addr_to_region_id e) (block_region i m))
unfolding erase_region
block_one-Protected e i m j f v = record {
  agrees = block_one e i m f v.agrees;
  guarded = λ c k. ground (arith, v.guarded c k, accessible-zero j);
  metadata_fixed = ground (arith, v.metadata_fixed, v.agrees e);
}

block_flagged-Protected :
    (e i n : ℕ) (m : Machine) (j : ℕ) → Protected j m → Protected j (block_flagged e i n m)
unfolding block_flagged
block_flagged-Protected e i zero m j v = v
block_flagged-Protected e i (suc n) m j v = elim (Bool-cases ((m.enclaves e).regions i)) [
  | inl h ↦ rw h (block_flagged-Protected e (suc i) n _ j (block_one-Protected e i m j h v))
  | inr h ↦ rw h (block_flagged-Protected e (suc i) n m j v)
]

pub delete-Protected : (j e : ℕ) → Sound (protection j) (delete_enclave_commit e)
unfolding delete_enclave_commit
delete-Protected j e = record {
  keeps = λ m v.
      let w = block_flagged-Protected e 0 num_regions m j v in
      record {
        agrees = cleared e _ _ w.agrees;
        guarded =
            λ c k. kept-Guarded _ _ j c refl refl refl (untouched refl refl refl) (w.guarded c k);
        metadata_fixed = w.metadata_fixed;
      };
}
