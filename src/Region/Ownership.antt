-- ===== src/Region/Ownership.antt =====
-- Who may reach a region: the maps of the untrusted system and of the enclaves against the table of
-- regions, and what each call does to them.
use security_monitor.Prelude.{ℕ, ◌<◌, ◌≡◌, true, false, arith, ◌==◌, if◌then◌else◌, update}
use security_monitor.Types.{
  num_cores, owner_untrusted, owner_sm, ApiResult, SmRegion, Machine, owned, sm_region,
  untrusted_region, enclave_region,
}
use security_monitor.Call.{Result, after}
use security_monitor.Locks.{set_region}
use security_monitor.Platform.{platform_update_untrusted_regions, platform_update_enclave_regions}
use security_monitor.Region.{
  set_owner, remove_region, block_commit, region_block, add_region, assign_commit, region_assign,
  region_free, metadata_create_commit, region_metadata_create,
}
use security_monitor.Region.Block.{block_spec, region_block-eq-spec}
use security_monitor.Region.Assign.{assign_spec, region_assign-eq-spec}
use security_monitor.Region.Free.{
  free_spec, region_free-eq-spec, metadata_create_spec, region_metadata_create-eq-spec,
}

-- The table and the maps agree on the region `i` and the enclave `e`.
pub record Consistent (m : Machine) (e i : ℕ) : Type 0 where
  pub sm_fixed :
      (m.sm.regions i).type ≡ sm_region
      → ((m.sm.regions i).owner ≡ owner_sm) × ((m.sm.regions i).state ≡ owned)
  pub untrusted_in :
      m.sm.untrusted_regions i ≡ true
      → ((m.sm.regions i).owner ≡ owner_untrusted)
        × ((m.sm.regions i).type ≡ untrusted_region)
        × ((m.sm.regions i).state ≡ owned)
  pub untrusted_out : (m.sm.regions i).owner ≡ owner_untrusted → m.sm.untrusted_regions i ≡ true
  pub enclave_in :
      (m.enclaves e).regions i ≡ true
      → ((m.sm.regions i).owner ≡ e)
        × ((m.sm.regions i).type ≡ enclave_region)
        × ((m.sm.regions i).state ≡ owned)

pub remove_region-regions :
    (core i owner : ℕ) (m : Machine) → (remove_region core i owner m).sm.regions ≡ m.sm.regions
unfolding remove_region platform_update_untrusted_regions platform_update_enclave_regions
remove_region-regions core i owner m = ground arith

remove_region-untrusted :
    (core i owner : ℕ) (m : Machine) (j : ℕ)
    → (remove_region core i owner m).sm.untrusted_regions j ≡ (
        if owner == owner_untrusted
        then update m.sm.untrusted_regions i false j
        else m.sm.untrusted_regions j)
unfolding remove_region platform_update_untrusted_regions platform_update_enclave_regions
remove_region-untrusted core i owner m j = ground arith

remove_region-flags :
    (core i owner : ℕ) (m : Machine) (e j : ℕ)
    → ((remove_region core i owner m).enclaves e).regions j ≡ (
        if owner == owner_untrusted
        then (m.enclaves e).regions j
        else if owner == owner_sm
        then (m.enclaves e).regions j
        else if owner == e
        then update (m.enclaves e).regions i false j
        else (m.enclaves e).regions j)
unfolding remove_region platform_update_untrusted_regions platform_update_enclave_regions
remove_region-flags core i owner m e j = ground arith

block_spec-Consistent :
    (core i : ℕ) (m : Machine) (e j : ℕ)
    → Consistent m e j
    → Consistent (after m (block_spec core i m)) e j
unfolding block_spec block_commit
block_spec-Consistent core i m e j v =
    let o : ℕ = (m.sm.regions i).owner in
    let n : Machine = set_owner i owner_sm m in
    ground (
      arith,
      remove_region-regions core i o n,
      remove_region-untrusted core i o n j,
      remove_region-flags core i o n e j,
    )

pub add_region-regions :
    (core i owner : ℕ) (m : Machine) → (add_region core i owner m).sm.regions ≡ m.sm.regions
unfolding add_region platform_update_untrusted_regions platform_update_enclave_regions
add_region-regions core i owner m = ground arith

add_region-untrusted :
    (core i owner : ℕ) (m : Machine) (j : ℕ)
    → (add_region core i owner m).sm.untrusted_regions j ≡ (
        if owner == owner_untrusted
        then update m.sm.untrusted_regions i true j
        else m.sm.untrusted_regions j)
unfolding add_region platform_update_untrusted_regions platform_update_enclave_regions
add_region-untrusted core i owner m j = ground arith

add_region-flags :
    (core i owner : ℕ) (m : Machine) (e j : ℕ)
    → ((add_region core i owner m).enclaves e).regions j ≡ (
        if owner == owner_untrusted
        then (m.enclaves e).regions j
        else if owner == e
        then update (m.enclaves e).regions i true j
        else (m.enclaves e).regions j)
unfolding add_region platform_update_untrusted_regions platform_update_enclave_regions
add_region-flags core i owner m e j = ground arith

assign_spec-Consistent :
    (core i o : ℕ) (m : Machine) (e j : ℕ)
    → Consistent m e j
    → Consistent (after m (assign_spec core i o m)) e j
unfolding assign_spec assign_commit
assign_spec-Consistent core i o m e j v =
    let r : SmRegion = record (m.sm.regions i) {
      owner = o;
      type = if o == owner_untrusted then untrusted_region else enclave_region;
      state = owned;
    } in
    let n : Machine = set_region i r m in
    ground (
      arith,
      add_region-regions core i o n,
      add_region-untrusted core i o n j,
      add_region-flags core i o n e j,
    )

free_spec-Consistent :
    (i : ℕ) (m : Machine) (e j : ℕ) → Consistent m e j → Consistent (after m (free_spec i m)) e j
unfolding free_spec
free_spec-Consistent i m e j v = ground arith

metadata_create_spec-Consistent :
    (i : ℕ) (m : Machine) (e j : ℕ)
    → Consistent m e j
    → Consistent (after m (metadata_create_spec i m)) e j
unfolding metadata_create_spec metadata_create_commit
metadata_create_spec-Consistent i m e j v = ground arith

-- The calls that move a region from one owner to another.
pub data RegionCall : Type 0 where
  block : ℕ → ℕ → RegionCall
  assign : ℕ → ℕ → ℕ → RegionCall
  free_region : ℕ → RegionCall
  create_metadata : ℕ → RegionCall

abbrev pub call : RegionCall → Machine → Result ApiResult
call (block core i) = region_block core i
call (assign core i o) = region_assign core i o
call (free_region i) = region_free i
call (create_metadata i) = region_metadata_create i

-- The core that makes the call exists.
abbrev pub FromCore : RegionCall → Type 0
FromCore (block core i) = core < num_cores
FromCore (assign core i o) = core < num_cores
FromCore _ = Unit {0}

-- Every call on a region, whichever way it ends, keeps the table and the maps in agreement.
pub call-Consistent :
    (c : RegionCall) (m : Machine) (e j : ℕ)
    → FromCore c
    → Consistent m e j
    → Consistent (after m (call c m)) e j
call-Consistent (block core i) m e j h v =
    rw (region_block-eq-spec core i m h) (block_spec-Consistent core i m e j v)
call-Consistent (assign core i o) m e j h v =
    rw (region_assign-eq-spec core i o m h) (assign_spec-Consistent core i o m e j v)
call-Consistent (free_region i) m e j h v =
    rw (region_free-eq-spec i m) (free_spec-Consistent i m e j v)
call-Consistent (create_metadata i) m e j h v =
    rw (region_metadata_create-eq-spec i m) (metadata_create_spec-Consistent i m e j v)
