-- ===== src/Isolation/Hardware.antt =====
-- What the cores' registers let the programs reach, against the table of regions.
pub mod Switches
pub mod Regions
pub mod Traps
use native.Mathlib.Nat.{zero-div}
use security_monitor.Prelude.{ℕ, ◌^◌, ◌<◌, ◌≡◌, refl, ◌≢◌, ◌⊎◌, true, false, arith}
use security_monitor.Types.{
  num_cores, owner_untrusted, owner_sm, RegionType, Machine, owned, blocked, untrusted_region,
  enclave_region, metadata_region,
}
use security_monitor.Platform.{region_is_accessible}
use security_monitor.Region.Untouched.{Same-Consistent}
use security_monitor.Isolation.{SameCores, Quiet, View, Agrees}

-- The region is blocked, or it is a region of the type `t` that is owned by `o`.
abbrev pub HeldBy : Machine → ℕ → ℕ → RegionType → Type 0
HeldBy m j o t =
    ((m.sm.regions j).state ≡ blocked)
    ⊎ (((m.sm.regions j).owner ≡ o)
        × ((m.sm.regions j).type ≡ t)
        × ((m.sm.regions j).state ≡ owned))

-- The core `c` and the region `j`: what a bitmap reaches is held by the one that the bitmap is for.
-- The untrusted system runs with no enclave's region, and what a thread has saved is its bitmap.
pub record Guarded (m : Machine) (j c : ℕ) : Type 0 where
  pub untrusted_reach :
      region_is_accessible (m.sm.cores c).mmrbm j ≡ true
      → HeldBy m j owner_untrusted untrusted_region
  pub enclave_reach :
      region_is_accessible (m.sm.cores c).memrbm j ≡ true
      → HeldBy m j (m.sm.cores c).owner enclave_region
  pub mmrbm_written : (m.csrs c).mmrbm ≡ (m.sm.cores c).mmrbm
  pub memrbm_written : (m.csrs c).memrbm ≡ (m.sm.cores c).memrbm
  pub idle :
      (m.sm.cores c).owner ≡ owner_untrusted → region_is_accessible (m.sm.cores c).memrbm j ≡ false
  pub running :
      (m.sm.cores c).owner ≢ owner_untrusted
      → region_is_accessible (m.threads (m.sm.cores c).thread).platform_csr.memrbm j ≡ false

-- The same for all cores, on a region whose table and maps agree. A metadata region stays the
-- monitor's.
pub record Protected (j : ℕ) (m : Machine) : Type 0 where
  pub agrees : Agrees j m
  pub guarded : (c : ℕ) → c < num_cores → Guarded m j c
  pub metadata_fixed :
      (m.sm.regions j).type ≡ metadata_region
      → ((m.sm.regions j).owner ≡ owner_sm) × ((m.sm.regions j).state ≡ owned)

pub accessible-zero : (j : ℕ) → region_is_accessible 0 j ≡ false
unfolding region_is_accessible
accessible-zero j = rw (zero-div (2 ^ j)) refl

pub kept-Guarded :
    (m n : Machine) (j c : ℕ)
    → (n.sm.regions j).owner ≡ (m.sm.regions j).owner
    → (n.sm.regions j).type ≡ (m.sm.regions j).type
    → (n.sm.regions j).state ≡ (m.sm.regions j).state
    → SameCores m n
    → Guarded m j c
    → Guarded n j c
kept-Guarded m n j c p t q s g = ground (
  arith,
  g,
  s.core_owner c,
  s.core_thread c,
  s.core_mmrbm c,
  s.core_memrbm c,
  s.csr_mmrbm c,
  s.csr_memrbm c,
  s.saved (m.sm.cores c).thread,
  accessible-zero j,
)

pub Quiet-Protected : (j : ℕ) (m n : Machine) → Quiet j m n → Protected j m → Protected j n
Quiet-Protected j m n q v = record {
  agrees = λ x. Same-Consistent m n x j (q.same x) (v.agrees x);
  guarded = λ c h.
      kept-Guarded m n j c (q.same 0).owner (q.same 0).type (q.same 0).state q.cores
        (v.guarded c h);
  metadata_fixed = ground (arith, q.same 0, v.metadata_fixed);
}

abbrev pub protection : ℕ → View
protection j = record { region = j; holds = Protected j; quiet = Quiet-Protected j }
