-- ===== src/Locks/Held.antt =====
-- The states inside a transaction: the machine at its start with some locks taken. The rules step
-- through a call from one such state to the next and leave an equation without locks.
use security_monitor.Prelude.{
  ℕ, ◌<◌, ◌≡◌, refl, sym, fun_ext, Bool, true, false, ◌||◌, arith, update,
}
use security_monitor.Types.{num_regions, RegionMap, SmCore, SmRegion, Machine}
use security_monitor.Call.{Frame}
use security_monitor.Locks.{
  region_lock, core_lock, untrusted_lock, unlock_core, unlock_untrusted_state, unlock_regions,
}

abbrev pub no_regions : RegionMap
no_regions i = false

-- `m` with the locks of `l`, of the untrusted state if `u`, and of the cores of `c` taken.
unfoldable pub hold : RegionMap → Bool → (ℕ → Bool) → Machine → Machine
hold l u c m = record m {
  sm = record m.sm {
    regions = λ i. record (m.sm.regions i) { lock = l i || region_lock m i };
    cores = λ i. record (m.sm.cores i) { lock = c i || core_lock m i };
    untrusted_state_lock = u || untrusted_lock m;
  };
}

unfoldable pub held : RegionMap → Bool → (ℕ → Bool) → Machine → Frame
unfolding hold
held l u c m = record { machine = hold l u c m; locked = l }

-- The regions of `l` exist, and nobody held them at the start.
abbrev pub Taken : RegionMap → Machine → Type 0
Taken l m = (i : ℕ) → l i ≡ true → (i < num_regions) × (region_lock m i ≡ false)

abbrev pub add : RegionMap → ℕ → RegionMap
add l i = update l i true

pub none-Taken : (m : Machine) → Taken no_regions m
none-Taken m i h = cc

pub add-Taken :
    (l : RegionMap) (m : Machine) (i : ℕ)
    → i < num_regions
    → region_lock m i ≡ false
    → Taken l m
    → Taken (add l i) m
add-Taken l m i v idle t j h = ground (arith, t j)

-- Two machines are equal when their tables are.
pub Machine-eq :
    (m : Machine) {r r' : ℕ → SmRegion} {c c' : ℕ → SmCore} {u u' : Bool}
    → r ≡ r'
    → c ≡ c'
    → u ≡ u'
    → ◌≡◌ {A = Machine}
        (record m { sm = record m.sm { regions = r; cores = c; untrusted_state_lock = u } })
        (record m { sm = record m.sm { regions = r'; cores = c'; untrusted_state_lock = u' } })
Machine-eq m p q s =
    λ k. record m { sm = record m.sm { regions = p k; cores = q k; untrusted_state_lock = s k } }

pub hold-none : (m : Machine) → hold no_regions false no_regions m ≡ m
unfolding hold
hold-none m = refl

-- Releasing the regions that were taken leaves the other locks.
pub unlock_regions-hold :
    (l : RegionMap) (u : Bool) (c : ℕ → Bool) (m : Machine)
    → Taken l m
    → unlock_regions (hold l u c m) l ≡ hold no_regions u c m
unfolding hold
unlock_regions-hold l u c m t = Machine-eq m (fun_ext λ i. ground (arith, t i)) refl refl

pub unlock_untrusted-hold :
    (c : ℕ → Bool) (m : Machine)
    → untrusted_lock m ≡ false
    → unlock_untrusted_state (hold no_regions true c m) ≡ hold no_regions false c m
unfolding hold
unlock_untrusted-hold c m e = Machine-eq m refl refl (sym e)

pub unlock_core-hold :
    (core : ℕ) (m : Machine)
    → core_lock m core ≡ false
    → unlock_core core (hold no_regions false (add no_regions core) m) ≡ m
unfolding hold
unlock_core-hold core m e = Machine-eq m refl (fun_ext λ i. ground arith) refl
