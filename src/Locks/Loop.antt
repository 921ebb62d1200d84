-- ===== src/Locks/Loop.antt =====
-- The loop of `unlock_regions`, round by round.
use security_monitor.Prelude.{
  ℕ, zero, suc, ◌≡◌, ap, fun_ext, inl, inr, arith, if◌then◌else◌, Bool-cases,
}
use security_monitor.Types.{RegionMap, SmRegion, Machine}
use security_monitor.Locks.{unlock_region, unlock_below}

-- The rounds for the regions below `n`, the last one last.
unfoldable pub unlock_rounds : ℕ → RegionMap → Machine → Machine
unlock_rounds zero locked m = m
unlock_rounds (suc n) locked m =
    let x = unlock_rounds n locked m in if locked n then unlock_region n x else x

abbrev put_regions : Machine → (ℕ → SmRegion) → Machine
put_regions m r = record m { sm = record m.sm { regions = r } }

-- `n` rounds of the loop give what `unlock_below` says at once, for any machine and any set of regions.
pub unlock_rounds-below :
    (n : ℕ) (locked : RegionMap) (m : Machine) → unlock_rounds n locked m ≡ unlock_below n locked m
unfolding unlock_rounds
unlock_rounds-below zero locked m = ap (put_regions m) (fun_ext λ j. ground arith)
unlock_rounds-below (suc n) locked m = elim (Bool-cases (locked n)) [
  | inl e ↦ rw (e, unlock_rounds-below n locked m) (ap (put_regions m) (fun_ext λ j. ground arith))
  | inr e ↦ rw (e, unlock_rounds-below n locked m) (ap (put_regions m) (fun_ext λ j. ground arith))
]
