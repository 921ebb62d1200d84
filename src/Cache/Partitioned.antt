-- ===== src/Cache/Partitioned.antt =====
-- What a partition of the cache that succeeds guarantees.
use security_monitor.Prelude.{ℕ, ◌+◌, ◌^◌, ◌≤◌, ◌<◌, ◌≡◌, ◌++◌}
use security_monitor.Types.{num_regions, owner_untrusted, Machine}
use security_monitor.Cache.{Scan, llc_commands, flush_from, set_partitions}
use security_monitor.Cache.Partition.{in_round}

-- What holds of the machine `n` after a partition of slices `2 ^ copy i` is set from `m`.
pub record Partitioned (copy bases : ℕ → ℕ) (m n : Machine) : Type 0 where
  pub small : (i : ℕ) → i < num_regions → copy i < 10
  pub ordered : (i j : ℕ) → i < j → j < num_regions → bases i + 2 ^ copy i ≤ bases j
  pub inside : (i : ℕ) → i < num_regions → bases i + 2 ^ copy i ≤ 1024
  pub set : (i : ℕ) → i < num_regions → n.sm.llc_partitions i ≡ copy i
  pub first_kept : n.sm.llc_partitions 0 ≡ m.sm.llc_partitions 0
  pub first : ℕ
  pub same_below : (i : ℕ) → i < first → copy i ≡ m.sm.llc_partitions i
  pub commanded : n.llc_control ≡ m.llc_control ++ llc_commands first bases copy num_regions
  pub flushed : n.llc_loads ≡ m.llc_loads ++ flush_from first m.sm.llc_partitions num_regions
  pub regions_kept : n.sm.regions ≡ m.sm.regions

abbrev OutcomeOk : (ℕ → ℕ) → Scan → Machine → Machine → Type 0
OutcomeOk copy s m n =
    (s.sum ≤ 1024)
    × (0 < s.idx_first_mod)
    × ((m.sm.cores 0).owner ≡ owner_untrusted)
    × (in_round (set_partitions copy s) m ≡ n)
