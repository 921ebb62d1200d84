-- ===== src/Cache.antt =====
-- The last level cache: src/api/region_flush.c, region_cache_partitionning.c and
-- src/common/flush_llc_region.c. Each region has a slice of the cache, of `2 ^ lgsize` sets. The other
-- core answers its interrupt once in each call.
pub mod Rendezvous
pub mod Alone
pub mod Progress
pub mod Slices
pub mod Lines
pub mod Flush
pub mod Flushed
pub mod Partition
pub mod Partitioned
use security_monitor.Prelude.{
  ℕ, zero, suc, ◌+◌, ◌*◌, ◌^◌, Bool, true, false, not, ◌&&◌, Option, none, some, List, [], ◌∷◌,
  ◌++◌, ltb, leb, ◌==◌, if◌then◌else◌, update, get_or,
}
use security_monitor.Types.{
  num_regions, num_cores, owner_untrusted, ApiResult, LlcSync, Machine, monitor_ok, invalid_value,
  invalid_state, concurrent_call,
}
use security_monitor.Call.{
  machine, M, pure, ◌>>=◌, ◌>>◌, modify, check_after, check, Result, run, leave, fault,
}
use security_monitor.Locks.{
  lock_region, unlock_region, lock_core, unlock_core, lock_untrusted_state, unlock_untrusted_state,
}
use security_monitor.Region.{unlock_one}
use security_monitor.Mail.{unlock_untrusted_only}
use security_monitor.Memory.{read_user}
use security_monitor.Cache.Lines.{flush_llc_region, flush}
use security_monitor.Cache.Rendezvous.{
  turns, all_idle, working, stopped, start, answer, go, by_first, by_second,
}

abbrev pub put_sync : (LlcSync → LlcSync) → Machine → Machine
put_sync f m = record m { sm = record m.sm { llc_sync = f m.sm.llc_sync } }

-- The leader's round up to its work, and after it.
unfoldable pub gather_sync : LlcSync → LlcSync
unfolding turns
gather_sync s = (turns (by_first start ∷ by_second answer ∷ by_first go ∷ []) (all_idle s)).sync

unfoldable pub release_sync : LlcSync → LlcSync
unfolding turns
release_sync s =
    (turns (by_first go ∷ by_second go ∷ by_first go ∷ by_first go ∷ [])
      (record { sync = s; first = working; second = stopped })).sync

unfoldable pub flush_commit : ℕ → Machine → Machine
unfolding gather_sync release_sync
flush_commit id m = put_sync release_sync (unlock_region id (flush id (put_sync gather_sync m)))

-- The bound is off by one: `lock_region` of the number 64 is out of bounds.
unfoldable pub region_flush_body : ℕ → M ApiResult (Unit {0})
region_flush_body id = do
  check (leb id num_regions) invalid_value
  got ← lock_region id
  check got concurrent_call
  m ← machine
  check_after ((m.sm.regions id).owner == owner_untrusted) (unlock_one id) invalid_state
  check_after (not m.sm.llc_sync.busy) (unlock_one id) concurrent_call
  leave (λ x _. flush_commit id x)

unfoldable pub region_flush : ℕ → Machine → Result ApiResult
unfolding region_flush_body flush_commit
region_flush id = run (region_flush_body id) monitor_ok

-- What the first loop of `region_cache_partitioning` has found.
pub record Scan : Type 0 where
  pub sum : ℕ
  pub found_first_mod : Bool
  pub idx_first_mod : ℕ
  pub bases : ℕ → ℕ

-- The round for the region `i`.
unfoldable pub scan_step : (ℕ → ℕ) → (ℕ → ℕ) → ℕ → Scan → Option Scan
scan_step old copy i s =
    if leb 10 (copy i)
    then none
    else some (record s {
      found_first_mod = if s.found_first_mod then true else not (copy i == old i);
      idx_first_mod =
          if s.found_first_mod
          then s.idx_first_mod
          else if copy i == old i
          then s.idx_first_mod + 1
          else s.idx_first_mod;
      bases = update s.bases i s.sum;
      sum = s.sum + 2 ^ copy i;
    })

-- The rounds below `n`; `none` is the return from the middle of the loop.
unfoldable pub scan_below : (ℕ → ℕ) → (ℕ → ℕ) → ℕ → Option Scan
unfolding scan_step
scan_below old copy zero =
    some (record { sum = 0; found_first_mod = false; idx_first_mod = 0; bases = λ _. 0 })
scan_below old copy (suc n) = elim (scan_below old copy n) [
  | none ↦ none
  | some s ↦ scan_step old copy n s
]

-- The word for the slice of a region.
abbrev pub llc_command : ℕ → ℕ → ℕ → ℕ
llc_command rid base size = rid * 2 ^ 14 + base * 2 ^ 4 + size

-- The words that the last loop writes, from the region `first` to the region below `n`.
unfoldable pub llc_commands : ℕ → (ℕ → ℕ) → (ℕ → ℕ) → ℕ → List ℕ
llc_commands first bases copy zero = []
llc_commands first bases copy (suc n) =
    let before = llc_commands first bases copy n in
    if leb first n then before ++ (llc_command n (bases n) (copy n) ∷ []) else before

-- The loads of the loop that flushes the regions from `first` on, by their slices so far.
unfoldable pub flush_from : ℕ → (ℕ → ℕ) → ℕ → List ℕ
flush_from first lgsizes zero = []
flush_from first lgsizes (suc n) =
    let before = flush_from first lgsizes n in
    if leb first n then before ++ flush_llc_region (lgsizes n) n else before

unfoldable pub set_partitions : (ℕ → ℕ) → Scan → Machine → Machine
unfolding llc_commands flush_from
set_partitions copy s m = record m {
  sm = record m.sm {
    llc_partitions =
        λ i. if leb s.idx_first_mod i && ltb i num_regions then copy i else m.sm.llc_partitions i;
  };
  llc_control = m.llc_control ++ llc_commands s.idx_first_mod s.bases copy num_regions;
  llc_loads = m.llc_loads ++ flush_from s.idx_first_mod m.sm.llc_partitions num_regions;
}

-- The partition that the caller has written.
abbrev pub lgsizes : Machine → ℕ → ℕ → ℕ
lgsizes m part i = get_or (read_user m.user part num_regions) i 0

-- The loop over the cores, from the core `i` on, with `n` rounds left. It reads the owner of the core 0
-- in every round, and the lock of the core at which it breaks stays taken. A lock that is taken
-- already is a panic, which `fault` stands for too.
unfoldable pub no_enclaves : ℕ → ℕ → M ApiResult Bool
no_enclaves i zero = pure true
no_enclaves i (suc n) = do
  got ← lock_core i
  if not got then (λ _. fault) else (do
    m ← machine
    if not ((m.sm.cores 0).owner == owner_untrusted)
        then pure false
        else (do modify (unlock_core i); no_enclaves (suc i) n))

-- The part after the scan.
unfoldable pub partition_checked : (ℕ → ℕ) → Scan → M ApiResult (Unit {0})
unfolding no_enclaves gather_sync release_sync
partition_checked copy s = do
  check_after (leb s.sum 1024) unlock_untrusted_only invalid_value
  check_after (ltb 0 s.idx_first_mod) unlock_untrusted_only invalid_value
  m ← machine
  check_after (not m.sm.llc_sync.busy) unlock_untrusted_only concurrent_call
  modify (put_sync gather_sync)
  no_enclaves_running ← no_enclaves 0 num_cores
  modify (if no_enclaves_running then set_partitions copy s else (λ x. x))
  modify (λ x. unlock_untrusted_state (put_sync release_sync x))
  check no_enclaves_running invalid_state

-- The part after the first loop, which has returned where it found too large a slice.
abbrev pub after_scan : (ℕ → ℕ) → Option Scan → M ApiResult (Unit {0})
after_scan copy none = check_after false unlock_untrusted_only invalid_value
after_scan copy (some s) = partition_checked copy s

region_cache_partitioning_body : ℕ → M ApiResult (Unit {0})
unfolding scan_below read_user
region_cache_partitioning_body part = do
  got ← lock_untrusted_state
  check got concurrent_call
  m ← machine
  after_scan (lgsizes m part) (scan_below m.sm.llc_partitions (lgsizes m part) num_regions)

unfoldable pub region_cache_partitioning : ℕ → Machine → Result ApiResult
unfolding region_cache_partitioning_body
region_cache_partitioning part = run (region_cache_partitioning_body part) monitor_ok
