-- ===== src/Cache/Lines.antt =====
-- src/common/flush_llc_region.c: the lines of the last level cache that a flush of a region loads.
use security_monitor.Prelude.{ℕ, zero, suc, ◌+◌, ◌*◌, ◌^◌, bit_or, List, [], ◌∷◌, ◌++◌}
use security_monitor.Types.{Machine}
use security_monitor.Address.{region_id_to_addr}

abbrev pub llc_num_ways : ℕ
llc_num_ways = 16

abbrev pub llc_index_offset : ℕ
llc_index_offset = 6

abbrev pub zero_device_offset : ℕ
zero_device_offset = 0x100000000

-- The address whose load flushes a set of a region.
unfoldable pub flush_address : ℕ → ℕ → ℕ
unfolding region_id_to_addr
flush_address region_id index =
    bit_or (bit_or zero_device_offset (region_id_to_addr region_id)) (index * 2 ^ llc_index_offset)

-- The inner loop of `flush_llc_region`, over the indices of one way, the last one last.
unfoldable pub flush_way : ℕ → ℕ → ℕ → List ℕ
unfolding flush_address
flush_way region_id base zero = []
flush_way region_id base (suc i) =
    flush_way region_id base i ++ (flush_address region_id (base + i) ∷ [])

-- The outer loop, over the ways below `n`.
unfoldable pub flush_ways : ℕ → ℕ → ℕ → List ℕ
unfolding flush_way
flush_ways region_id range zero = []
flush_ways region_id range (suc stride) =
    flush_ways region_id range stride ++ flush_way region_id (range * stride) range

-- The addresses that are loaded, in order.
unfoldable pub flush_llc_region : ℕ → ℕ → List ℕ
unfolding flush_ways
flush_llc_region lgsize region_id = flush_ways region_id (2 ^ lgsize) llc_num_ways

-- The flush of a region, by the slice that it has.
abbrev pub flush : ℕ → Machine → Machine
flush i m = record m { llc_loads = m.llc_loads ++ flush_llc_region (m.sm.llc_partitions i) i }
