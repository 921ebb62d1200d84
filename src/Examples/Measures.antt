-- ===== src/Examples/Measures.antt =====
-- A page loaded into an enclave whose tables are in the region 4, from a page of the region 5.
use security_monitor.Prelude.{ℕ, ◌+◌, ◌*◌, false, leb, ◌==◌, if◌then◌else◌}
use security_monitor.Types.{Machine, zero_enclave, owned, enclave_region, page_tables_loaded}
use security_monitor.Call.{after}
use security_monitor.Crypto.{plain}
use security_monitor.Enclave.Load.{enclave_load_page}
use security_monitor.Examples.Sample.{sample_enclave, sample_regions, sample}

abbrev own_page : ℕ
own_page = 0x88001000

abbrev system_page : ℕ
system_page = 0x8a000000

-- The table at 0x88000000, whose every entry leads to itself.
abbrev tables : Machine
tables = record (sample page_tables_loaded) {
  sm = record (sample page_tables_loaded).sm {
    regions = λ i.
        if i == 4
        then record { owner = sample_enclave; type = enclave_region; state = owned; lock = false }
        else sample_regions i;
  };
  enclaves = λ _. record zero_enclave {
    init_state = page_tables_loaded;
    platform_csr = record zero_enclave.platform_csr { eptbr = 0x88000 };
  };
  words = λ a. if leb system_page a then a else 0x88000 * 1024 + 1;
}

abbrev page_loaded : Machine
page_loaded =
    after tables (enclave_load_page plain sample_enclave own_page 0x5000 system_page 3 tables)
