-- ===== src/Types.antt =====
-- api/api_types.h, src/sm_types.h, src/sm_constants.h, platform/parameters.h,
-- platform/platform_types.h: the constants and the data of the monitor.
-- Arrays are functions of the index, byte strings are lists of numbers.
use security_monitor.Prelude.{ℕ, ◌+◌, ◌/◌, ◌^◌, Bool, false, List, replicate}

abbrev pub Bytes : Type 0
Bytes = List ℕ

abbrev pub word_mod : ℕ
word_mod = 2 ^ 64

abbrev pub page_size : ℕ
page_size = 2 ^ 12

abbrev pub region_size : ℕ
region_size = 2 ^ 25

abbrev pub ram_base : ℕ
ram_base = 0x80000000

abbrev pub ram_size : ℕ
ram_size = 0x80000000

abbrev pub num_regions : ℕ
num_regions = ram_size / region_size

abbrev pub num_region_pages : ℕ
num_region_pages = region_size / page_size

abbrev pub num_cores : ℕ
num_cores = 2

abbrev pub num_untrusted_mailboxes : ℕ
num_untrusted_mailboxes = 8

abbrev pub mailbox_size : ℕ
mailbox_size = 0x100

abbrev pub num_registers : ℕ
num_registers = 32

abbrev pub stack_size : ℕ
stack_size = 0x1000

abbrev pub handler_len : ℕ
handler_len = 0x8000

abbrev pub integer_context_size : ℕ
integer_context_size = 0x100

abbrev pub mentry_frame_size : ℕ
mentry_frame_size = integer_context_size + 64

-- The reserved enclave ids, which no page-aligned address equals.
abbrev pub owner_untrusted : ℕ
owner_untrusted = 1

abbrev pub owner_sm : ℕ
owner_sm = 2

abbrev pub enclave_thread_none : ℕ
enclave_thread_none = 1

pub data ApiResult : Type 0 where
  monitor_ok invalid_value invalid_state concurrent_call : ApiResult
  async_exit access_denied unsupported : ApiResult

-- The numbers of `api_result_t`.
abbrev pub code : ApiResult → ℕ
code monitor_ok = 0
code invalid_value = 1
code invalid_state = 2
code concurrent_call = 3
code async_exit = 4
code access_denied = 5
code unsupported = 6

pub data RegionState : Type 0 where
  invalid free owned blocked : RegionState

abbrev pub region_state_code : RegionState → ℕ
region_state_code invalid = 0
region_state_code free = 1
region_state_code owned = 2
region_state_code blocked = 3

pub data RegionType : Type 0 where
  sm_region untrusted_region enclave_region metadata_region : RegionType

-- `metadata_page_t`, the entries of a metadata region's page map.
pub data MetadataPage : Type 0 where
  page_invalid page_free page_enclave page_thread : MetadataPage

pub data MailboxState : Type 0 where
  unused empty full : MailboxState

-- `enclave_init_state_t`, in the order of its numbers.
pub data EnclaveInitState : Type 0 where
  created handler_loaded page_tables_loaded page_data_loaded initialized : EnclaveInitState

abbrev pub init_state_code : EnclaveInitState → ℕ
init_state_code created = 0
init_state_code handler_loaded = 1
init_state_code page_tables_loaded = 2
init_state_code page_data_loaded = 3
init_state_code initialized = 4

-- `region_map_t`
abbrev pub RegionMap : Type 0
RegionMap = ℕ → Bool

pub record Mailbox : Type 0 where
  pub state : MailboxState
  pub expected_sender : ℕ
  pub sender_measurement : Bytes
  pub message : Bytes

pub record EnclavePlatformCsr : Type 0 where
  pub ev_base : ℕ
  pub ev_mask : ℕ
  pub meparbase : ℕ
  pub meparmask : ℕ
  pub eptbr : ℕ

pub record ThreadPlatformCsr : Type 0 where
  pub ev_base : ℕ
  pub ev_mask : ℕ
  pub memrbm : ℕ
  pub meparbase : ℕ
  pub meparmask : ℕ
  pub eptbr : ℕ
  pub mie : ℕ
  pub mideleg : ℕ
  pub medeleg : ℕ

-- `hash_context` is the bytes of the vendored hash's context.
pub record EnclaveMetadata : Type 0 where
  pub init_state : EnclaveInitState
  pub last_phys_addr_loaded : ℕ
  pub hash_context : Bytes
  pub platform_csr : EnclavePlatformCsr
  pub num_mailboxes : ℕ  -- int64_t, as a 64-bit pattern
  pub debug : Bool
  pub measurement : Bytes
  pub public_key : Bytes
  pub secret_key : Bytes
  pub attestation : Bytes
  pub fault_pc : ℕ
  pub fault_sp_base : ℕ
  pub num_threads : ℕ  -- int64_t, as a 64-bit pattern
  pub regions : RegionMap
  pub mailboxes : ℕ → Mailbox

-- A core's integer registers.
abbrev pub CoreState : Type 0
CoreState = ℕ → ℕ

pub record ThreadMetadata : Type 0 where
  pub owner : ℕ
  pub entry_pc : ℕ
  pub entry_sp : ℕ
  pub is_scheduled : Bool
  pub untrusted_pc : ℕ
  pub untrusted_state : CoreState
  pub untrusted_fault_pc : ℕ
  pub untrusted_fault_sp : ℕ
  pub fault_state : CoreState
  pub aex_present : Bool
  pub aex_state : CoreState
  pub timer_limit : ℕ
  pub platform_csr : ThreadPlatformCsr

-- A lock is its `lock_flag`: true while some core holds it.
pub record SmCore : Type 0 where
  pub owner : ℕ
  pub thread : ℕ
  pub hls_ptr : ℕ
  pub mmrbm : ℕ
  pub memrbm : ℕ
  pub lock : Bool

pub record SmRegion : Type 0 where
  pub owner : ℕ
  pub type : RegionType
  pub state : RegionState
  pub lock : Bool

pub record SmKeys : Type 0 where
  pub manufacturer_public_key : Bytes
  pub device_public_key : Bytes
  pub device_signature : Bytes
  pub software_measurement : Bytes
  pub software_public_key : Bytes
  pub software_secret_key : Bytes
  pub software_signature : Bytes

pub record LlcSync : Type 0 where
  pub waiting : ℕ
  pub wait : Bool
  pub left : ℕ
  pub busy : Bool
  pub lock : Bool

pub record SmState : Type 0 where
  pub keys : SmKeys
  pub cores : ℕ → SmCore
  pub regions : ℕ → SmRegion
  pub untrusted_regions : RegionMap
  pub untrusted_mailboxes : ℕ → Mailbox
  pub llc_partitions : ℕ → ℕ
  pub llc_sync : LlcSync
  pub console_lock : Bool
  pub untrusted_state_lock : Bool

-- The control registers of a core that the monitor writes.
pub record Csrs : Type 0 where
  pub mmrbm : ℕ
  pub memrbm : ℕ
  pub mevbase : ℕ
  pub mevmask : ℕ
  pub meatp : ℕ
  pub meparbase : ℕ
  pub meparmask : ℕ
  pub mie : ℕ
  pub mideleg : ℕ
  pub medeleg : ℕ
  pub mstatus : ℕ
  pub mepc : ℕ
  pub mtvec : ℕ
  pub mscratch : ℕ

-- The monitor's state, the structures that it keeps in metadata regions, by address, the page maps
-- of the metadata regions, by region and page, the rest of the RAM in words of eight bytes, by the
-- address of the word, the memory of the running program, in bytes, by virtual address, the cores'
-- control registers and timers, and what was written to the control register of the cache.
pub record Machine : Type 0 where
  pub sm : SmState
  pub enclaves : ℕ → EnclaveMetadata
  pub threads : ℕ → ThreadMetadata
  pub page_info : ℕ → ℕ → MetadataPage
  pub words : ℕ → ℕ
  pub user : ℕ → ℕ
  pub csrs : ℕ → Csrs
  pub timecmp : ℕ → ℕ
  pub llc_control : List ℕ
  pub llc_loads : List ℕ

-- Memory that `memset` has zeroed, read as these structures.
abbrev pub zero_mailbox : Mailbox
zero_mailbox = record {
  state = unused;
  expected_sender = 0;
  sender_measurement = replicate 64 0;
  message = replicate mailbox_size 0;
}

abbrev pub zero_enclave : EnclaveMetadata
zero_enclave = record {
  init_state = created;
  last_phys_addr_loaded = 0;
  hash_context = replicate 208 0;
  platform_csr = record { ev_base = 0; ev_mask = 0; meparbase = 0; meparmask = 0; eptbr = 0 };
  num_mailboxes = 0;
  debug = false;
  measurement = replicate 64 0;
  public_key = replicate 32 0;
  secret_key = replicate 64 0;
  attestation = replicate 64 0;
  fault_pc = 0;
  fault_sp_base = 0;
  num_threads = 0;
  regions = λ _. false;
  mailboxes = λ _. zero_mailbox;
}

abbrev pub zero_thread : ThreadMetadata
zero_thread = record {
  owner = 0;
  entry_pc = 0;
  entry_sp = 0;
  is_scheduled = false;
  untrusted_pc = 0;
  untrusted_state = λ _. 0;
  untrusted_fault_pc = 0;
  untrusted_fault_sp = 0;
  fault_state = λ _. 0;
  aex_present = false;
  aex_state = λ _. 0;
  timer_limit = 0;
  platform_csr = record {
    ev_base = 0;
    ev_mask = 0;
    memrbm = 0;
    meparbase = 0;
    meparmask = 0;
    eptbr = 0;
    mie = 0;
    mideleg = 0;
    medeleg = 0;
  };
}
