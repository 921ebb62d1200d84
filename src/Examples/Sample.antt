-- ===== src/Examples/Sample.antt =====
-- The machines of the examples: one whose memory is zeroed, and one with an enclave and a thread in the
-- metadata region 2, a blocked region 3 and a free region 4.
use security_monitor.Prelude.{
  ℕ, zero, suc, ◌%◌, ◌≡◌, refl, Bool, true, false, Option, none, some, [], arith, leb, ◌==◌,
  if◌then◌else◌,
}
use security_monitor.Types.{
  owner_untrusted, owner_sm, MetadataPage, EnclaveInitState, Mailbox, SmRegion, SmKeys, Csrs,
  Machine, zero_mailbox, zero_enclave, zero_thread, invalid, free, owned, blocked, sm_region,
  untrusted_region, metadata_region, page_invalid, page_free, page_enclave, page_thread, empty,
}

abbrev pub zero_csrs : Csrs
zero_csrs = record {
  mmrbm = 0;
  memrbm = 0;
  mevbase = 0;
  mevmask = 0;
  meatp = 0;
  meparbase = 0;
  meparmask = 0;
  mie = 0;
  mideleg = 0;
  medeleg = 0;
  mstatus = 0;
  mepc = 0;
  mtvec = 0;
  mscratch = 0;
}

abbrev pub zero_keys : SmKeys
zero_keys = record {
  manufacturer_public_key = [];
  device_public_key = [];
  device_signature = [];
  software_measurement = [];
  software_public_key = [];
  software_secret_key = [];
  software_signature = [];
}

abbrev pub zero_machine : Machine
zero_machine = record {
  sm = record {
    keys = zero_keys;
    cores = λ _. record { owner = 0; thread = 0; hls_ptr = 0; mmrbm = 0; memrbm = 0; lock = false };
    regions = λ _. record { owner = 0; type = sm_region; state = invalid; lock = false };
    untrusted_regions = λ _. false;
    untrusted_mailboxes = λ _. zero_mailbox;
    llc_partitions = λ _. 0;
    llc_sync = record { waiting = 0; wait = false; left = 0; busy = false; lock = false };
    console_lock = false;
    untrusted_state_lock = false;
  };
  enclaves = λ _. zero_enclave;
  threads = λ _. zero_thread;
  page_info = λ _ _. page_invalid;
  words = λ _. 0;
  user = λ _. 0;
  csrs = λ _. zero_csrs;
  timecmp = λ _. 0;
  llc_control = [];
  llc_loads = [];
}

-- The page 3 of the region 2, the first that can hold a structure, and the page after it.
abbrev pub sample_enclave : ℕ
sample_enclave = 0x84003000

abbrev pub sample_thread : ℕ
sample_thread = 0x84004000

abbrev pub free_page : ℕ
free_page = 0x84005000

abbrev pub sample_regions : ℕ → SmRegion
sample_regions zero = record { owner = owner_sm; type = sm_region; state = owned; lock = false }
sample_regions (suc (suc zero)) = record {
  owner = owner_sm;
  type = metadata_region;
  state = owned;
  lock = false;
}
sample_regions (suc (suc (suc zero))) = record {
  owner = owner_sm;
  type = untrusted_region;
  state = blocked;
  lock = false;
}
sample_regions (suc (suc (suc (suc zero)))) = record {
  owner = owner_sm;
  type = untrusted_region;
  state = free;
  lock = false;
}
sample_regions _ = record {
  owner = owner_untrusted;
  type = untrusted_region;
  state = owned;
  lock = false;
}

abbrev pub sample_pages : ℕ → MetadataPage
sample_pages zero = page_invalid
sample_pages (suc zero) = page_invalid
sample_pages (suc (suc zero)) = page_invalid
sample_pages (suc (suc (suc zero))) = page_enclave
sample_pages (suc (suc (suc (suc zero)))) = page_thread
sample_pages _ = page_free

-- The mailbox is open for the untrusted system.
abbrev pub open_mailbox : Mailbox
open_mailbox = record zero_mailbox { state = empty; expected_sender = owner_untrusted }

abbrev pub sample : EnclaveInitState → Machine
sample state = record zero_machine {
  sm = record zero_machine.sm {
    cores = λ i. record {
      owner = if i == 0 then owner_untrusted else sample_enclave;
      thread = 0;
      hls_ptr = 0;
      mmrbm = 0;
      memrbm = 0;
      lock = false;
    };
    regions = sample_regions;
    untrusted_regions = λ i. if i == 0 then false else if leb i 4 then i == 1 else true;
    untrusted_mailboxes = λ _. open_mailbox;
  };
  enclaves = λ _. record zero_enclave {
    init_state = state;
    num_mailboxes = 2;
    num_threads = 1;
    mailboxes = λ _. open_mailbox;
  };
  threads = λ _. record zero_thread { owner = sample_enclave };
  page_info = λ _. sample_pages;
  user = λ a. a % 256;
}

-- The machine after a trap that ends.
abbrev pub or_same : Machine → Option Machine → Machine
or_same m none = m
or_same m (some n) = n

abbrev pub ends : Option Machine → Bool
ends none = false
ends (some n) = true

pub ends_lem : (m : Machine) (o : Option Machine) → ends o ≡ true → o ≡ some (or_same m o)
ends_lem m none e = absurd (ground arith)
ends_lem m (some n) e = refl
