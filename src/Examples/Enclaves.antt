-- ===== src/Examples/Enclaves.antt =====
-- The same machines, for the enclaves, the threads, the mail and the arithmetic.
use security_monitor.Mail.Accept.{accept_spec, mail_accept-eq-spec}
use security_monitor.Thread.Pages.{thread_load-delete}
use security_monitor.Prelude.{
  ℕ, ◌+◌, ◌*◌, ◌%◌, ◌≤◌, ◌<◌, ◌≡◌, refl, ◌∙◌, ◌≢◌, inr, true, false, [], arith, ◌==◌, replicate,
}
use security_monitor.Types.{
  page_size, num_regions, num_region_pages, mailbox_size, num_registers, owner_untrusted, RegionMap,
  Machine, monitor_ok, invalid_state, page_data_loaded, initialized,
}
use security_monitor.Address.{
  addr_to_region_id, region_id_to_addr, is_page_aligned, addr_to_region_page_id,
}
use security_monitor.Call.{returned}
use security_monitor.Metadata.{
  sizeof_enclave_metadata, sizeof_mailbox, enclave_metadata_pages, pages_free,
}
use security_monitor.Platform.{region_is_accessible, regions_to_bitmap}
use security_monitor.Memory.{read_user}
use security_monitor.Mail.{
  mailbox, mail_accept, receive_commit, mail_receive, send_commit, mail_send,
}
use security_monitor.Crypto.{plain}
use security_monitor.Thread.{load_commit, thread_load, delete_commit, thread_delete}
use security_monitor.Enclave.{enclave_create, init_commit, enclave_init}
use security_monitor.Enclave.Load.{Image}
use security_monitor.Enclave.Switch.{enter_commit, exit_commit}
use security_monitor.Enclave.Return.{enter-exit}
use security_monitor.Enclave.Seal.{
  init_spec, enclave_init-eq-spec, create_spec, enclave_create-eq-spec, enclave_init-closes,
}
use security_monitor.Thread.Atomic.{
  load_spec, thread_load-eq-spec, delete_spec, thread_delete-eq-spec,
}
use security_monitor.Metadata.Steps.{lock_status, metadata_status, free_pages_status}
use security_monitor.Metadata.Sizes.{enclave_metadata_pages-fits, address-region-page}
use security_monitor.Platform.Bitmap.{accessible-bitmap}
use security_monitor.Mail.Delivery.{receive_spec, mail_receive-eq-spec}
use security_monitor.Mail.Send.{send_spec, mail_send-eq-spec}
use security_monitor.Mail.Message.{mail_send-receive}
use security_monitor.Examples.Sample.{zero_csrs, sample_enclave, sample_thread, free_page, sample}

-- The register of a map.
abbrev odd_regions : RegionMap
odd_regions i = i % 2 == 1

accessible-bitmap_example : region_is_accessible (regions_to_bitmap odd_regions) 5 ≡ odd_regions 5
accessible-bitmap_example = accessible-bitmap odd_regions 5 (omega arith)

-- Addresses.
sample_thread-aligned : is_page_aligned sample_thread ≡ true
unfolding is_page_aligned
sample_thread-aligned = refl

address-region-page_example :
    (region_id_to_addr (addr_to_region_id sample_thread)
        + addr_to_region_page_id sample_thread * page_size
      ≡ sample_thread)
    × (addr_to_region_id sample_thread < num_regions)
    × (addr_to_region_page_id sample_thread < num_region_pages)
address-region-page_example =
    address-region-page sample_thread (omega arith) (omega arith) sample_thread-aligned

enclave_metadata_pages-fits_example :
    (sizeof_enclave_metadata + 12 * sizeof_mailbox ≤ enclave_metadata_pages 12 * page_size)
    × (enclave_metadata_pages 12 * page_size
        < sizeof_enclave_metadata + 12 * sizeof_mailbox + page_size)
enclave_metadata_pages-fits_example = enclave_metadata_pages-fits 12 (omega arith)

-- Enclaves and threads.
enclave_create-eq-spec_example :
    enclave_create plain free_page 0 0 1 false (sample initialized)
    ≡ create_spec plain free_page 0 0 1 false (sample initialized)
enclave_create-eq-spec_example =
    enclave_create-eq-spec plain free_page 0 0 1 false (sample initialized)

enclave_init-eq-spec_example :
    enclave_init plain sample_enclave (sample page_data_loaded)
    ≡ init_spec plain sample_enclave (sample page_data_loaded)
enclave_init-eq-spec_example = enclave_init-eq-spec plain sample_enclave (sample page_data_loaded)

abbrev closed : Machine
closed = init_commit plain sample_enclave (sample page_data_loaded)

init_spec_run :
    init_spec plain sample_enclave (sample page_data_loaded) ≡ returned monitor_ok closed
unfolding init_spec metadata_status lock_status addr_to_region_id addr_to_region_page_id
    is_page_aligned
init_spec_run = refl

enclave_init_run :
    enclave_init plain sample_enclave (sample page_data_loaded) ≡ returned monitor_ok closed
enclave_init_run =
    enclave_init-eq-spec plain sample_enclave (sample page_data_loaded) ∙ init_spec_run

enclave_init-closes_example :
    (((sample page_data_loaded).enclaves sample_enclave).init_state ≡ page_data_loaded)
    × ((closed.enclaves sample_enclave).measurement
        ≡ plain.hash_finalize ((sample page_data_loaded).enclaves sample_enclave).hash_context)
    × (enclave_init plain sample_enclave closed ≡ returned invalid_state closed)
    × ((t pc sp limit : ℕ)
        → thread_load plain sample_enclave t pc sp limit closed ≡ returned invalid_state closed)
enclave_init-closes_example =
    enclave_init-closes plain sample_enclave (sample page_data_loaded) closed enclave_init_run

thread_load-eq-spec_example :
    thread_load plain sample_enclave free_page 0x1000 0x2000 50 (sample page_data_loaded)
    ≡ load_spec plain sample_enclave free_page 0x1000 0x2000 50 (sample page_data_loaded)
thread_load-eq-spec_example =
    thread_load-eq-spec plain sample_enclave free_page 0x1000 0x2000 50 (sample page_data_loaded)

abbrev loaded : Machine
loaded = load_commit plain sample_enclave free_page 0x1000 0x2000 50 (sample page_data_loaded)

load_spec_run :
    load_spec plain sample_enclave free_page 0x1000 0x2000 50 (sample page_data_loaded)
    ≡ returned monitor_ok loaded
unfolding load_spec metadata_status free_pages_status lock_status pages_free addr_to_region_id
    addr_to_region_page_id is_page_aligned
load_spec_run = refl

thread_load_run :
    thread_load plain sample_enclave free_page 0x1000 0x2000 50 (sample page_data_loaded)
    ≡ returned monitor_ok loaded
thread_load_run =
    thread_load-eq-spec plain sample_enclave free_page 0x1000 0x2000 50 (sample page_data_loaded)
    ∙ load_spec_run

thread_load-delete_example :
    (thread_delete free_page loaded ≡ returned monitor_ok (delete_commit free_page loaded))
    × ((r p : ℕ)
        → (delete_commit free_page loaded).page_info r p ≡ (sample page_data_loaded).page_info r p)
    × (((delete_commit free_page loaded).enclaves sample_enclave).num_threads ≡ 1)
thread_load-delete_example =
    thread_load-delete plain sample_enclave free_page 0x1000 0x2000 50 (sample page_data_loaded)
      loaded thread_load_run refl (omega arith)

sample_region_lt : addr_to_region_id sample_enclave < num_regions
unfolding addr_to_region_id
sample_region_lt = omega arith

thread_delete-eq-spec_example :
    thread_delete sample_thread (sample initialized)
    ≡ delete_spec sample_thread (sample initialized)
thread_delete-eq-spec_example =
    thread_delete-eq-spec sample_thread (sample initialized) sample_region_lt

abbrev sample_image : Image
sample_image = record {
  handler_words = λ _. 0;
  handler_bytes = [];
  size_handler = 0;
  trap_vector_from_untrusted = 0x80000100;
  stack_ptr = 0x80030000;
}

abbrev entered : Machine
entered =
    enter_commit sample_image 0 sample_enclave sample_thread (λ i. i * i) 1000 (sample initialized)

abbrev left : Machine
left = exit_commit 0 false entered

enter-exit_example :
    ((left.sm.cores 0).owner ≡ owner_untrusted)
    × ((left.sm.cores 0).thread ≡ 0)
    × (record (left.csrs 0) { mstatus = 0; mtvec = 0; mscratch = 0 } ≡ zero_csrs)
    × ((left.sm.cores 0).memrbm ≡ 0)
    × ((i : ℕ)
        → i < num_registers
        → left.words ((left.threads sample_thread).untrusted_fault_sp + 8 * i) ≡ i * i)
enter-exit_example =
    enter-exit sample_image 0 sample_enclave sample_thread (λ i. i * i) 1000 (sample initialized)

core0_caller :
    ((sample initialized).sm.cores 0).owner ≢ owner_untrusted
    → addr_to_region_id ((sample initialized).sm.cores 0).owner < num_regions
core0_caller h = absurd (h refl)

mail_accept-eq-spec_example :
    mail_accept 0 3 sample_enclave (sample initialized)
    ≡ accept_spec 0 3 sample_enclave (sample initialized)
mail_accept-eq-spec_example =
    mail_accept-eq-spec 0 3 sample_enclave (sample initialized) core0_caller

-- Mail from the untrusted system to the enclave, which runs on the core 1.
abbrev sent : Machine
sent = send_commit owner_untrusted sample_enclave 1 0x500 (sample initialized)

send_spec_run : send_spec 0 sample_enclave 1 0x500 (sample initialized) ≡ returned monitor_ok sent
unfolding send_spec metadata_status lock_status addr_to_region_id addr_to_region_page_id
    is_page_aligned
send_spec_run = refl

mail_send-eq-spec_example :
    mail_send 0 sample_enclave 1 0x500 (sample initialized)
    ≡ send_spec 0 sample_enclave 1 0x500 (sample initialized)
mail_send-eq-spec_example =
    mail_send-eq-spec 0 sample_enclave 1 0x500 (sample initialized) core0_caller

core1_caller :
    (sent.sm.cores 1).owner ≢ owner_untrusted
    → addr_to_region_id (sent.sm.cores 1).owner < num_regions
unfolding send_commit
core1_caller h = sample_region_lt

mail_receive-eq-spec_example :
    mail_receive 1 1 0x900 0x1200 sent ≡ receive_spec 1 1 0x900 0x1200 sent
mail_receive-eq-spec_example = mail_receive-eq-spec 1 1 0x900 0x1200 sent core1_caller

abbrev received : Machine
received = receive_commit sample_enclave 1 0x900 0x1200 sent

receive_spec_run : receive_spec 1 1 0x900 0x1200 sent ≡ returned monitor_ok received
unfolding receive_spec send_commit addr_to_region_id
receive_spec_run = refl

mail_send_run : mail_send 0 sample_enclave 1 0x500 (sample initialized) ≡ returned monitor_ok sent
mail_send_run =
    mail_send-eq-spec 0 sample_enclave 1 0x500 (sample initialized) core0_caller ∙ send_spec_run

mail_receive_run : mail_receive 1 1 0x900 0x1200 sent ≡ returned monitor_ok received
mail_receive_run = mail_receive-eq-spec 1 1 0x900 0x1200 sent core1_caller ∙ receive_spec_run

sent_owner : (sent.sm.cores 1).owner ≡ sample_enclave
unfolding send_commit
sent_owner = refl

mail_send-receive_example :
    ((mailbox sample_enclave 1 (sample initialized)).expected_sender ≡ owner_untrusted)
    × (read_user received.user 0x900 mailbox_size
        ≡ read_user (sample initialized).user 0x500 mailbox_size)
    × (read_user received.user 0x1200 64 ≡ replicate 64 0)
mail_send-receive_example =
    mail_send-receive 0 1 sample_enclave 1 0x500 0x900 0x1200 (sample initialized) sent sent
      received core0_caller core1_caller mail_send_run sent_owner refl mail_receive_run refl
      (inr (omega arith))
