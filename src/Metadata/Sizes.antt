-- ===== src/Metadata/Sizes.antt =====
-- How many pages a structure takes, and where an address lies.
use security_monitor.Prelude.{
  ℕ, ◌+◌, ◌*◌, ◌%◌, ◌^◌, ◌≤◌, ◌<◌, ◌≡◌, ◌⊎◌, inl, inr, true, false, arith,
}
use security_monitor.Types.{word_mod, page_size, ram_base, ram_size, num_regions, num_region_pages}
use security_monitor.Address.{
  addr_to_region_id, region_id_to_addr, is_valid_region_id, is_page_aligned, addr_to_region_page_id,
}
use security_monitor.Metadata.{sizeof_enclave_metadata, sizeof_mailbox, enclave_metadata_pages}

-- For a number of mailboxes below 2 ^ 52, the pages of an enclave's structure hold it, and one page
-- fewer would not.
pub enclave_metadata_pages-fits :
    (n : ℕ)
    → n < 2 ^ 52
    → (sizeof_enclave_metadata + n * sizeof_mailbox ≤ enclave_metadata_pages n * page_size)
      × (enclave_metadata_pages n * page_size
          < sizeof_enclave_metadata + n * sizeof_mailbox + page_size)
unfolding enclave_metadata_pages
enclave_metadata_pages-fits n h = (omega arith, omega arith)

-- A page-aligned address of the RAM is its region's address and its page's offset there; its region
-- and its page are in range.
pub address-region-page :
    (a : ℕ)
    → ram_base ≤ a
    → a < ram_base + ram_size
    → is_page_aligned a ≡ true
    → (region_id_to_addr (addr_to_region_id a) + addr_to_region_page_id a * page_size ≡ a)
      × (addr_to_region_id a < num_regions)
      × (addr_to_region_page_id a < num_region_pages)
unfolding addr_to_region_id addr_to_region_page_id region_id_to_addr is_page_aligned
address-region-page a h k e =
    let p : a % page_size ≡ 0 = ground arith in (omega arith, omega arith, omega arith)

-- An address outside the RAM has no region.
pub outside-no_region :
    (a : ℕ)
    → a < word_mod
    → (a < ram_base) ⊎ (ram_base + ram_size ≤ a)
    → is_valid_region_id (addr_to_region_id a) ≡ false
unfolding addr_to_region_id
outside-no_region a h (inl b) = ground arith
outside-no_region a h (inr b) = ground arith
