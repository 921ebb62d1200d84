-- ===== src/Thread/Pages.antt =====
-- A thread's page: claimed when the thread is loaded, and given back when it is deleted.
use security_monitor.Prelude.{
  ℕ, ◌+◌, ◌<◌, ◌≡◌, refl, sym, ◌∙◌, true, false, not, ◌||◌, arith, ◌==◌, if◌then◌else◌, lt→ltb,
  update, fill-at,
}
use security_monitor.Types.{
  word_mod, num_regions, MetadataPage, RegionMap, Machine, monitor_ok, page_invalid, page_free,
  page_enclave, page_thread,
}
use security_monitor.Address.{addr_to_region_id, is_page_aligned, addr_to_region_page_id}
use security_monitor.Call.{returned}
use security_monitor.Locks.{region_lock}
use security_monitor.Metadata.{thread_metadata_pages, page_eq, is_metadata, is_owned, pages_free}
use security_monitor.Crypto.{Crypto}
use security_monitor.Thread.{load_commit, thread_load, delete_commit, thread_delete}
use security_monitor.Metadata.Steps.{lock_status, metadata_status, free_pages_status}
use security_monitor.Thread.Atomic.{
  load_spec, thread_load-eq-spec, delete_spec, thread_delete-eq-spec,
}
use security_monitor.Locks.Held.{no_regions, add}

metadata_status-ok :
    (m : Machine) (ptr : ℕ) (ty : MetadataPage)
    → metadata_status m no_regions ptr ty ≡ monitor_ok
    → (addr_to_region_id ptr < num_regions) × (region_lock m (addr_to_region_id ptr) ≡ false)
unfolding metadata_status lock_status
metadata_status-ok m ptr ty e = ground arith

-- What the checks of the pages of a thread have found.
record Claimable (m : Machine) (l : RegionMap) (t : ℕ) : Type 0 where
  aligned : is_page_aligned t ≡ true
  inside : addr_to_region_id t < num_regions
  lock : (l (addr_to_region_id t) || not (region_lock m (addr_to_region_id t))) ≡ true
  type : is_metadata (m.sm.regions (addr_to_region_id t)).type ≡ true
  state : is_owned (m.sm.regions (addr_to_region_id t)).state ≡ true
  page : m.page_info (addr_to_region_id t) (addr_to_region_page_id t) ≡ page_free

page_eq-free : (p : MetadataPage) → page_eq p page_free ≡ true → p ≡ page_free
page_eq-free p e = ground arith

free_pages_status-Claimable :
    (m : Machine) (l : RegionMap) (t : ℕ)
    → free_pages_status m l t thread_metadata_pages ≡ monitor_ok
    → Claimable m l t
unfolding free_pages_status lock_status pages_free
free_pages_status-Claimable m l t e =
    let p : MetadataPage = m.page_info (addr_to_region_id t) (addr_to_region_page_id t) in
    ground (arith, page_eq-free p)

module _ (c : Crypto) (e t pc sp limit : ℕ) where
  load_spec-ok :
      (m n : Machine)
      → load_spec c e t pc sp limit m ≡ returned monitor_ok n
      → (metadata_status m no_regions e page_enclave ≡ monitor_ok)
        × (free_pages_status m (add no_regions (addr_to_region_id e)) t thread_metadata_pages
            ≡ monitor_ok)
        × (n ≡ load_commit c e t pc sp limit m)
  unfolding load_spec
  load_spec-ok m n h = ground arith

  load_commit-page :
      (m : Machine) (r p : ℕ)
      → (load_commit c e t pc sp limit m).page_info r p ≡ (
          if r == addr_to_region_id t
          then (if p == addr_to_region_page_id t then page_thread else m.page_info r p)
          else m.page_info r p)
  unfolding load_commit
  load_commit-page m r p =
      let a : ℕ = addr_to_region_page_id t in
      let f : ℕ → MetadataPage = update (m.page_info (addr_to_region_id t)) a page_thread in
      ground (arith, fill-at f (a + 1) 0 page_invalid p)

  found_status :
      (n : Machine)
      → is_page_aligned t ≡ true
      → addr_to_region_id t < num_regions
      → region_lock n (addr_to_region_id t) ≡ false
      → is_metadata (n.sm.regions (addr_to_region_id t)).type ≡ true
      → is_owned (n.sm.regions (addr_to_region_id t)).state ≡ true
      → n.page_info (addr_to_region_id t) (addr_to_region_page_id t) ≡ page_thread
      → metadata_status n no_regions t page_thread ≡ monitor_ok
  unfolding metadata_status lock_status
  found_status n a b l y s g = rw (a, lt→ltb _ _ b, l, g) (ground arith)

  load_commit-status :
      (m : Machine)
      → Claimable m (add no_regions (addr_to_region_id e)) t
      → region_lock m (addr_to_region_id e) ≡ false
      → metadata_status (load_commit c e t pc sp limit m) no_regions t page_thread ≡ monitor_ok
  unfolding load_commit
  load_commit-status m k u =
      found_status (load_commit c e t pc sp limit m) k.aligned k.inside (ground (arith, k)) k.type
        k.state (load_commit-page m (addr_to_region_id t) (addr_to_region_page_id t) ∙ ground arith)

  load_commit-thread :
      (m : Machine)
      → (((load_commit c e t pc sp limit m).threads t).owner ≡ e)
        × (((load_commit c e t pc sp limit m).threads t).is_scheduled ≡ (m.threads t).is_scheduled)
  unfolding load_commit
  load_commit-thread m = (ground arith, ground arith)

  delete_spec-eq :
      (n : Machine)
      → metadata_status n no_regions t page_thread ≡ monitor_ok
      → region_lock n (addr_to_region_id (n.threads t).owner) ≡ false
      → (n.threads t).is_scheduled ≡ false
      → delete_spec t n ≡ returned monitor_ok (delete_commit t n)
  unfolding delete_spec
  delete_spec-eq n a b d = ground arith

  undo-pages :
      (m : Machine) (r p : ℕ)
      → m.page_info (addr_to_region_id t) (addr_to_region_page_id t) ≡ page_free
      → (delete_commit t (load_commit c e t pc sp limit m)).page_info r p ≡ m.page_info r p
  unfolding delete_commit
  undo-pages m r p h =
      let n : Machine = load_commit c e t pc sp limit m in
      ground (
        arith,
        fill-at (n.page_info (addr_to_region_id t)) (addr_to_region_page_id t) thread_metadata_pages
            page_free p,
        load_commit-page m r p,
        load_commit-page m (addr_to_region_id t) p,
      )

  undo-count :
      (m : Machine)
      → (m.enclaves e).num_threads < word_mod
      → ((delete_commit t (load_commit c e t pc sp limit m)).enclaves e).num_threads
        ≡ (m.enclaves e).num_threads
  unfolding delete_commit load_commit
  undo-count m h = ground arith

  load_commit-sm : (m : Machine) → (load_commit c e t pc sp limit m).sm ≡ m.sm
  unfolding load_commit
  load_commit-sm m = refl

  -- A thread that was loaded can be deleted at once, if its structure was not marked as running: the
  -- deletion succeeds, and puts back every page map and the enclave's count of threads, which is a
  -- 64-bit number.
  pub thread_load-delete :
      (m n : Machine)
      → thread_load c e t pc sp limit m ≡ returned monitor_ok n
      → (m.threads t).is_scheduled ≡ false
      → (m.enclaves e).num_threads < word_mod
      → (thread_delete t n ≡ returned monitor_ok (delete_commit t n))
        × ((r p : ℕ) → (delete_commit t n).page_info r p ≡ m.page_info r p)
        × (((delete_commit t n).enclaves e).num_threads ≡ (m.enclaves e).num_threads)
  thread_load-delete m n h idle small =
      let (a, b, q) = load_spec-ok m n (sym (thread_load-eq-spec c e t pc sp limit m) ∙ h) in
      let (inside, unlocked) = metadata_status-ok m e page_enclave a in
      let k = free_pages_status-Claimable m _ t b in
      let x : Machine = load_commit c e t pc sp limit m in
      let (owner, scheduled) = load_commit-thread m in
      rw q (
        thread_delete-eq-spec t x (rw owner inside)
            ∙ delete_spec-eq x (load_commit-status m k unlocked)
                (rw (owner, load_commit-sm m) unlocked) (scheduled ∙ idle),
        (λ r p. undo-pages m r p k.page),
        undo-count m small,
      )
