-- ===== src/Metadata/Steps.antt =====
-- The rules for the calls of `add_lock_region_iff_…` inside a transaction.
use security_monitor.Prelude.{
  ℕ, ◌+◌, ◌-◌, ◌%◌, ◌<◌, ◌≡◌, refl, fun_ext, ◌≢◌, ◌⊎◌, inl, inr, Bool, not, ◌||◌, arith, ◌==◌,
  if◌then◌else◌, ltb→lt, Bool-cases,
}
use security_monitor.Types.{
  word_mod, num_regions, owner_untrusted, ApiResult, MetadataPage, RegionMap, Machine, monitor_ok,
  invalid_value, invalid_state, concurrent_call, page_enclave,
}
use security_monitor.Address.{
  addr_to_region_id, is_valid_region_id, is_page_aligned, addr_to_region_page_id,
  is_valid_page_id_in_region,
}
use security_monitor.Call.{
  Frame, machine, Outcome, M, pure, ◌>>=◌, ◌>>◌, check_after, Result, finish, next, returned,
}
use security_monitor.Locks.{region_lock, unlock_region, unlock_regions}
use security_monitor.Metadata.{
  page_eq, is_ok, region_status, unlock_unless_ok, add_lock_region_iff, pages_free,
  add_lock_region_iff_valid_metadata, add_lock_region_iff_free_metadata_pages,
  lock_enclave_unless_untrusted,
}
use security_monitor.Locks.Held.{
  no_regions, hold, held, Taken, add, Machine-eq, unlock_regions-hold,
}
use security_monitor.Locks.Steps.{add_lock_region-held}

-- What the lock and the checks find, with the regions of `l` locked by the call.
unfoldable pub lock_status : Machine → RegionMap → ℕ → Bool → ApiResult
lock_status m l r pages_ok =
    if l r || not (region_lock m r) then region_status m r pages_ok else concurrent_call

unfoldable pub metadata_status : Machine → RegionMap → ℕ → MetadataPage → ApiResult
unfolding lock_status
metadata_status m l ptr ty =
    let r = addr_to_region_id ptr in
    if not (is_page_aligned ptr)
    then invalid_value
    else if not (is_valid_region_id r)
    then invalid_value
    else lock_status m l r (page_eq (m.page_info r (addr_to_region_page_id ptr)) ty)

unfoldable pub free_pages_status : Machine → RegionMap → ℕ → ℕ → ApiResult
unfolding lock_status
free_pages_status m l ptr n =
    let r = addr_to_region_id ptr in
    let page_id = addr_to_region_page_id ptr in
    if not (is_page_aligned ptr)
    then invalid_value
    else if not (is_valid_region_id r)
    then invalid_value
    else if not (is_valid_page_id_in_region ((page_id + n + word_mod - 1) % word_mod))
    then invalid_value
    else lock_status m l r (pages_free (m.page_info r) page_id n)

-- The frame after a refusal: past the lock, the region stays in `locked`, and it is unlocked only if
-- it was locked before.
abbrev pub refused : RegionMap → Bool → (ℕ → Bool) → Machine → ℕ → ApiResult → Frame
refused l u c m r invalid_state = record {
  machine = if l r then unlock_region r (hold (add l r) u c m) else hold (add l r) u c m;
  locked = add l r;
}
refused l u c m r _ = held l u c m

abbrev pub outcome :
    {R : Type 0} → RegionMap → Bool → (ℕ → Bool) → Machine → ℕ → ApiResult → Outcome R ApiResult
outcome l u c m r status =
    if is_ok status
    then next status (held (add l r) u c m)
    else next status (refused l u c m r status)

region_status-cases :
    (m : Machine) (r : ℕ) (ok : Bool)
    → (region_status m r ok ≡ monitor_ok) ⊎ (region_status m r ok ≡ invalid_state)
region_status-cases m r ok = ground arith

module _ {R : Type 0} (l : RegionMap) (u : Bool) (c : ℕ → Bool) (m : Machine) where
  unlock_unless_ok-held :
      (r : ℕ) (status : ApiResult)
      → (status ≡ monitor_ok) ⊎ (status ≡ invalid_state)
      → unlock_unless_ok {R = R} (l r) r status (held (add l r) u c m) ≡ outcome l u c m r status
  unfolding unlock_unless_ok held
  unlock_unless_ok-held r status (inl e) = rw e refl
  unlock_unless_ok-held r status (inr e) = elim (Bool-cases (l r)) [
    | inl a ↦ rw (e, a) refl
    | inr a ↦ rw (e, a) refl
  ]

  add_lock_region_iff-held :
      (r : ℕ) (ok : (ℕ → ℕ → MetadataPage) → Bool)
      → r < num_regions
      → add_lock_region_iff {R = R} r ok (held l u c m)
        ≡ outcome l u c m r (lock_status m l r (ok m.page_info))
  unfolding add_lock_region_iff lock_status ◌>>=◌ machine pure held
  add_lock_region_iff-held r ok v = elim (Bool-cases (l r || not (region_lock m r))) [
    | inl e ↦
        rw (◌>>=◌, add_lock_region-held l u c m r v, e)
          (unlock_unless_ok-held r _ (region_status-cases m r (ok m.page_info)))
    | inr e ↦ rw (◌>>=◌, add_lock_region-held l u c m r v, e) refl
  ]

  valid_metadata-held :
      (ptr : ℕ) (ty : MetadataPage)
      → add_lock_region_iff_valid_metadata {R = R} ptr ty (held l u c m)
        ≡ outcome l u c m (addr_to_region_id ptr) (metadata_status m l ptr ty)
  unfolding add_lock_region_iff_valid_metadata metadata_status pure
  valid_metadata-held ptr ty = elim (Bool-cases (is_page_aligned ptr)) [
    | inr a ↦ rw a refl
    | inl a ↦ elim (Bool-cases (is_valid_region_id (addr_to_region_id ptr))) [
      | inr b ↦ rw (a, b) refl
      | inl b ↦ rw (a, b) (add_lock_region_iff-held _ _ (ltb→lt _ _ b))
    ]
  ]

  free_pages-held :
      (ptr n : ℕ)
      → add_lock_region_iff_free_metadata_pages {R = R} ptr n (held l u c m)
        ≡ outcome l u c m (addr_to_region_id ptr) (free_pages_status m l ptr n)
  unfolding add_lock_region_iff_free_metadata_pages free_pages_status pure
  free_pages-held ptr n = elim (Bool-cases (is_page_aligned ptr)) [
    | inr a ↦ rw a refl
    | inl a ↦ elim (Bool-cases (is_valid_region_id (addr_to_region_id ptr))) [
      | inr b ↦ rw (a, b) refl
      | inl b ↦
          elim (Bool-cases (
            is_valid_page_id_in_region
              ((addr_to_region_page_id ptr + n + word_mod - 1) % word_mod))) [
                | inr d ↦ rw (a, b, d) refl
                | inl d ↦ rw (a, b, d) (add_lock_region_iff-held _ _ (ltb→lt _ _ b))
              ]
    ]
  ]

-- Past the lock, the region may be added to those taken.
lock_status-Taken :
    (m : Machine) (l : RegionMap) (r : ℕ) (ok : Bool)
    → r < num_regions
    → Taken l m
    → lock_status m l r ok ≢ concurrent_call
    → Taken (add l r) m
unfolding lock_status
lock_status-Taken m l r ok v t h j e = elim (Bool-cases (l r || not (region_lock m r))) [
  | inl a ↦ ground (arith, t r, t j)
  | inr a ↦ absurd (h (rw a refl))
]

abbrev PastLock : ApiResult → Type 0
PastLock status = (status ≡ monitor_ok) ⊎ (status ≡ invalid_state)

past-ne : (status : ApiResult) → PastLock status → status ≢ concurrent_call
past-ne status h e = ground arith

pub metadata_status-Taken :
    (m : Machine) (l : RegionMap) (ptr : ℕ) (ty : MetadataPage)
    → Taken l m
    → PastLock (metadata_status m l ptr ty)
    → Taken (add l (addr_to_region_id ptr)) m
unfolding metadata_status
metadata_status-Taken m l ptr ty t h = elim (Bool-cases (is_page_aligned ptr)) [
  | inr a ↦ absurd (no_status (rw a at h))
  | inl a ↦ elim (Bool-cases (is_valid_region_id (addr_to_region_id ptr))) [
    | inr b ↦ absurd (no_status (rw (a, b) at h))
    | inl b ↦ lock_status-Taken m l _ _ (ltb→lt _ _ b) t (past-ne _ (rw (a, b) at h))
  ]
]
  where
    no_status : PastLock invalid_value → ⊥
    no_status x = ground arith

pub free_pages_status-Taken :
    (m : Machine) (l : RegionMap) (ptr n : ℕ)
    → Taken l m
    → PastLock (free_pages_status m l ptr n)
    → Taken (add l (addr_to_region_id ptr)) m
unfolding free_pages_status
free_pages_status-Taken m l ptr n t h = elim (Bool-cases (is_page_aligned ptr)) [
  | inr a ↦ absurd (no_status (rw a at h))
  | inl a ↦ elim (Bool-cases (is_valid_region_id (addr_to_region_id ptr))) [
    | inr b ↦ absurd (no_status (rw (a, b) at h))
    | inl b ↦
        elim (Bool-cases (
          is_valid_page_id_in_region
            ((addr_to_region_page_id ptr + n + word_mod - 1) % word_mod))) [
              | inr d ↦ absurd (no_status (rw (a, b, d) at h))
              | inl d ↦ lock_status-Taken m l _ _ (ltb→lt _ _ b) t (past-ne _ (rw (a, b, d) at h))
            ]
  ]
]
  where
    no_status : PastLock invalid_value → ⊥
    no_status x = ground arith

-- A call with the outcomes above, and the early return behind it.
outcome-step :
    {R : Type 0} (l : RegionMap) (u : Bool) (c : ℕ → Bool) (m : Machine) (r : ℕ)
    (status : ApiResult) (r0 : R) (x : M R ApiResult) (f : Frame)
    (before : Machine → RegionMap → Machine) (answer : ApiResult → R) (k : M R (Unit {0}))
    {s t : Result R}
    → x f ≡ outcome l u c m r status
    → (status ≡ monitor_ok → finish r0 (k (held (add l r) u c m)) ≡ s)
    → (let g = refused l u c m r status in returned (answer status) (before g.machine g.locked) ≡ t)
    → finish r0 ((x >>= λ result. check_after (is_ok result) before (answer result) >> k) f)
      ≡ (if is_ok status then s else t)
unfolding check_after ◌>>=◌ ◌>>◌
outcome-step l u c m r monitor_ok r0 x f before answer k e p q = rw (e, ◌>>=◌, finish) (p refl)
outcome-step l u c m r _ r0 x f before answer k e p q = rw (e, ◌>>=◌, finish) q

module _ {R : Type 0} (l : RegionMap) (u : Bool) (c : ℕ → Bool) (m : Machine) (r0 : R) (ptr : ℕ)
    (before : Machine → RegionMap → Machine) (answer : ApiResult → R) (k : M R (Unit {0})) where
  pub valid_metadata-step :
      (ty : MetadataPage) {s t : Result R}
      → Taken l m
      → (Taken (add l (addr_to_region_id ptr)) m
          → finish r0 (k (held (add l (addr_to_region_id ptr)) u c m)) ≡ s)
      → (let g = refused l u c m (addr_to_region_id ptr) (metadata_status m l ptr ty) in
          returned (answer (metadata_status m l ptr ty)) (before g.machine g.locked) ≡ t)
      → finish r0 (
          (add_lock_region_iff_valid_metadata ptr ty >>= λ result.
          check_after (is_ok result) before (answer result) >> k)
            (held l u c m))
        ≡ (if is_ok (metadata_status m l ptr ty) then s else t)
  valid_metadata-step ty t p q =
      outcome-step l u c m _ _ r0 _ _ before answer k (valid_metadata-held l u c m ptr ty)
        (λ e. p (metadata_status-Taken m l ptr ty t (inl e))) q

  pub free_pages-step :
      (n : ℕ) {s t : Result R}
      → Taken l m
      → (Taken (add l (addr_to_region_id ptr)) m
          → finish r0 (k (held (add l (addr_to_region_id ptr)) u c m)) ≡ s)
      → (let g = refused l u c m (addr_to_region_id ptr) (free_pages_status m l ptr n) in
          returned (answer (free_pages_status m l ptr n)) (before g.machine g.locked) ≡ t)
      → finish r0 (
          (add_lock_region_iff_free_metadata_pages ptr n >>= λ result.
          check_after (is_ok result) before (answer result) >> k)
            (held l u c m))
        ≡ (if is_ok (free_pages_status m l ptr n) then s else t)
  free_pages-step n t p q =
      outcome-step l u c m _ _ r0 _ _ before answer k (free_pages-held l u c m ptr n)
        (λ e. p (free_pages_status-Taken m l ptr n t (inl e))) q

-- Unlocking the regions after a refusal leaves the other locks, whichever check refused.
pub unlock_regions-refused :
    (l : RegionMap) (u : Bool) (c : ℕ → Bool) (m : Machine) (r : ℕ) (status : ApiResult)
    → Taken l m
    → (status ≡ invalid_state → Taken (add l r) m)
    → (let g = refused l u c m r status in unlock_regions g.machine g.locked)
      ≡ hold no_regions u c m
unfolding hold held
unlock_regions-refused l u c m r invalid_state t more = elim (Bool-cases (l r)) [
  | inl a ↦ rw a (Machine-eq m (fun_ext λ i. ground (arith, t i, more refl i)) refl refl)
  | inr a ↦ rw a (Machine-eq m (fun_ext λ i. ground (arith, t i, more refl i)) refl refl)
]
unlock_regions-refused l u c m r _ t more = unlock_regions-hold l u c m t

-- The same for `lock_enclave_unless_untrusted`.
unfoldable pub owner_status : Machine → RegionMap → ℕ → ApiResult
owner_status m l owner =
    if owner == owner_untrusted then monitor_ok else metadata_status m l owner page_enclave

-- The regions locked when the owner's metadata is, if there are any.
abbrev pub add_owner : RegionMap → ℕ → RegionMap
add_owner l owner = if owner == owner_untrusted then l else add l (addr_to_region_id owner)

abbrev pub owner_refused : RegionMap → Bool → (ℕ → Bool) → Machine → ℕ → Frame
owner_refused l u c m owner = refused l u c m (addr_to_region_id owner) (owner_status m l owner)

module _ {R : Type 0} (l : RegionMap) (u : Bool) (c : ℕ → Bool) (m : Machine) (r0 : R) (owner : ℕ)
    (before : Machine → RegionMap → Machine) (answer : ApiResult → R) (k : M R (Unit {0})) where
  pub lock_enclave_unless_untrusted-step :
      {s t : Result R}
      → Taken l m
      → (Taken (add_owner l owner) m → finish r0 (k (held (add_owner l owner) u c m)) ≡ s)
      → (let g = owner_refused l u c m owner in
          returned (answer (owner_status m l owner)) (before g.machine g.locked) ≡ t)
      → finish r0 (
          (lock_enclave_unless_untrusted owner >>= λ result.
          check_after (is_ok result) before (answer result) >> k)
            (held l u c m))
        ≡ (if is_ok (owner_status m l owner) then s else t)
  unfolding lock_enclave_unless_untrusted owner_status ◌>>=◌ ◌>>◌ pure check_after
  lock_enclave_unless_untrusted-step t p q = elim (Bool-cases (owner == owner_untrusted)) [
    | inl a ↦ rw a ((rw a at p) t)
    | inr a ↦ rw a (
        valid_metadata-step l u c m r0 owner before answer k page_enclave t (rw a at p) (rw a at q))
  ]

owner_refused-Taken :
    (m : Machine) (l : RegionMap) (owner : ℕ)
    → Taken l m
    → owner_status m l owner ≡ invalid_state
    → Taken (add l (addr_to_region_id owner)) m
unfolding owner_status
owner_refused-Taken m l owner t e = elim (Bool-cases (owner == owner_untrusted)) [
  | inl a ↦ absurd (no_status (rw a at e))
  | inr a ↦ metadata_status-Taken m l owner page_enclave t (inr (rw a at e))
]
  where
    no_status : monitor_ok ≡ invalid_state → ⊥
    no_status x = cc

module _ (l : RegionMap) (u : Bool) (c : ℕ → Bool) (m : Machine) (t : Taken l m) where
  pub unlock_regions-metadata_refused :
      (ptr : ℕ) (ty : MetadataPage)
      → (let g = refused l u c m (addr_to_region_id ptr) (metadata_status m l ptr ty) in
          unlock_regions g.machine g.locked)
        ≡ hold no_regions u c m
  unlock_regions-metadata_refused ptr ty =
      unlock_regions-refused l u c m _ _ t (λ e. metadata_status-Taken m l ptr ty t (inr e))

  pub unlock_regions-pages_refused :
      (ptr n : ℕ)
      → (let g = refused l u c m (addr_to_region_id ptr) (free_pages_status m l ptr n) in
          unlock_regions g.machine g.locked)
        ≡ hold no_regions u c m
  unlock_regions-pages_refused ptr n =
      unlock_regions-refused l u c m _ _ t (λ e. free_pages_status-Taken m l ptr n t (inr e))

  pub unlock_regions-owner_refused :
      (owner : ℕ)
      → (let g = owner_refused l u c m owner in unlock_regions g.machine g.locked)
        ≡ hold no_regions u c m
  unlock_regions-owner_refused owner =
      unlock_regions-refused l u c m _ _ t (owner_refused-Taken m l owner t)
