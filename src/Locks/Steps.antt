-- ===== src/Locks/Steps.antt =====
-- One rule for each statement of a transaction: if what follows it gives `s` on each outcome, the
-- whole gives the test of the statement with those results, and no lock in it.
use security_monitor.Prelude.{
  ℕ, ◌<◌, ◌≡◌, refl, sym, ap, fun_ext, inl, inr, Bool, true, false, not, ◌||◌, arith, if◌then◌else◌,
  lt→ltb, Bool-cases,
}
use security_monitor.Types.{num_regions, num_cores, RegionMap, Machine}
use security_monitor.Call.{
  Frame, machine, M, ◌>>=◌, ◌>>◌, modify, check_after, Result, finish, leave, after, next, returned,
}
use security_monitor.Locks.{
  region_lock, core_lock, untrusted_lock, put_region_lock, put_core_lock, lock_region, lock_core,
  lock_untrusted_state, add_lock_region,
}
use security_monitor.Locks.Held.{no_regions, hold, held, Taken, add, Machine-eq}

-- A test, and the early return behind it.
pub check_after-step :
    {R : Type 0} (r0 r : R) (b : Bool) (before : Machine → RegionMap → Machine) (k : M R (Unit {0}))
    (f : Frame) {s t : Result R}
    → (b ≡ true → finish r0 (k f) ≡ s)
    → returned r (before f.machine f.locked) ≡ t
    → finish r0 ((check_after b before r >> k) f) ≡ (if b then s else t)
unfolding check_after ◌>>=◌ ◌>>◌
check_after-step r0 r true before k f p q = p refl
check_after-step r0 r false before k f p q = q

-- A statement with two outcomes, and the test of its value behind it.
acquire :
    {R : Type 0} (r0 r : R) (x : M R Bool) (b : Bool) (before : Machine → RegionMap → Machine)
    (k : M R (Unit {0})) (f g h : Frame) {s t : Result R}
    → x f ≡ (if b then next true g else next false h)
    → (b ≡ true → finish r0 (k g) ≡ s)
    → returned r (before h.machine h.locked) ≡ t
    → finish r0 ((x >>= λ got. check_after got before r >> k) f) ≡ (if b then s else t)
unfolding check_after ◌>>=◌ ◌>>◌
acquire r0 r x true before k f g h e p q = rw (e, ◌>>=◌, finish) (p refl)
acquire r0 r x false before k f g h e p q = rw (e, ◌>>=◌, finish) q

module _ (l : RegionMap) (u : Bool) (c : ℕ → Bool) (m : Machine) where
  pub machine-step :
      {R : Type 0} (r0 : R) (k : Machine → M R (Unit {0})) {s : Result R}
      → finish r0 (k (hold l u c m) (held l u c m)) ≡ s
      → finish r0 ((machine >>= k) (held l u c m)) ≡ s
  unfolding machine ◌>>=◌ held
  machine-step r0 k p = p

  hold-region_again :
      (i : ℕ) → region_lock m i ≡ true → put_region_lock i true (hold l u c m) ≡ hold l u c m
  unfolding hold
  hold-region_again i h = Machine-eq m (fun_ext λ j. ground arith) refl refl

  hold-region : (i : ℕ) → put_region_lock i true (hold l u c m) ≡ hold (add l i) u c m
  unfolding hold
  hold-region i = Machine-eq m (fun_ext λ j. ground arith) refl refl

  hold-core_again :
      (i : ℕ) → core_lock m i ≡ true → put_core_lock i true (hold l u c m) ≡ hold l u c m
  unfolding hold
  hold-core_again i h = Machine-eq m refl (fun_ext λ j. ground arith) refl

  hold-core : (i : ℕ) → put_core_lock i true (hold l u c m) ≡ hold l u (add c i) m
  unfolding hold
  hold-core i = Machine-eq m refl (fun_ext λ j. ground arith) refl

  add-same : (i : ℕ) → l i ≡ true → held (add l i) u c m ≡ held l u c m
  add-same i h = ap (λ x. held x u c m) (fun_ext λ j. ground arith)

  pub add_lock_region-held :
      {R : Type 0} (i : ℕ)
      → i < num_regions
      → add_lock_region {R = R} i (held l u c m) ≡ (
          if l i || not (region_lock m i)
          then next true (held (add l i) u c m)
          else next false (held l u c m))
  unfolding add_lock_region lock_region ◌>>=◌ held hold
  add_lock_region-held i v = elim (Bool-cases (l i)) [
    | inl a ↦ rw (lt→ltb i num_regions v, a) (ap (next true) (sym (add-same i a)))
    | inr a ↦ elim (Bool-cases (region_lock m i)) [
      | inl e ↦
          rw (lt→ltb i num_regions v, ◌>>=◌, lock_region, a, e)
            (ap (λ x. next false (record { machine = x; locked = l })) (hold-region_again i e))
      | inr e ↦
          rw (lt→ltb i num_regions v, ◌>>=◌, lock_region, a, e)
            (ap (λ x. next true (record { machine = x; locked = add l i })) (hold-region i))
    ]
  ]

  pub lock_core-held :
      {R : Type 0} (i : ℕ)
      → i < num_cores
      → c i ≡ false
      → lock_core {R = R} i (held l u c m) ≡ (
          if not (core_lock m i)
          then next true (held l u (add c i) m)
          else next false (held l u c m))
  unfolding lock_core held hold
  lock_core-held i v a = elim (Bool-cases (core_lock m i)) [
    | inl e ↦
        rw (lt→ltb i num_cores v, a, e)
          (ap (λ x. next false (record { machine = x; locked = l })) (hold-core_again i e))
    | inr e ↦
        rw (lt→ltb i num_cores v, a, e)
          (ap (λ x. next true (record { machine = x; locked = l })) (hold-core i))
  ]

  lock_untrusted_state-held :
      {R : Type 0}
      → u ≡ false
      → lock_untrusted_state {R = R} (held l u c m) ≡ (
          if not (untrusted_lock m) then next true (held l true c m) else next false (held l u c m))
  unfolding lock_untrusted_state held hold
  lock_untrusted_state-held a = elim (Bool-cases (untrusted_lock m)) [
    | inl e ↦ rw (a, e) refl
    | inr e ↦ rw (a, e) refl
  ]

  more-Taken :
      (i : ℕ)
      → i < num_regions
      → Taken l m
      → l i || not (region_lock m i) ≡ true
      → Taken (add l i) m
  more-Taken i v t e j h = ground (arith, t i, t j)

  -- `add_lock_region`, and the early return when the lock is held.
  pub add_lock_region-step :
      {R : Type 0} (r0 r : R) (i : ℕ) (before : Machine → RegionMap → Machine) (k : M R (Unit {0}))
      {s t : Result R}
      → Taken l m
      → i < num_regions
      → (Taken (add l i) m → finish r0 (k (held (add l i) u c m)) ≡ s)
      → returned r (before (hold l u c m) l) ≡ t
      → finish r0 ((add_lock_region i >>= λ got. check_after got before r >> k) (held l u c m))
        ≡ (if l i || not (region_lock m i) then s else t)
  unfolding held
  add_lock_region-step r0 r i before k t v p q =
      acquire r0 r _ _ before k _ _ _ (add_lock_region-held i v) (λ e. p (more-Taken i v t e)) q

  pub lock_core-step :
      {R : Type 0} (r0 r : R) (i : ℕ) (before : Machine → RegionMap → Machine) (k : M R (Unit {0}))
      {s t : Result R}
      → i < num_cores
      → c i ≡ false
      → (core_lock m i ≡ false → finish r0 (k (held l u (add c i) m)) ≡ s)
      → returned r (before (hold l u c m) l) ≡ t
      → finish r0 ((lock_core i >>= λ got. check_after got before r >> k) (held l u c m))
        ≡ (if not (core_lock m i) then s else t)
  unfolding held
  lock_core-step r0 r i before k v a p q =
      acquire r0 r _ _ before k _ _ _ (lock_core-held i v a) (λ e. p (ground arith)) q

  pub lock_untrusted_state-step :
      {R : Type 0} (r0 r : R) (before : Machine → RegionMap → Machine) (k : M R (Unit {0}))
      {s t : Result R}
      → u ≡ false
      → (untrusted_lock m ≡ false → finish r0 (k (held l true c m)) ≡ s)
      → returned r (before (hold l u c m) l) ≡ t
      → finish r0 ((lock_untrusted_state >>= λ got. check_after got before r >> k) (held l u c m))
        ≡ (if not (untrusted_lock m) then s else t)
  unfolding held
  lock_untrusted_state-step r0 r before k a p q =
      acquire r0 r _ _ before k _ _ _ (lock_untrusted_state-held a) (λ e. p (ground arith)) q

  -- The state change and the release that end a transaction.
  pub commit-step :
      {R : Type 0} (r0 : R) (g : Machine → Machine) (after : Machine → RegionMap → Machine)
      {n : Machine}
      → after (g (hold l u c m)) l ≡ n
      → finish r0 ((modify g >> leave after) (held l u c m)) ≡ returned r0 n
  unfolding modify leave ◌>>=◌ ◌>>◌ held
  commit-step r0 g after p = ap (returned r0) p

-- `lock_region`, where the call keeps no set of locked regions.
unfoldable pub owning : ℕ → Machine → Frame
unfolding hold
owning i m = record { machine = hold (add no_regions i) false no_regions m; locked = no_regions }

pub read-step :
    {R : Type 0} (r0 : R) (k : Machine → M R (Unit {0})) (f : Frame) {s : Result R}
    → finish r0 (k f.machine f) ≡ s
    → finish r0 ((machine >>= k) f) ≡ s
unfolding machine ◌>>=◌
read-step r0 k f p = p

pub end-step :
    {R : Type 0} (r0 : R) (g : Machine → Machine) (after : Machine → RegionMap → Machine)
    (f : Frame) {n : Machine}
    → after (g f.machine) f.locked ≡ n
    → finish r0 ((modify g >> leave after) f) ≡ returned r0 n
unfolding modify leave ◌>>=◌ ◌>>◌
end-step r0 g after f p = ap (returned r0) p

lock_region-held :
    {R : Type 0} (i : ℕ) (m : Machine)
    → i < num_regions
    → lock_region {R = R} i (held no_regions false no_regions m) ≡ (
        if not (region_lock m i)
        then next true (owning i m)
        else next false (held no_regions false no_regions m))
unfolding lock_region owning held hold
lock_region-held i m v = elim (Bool-cases (region_lock m i)) [
  | inl e ↦
      rw (lt→ltb i num_regions v, e)
        (ap (λ x. next false (record { machine = x; locked = no_regions }))
          (hold-region_again no_regions false no_regions m i e))
  | inr e ↦
      rw (lt→ltb i num_regions v, e)
        (ap (λ x. next true (record { machine = x; locked = no_regions }))
          (hold-region no_regions false no_regions m i))
]

pub lock_region-step :
    {R : Type 0} (r0 r : R) (i : ℕ) (m : Machine) (before : Machine → RegionMap → Machine)
    (k : M R (Unit {0})) {s t : Result R}
    → i < num_regions
    → (region_lock m i ≡ false → finish r0 (k (owning i m)) ≡ s)
    → returned r (before (hold no_regions false no_regions m) no_regions) ≡ t
    → finish r0 (
        (lock_region i >>= λ got. check_after got before r >> k)
          (held no_regions false no_regions m))
      ≡ (if not (region_lock m i) then s else t)
unfolding held
lock_region-step r0 r i m before k v p q =
    acquire r0 r _ _ before k _ _ _ (lock_region-held i m v) (λ e. p (ground arith)) q
