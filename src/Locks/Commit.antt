-- ===== src/Locks/Commit.antt =====
-- The state change of a transaction does not read or write its locks, so the locks that the call
-- took may be dropped before it as well as after it.
use security_monitor.Prelude.{
  ℕ, ◌≡◌, refl, ap, ◌∙◌, fun_ext, Bool, true, false, arith, if◌then◌else◌,
}
use security_monitor.Types.{RegionMap, Machine}
use security_monitor.Call.{returned}
use security_monitor.Locks.{
  region_lock, core_lock, untrusted_lock, unlock_region, unlock_core, unlock_untrusted_state,
  unlock_regions,
}
use security_monitor.Locks.Held.{
  no_regions, hold, Taken, add, Machine-eq, unlock_regions-hold, unlock_untrusted-hold,
  unlock_core-hold,
}

pub record Apart (g : Machine → Machine) : Type 0 where
  pub under :
      (l : RegionMap) (u : Bool) (c : ℕ → Bool) (m : Machine) → g (hold l u c m) ≡ hold l u c (g m)
  pub regions : (m : Machine) (j : ℕ) → region_lock (g m) j ≡ region_lock m j
  pub cores : (m : Machine) (j : ℕ) → core_lock (g m) j ≡ core_lock m j
  pub untrusted : (m : Machine) → untrusted_lock (g m) ≡ untrusted_lock m

pub Apart-Taken :
    {g : Machine → Machine} (l : RegionMap) (m : Machine) → Apart g → Taken l m → Taken l (g m)
Apart-Taken l m a t j h = ((t j h).0, a.regions m j ∙ (t j h).1)

pub Apart-compose : {g h : Machine → Machine} → Apart g → Apart h → Apart (λ m. g (h m))
Apart-compose {g} {h} a b = record {
  under = λ l u c m. ap g (b.under l u c m) ∙ a.under l u c (h m);
  regions = λ m j. a.regions (h m) j ∙ b.regions m j;
  cores = λ m j. a.cores (h m) j ∙ b.cores m j;
  untrusted = λ m. a.untrusted (h m) ∙ b.untrusted m;
}

pub Apart-id : Apart (λ m. m)
Apart-id = record {
  under = λ l u c m. refl;
  regions = λ m j. refl;
  cores = λ m j. refl;
  untrusted = λ m. refl;
}

pub Apart-if : (b : Bool) (g h : Machine → Machine) → Apart g → Apart h → Apart (if b then g else h)
Apart-if true g h p q = p
Apart-if false g h p q = q

-- A change that first reads a value which no lock bears on.
pub Apart-read :
    {A : Type 0} (g : A → Machine → Machine) (key : Machine → A)
    → ((l : RegionMap) (u : Bool) (c : ℕ → Bool) (m : Machine) → key (hold l u c m) ≡ key m)
    → ((a : A) → Apart (g a))
    → Apart (λ m. g (key m) m)
Apart-read g key same all = record {
  under = λ l u c m. ap (λ a. g a (hold l u c m)) (same l u c m) ∙ (all (key m)).under l u c m;
  regions = λ m j. (all (key m)).regions m j;
  cores = λ m j. (all (key m)).cores m j;
  untrusted = λ m. (all (key m)).untrusted m;
}

-- The ends of a transaction, from any state in which the regions are back as they were.
pub drop_regions :
    (m x : Machine) (l : RegionMap)
    → unlock_regions x l ≡ hold no_regions false no_regions m
    → unlock_regions x l ≡ m
unfolding hold
drop_regions m x l e = e

pub drop_untrusted :
    (m x : Machine) (l : RegionMap)
    → untrusted_lock m ≡ false
    → unlock_regions x l ≡ hold no_regions true no_regions m
    → unlock_regions (unlock_untrusted_state x) l ≡ m
unfolding hold
drop_untrusted m x l e p = ap unlock_untrusted_state p ∙ unlock_untrusted-hold no_regions m e

pub drop_all :
    (core : ℕ) (m x : Machine) (l : RegionMap)
    → untrusted_lock m ≡ false
    → core_lock m core ≡ false
    → unlock_regions x l ≡ hold no_regions true (add no_regions core) m
    → unlock_regions (unlock_untrusted_state (unlock_core core x)) l ≡ m
drop_all core m x l e f p =
    ap (λ y. unlock_core core (unlock_untrusted_state y)) p
    ∙ ap (unlock_core core) (unlock_untrusted-hold (add no_regions core) m e)
    ∙ unlock_core-hold core m f

-- After the state change, the locks taken come off as they would before it.
pub unlock_regions-commit :
    {g : Machine → Machine} (a : Apart g) (l : RegionMap) (u : Bool) (c : ℕ → Bool) (m : Machine)
    → Taken l m
    → unlock_regions (g (hold l u c m)) l ≡ hold no_regions u c (g m)
unlock_regions-commit {g} a l u c m t =
    ap (λ x. unlock_regions x l) (a.under l u c m)
    ∙ unlock_regions-hold l u c (g m) (Apart-Taken l m a t)

module _ {g : Machine → Machine} (a : Apart g) (l : RegionMap) (m : Machine) (t : Taken l m) where
  pub commit-regions : unlock_regions (g (hold l false no_regions m)) l ≡ g m
  commit-regions = drop_regions (g m) _ l (unlock_regions-commit a l false no_regions m t)

  pub commit-untrusted :
      untrusted_lock m ≡ false
      → unlock_regions (unlock_untrusted_state (g (hold l true no_regions m))) l ≡ g m
  commit-untrusted e =
      drop_untrusted (g m) _ l (a.untrusted m ∙ e) (unlock_regions-commit a l true no_regions m t)

  pub commit-all :
      (core : ℕ)
      → untrusted_lock m ≡ false
      → core_lock m core ≡ false
      → unlock_regions
          (unlock_untrusted_state (unlock_core core (g (hold l true (add no_regions core) m))))
          l
        ≡ g m
  commit-all core e f =
      drop_all core (g m) _ l (a.untrusted m ∙ e) (a.cores m core ∙ f)
        (unlock_regions-commit a l true (add no_regions core) m t)

-- The refusals of a transaction, by the locks taken so far.
module _ (l : RegionMap) (m : Machine) (t : Taken l m) where
  pub refuse-regions :
      {R : Type 0} (r : R)
      → returned r (unlock_regions (hold l false no_regions m) l) ≡ returned r m
  refuse-regions r =
      ap (returned r) (drop_regions m _ l (unlock_regions-hold l false no_regions m t))

  pub refuse-untrusted :
      {R : Type 0} (r : R)
      → untrusted_lock m ≡ false
      → returned r (unlock_regions (unlock_untrusted_state (hold l true no_regions m)) l)
        ≡ returned r m
  refuse-untrusted r e =
      ap (returned r) (drop_untrusted m _ l e (unlock_regions-hold l true no_regions m t))

  pub refuse-all :
      {R : Type 0} (r : R) (core : ℕ)
      → untrusted_lock m ≡ false
      → core_lock m core ≡ false
      → returned r (
          unlock_regions
            (unlock_untrusted_state (unlock_core core (hold l true (add no_regions core) m)))
            l)
        ≡ returned r m
  refuse-all r core e f =
      ap (returned r)
        (drop_all core m _ l e f (unlock_regions-hold l true (add no_regions core) m t))

pub unlock_region-hold :
    (i : ℕ) (m : Machine)
    → region_lock m i ≡ false
    → unlock_region i (hold (add no_regions i) false no_regions m) ≡ m
unfolding hold
unlock_region-hold i m e = Machine-eq m (fun_ext λ j. ground arith) refl refl

pub commit-region :
    {g : Machine → Machine} (a : Apart g) (i : ℕ) (m : Machine)
    → region_lock m i ≡ false
    → unlock_region i (g (hold (add no_regions i) false no_regions m)) ≡ g m
commit-region {g} a i m e =
    ap (unlock_region i) (a.under (add no_regions i) false no_regions m)
    ∙ unlock_region-hold i (g m) (a.regions m i ∙ e)
