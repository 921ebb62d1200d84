-- ===== src/Cache/Slices.antt =====
-- What the scan of a partition establishes: the slices of the regions, one after the other.
use security_monitor.Prelude.{
  ℕ, zero, suc, ◌+◌, ◌^◌, ◌≤◌, ◌<◌, ◌≡◌, refl, ◌≢◌, inl, inr, true, false, not, Option, none, some,
  arith, leb, ◌==◌, if◌then◌else◌, Bool-cases, update,
}
use security_monitor.Cache.{Scan, scan_step, scan_below}

-- The scan of the regions below `n`, against what was asked for.
pub record Scanned (old copy : ℕ → ℕ) (n : ℕ) (s : Scan) : Type 0 where
  pub small : (i : ℕ) → i < n → copy i < 10
  pub ordered : (i j : ℕ) → i < j → j < n → s.bases i + 2 ^ copy i ≤ s.bases j
  pub inside : (i : ℕ) → i < n → s.bases i + 2 ^ copy i ≤ s.sum
  pub kept : (i : ℕ) → i < s.idx_first_mod → copy i ≡ old i
  pub within : s.idx_first_mod ≤ n
  pub changed :
      s.found_first_mod ≡ true
      → (s.idx_first_mod < n) × (copy s.idx_first_mod ≢ old s.idx_first_mod)
  pub unchanged : s.found_first_mod ≡ false → s.idx_first_mod ≡ n

module _ (old copy : ℕ → ℕ) (n : ℕ) (s : Scan) (h : Scanned old copy n s)
    (small : copy n < 10) where
  abbrev next : Scan
  next = record s {
    found_first_mod = if s.found_first_mod then true else not (copy n == old n);
    idx_first_mod =
        if s.found_first_mod
        then s.idx_first_mod
        else if copy n == old n
        then s.idx_first_mod + 1
        else s.idx_first_mod;
    bases = update s.bases n s.sum;
    sum = s.sum + 2 ^ copy n;
  }

  next_ordered : (i j : ℕ) → i < j → j < suc n → next.bases i + 2 ^ copy i ≤ next.bases j
  next_ordered i j p q = ground (arith, h.ordered i j, h.inside i)

  next_inside : (i : ℕ) → i < suc n → next.bases i + 2 ^ copy i ≤ next.sum
  next_inside i p = ground (arith, h.inside i)

  next_kept : (i : ℕ) → i < next.idx_first_mod → copy i ≡ old i
  next_kept i p = ground (arith, h.kept i, h.unchanged)

  next_small : (i : ℕ) → i < suc n → copy i < 10
  next_small i p = ground (arith, h.small i)

  next-Scanned : Scanned old copy (suc n) next
  next-Scanned = record {
    small = next_small;
    ordered = next_ordered;
    inside = next_inside;
    kept = next_kept;
    within = ground (arith, h.within, h.unchanged);
    changed = λ e. ground (arith, h.changed, h.unchanged);
    unchanged = λ e. ground (arith, h.unchanged);
  }

Scanned-step :
    (old copy : ℕ → ℕ) (n : ℕ) (s t : Scan)
    → Scanned old copy n s
    → scan_step old copy n s ≡ some t
    → Scanned old copy (suc n) t
unfolding scan_step
Scanned-step old copy n s t h e = elim (Bool-cases (leb 10 (copy n))) [
  | inl a ↦ absurd (ground arith)
  | inr a ↦
      let q : next old copy n s h (ground arith) ≡ t = ground arith in
      rw (← q) (next-Scanned old copy n s h (ground arith))
]

pub scan_below-Scanned :
    (old copy : ℕ → ℕ) (n : ℕ) (s : Scan) → scan_below old copy n ≡ some s → Scanned old copy n s
unfolding scan_below
scan_below-Scanned old copy zero s e =
    let start : Scan = record {
      sum = 0;
      found_first_mod = false;
      idx_first_mod = 0;
      bases = λ _. 0;
    } in
    let q : start ≡ s = ground arith in
    rw (← q) (record {
      small = λ i p. absurd (omega arith);
      ordered = λ i j p q. absurd (omega arith);
      inside = λ i p. absurd (omega arith);
      kept = λ i p. absurd (omega arith);
      within = omega arith;
      changed = λ x. absurd (false_true x);
      unchanged = λ x. refl;
    })
  where
    false_true : false ≡ true → ⊥
    false_true x = cc
scan_below-Scanned old copy (suc n) t e =
    scan_from (scan_below old copy n) (λ s q. scan_below-Scanned old copy n s q) e
  where
    scan_from :
        (r : Option Scan)
        → ((s : Scan) → r ≡ some s → Scanned old copy n s)
        → elim r [ none ↦ none | some s ↦ scan_step old copy n s ] ≡ some t
        → Scanned old copy (suc n) t
    scan_from none f x = absurd (none_some x)
      where
        none_some : none ≡ some t → ⊥
        none_some y = cc
    scan_from (some s) f x = Scanned-step old copy n s t (f s refl) x
