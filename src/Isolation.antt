-- ===== src/Isolation.antt =====
-- A logic of calls: which statements keep an invariant of the regions and the cores, on every
-- way through them.
pub mod Locking
pub mod Leading
pub mod Loading
pub mod Creation
pub mod Switching
pub mod Messages
pub mod Sharing
pub mod Deletion
pub mod Handlers
pub mod Hardware
pub mod Agreement
pub mod Traps
use security_monitor.Prelude.{ℕ, ◌≡◌, ap, ◌⊎◌, inl, Bool, true, false, if◌then◌else◌}
use security_monitor.Types.{RegionMap, Machine}
use security_monitor.Call.{
  Frame, machine, Outcome, M, pure, ◌>>=◌, ◌>>◌, modify, check_after, finish, run, leave, after,
  finish_value, run_value, next, ret, fault,
}
use security_monitor.Region.Ownership.{Consistent}
use security_monitor.Region.Untouched.{Same, Same-Consistent}

-- What stays of the cores: who runs on each, its bitmaps, and the bitmaps that the threads have saved,
-- but for those that are cleared.
pub record SameCores (m n : Machine) : Type 0 where
  pub core_owner : (c : ℕ) → (n.sm.cores c).owner ≡ (m.sm.cores c).owner
  pub core_thread : (c : ℕ) → (n.sm.cores c).thread ≡ (m.sm.cores c).thread
  pub core_mmrbm : (c : ℕ) → (n.sm.cores c).mmrbm ≡ (m.sm.cores c).mmrbm
  pub core_memrbm : (c : ℕ) → (n.sm.cores c).memrbm ≡ (m.sm.cores c).memrbm
  pub csr_mmrbm : (c : ℕ) → (n.csrs c).mmrbm ≡ (m.csrs c).mmrbm
  pub csr_memrbm : (c : ℕ) → (n.csrs c).memrbm ≡ (m.csrs c).memrbm
  pub saved :
      (t : ℕ)
      → ((n.threads t).platform_csr.memrbm ≡ (m.threads t).platform_csr.memrbm)
        ⊎ ((n.threads t).platform_csr.memrbm ≡ 0)

-- A change that bears neither on the ownership of the region `j` nor on the cores.
pub record Quiet (j : ℕ) (m n : Machine) : Type 0 where
  pub same : (x : ℕ) → Same m n x j
  pub cores : SameCores m n

-- An invariant that no quiet change breaks.
pub record View : Type 1 where
  pub region : ℕ
  pub holds : Machine → Type 0
  pub quiet : (m n : Machine) → Quiet region m n → holds m → holds n

-- The table and all the maps agree on the region `j`.
abbrev pub Agrees : ℕ → Machine → Type 0
Agrees j m = (x : ℕ) → Consistent m x j

abbrev pub agreement : ℕ → View
agreement j = record {
  region = j;
  holds = Agrees j;
  quiet = λ m n q v x. Same-Consistent m n x j (q.same x) (v x);
}

pub same_cores :
    {m n : Machine}
    → n.sm.cores ≡ m.sm.cores
    → n.csrs ≡ m.csrs
    → ((t : ℕ)
        → ((n.threads t).platform_csr.memrbm ≡ (m.threads t).platform_csr.memrbm)
          ⊎ ((n.threads t).platform_csr.memrbm ≡ 0))
    → SameCores m n
same_cores p q r = record {
  core_owner = λ c. ap (λ k. (k c).owner) p;
  core_thread = λ c. ap (λ k. (k c).thread) p;
  core_mmrbm = λ c. ap (λ k. (k c).mmrbm) p;
  core_memrbm = λ c. ap (λ k. (k c).memrbm) p;
  csr_mmrbm = λ c. ap (λ k. (k c).mmrbm) q;
  csr_memrbm = λ c. ap (λ k. (k c).memrbm) q;
  saved = r;
}

-- Nothing of the cores or the threads is written.
pub untouched :
    {m n : Machine}
    → n.sm.cores ≡ m.sm.cores
    → n.csrs ≡ m.csrs
    → n.threads ≡ m.threads
    → SameCores m n
untouched p q r = same_cores p q (λ t. inl (ap (λ f. (f t).platform_csr.memrbm) r))

-- Only other parts of the machine are written.
pub elsewhere :
    {j : ℕ} {m n : Machine}
    → n.sm.regions ≡ m.sm.regions
    → n.sm.untrusted_regions ≡ m.sm.untrusted_regions
    → n.enclaves ≡ m.enclaves
    → SameCores m n
    → Quiet j m n
elsewhere {j} p q r s = record {
  same = λ x. record {
    owner = ap (λ k. (k j).owner) p;
    type = ap (λ k. (k j).type) p;
    state = ap (λ k. (k j).state) p;
    untrusted = ap (λ k. k j) q;
    flags = ap (λ k. (k x).regions j) r;
  };
  cores = s;
}

-- Where a block of statements ends, by a fall-through or a return.
abbrev pub Ends : {R A : Type 0} → (Machine → Type 0) → Outcome R A → Type 0
Ends P (next a f) = P f.machine
Ends P (ret r m) = P m
Ends P fault = Unit

-- A block that keeps an invariant, from whichever frame.
pub record Keeping (view : View) {R A : Type 0} (k : M R A) : Type 0 where
  pub ends : (f : Frame) → view.holds f.machine → Ends view.holds (k f)

-- A change of the machine that keeps it, and one that reads the local set of locked regions.
pub record Sound (view : View) (g : Machine → Machine) : Type 0 where
  pub keeps : (m : Machine) → view.holds m → view.holds (g m)

pub record SoundWith (view : View) (g : Machine → RegionMap → Machine) : Type 0 where
  pub keeps_with : (m : Machine) (l : RegionMap) → view.holds m → view.holds (g m l)

pub if-Ends :
    {R A : Type 0} (P : Machine → Type 0) (b : Bool) (o q : Outcome R A)
    → Ends P o
    → Ends P q
    → Ends P (if b then o else q)
if-Ends P true o q h k = h
if-Ends P false o q h k = k

module _ {R A B : Type 0} {view : View} where
  then-Ends :
      (o : Outcome R A) (k : A → M R B)
      → ((a : A) → Keeping view (k a))
      → Ends view.holds o
      → Ends view.holds (elim o [ next a g ↦ k a g | ret r s ↦ ret r s | fault ↦ fault ])
  then-Ends (next a f) k h v = (h a).ends f v
  then-Ends (ret r m) k h v = v
  then-Ends fault k h v = tt

  pub bind-Keeping :
      {m : M R A} {k : A → M R B}
      → Keeping view m
      → ((a : A) → Keeping view (k a))
      → Keeping view (m >>= k)
  unfolding ◌>>=◌
  bind-Keeping {m} {k} p q = record { ends = λ f v. then-Ends (m f) k q (p.ends f v) }

module _ {R : Type 0} {view : View} where
  pub seq-Keeping :
      {A : Type 0} {m : M R (Unit {0})} {k : M R A}
      → Keeping view m
      → Keeping view k
      → Keeping view (m >> k)
  unfolding ◌>>◌
  seq-Keeping p q = bind-Keeping p (λ _. q)

  pub pure-Keeping : {A : Type 0} (a : A) → Keeping view (pure {R = R} a)
  unfolding pure
  pure-Keeping a = record { ends = λ f v. v }

  pub if-Keeping :
      {A : Type 0} (b : Bool) {k l : M R A}
      → Keeping view k
      → Keeping view l
      → Keeping view (if b then k else l)
  if-Keeping true p q = p
  if-Keeping false p q = q

  pub machine-Keeping : Keeping view (machine {R = R})
  unfolding machine
  machine-Keeping = record { ends = λ f v. v }

  pub modify-Keeping : {g : Machine → Machine} → Sound view g → Keeping view (modify {R = R} g)
  unfolding modify
  modify-Keeping p = record { ends = λ f v. p.keeps f.machine v }

  pub check-Keeping :
      (b : Bool) {before : Machine → RegionMap → Machine} (r : R)
      → SoundWith view before
      → Keeping view (check_after b before r)
  unfolding check_after
  check-Keeping true r p = record { ends = λ f v. v }
  check-Keeping false r p = record { ends = λ f v. p.keeps_with f.machine f.locked v }

  pub leave-Keeping :
      {after : Machine → RegionMap → Machine}
      → SoundWith view after
      → Keeping view (leave {R = R} after)
  unfolding leave
  leave-Keeping p = record { ends = λ f v. p.keeps_with f.machine f.locked v }

  pub fault-Keeping : {A : Type 0} → Keeping view {R = R} {A = A} (λ _. fault)
  fault-Keeping = record { ends = λ f v. tt }

pub finish_kept :
    {R : Type 0} (view : View) (r : R) (m : Machine) (o : Outcome R (Unit {0}))
    → view.holds m
    → Ends view.holds o
    → view.holds (after m (finish r o))
finish_kept view r m (next a f) v w = w
finish_kept view r m (ret q n) v w = w
finish_kept view r m fault v w = v

-- A call, from its body.
pub run-Keeping :
    {R : Type 0} {view : View} {body : M R (Unit {0})} (r : R) (m : Machine)
    → Keeping view body
    → view.holds m
    → view.holds (after m (run body r m))
run-Keeping {view} {body} r m p v =
    let start : Frame = record { machine = m; locked = λ _. false } in
    finish_kept view r m (body start) v (p.ends start v)

pub Same-Sound :
    {view : View} {g : Machine → Machine}
    → ((m : Machine) (x : ℕ) → Same m (g m) x view.region)
    → ((m : Machine) → SameCores m (g m))
    → Sound view g
Same-Sound {view} {g} p q = record {
  keeps = λ m. view.quiet m (g m) (record { same = p m; cores = q m });
}

pub Quiet-Sound :
    {view : View} {g : Machine → Machine}
    → ((m : Machine) → Quiet view.region m (g m))
    → Sound view g
Quiet-Sound {view} {g} p = record { keeps = λ m. view.quiet m (g m) (p m) }

finish_value_kept :
    {R : Type 0} (view : View) (m : Machine) (o : Outcome R R)
    → view.holds m
    → Ends view.holds o
    → view.holds (after m (finish_value o))
finish_value_kept view m (next a f) v w = w
finish_value_kept view m (ret q n) v w = w
finish_value_kept view m fault v w = v

pub run_value-Keeping :
    {R : Type 0} {view : View} {body : M R R} (m : Machine)
    → Keeping view body
    → view.holds m
    → view.holds (after m (run_value body m))
run_value-Keeping {view} {body} m p v =
    let start : Frame = record { machine = m; locked = λ _. false } in
    finish_value_kept view m (body start) v (p.ends start v)
