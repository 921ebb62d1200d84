-- ===== src/Isolation/Leading.antt =====
-- A logic of calls that end in a change from one invariant to a weaker one.
use security_monitor.Prelude.{Bool, false}
use security_monitor.Types.{RegionMap, Machine}
use security_monitor.Call.{
  Frame, Outcome, M, ◌>>=◌, ◌>>◌, modify, check_after, run, leave, after, next, ret, fault,
}
use security_monitor.Isolation.{View, Ends, Keeping, SoundWith, check-Keeping, finish_kept}

-- A block that leads from the invariant `p` to `q`.
pub record Leads (p q : View) {R A : Type 0} (k : M R A) : Type 0 where
  leads : (f : Frame) → p.holds f.machine → Ends q.holds (k f)

-- A change of the machine from one invariant to the other.
pub record Step (p q : View) (g : Machine → Machine) : Type 0 where
  pub steps : (m : Machine) → p.holds m → q.holds (g m)

abbrev pub Weaker : View → View → Type 0
Weaker p q = (m : Machine) → p.holds m → q.holds m

module _ {p q : View} (w : Weaker p q) where
  weaken :
      {R A B : Type 0} (o : Outcome R A) (k : A → M R B)
      → ((a : A) → Leads p q (k a))
      → Ends p.holds o
      → Ends q.holds (elim o [ next a g ↦ k a g | ret r s ↦ ret r s | fault ↦ fault ])
  weaken (next a f) k h v = (h a).leads f v
  weaken (ret r m) k h v = w m v
  weaken fault k h v = tt

  pub bind-Leads :
      {R A B : Type 0} {m : M R A} {k : A → M R B}
      → Keeping p m
      → ((a : A) → Leads p q (k a))
      → Leads p q (m >>= k)
  unfolding ◌>>=◌
  bind-Leads {m} {k} h l = record { leads = λ f v. weaken (m f) k l (h.ends f v) }

  pub check_or :
      {R A : Type 0} (b : Bool) {before : Machine → RegionMap → Machine} (r : R) {k : M R A}
      → SoundWith p before
      → Leads p q k
      → Leads p q (check_after b before r >> k)
  unfolding ◌>>◌
  check_or b r h l = bind-Leads (check-Keeping b r h) (λ _. l)

module _ {p q : View} where
  pub commit-Leads :
      {R : Type 0} {g : Machine → Machine} {after : Machine → RegionMap → Machine}
      → Step p q g
      → SoundWith q after
      → Leads p q (modify {R = R} g >> leave after)
  unfolding ◌>>◌ ◌>>=◌ modify leave
  commit-Leads h l = record { leads = λ f v. l.keeps_with _ f.locked (h.steps f.machine v) }

pub run-Leads :
    {p q : View} {R : Type 0} {body : M R (Unit {0})} (w : Weaker p q) (r : R) (m : Machine)
    → Leads p q body
    → p.holds m
    → q.holds (after m (run body r m))
run-Leads {q} {body} w r m l v =
    let start : Frame = record { machine = m; locked = λ _. false } in
    finish_kept q r m (body start) (w m v) (l.leads start v)
