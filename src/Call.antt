-- ===== src/Call.antt =====
-- A call into the monitor: its early returns, its local set of locked regions, and its faults.
use security_monitor.Prelude.{Bool, false, if◌then◌else◌}
use security_monitor.Types.{Machine, RegionMap}

-- The machine and `locked_regions`.
pub record Frame : Type 0 where
  pub machine : Machine
  pub locked : RegionMap

-- A block of a function that returns an `R` falls through with a value, returns, or ends in a `fault`:
-- it steps out of the bounds of an array, which the C standard leaves undefined, or panics.
pub data Outcome (R A : Type 0) : Type 0 where
  next : A → Frame → Outcome R A
  ret : R → Machine → Outcome R A
  fault : Outcome R A

abbrev pub M : Type 0 → Type 0 → Type 0
M R A = Frame → Outcome R A

unfoldable pub pure : {R A : Type 0} → A → M R A
pure a f = next a f

infixl 5 ◌>>=◌ ◌>>◌
unfoldable pub ◌>>=◌ : {R A B : Type 0} → M R A → (A → M R B) → M R B
◌>>=◌ m k f = elim (m f) [ next a g ↦ k a g | ret r s ↦ ret r s | fault ↦ fault ]

unfoldable pub ◌>>◌ : {R B : Type 0} → M R (Unit {0}) → M R B → M R B
unfolding ◌>>=◌
m >> k = m >>= λ _. k

unfoldable pub machine : {R : Type 0} → M R Machine
machine f = next f.machine f

unfoldable pub modify : {R : Type 0} → (Machine → Machine) → M R (Unit {0})
modify g f = next tt (record f { machine = g f.machine })

unfoldable pub return : {R A : Type 0} → R → M R A
return r f = ret r f.machine

-- `if (!b) { before; return r; }`
unfoldable pub check_after :
    {R : Type 0} → Bool → (Machine → RegionMap → Machine) → R → M R (Unit {0})
check_after b before r f = if b then next tt f else ret r (before f.machine f.locked)

-- `if (!b) return r;`
abbrev pub check : {R : Type 0} → Bool → R → M R (Unit {0})
check b r = check_after b (λ m _. m) r

-- How a call ends.
pub data Result (R : Type 0) : Type 0 where
  returned : R → Machine → Result R
  undefined : Result R

abbrev pub finish : {R : Type 0} → R → Outcome R (Unit {0}) → Result R
finish r (next a f) = returned r f.machine
finish r (ret q s) = returned q s
finish r fault = undefined

-- The body runs with no region locked; `r` is its last `return`.
abbrev pub run : {R : Type 0} → M R (Unit {0}) → R → Machine → Result R
run body r m = finish r (body (record { machine = m; locked = λ _. false }))

-- The last statements of a transaction, which release its locks.
unfoldable pub leave : {R : Type 0} → (Machine → RegionMap → Machine) → M R (Unit {0})
leave after f = next tt (record f { machine = after f.machine f.locked })

-- The machine that a call leaves.
abbrev pub after : {R : Type 0} → Machine → Result R → Machine
after m (returned r n) = n
after m undefined = m

-- A function whose last `return` gives a computed value.
abbrev pub finish_value : {R : Type 0} → Outcome R R → Result R
finish_value (next r f) = returned r f.machine
finish_value (ret q s) = returned q s
finish_value fault = undefined

abbrev pub run_value : {R : Type 0} → M R R → Machine → Result R
run_value body m = finish_value (body (record { machine = m; locked = λ _. false }))
