-- ===== src/Prelude/Maps.antt =====
-- Arrays and memory as functions of the index; lists measured and indexed by native numbers.
use Prim.Native.Nat.{ℕ, zero, suc, ◌+◌}
use mathlib.Core.Path.{◌≡◌, refl, ap}
use mathlib.Core.List.{List, [], ◌∷◌}
use native.Mathlib.Omega.{arith}
use security_monitor.Prelude.Tests.{ltb, leb, ◌==◌, if◌then◌else◌}

module _ {ℓ} {A : Type ℓ} where
  -- `a[i] = v`.
  abbrev pub update : (ℕ → A) → ℕ → A → ℕ → A
  update f i v j = if i == j then v else f j

  -- `for (k = 0; k < n; k++) a[base + k] = v;`
  unfoldable pub fill : (ℕ → A) → ℕ → ℕ → A → ℕ → A
  fill f base zero v = f
  fill f base (suc n) v = update (fill f base n v) (base + n) v

  pub fill-at :
      (f : ℕ → A) (base n : ℕ) (v : A) (j : ℕ)
      → fill f base n v j ≡ (if leb base j then (if ltb j (base + n) then v else f j) else f j)
  unfolding fill
  fill-at f base zero v j = ground arith
  fill-at f base (suc n) v j = ground (arith, fill-at f base n v j)

  abbrev pub length : List A → ℕ
  length [] = 0
  length (x ∷ xs) = suc (length xs)

  abbrev pub get_or : List A → ℕ → A → A
  get_or [] i d = d
  get_or (x ∷ xs) zero d = x
  get_or (x ∷ xs) (suc i) d = get_or xs i d

  abbrev pub replicate : ℕ → A → List A
  replicate zero a = []
  replicate (suc n) a = a ∷ replicate n a

  pub length-replicate : (n : ℕ) (a : A) → length (replicate n a) ≡ n
  length-replicate zero a = refl
  length-replicate (suc n) a = ap suc (length-replicate n a)
