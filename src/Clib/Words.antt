-- ===== src/Clib/Words.antt =====
-- A word that is loaded and stored is its bytes.
use native.Mathlib.Nat.{div-div-eq-div-mul, pow-suc, div-one}
use security_monitor.Prelude.{
  ℕ, zero, suc, ◌+◌, ◌-◌, ◌*◌, ◌/◌, ◌%◌, ◌^◌, ◌<◌, ◌≡◌, sym, ap, ◌∙◌, ◌&&◌, arith, ltb, leb,
  if◌then◌else◌,
}
use security_monitor.Clib.{ByteMap, load, store_word}

pub digit-load :
    (n k : ℕ) (m : ByteMap) (a : ℕ)
    → ((x : ℕ) → m x < 256)
    → k < n
    → load n m a / 256 ^ k % 256 ≡ m (a + k)
unfolding load
digit-load zero k m a b h = absurd (omega arith)
digit-load (suc n) zero m a b h =
    let w : ℕ = m a + 256 * load n m (a + 1) in
    let lowest : w % 256 ≡ m a = omega (arith, b a) in
    ap (λ t. t % 256) (div-one w) ∙ lowest ∙ ap m (omega arith)
digit-load (suc n) (suc k) m a b h =
    let w : ℕ = m a + 256 * load n m (a + 1) in
    let power : 256 ^ suc k ≡ 256 * 256 ^ k = omega (arith, pow-suc 256 k) in
    let shifted : w / 256 ≡ load n m (a + 1) = omega (arith, b a) in
    ap (λ t. w / t % 256) power
    ∙ ap (λ t. t % 256) (sym (div-div-eq-div-mul w 256 (256 ^ k)))
    ∙ ap (λ t. t / 256 ^ k % 256) shifted
    ∙ digit-load n k m (a + 1) b (omega arith)
    ∙ ap m (omega arith)

-- What a store of a loaded word writes.
pub store_word-load :
    (a b : ℕ) (m n : ByteMap) (x : ℕ)
    → ((y : ℕ) → m y < 256)
    → store_word a (load 8 m b) n x ≡ (if leb a x && ltb x (a + 8) then m (b + (x - a)) else n x)
unfolding store_word
store_word-load a b m n x h = ground (arith, digit-load 8 (x - a) m b h)
