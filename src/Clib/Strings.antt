-- ===== src/Clib/Strings.antt =====
-- Strings: their length, and their copies.
use security_monitor.Prelude.{
  ℕ, zero, suc, ◌+◌, ◌-◌, ◌%◌, ◌<◌, ◌≡◌, sym, ap, ◌∙◌, subst, ◌≢◌, some, arith, update,
}
use security_monitor.Clib.{ByteMap, int_mod, strlen_from, strlen, strcmp, strcpy}
use security_monitor.Clib.Copying.{copied, Disjoint, copied-source, copied-suc, copied-none}
use security_monitor.Clib.Comparing.{SameBytes, same-rest, same-head}

-- The string at `s` has the length `k`.
abbrev pub StringAt : ByteMap → ℕ → ℕ → Type 0
StringAt m s k = ((i : ℕ) → i < k → m (s + i) ≢ 0) × (m (s + k) ≡ 0)

strlen_from-StringAt :
    (m : ByteMap) (s p k n : ℕ)
    → StringAt m s (p + k)
    → k < n
    → strlen_from m s (s + p) n ≡ some (p + k)
unfolding strlen_from
strlen_from-StringAt m s p k zero q h = absurd (omega arith)
strlen_from-StringAt m s p zero (suc n) q h =
    let stop : m (s + p) ≡ 0 = ap m (omega arith) ∙ q.1 in ground (arith, stop)
strlen_from-StringAt m s p (suc k) (suc n) q h =
    let more : m (s + p) ≢ 0 = q.0 p (omega arith) in
    let next : s + p + 1 ≡ s + (p + 1) = omega arith in
    let same : p + suc k ≡ p + 1 + k = omega arith in
    let rest =
      ap (λ t. strlen_from m s t n) next
      ∙ strlen_from-StringAt m s (p + 1) k n (subst (StringAt m s) same q) (omega arith)
      ∙ ap some (sym same) in
    ground (arith, more, rest)

strlen-StringAt :
    (m : ByteMap) (s k fuel : ℕ) → StringAt m s k → k < fuel → strlen m s fuel ≡ some k
unfolding strlen
strlen-StringAt m s k fuel q h =
    let begin : s ≡ s + 0 = omega arith in
    let whole : k ≡ 0 + k = omega arith in
    ap (λ t. strlen_from m s t fuel) begin
    ∙ strlen_from-StringAt m s 0 k fuel (subst (StringAt m s) whole q) h
    ∙ ap some (sym whole)

-- The copy after `p` characters.
strcpy-copied :
    (m : ByteMap) (dest src p k n : ℕ)
    → StringAt m src (p + k)
    → Disjoint dest src (p + suc k)
    → k < n
    → strcpy (copied dest src p m) (dest + p) (src + p) n ≡ some (copied dest src (p + suc k) m)
unfolding strcpy
strcpy-copied m dest src p k zero q d h = absurd (omega arith)
strcpy-copied m dest src p zero (suc n) q d h =
    let source = copied-source dest src (p + 1) p p m d (omega arith) (omega arith) in
    let stop : copied dest src p m (src + p) ≡ 0 = source ∙ ap m (omega arith) ∙ q.1 in
    let last : suc p ≡ p + 1 = omega arith in
    rw stop (
      ap (λ t. some (update (copied dest src p m) (dest + p) t)) (sym stop)
      ∙ ap some (copied-suc dest src (p + 1) p m d (omega arith))
      ∙ ap (λ t. some (copied dest src t m)) last)
strcpy-copied m dest src p (suc k) (suc n) q d h =
    let source = copied-source dest src (p + suc (suc k)) p p m d (omega arith) (omega arith) in
    let more : copied dest src p m (src + p) ≢ 0 = λ e. q.0 p (omega arith) (sym source ∙ e) in
    let at_dest : dest + p + 1 ≡ dest + suc p = omega arith in
    let at_src : src + p + 1 ≡ src + suc p = omega arith in
    let same : p + suc k ≡ suc p + k = omega arith in
    let whole : suc p + suc k ≡ p + suc (suc k) = omega arith in
    let rest =
      ap (λ c. strcpy c (dest + p + 1) (src + p + 1) n)
        (copied-suc dest src (p + suc (suc k)) p m d (omega arith))
      ∙ ap (λ t. strcpy (copied dest src (suc p) m) t (src + p + 1) n) at_dest
      ∙ ap (λ t. strcpy (copied dest src (suc p) m) (dest + suc p) t n) at_src
      ∙ strcpy-copied m dest src (suc p) k n (subst (StringAt m src) same q)
          (subst (Disjoint dest src) (sym whole) d) (omega arith)
      ∙ ap (λ t. some (copied dest src t m)) whole in
    ground (arith, more, rest)

strcmp-same :
    (m : ByteMap) (s1 s2 k n : ℕ)
    → StringAt m s1 k
    → SameBytes m s1 s2 (suc k)
    → k < n
    → strcmp m s1 s2 n ≡ some 0
unfolding strcmp
strcmp-same m s1 s2 k zero q p h = absurd (omega arith)
strcmp-same m s1 s2 zero (suc n) q p h =
    let stop : m s1 ≡ 0 = ap m (omega arith) ∙ q.1 in
    let same : m s1 ≡ m s2 = same-head m s1 s2 0 p in
    let none_left : (m s1 + int_mod - m s2) % int_mod ≡ 0 = omega arith in
    rw stop (rw (sym same) (ap some (omega arith)))
strcmp-same m s1 s2 (suc k) (suc n) q p h =
    let more : m s1 ≢ 0 = λ e. q.0 0 (omega arith) (ap m (omega arith) ∙ e) in
    let same : m s1 ≡ m s2 = same-head m s1 s2 (suc k) p in
    let next = λ (i : ℕ). ap m {x = s1 + 1 + i} {y = s1 + suc i} (omega arith) in
    let tail : StringAt m (s1 + 1) k =
      ((λ i l e. q.0 (suc i) (omega arith) (sym (next i) ∙ e)), next k ∙ q.1) in
    let rest =
      strcmp-same m (s1 + 1) (s2 + 1) k n tail (same-rest m s1 s2 (suc k) p) (omega arith) in
    ground (arith, more, same, rest)

copied-SameBytes :
    (m : ByteMap) (dest src n : ℕ)
    → Disjoint dest src n
    → SameBytes (copied dest src n m) dest src n
unfolding copied
copied-SameBytes m dest src n d i h =
    ground (arith, copied-source dest src n n i m d (omega arith) h)

copied-StringAt :
    (m : ByteMap) (dest src k : ℕ)
    → StringAt m src k
    → Disjoint dest src (suc k)
    → StringAt (copied dest src (suc k) m) dest k
copied-StringAt m dest src k q d =
    let same = λ (i : ℕ) (h : i < suc k).
      copied-SameBytes m dest src (suc k) d i h
      ∙ copied-source dest src (suc k) (suc k) i m d (omega arith) h in
    ((λ i h e. q.0 i h (sym (same i (omega arith)) ∙ e)), same k (omega arith) ∙ q.1)

-- A string that is copied to a place apart from it, its end included, is written there and nothing
-- else is; at the new place `strlen` finds its length, and `strcmp` no difference from the old one.
-- Fuel above the length is enough for all three.
pub strcpy-strlen-strcmp :
    (m : ByteMap) (dest src k fuel : ℕ)
    → StringAt m src k
    → Disjoint dest src (suc k)
    → k < fuel
    → (strcpy m dest src fuel ≡ some (copied dest src (suc k) m))
      × (strlen (copied dest src (suc k) m) dest fuel ≡ some k)
      × (strcmp (copied dest src (suc k) m) dest src fuel ≡ some 0)
strcpy-strlen-strcmp m dest src k fuel q d h =
    let after = copied-StringAt m dest src k q d in
    let zero_dest : dest ≡ dest + 0 = omega arith in
    let zero_src : src ≡ src + 0 = omega arith in
    let none_yet : k ≡ 0 + k = omega arith in
    let whole : suc k ≡ 0 + suc k = omega arith in
    (
      ap (λ c. strcpy c dest src fuel) (sym (copied-none dest src m))
          ∙ ap (λ t. strcpy (copied dest src 0 m) t src fuel) zero_dest
          ∙ ap (λ t. strcpy (copied dest src 0 m) (dest + 0) t fuel) zero_src
          ∙ strcpy-copied m dest src 0 k fuel (subst (StringAt m src) none_yet q)
              (subst (Disjoint dest src) whole d) h
          ∙ ap (λ t. some (copied dest src t m)) (sym whole),
      strlen-StringAt (copied dest src (suc k) m) dest k fuel after h,
      strcmp-same (copied dest src (suc k) m) dest src k fuel after
          (copied-SameBytes m dest src (suc k) d) h,
    )
