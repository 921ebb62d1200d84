-- ===== src/Enclave/Measure.antt =====
-- What the measurement of a loaded page is taken of.
use security_monitor.Prelude.{ℕ, ◌+◌, ◌<◌, ◌≡◌, false}
use security_monitor.Types.{page_size, ApiResult, EnclaveMetadata, Machine}
use security_monitor.Call.{Frame, machine, Outcome, M, next, ret, fault}
use security_monitor.Metadata.{is_ok}
use security_monitor.Memory.{le_bytes, read_ram}
use security_monitor.Crypto.{Crypto}

-- The words of the pages at `a` and `b`.
abbrev SameWords : (ℕ → ℕ) → (ℕ → ℕ) → ℕ → ℕ → Type 0
SameWords f g a b = (k : ℕ) → k < page_size → f (a + k) ≡ g (b + k)

-- A statement falls through to a machine with `P`, and what it returns early is an error.
abbrev Goes : {A : Type 0} → (Machine → Type 0) → Outcome ApiResult A → Type 0
Goes P (next a f) = P f.machine
Goes P (ret r m) = is_ok r ≡ false
Goes P fault = Unit

-- From a machine with `P` a statement falls through to one with `Q`.
record Leads (P Q : Machine → Type 0) {A : Type 0} (s : M ApiResult A) : Type 0 where
  goes : (f : Frame) → P f.machine → Goes Q (s f)

-- The enclaves' structures are still those of the start.
abbrev Kept : (ℕ → EnclaveMetadata) → Machine → Type 0
Kept e m = m.enclaves ≡ e

module _ (c : Crypto) where
  open c use {hash_extend}

  -- The measurement of the enclave `x` went on with the address, the rights and the bytes of its page.
  pub Measured : ℕ → ℕ → ℕ → ℕ → ℕ → Machine → Machine → Type 0
  Measured x phys virt os acl m n =
      let context = hash_extend (m.enclaves x).hash_context (le_bytes 8 virt) in
      let page = read_ram n.words phys page_size in
      ((n.enclaves x).hash_context ≡ hash_extend (hash_extend context (le_bytes 8 acl)) page)
      × (page ≡ read_ram n.words os page_size)
