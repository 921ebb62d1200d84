-- ===== src/Crypto.antt =====
-- src/crypto/cryptography.h wraps a vendored SHA-512 and Ed25519. The monitor's use of them is this
-- interface: contexts, digests, keys and signatures are bytes, and nothing is assumed of them.
-- `hash_finalize` is the digest of a context, and `hash_closed` what it leaves in the context.
use security_monitor.Prelude.{[], ◌++◌}
use security_monitor.Types.{Bytes}

pub record Crypto : Type 0 where
  pub hash_init : Bytes
  pub hash_extend : Bytes → Bytes → Bytes
  pub hash_finalize : Bytes → Bytes
  pub hash_closed : Bytes → Bytes
  pub create_secret_signing_key : Bytes → Bytes
  pub compute_public_signing_key : Bytes → Bytes
  pub sign : Bytes → Bytes → Bytes → Bytes

-- A stand-in for runs of the model: it hashes by copying.
abbrev pub plain : Crypto
plain = record {
  hash_init = [];
  hash_extend = λ c b. c ++ b;
  hash_finalize = λ c. c;
  hash_closed = λ c. c;
  create_secret_signing_key = λ s. s;
  compute_public_signing_key = λ s. s;
  sign = λ m pk sk. m;
}
