-- ===== src/SecureSend.antt =====
-- `build_packet` of test-bin/statsd-secure-send.c, a client of the sampler of
-- src/samplers/statsd-secure.c. The keyed hash of OpenSSL, the clock and the random number are given.
pub mod Delivered
mod Tests
use brubeck.Prelude.{ℕ, zero, suc, ◌+◌, ◌-◌, ◌/◌, ◌%◌, ◌^◌, List, [], ◌∷◌, ◌++◌, u64}

-- A number in so many bytes, the lowest first, as it lies in memory.
abbrev pub to_bytes : ℕ → ℕ → List ℕ
to_bytes zero n = []
to_bytes (suc w) n = n % 256 ∷ to_bytes w (n / 256)

-- `(uint64_t)now.tv_sec - 2`
abbrev pub stamp : ℕ → ℕ
stamp tv_sec = u64 (tv_sec + 2 ^ 64 - 2)

-- What is hashed: the time, the nonce and the metric.
abbrev pub signed_text : ℕ → ℕ → List ℕ → List ℕ
signed_text tv_sec nonce metric = to_bytes 8 (stamp tv_sec) ++ (to_bytes 4 nonce ++ metric)

-- The buffer, as far as the length that is returned.
unfoldable pub build_packet : (List ℕ → List ℕ) → ℕ → ℕ → List ℕ → List ℕ
build_packet hmac tv_sec nonce metric =
    let text = signed_text tv_sec nonce metric in hmac text ++ text
