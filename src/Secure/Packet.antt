-- ===== src/Secure/Packet.antt =====
-- A packet in `statsd_secure__thread` of src/samplers/statsd-secure.c: what passes is authentic.
use brubeck.Prelude.{
  ℕ, zero, suc, ◌+◌, ◌/◌, ◌^◌, ◌≤◌, ◌<◌, ◌≡◌, ◌⊎◌, inl, inr, refl, ap, sym, ◌↔◌, List, [], ◌∷◌,
  Option, none, some, true, false, ◌==◌, ltb, arith, length, All, take, drop, Bool-cases, u64,
  length-take, All-take,
}
use mathlib.Core.Path.{subst}
use brubeck.Secure.{
  StatsdSecure, Verdict, fresh, rejected, Worker, packet, xor, or, memcmpct, token_of, verify_token,
  admit, secure__receive, sha_size, min_packet_size,
}
use brubeck.Secure.Judge.{IsValid, Same}
use brubeck.Secure.Replay.{Verifies, verify_token-Verifies}

-- No bit from `w` on.
abbrev Fits : ℕ → ℕ → Type 0
Fits zero a = a ≡ 0
Fits (suc w) a = Fits w (a / 2)

abbrev pub IsByte : ℕ → Type 0
IsByte a = a < 256

IsByte-Fits : (a : ℕ) → IsByte a → Fits 8 a
IsByte-Fits a h = omega arith

xor_iff : (w a b : ℕ) → Fits w a → Fits w b → (xor w a b ≡ 0) ↔ (a ≡ b)
unfolding xor
xor_iff zero a b fa fb = (λ _. omega arith, λ _. refl)
xor_iff (suc w) a b fa fb = ground (arith, xor_iff w (a / 2) (b / 2) fa fb)

xor-Fits : (w a b : ℕ) → Fits w (xor w a b)
unfolding xor
xor-Fits zero a b = refl
xor-Fits (suc w) a b =
    let high : xor (suc w) a b / 2 ≡ xor w (a / 2) (b / 2) = ground arith in
    subst (Fits w) (sym high) (xor-Fits w (a / 2) (b / 2))

or_iff : (w a b : ℕ) → Fits w a → Fits w b → (or w a b ≡ 0) ↔ ((a ≡ 0) × (b ≡ 0))
unfolding or
or_iff zero a b fa fb = (λ _. (fa, fb), λ _. refl)
or_iff (suc w) a b fa fb = ground (arith, or_iff w (a / 2) (b / 2) fa fb)

or-Fits : (w a b : ℕ) → Fits w (or w a b)
unfolding or
or-Fits zero a b = refl
or-Fits (suc w) a b =
    let high : or (suc w) a b / 2 ≡ or w (a / 2) (b / 2) = ground arith in
    subst (Fits w) (sym high) (or-Fits w (a / 2) (b / 2))

memcmpct_iff_from :
    (xs ys : List ℕ) (cmp : ℕ)
    → Fits 8 cmp
    → length xs ≡ length ys
    → All IsByte xs
    → All IsByte ys
    → (memcmpct cmp xs ys ≡ 0) ↔ ((cmp ≡ 0) × (xs ≡ ys))
unfolding memcmpct
memcmpct_iff_from [] [] cmp f l bx by = (λ e. (e, refl), λ (e, _). e)
memcmpct_iff_from [] (y ∷ ys) cmp f l bx by = absurd (omega arith)
memcmpct_iff_from (x ∷ xs) [] cmp f l bx by = absurd (omega arith)
memcmpct_iff_from (x ∷ xs) (y ∷ ys) cmp f l (bx, bxs) (by, bys) =
    let (to, from) =
      memcmpct_iff_from xs ys (or 8 cmp (xor 8 x y)) (or-Fits 8 cmp (xor 8 x y)) (omega arith) bxs
        bys in
    let (low, high) = or_iff 8 cmp (xor 8 x y) f (xor-Fits 8 x y) in
    let (same, none_set) = xor_iff 8 x y (IsByte-Fits x bx) (IsByte-Fits y by) in
    (
      λ e. let (e₁, e₂) = to e in let (e₃, e₄) = low e₁ in let head = same e₄ in (e₃, cc),
      λ (e₁, e₂).
          let head : x ≡ y = cc in let tail : xs ≡ ys = cc in from (high (e₁, none_set head), tail),
    )

-- On byte strings of one length `memcmpct` gives 0 exactly for equal ones.
pub memcmpct_iff :
    (xs ys : List ℕ)
    → length xs ≡ length ys
    → All IsByte xs
    → All IsByte ys
    → (memcmpct 0 xs ys ≡ 0) ↔ (xs ≡ ys)
memcmpct_iff xs ys l bx by =
    let (to, from) = memcmpct_iff_from xs ys 0 (omega arith) l bx by in
    (λ e. let (_, same) = to e in same, λ e. from (refl, e))

-- A keyed hash of 32 bytes.
abbrev pub IsMac : (List ℕ → List ℕ) → Type 0
IsMac hmac = (text : List ℕ) → (length (hmac text) ≡ sha_size) × All IsByte (hmac text)

-- What came is a packet with the hash of its text, at a time within the drift, and `payload` is its
-- messages.
pub record IsAuthentic (hmac : List ℕ → List ℕ) (drift tv_sec : ℕ) (buffer payload : List ℕ)
    : Type 0 where
  pub long : min_packet_size ≤ length buffer
  pub mac : take sha_size buffer ≡ hmac (drop sha_size buffer)
  pub past : (token_of buffer).timestamp ≤ tv_sec
  pub near : tv_sec ≤ (token_of buffer).timestamp + drift
  pub messages : payload ≡ drop min_packet_size buffer

abbrev pub Admits :
    (List ℕ → List ℕ) → Worker → ℕ → List ℕ → Option (Option (List ℕ) × Worker) → Type 0
Admits hmac w tv_sec buffer none = ⊥
Admits hmac w tv_sec buffer (some (none, w')) = Same w.statsd w'.statsd
Admits hmac w tv_sec buffer (some (some payload, w')) =
    Same w.statsd w'.statsd
    × (w'.stats ≡ w.stats)
    × (w'.inflow ≡ u64 (w.inflow + 1))
    × IsAuthentic hmac w.statsd.drift tv_sec buffer payload

admit-Admits :
    (hmac : List ℕ → List ℕ) (w w' : Worker) (tv_sec : ℕ) (buffer : List ℕ)
    (r : Option (Verdict × StatsdSecure))
    → min_packet_size ≤ length buffer
    → take sha_size buffer ≡ hmac (drop sha_size buffer)
    → w' ≡ record w { inflow = u64 (w.inflow + 1) }
    → Verifies w.statsd tv_sec (token_of buffer) r
    → Admits hmac w tv_sec buffer (admit w' buffer r)
unfolding admit
admit-Admits hmac w w' tv_sec buffer none long mac e b = b
admit-Admits hmac w w' tv_sec buffer (some (rejected stat, s)) long mac e (same, _, _, _, _) = same
admit-Admits hmac w w' tv_sec buffer (some (fresh, s)) long mac e (same, _, _, _, accepted) =
    let (_, past, near) = accepted refl in
    (
      same,
      ap (λ x. x.stats) e,
      ap (λ x. x.inflow) e,
      record { long = long; mac = mac; past = past; near = near; messages = refl },
    )

-- A valid sampler does not fail on a packet of bytes and stays valid. What it hands on is the
-- messages of a packet of at least 44 bytes that begins with the keyed hash of the rest, with a time
-- that is not after the clock and at most the drift before it, and then no counter changes but the
-- flow. For a keyed hash of 32 bytes and a clock below 2 ^ 64.
pub secure__receive-Admits :
    (hmac : List ℕ → List ℕ) (w : Worker) (tv_sec : ℕ) (buffer : List ℕ)
    → IsMac hmac
    → IsValid w.statsd
    → tv_sec < 2 ^ 64
    → All IsByte buffer
    → Admits hmac w tv_sec buffer (secure__receive hmac w tv_sec (packet buffer))
unfolding secure__receive
secure__receive-Admits hmac w tv_sec buffer is_mac ok clock bytes =
    split (Bool-cases (ltb (length buffer) min_packet_size))
      (Bool-cases (memcmpct 0 (take sha_size buffer) (hmac (drop sha_size buffer)) == 0))
  where
    itself : Same w.statsd w.statsd
    itself = record { valid = ok; drift = refl; bits = refl; hashes = refl }

    split :
        (ltb (length buffer) min_packet_size ≡ true) ⊎ (ltb (length buffer) min_packet_size ≡ false)
        → ((memcmpct 0 (take sha_size buffer) (hmac (drop sha_size buffer)) == 0) ≡ true)
          ⊎ ((memcmpct 0 (take sha_size buffer) (hmac (drop sha_size buffer)) == 0) ≡ false)
        → Admits hmac w tv_sec buffer (secure__receive hmac w tv_sec (packet buffer))
    split (inl short) _ = rw short itself
    split (inr long) (inr forged) = rw (long, forged) itself
    split (inr long) (inl mac) =
        let enough : min_packet_size ≤ length buffer = ground (arith, long) in
        let (size, hash_bytes) = is_mac (drop sha_size buffer) in
        let same_length : length (take sha_size buffer) ≡ length (hmac (drop sha_size buffer)) =
          omega (arith, length-take sha_size buffer, size) in
        let zero_cmp : memcmpct 0 (take sha_size buffer) (hmac (drop sha_size buffer)) ≡ 0 =
          ground (arith, mac) in
        let (equal, _) =
          memcmpct_iff (take sha_size buffer) (hmac (drop sha_size buffer)) same_length
            (All-take _ sha_size buffer bytes) hash_bytes in
        rw (long, mac)
          (admit-Admits hmac w _ tv_sec buffer (verify_token w.statsd tv_sec (token_of buffer))
            enough (equal zero_cmp) refl
            (verify_token-Verifies w.statsd tv_sec (token_of buffer) ok clock))
