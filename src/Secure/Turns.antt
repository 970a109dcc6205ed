-- ===== src/Secure/Turns.antt =====
-- Many turns of `statsd_secure__thread` of src/samplers/statsd-secure.c, after a token was accepted.
use brubeck.Prelude.{
  ℕ, ◌+◌, ◌^◌, ◌≤◌, ◌<◌, ◌≡◌, refl, ◌∙◌, List, [], ◌∷◌, Option, none, some, ◌>>=◌, ◌==◌, ltb, arith,
  length, take, drop, u64, Bool-cases, inl, inr,
}
use brubeck.Secure.{
  Token, Verdict, fresh, rejected, StatsdSecure, Received, again, failed_read, packet, Worker,
  token_of, memcmpct, verify_token, admit, secure__receive, sha_size, min_packet_size,
}
use brubeck.Secure.Replay.{Verifies, verify_token-Verifies, Guards, verified-Guards}

-- The turns for what recvfrom gave, with the clock at each.
unfoldable pub receive_all : (List ℕ → List ℕ) → Worker → List (ℕ × Received) → Option Worker
receive_all hmac w [] = some w
receive_all hmac w ((tv_sec, r) ∷ rest) = do
  (_, w') ← secure__receive hmac w tv_sec r
  receive_all hmac w' rest

-- The clock does not run back and comes to `later`, and no turn is at the limit or after it.
abbrev pub Comes : ℕ → ℕ → List (ℕ × Received) → ℕ → Type 0
Comes limit now [] later = (now ≤ later) × (later < limit)
Comes limit now ((tv_sec, r) ∷ rest) later =
    (now ≤ tv_sec) × (tv_sec < limit) × Comes limit tv_sec rest later

-- The worker still guards the token, its clock is not after that of the turn.
abbrev pub Stays : Token → StatsdSecure → ℕ → Option (Option (List ℕ) × Worker) → Type 0
Stays t s tv_sec none = ⊥
Stays t s tv_sec (some (out, w)) =
    Guards t w.statsd × (w.statsd.drift ≡ s.drift) × (w.statsd.now ≤ tv_sec)

module _ (hmac : List ℕ → List ℕ) (t : Token) where
  admit-Stays :
      (w : Worker) (buffer : List ℕ) (tv_sec : ℕ) (u : Token) (r : Option (Verdict × StatsdSecure))
      → Guards t w.statsd
      → w.statsd.now ≤ tv_sec
      → tv_sec < t.timestamp + w.statsd.drift
      → Verifies w.statsd tv_sec u r
      → Stays t w.statsd tv_sec (admit w buffer r)
  unfolding admit
  admit-Stays w buffer tv_sec u none g after near v = v
  admit-Stays w buffer tv_sec u (some (fresh, s')) g after near v =
      (verified-Guards w.statsd s' t tv_sec u fresh g after near v, v.0.drift, omega (arith, v.1))
  admit-Stays w buffer tv_sec u (some (rejected stat, s')) g after near v = (
    verified-Guards w.statsd s' t tv_sec u (rejected stat) g after near v,
    v.0.drift,
    omega (arith, v.1),
  )

  receive-Stays :
      (w : Worker) (tv_sec : ℕ) (r : Received)
      → Guards t w.statsd
      → w.statsd.now ≤ tv_sec
      → tv_sec < t.timestamp + w.statsd.drift
      → tv_sec < 2 ^ 64
      → Stays t w.statsd tv_sec (secure__receive hmac w tv_sec r)
  unfolding secure__receive
  receive-Stays w tv_sec again g after near fits = (g, refl, after)
  receive-Stays w tv_sec failed_read g after near fits = (g, refl, after)
  receive-Stays w tv_sec (packet buffer) g after near fits =
      elim (Bool-cases (ltb (length buffer) min_packet_size)) [
        | inl short ↦ rw short (g, refl, after)
        | inr long ↦
            elim (Bool-cases
              (memcmpct 0 (take sha_size buffer) (hmac (drop sha_size buffer)) == 0)) [
                | inr other ↦ rw (long, other) (g, refl, after)
                | inl genuine ↦
                    rw (long, genuine)
                      (admit-Stays (record w { inflow = u64 (w.inflow + 1) }) buffer tv_sec
                        (token_of buffer) (verify_token w.statsd tv_sec (token_of buffer)) g after
                        near (verify_token-Verifies w.statsd tv_sec (token_of buffer) g.valid fits))
              ]
      ]

  -- However long the worker runs on before the token leaves the drift, it guards the token then.
  pub receive_all-Guards :
      (rs : List (ℕ × Received)) (w : Worker) (now later limit : ℕ)
      → Guards t w.statsd
      → w.statsd.now ≤ now
      → t.timestamp + w.statsd.drift ≡ limit
      → limit ≤ 2 ^ 64
      → Comes limit now rs later
      → (u : Worker) × (receive_all hmac w rs ≡ some u)
        × Guards t u.statsd
        × (u.statsd.drift ≡ w.statsd.drift)
        × (u.statsd.now ≤ later)
        × (later < limit)
  unfolding receive_all
  receive_all-Guards [] w now later limit g at e fits (after, near) =
      (w, refl, g, refl, omega arith, near)
  receive_all-Guards ((tv_sec, r) ∷ rs) w now later limit g at e fits (after, near, comes) =
      go (secure__receive hmac w tv_sec r)
        (receive-Stays w tv_sec r g (omega arith) (omega arith) (omega arith))
        (λ w' g' at' same.
          receive_all-Guards rs w' tv_sec later limit g' at' (omega (arith, same)) fits comes)
    where
      go :
          (x : Option (Option (List ℕ) × Worker))
          → Stays t w.statsd tv_sec x
          → ((w' : Worker)
              → Guards t w'.statsd
              → w'.statsd.now ≤ tv_sec
              → w'.statsd.drift ≡ w.statsd.drift
              → (u : Worker) × (receive_all hmac w' rs ≡ some u)
                × Guards t u.statsd
                × (u.statsd.drift ≡ w'.statsd.drift)
                × (u.statsd.now ≤ later)
                × (later < limit))
          → (u : Worker) × ((x >>= λ (_, w'). receive_all hmac w' rs) ≡ some u)
            × Guards t u.statsd
            × (u.statsd.drift ≡ w.statsd.drift)
            × (u.statsd.now ≤ later)
            × (later < limit)
      go none h rest = absurd h
      go (some (out, w')) (g', same, at') rest =
          let (u, e', gu, du, nu, near') = rest w' g' at' same in (u, e', gu, du ∙ same, nu, near')
