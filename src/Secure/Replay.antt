-- ===== src/Secure/Replay.antt =====
-- `verify_token` of src/samplers/statsd-secure.c: which tokens it rejects, and for how long it
-- remembers one.
use mathlib.Core.Path.{subst}
use brubeck.Prelude.{
  zero, suc, ℕ, ◌+◌, ◌-◌, ◌%◌, ◌^◌, ◌≤◌, ◌<◌, ◌≡◌, ◌≢◌, ◌⊎◌, inl, inr, refl, ap, sym, ◌∙◌, List, [],
  ◌∷◌, Option, none, some, true, false, ltb, ◌>>=◌, arith, mod-ne, Nat-cases,
}
use native.Mathlib.Nat.{add-mod_right}
use brubeck.Bloom.{position}
use brubeck.Bloom.Check.{has, positions, has_all, has_all_mono}
use brubeck.Bloom.Filters.{filter_of, holds, bits_of}
use brubeck.Stats.{Stat}
use brubeck.Secure.{
  StatsdSecure, Token, Verdict, fresh, rejected, new_second, check_token, verify_token,
}
use brubeck.Secure.Judge.{
  IsValid, remembers, verdict, Same, Begins, Judges, new_second-Begins, check_token-Judges,
}

-- The filter of a second was not reset at the new second.
abbrev pub IsKept : StatsdSecure → ℕ → ℕ → Type 0
IsKept s tv_sec g = (tv_sec ≡ s.now) ⊎ (g ≢ tv_sec % s.drift)

-- The outcome of `verify_token`: the verdict, which goes by what was remembered before unless the
-- filter was reset, and what is remembered after.
abbrev pub Verifies : StatsdSecure → ℕ → Token → Option (Verdict × StatsdSecure) → Type 0
Verifies s tv_sec t none = ⊥
Verifies s tv_sec t (some (v, s')) =
    Same s s'
    × (s'.now ≡ tv_sec)
    × (IsKept s tv_sec (t.timestamp % s.drift) → v ≡ verdict tv_sec s t)
    × ((u : Token)
        → IsKept s tv_sec (u.timestamp % s.drift)
        → remembers s u ≡ true
        → remembers s' u ≡ true)
    × (v ≡ fresh
        → (remembers s' t ≡ true) × (t.timestamp ≤ tv_sec) × (tv_sec ≤ t.timestamp + s.drift))

verdict_fresh :
    (now : ℕ) (s : StatsdSecure) (t : Token)
    → verdict now s t ≡ fresh
    → (t.timestamp ≤ now) × (now ≤ t.timestamp + s.drift)
verdict_fresh now s t h = ground arith

judged-Verifies :
    (s s₁ : StatsdSecure) (tv_sec : ℕ) (t : Token) (r : Option (Verdict × StatsdSecure))
    → Begins s tv_sec (some s₁)
    → Judges s₁ t r
    → Verifies s tv_sec t r
judged-Verifies s s₁ tv_sec t none b j = j
judged-Verifies s s₁ tv_sec t (some (v, s')) (same₁, now₁, kept, _)
      (same', now', eq, more, stored) =
    (
      record {
        valid = same'.valid;
        drift = same'.drift ∙ same₁.drift;
        bits = same'.bits ∙ same₁.bits;
        hashes = same'.hashes ∙ same₁.hashes;
      },
      now' ∙ now₁,
      judge,
      keep,
      λ f. let (after, before) = window f in (stored f, after, before),
    )
  where
    remembers-kept :
        (u : Token) → IsKept s tv_sec (u.timestamp % s.drift) → remembers s₁ u ≡ remembers s u
    remembers-kept u k =
        rw (same₁.bits, same₁.hashes, same₁.drift)
          (ap (λ filter. has_all filter (bits_of s.replays u.ha u.hb))
            (kept (u.timestamp % s.drift) k))

    window : v ≡ fresh → (t.timestamp ≤ tv_sec) × (tv_sec ≤ t.timestamp + s.drift)
    window f =
        let bounds = verdict_fresh s₁.now s₁ t (sym eq ∙ f) in
        omega (arith, bounds, now₁, same₁.drift)

    judge : IsKept s tv_sec (t.timestamp % s.drift) → v ≡ verdict tv_sec s t
    judge k = eq ∙ rw (← remembers-kept t k, now₁, same₁.drift) refl

    keep :
        (u : Token)
        → IsKept s tv_sec (u.timestamp % s.drift)
        → remembers s u ≡ true
        → remembers s' u ≡ true
    keep u k m =
        rw (same'.bits, same'.hashes, same'.drift)
          (has_all_mono (filter_of s₁.replays (u.timestamp % s₁.drift))
            (filter_of s'.replays (u.timestamp % s₁.drift)) (bits_of s₁.replays u.ha u.hb)
            (more (u.timestamp % s₁.drift)) (remembers-kept u k ∙ m))

pub verify_token-Verifies :
    (s : StatsdSecure) (tv_sec : ℕ) (t : Token)
    → IsValid s
    → tv_sec < 2 ^ 64
    → Verifies s tv_sec t (verify_token s tv_sec t)
unfolding verify_token
verify_token-Verifies s tv_sec t ok h = go (new_second s tv_sec) (new_second-Begins s tv_sec ok h)
  where
    go :
        (r : Option StatsdSecure)
        → Begins s tv_sec r
        → Verifies s tv_sec t (r >>= λ s'. check_token s' t)
    go none b = b
    go (some s₁) b =
        let (same₁, _, _, _) = b in
        judged-Verifies s s₁ tv_sec t (check_token s₁ t) b (check_token-Judges s₁ t same₁.valid)

-- The token was accepted and the clock has not gone past the end of its drift.
pub record Guards (t : Token) (s : StatsdSecure) : Type 0 where
  pub valid : IsValid s
  pub seen : remembers s t ≡ true
  pub past : t.timestamp ≤ s.now

-- No second between the token's and the end of its drift has its filter.
IsKept-within :
    (s : StatsdSecure) (t : Token) (tv_sec : ℕ)
    → t.timestamp ≤ s.now
    → s.now ≤ tv_sec
    → tv_sec < t.timestamp + s.drift
    → IsKept s tv_sec (t.timestamp % s.drift)
IsKept-within s t tv_sec past later near = split (Nat-cases tv_sec s.now)
  where
    split : (tv_sec ≡ s.now) ⊎ (tv_sec ≢ s.now) → IsKept s tv_sec (t.timestamp % s.drift)
    split (inl e) = inl e
    split (inr ne) = inr (λ e. mod-ne t.timestamp tv_sec s.drift (omega (arith, ne)) near (sym e))

-- Tokens that are verified one after the other, with the clock at each.
unfoldable pub verify_all : StatsdSecure → List (ℕ × Token) → Option (List Verdict × StatsdSecure)
verify_all s [] = some ([], s)
verify_all s ((tv_sec, t) ∷ rest) = do
  (v, s') ← verify_token s tv_sec t
  (vs, s'') ← verify_all s' rest
  some (v ∷ vs, s'')

-- The clock does not run back and stays below `limit`.
abbrev pub Runs : ℕ → ℕ → List (ℕ × Token) → Type 0
Runs limit now [] = Unit
Runs limit now ((tv_sec, t) ∷ rest) = (now ≤ tv_sec) × (tv_sec < limit) × Runs limit tv_sec rest

-- Whenever the token came again it was rejected as replayed.
abbrev pub Refuses : Token → List (ℕ × Token) → List Verdict → Type 0
Refuses t [] [] = Unit
Refuses t [] (v ∷ vs) = ⊥
Refuses t (x ∷ xs) [] = ⊥
Refuses t ((tv_sec, u) ∷ xs) (v ∷ vs) = (u ≡ t → v ≡ rejected Stat.replayed) × Refuses t xs vs

abbrev pub RefusesAll : Token → List (ℕ × Token) → Option (List Verdict × StatsdSecure) → Type 0
RefusesAll t xs none = ⊥
RefusesAll t xs (some (vs, s)) = Refuses t xs vs × IsValid s

pub verified-Guards :
    (s s' : StatsdSecure) (t : Token) (tv_sec : ℕ) (u : Token) (v : Verdict)
    → Guards t s
    → s.now ≤ tv_sec
    → tv_sec < t.timestamp + s.drift
    → Verifies s tv_sec u (some (v, s'))
    → Guards t s'
verified-Guards s s' t tv_sec u v g later near (same, now', _, keep, _) = record {
  valid = same.valid;
  seen = keep t (IsKept-within s t tv_sec g.past later near) g.seen;
  past = omega (arith, g.past, now');
}

pub verified-replayed :
    (s s' : StatsdSecure) (t : Token) (tv_sec : ℕ) (u : Token) (v : Verdict)
    → Guards t s
    → s.now ≤ tv_sec
    → tv_sec < t.timestamp + s.drift
    → Verifies s tv_sec u (some (v, s'))
    → u ≡ t
    → v ≡ rejected Stat.replayed
verified-replayed s s' t tv_sec u v g later near (_, _, judge, _, _) e =
    let for_t =
      subst (λ w. IsKept s tv_sec (w.timestamp % s.drift) → v ≡ verdict tv_sec s w) e judge in
    let past : ltb tv_sec t.timestamp ≡ false = ground (arith, g.past) in
    let soon : ltb s.drift (tv_sec - t.timestamp) ≡ false = ground (arith, g.past) in
    for_t (IsKept-within s t tv_sec g.past later near) ∙ rw (past, soon, g.seen) refl

prepend :
    (t : Token) (tv_sec : ℕ) (u : Token) (v : Verdict) (xs : List (ℕ × Token))
    (r : Option (List Verdict × StatsdSecure))
    → (u ≡ t → v ≡ rejected Stat.replayed)
    → RefusesAll t xs r
    → RefusesAll t ((tv_sec, u) ∷ xs) (r >>= λ (vs, s). some (v ∷ vs, s))
prepend t tv_sec u v xs none h r = r
prepend t tv_sec u v xs (some (vs, s)) h (all, ok) = ((h, all), ok)

-- The first of several tokens, given what holds of the others.
verified-RefusesAll :
    (s : StatsdSecure) (t : Token) (tv_sec : ℕ) (u : Token) (xs : List (ℕ × Token))
    (r : Option (Verdict × StatsdSecure))
    → Guards t s
    → s.now ≤ tv_sec
    → tv_sec < t.timestamp + s.drift
    → Verifies s tv_sec u r
    → ((s' : StatsdSecure)
        → Guards t s'
        → Same s s'
        → s'.now ≡ tv_sec
        → RefusesAll t xs (verify_all s' xs))
    → RefusesAll t
        ((tv_sec, u) ∷ xs)
        (r >>= λ (v, s'). verify_all s' xs >>= λ (vs, s''). some (v ∷ vs, s''))
verified-RefusesAll s t tv_sec u xs none g later near b rest = b
verified-RefusesAll s t tv_sec u xs (some (v, s')) g later near b rest =
    let (same, now', _, _, _) = b in
    prepend t tv_sec u v xs (verify_all s' xs) (verified-replayed s s' t tv_sec u v g later near b)
      (rest s' (verified-Guards s s' t tv_sec u v g later near b) same now')

verify_all-RefusesAll :
    (t : Token) (xs : List (ℕ × Token)) (s : StatsdSecure) (end : ℕ)
    → Guards t s
    → t.timestamp + s.drift ≡ end
    → end ≤ 2 ^ 64
    → Runs end s.now xs
    → RefusesAll t xs (verify_all s xs)
unfolding verify_all
verify_all-RefusesAll t [] s end g e fits runs = (tt, g.valid)
verify_all-RefusesAll t ((tv_sec, u) ∷ xs) s end g e fits (later, near, runs) =
    verified-RefusesAll s t tv_sec u xs (verify_token s tv_sec u) g later (omega arith)
      (verify_token-Verifies s tv_sec u g.valid (omega arith))
      (λ s' g' same now'.
        verify_all-RefusesAll t xs s' end g' (omega (arith, same.drift)) fits
          (subst (λ n. Runs end n xs) (sym now') runs))

-- After a valid sampler has accepted a token, no later token makes it fail or leaves it invalid, and
-- the same token is rejected as replayed whenever it comes again, whatever comes between: as long
-- as the clock does not run back and has not come to the time of the token plus the drift, which
-- fits 64 bits.
pub verify_all-replayed :
    (s s' : StatsdSecure) (tv_sec : ℕ) (t : Token) (xs : List (ℕ × Token))
    → IsValid s
    → verify_token s tv_sec t ≡ some (fresh, s')
    → t.timestamp + s.drift ≤ 2 ^ 64
    → tv_sec < 2 ^ 64
    → Runs (t.timestamp + s.drift) tv_sec xs
    → RefusesAll t xs (verify_all s' xs)
verify_all-replayed s s' tv_sec t xs ok e fits clock runs =
    let (same, now', _, _, accepted) =
      subst (Verifies s tv_sec t) e (verify_token-Verifies s tv_sec t ok clock) in
    let (stored, past, _) = accepted refl in
    let g : Guards t s' = record {
      valid = same.valid;
      seen = stored;
      past = omega (arith, now');
    } in
    verify_all-RefusesAll t xs s' (t.timestamp + s.drift) g (omega (arith, same.drift)) fits
      (subst (λ n. Runs (t.timestamp + s.drift) n xs) (sym now') runs)

-- At the time of the token plus the drift, unless the clock was there before, a token is accepted
-- whatever was accepted earlier: its filter has just been reset and it is not late yet.
pub verify_token_again :
    (s : StatsdSecure) (t : Token)
    → IsValid s
    → t.timestamp + s.drift < 2 ^ 64
    → s.now ≢ t.timestamp + s.drift
    → (s' : StatsdSecure) × (verify_token s (t.timestamp + s.drift) t ≡ some (fresh, s'))
unfolding verify_token
verify_token_again s t ok h ne =
    reset (new_second s (t.timestamp + s.drift)) (new_second-Begins s (t.timestamp + s.drift) ok h)
  where
    none_seen :
        (filter : List ℕ) (bits a b n : ℕ)
        → 0 < n
        → ((y : ℕ) → has filter y ≡ false)
        → has_all filter (positions bits a b n 0) ≡ false
    none_seen filter bits a b zero pos empty = absurd (omega arith)
    none_seen filter bits a b (suc n) pos empty = rw (empty (position bits a b 0)) refl

    judged :
        (s₁ : StatsdSecure) (r : Option (Verdict × StatsdSecure))
        → verdict s₁.now s₁ t ≡ fresh
        → Judges s₁ t r
        → (s' : StatsdSecure) × (r ≡ some (fresh, s'))
    judged s₁ none e j = absurd j
    judged s₁ (some (v, s')) e (_, _, eq, _, _) = (s', ap (λ x. some (x, s')) (eq ∙ e))

    reset :
        (r : Option StatsdSecure)
        → Begins s (t.timestamp + s.drift) r
        → (s' : StatsdSecure) × ((r >>= λ s₁. check_token s₁ t) ≡ some (fresh, s'))
    reset none b = absurd b
    reset (some s₁) (same, now', _, empty) =
        let slot : (t.timestamp + s.drift) % s.drift ≡ t.timestamp % s₁.drift =
          rw same.drift (add-mod_right t.timestamp s.drift) in
        let clear =
          subst (λ g. (y : ℕ) → holds s₁.replays g y ≡ false) slot (empty (λ e. ne (sym e))) in
        let unseen : remembers s₁ t ≡ false =
          none_seen (filter_of s₁.replays (t.timestamp % s₁.drift)) s₁.replays.bits t.ha t.hb
            s₁.replays.hashes same.valid.hashes clear in
        let past : ltb s₁.now t.timestamp ≡ false = ground (arith, now') in
        let soon : ltb s₁.drift (s₁.now - t.timestamp) ≡ false = ground (arith, now', same.drift) in
        judged s₁ (check_token s₁ t) (rw (past, soon, unseen) refl)
          (check_token-Judges s₁ t same.valid)
