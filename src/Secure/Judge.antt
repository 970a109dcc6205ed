-- ===== src/Secure/Judge.antt =====
-- The two parts of `verify_token` of src/samplers/statsd-secure.c.
use brubeck.Prelude.{
  Nat-cases, ◌⊎◌, inl, inr, Bool-cases, ℕ, ◌-◌, ◌%◌, ◌^◌, ◌<◌, ◌≡◌, ◌≢◌, refl, ap, sym, ◌∙◌, Option,
  none, some, Bool, true, false, ◌==◌, ltb, if◌then◌else◌, ◌>>=◌, arith, length, u64,
}
use brubeck.Bloom.{Multibloom, multibloom_check, multibloom_reset}
use brubeck.Bloom.Check.{has, has_all-member}
use mathlib.Core.Path.{subst}
use brubeck.Bloom.Filters
use brubeck.Bloom.Filters.{
  filter_of, holds, bits_of, holds_all, Checked, Emptied, multibloom_check-Checked,
  multibloom_reset-Emptied,
}
use brubeck.Stats.{Stat}
use brubeck.Secure.{StatsdSecure, Token, Verdict, fresh, rejected, new_second, check_token}
use native.Mathlib.Nat.{mod-lt, mod-eq_of_lt}

-- One filter for each second of the drift, and a clock that fits its type.
pub record IsValid (s : StatsdSecure) : Type 0 where
  pub drift : 0 < s.drift
  pub replays : Filters.IsValid s.replays
  pub slots : length s.replays.filters ≡ s.drift
  pub hashes : 0 < s.replays.hashes
  pub clock : s.now < 2 ^ 64

-- Every bit of the token is set in the filter for its second.
abbrev pub remembers : StatsdSecure → Token → Bool
remembers s t = holds_all s.replays (t.timestamp % s.drift) (bits_of s.replays t.ha t.hb)

-- The same sampler but for the clock and the filters.
pub record Same (s s' : StatsdSecure) : Type 0 where
  pub valid : IsValid s'
  pub drift : s'.drift ≡ s.drift
  pub bits : s'.replays.bits ≡ s.replays.bits
  pub hashes : s'.replays.hashes ≡ s.replays.hashes

abbrev pub Begins : StatsdSecure → ℕ → Option StatsdSecure → Type 0
Begins s tv_sec none = ⊥
Begins s tv_sec (some s') =
    Same s s'
    × (s'.now ≡ tv_sec)
    × ((g : ℕ)
        → (tv_sec ≡ s.now) ⊎ (g ≢ tv_sec % s.drift)
        → filter_of s'.replays g ≡ filter_of s.replays g)
    × (tv_sec ≢ s.now → (y : ℕ) → holds s'.replays (tv_sec % s.drift) y ≡ false)

Emptied-Begins :
    (s : StatsdSecure) (tv_sec : ℕ) (r : Option Multibloom)
    → IsValid s
    → tv_sec < 2 ^ 64
    → tv_sec ≢ s.now
    → Emptied s.replays (tv_sec % s.drift) r
    → Begins s tv_sec (r >>= λ replays. some (record s { now = tv_sec; replays = replays }))
Emptied-Begins s tv_sec none ok h ne e = e
Emptied-Begins s tv_sec (some replays) ok h ne (keeps, empty) = (
  record {
    valid = record {
      drift = ok.drift;
      replays = keeps.valid;
      slots = keeps.count ∙ ok.slots;
      hashes = omega (arith, keeps.hashes, ok.hashes);
      clock = h;
    };
    drift = refl;
    bits = keeps.bits;
    hashes = keeps.hashes;
  },
  refl,
  λ g. other g,
  λ _. empty,
)
  where
    other :
        (g : ℕ)
        → (tv_sec ≡ s.now) ⊎ (g ≢ tv_sec % s.drift)
        → filter_of replays g ≡ filter_of s.replays g
    other g (inl e) = absurd (ne e)
    other g (inr n) = keeps.others g n

same-Begins :
    (s : StatsdSecure) (tv_sec : ℕ) → IsValid s → tv_sec ≡ s.now → Begins s tv_sec (some s)
same-Begins s tv_sec ok e = (
  record { valid = ok; drift = refl; bits = refl; hashes = refl },
  sym e,
  λ g _. refl,
  λ ne. absurd (ne e),
)

pub new_second-Begins :
    (s : StatsdSecure) (tv_sec : ℕ)
    → IsValid s
    → tv_sec < 2 ^ 64
    → Begins s tv_sec (new_second s tv_sec)
unfolding new_second
new_second-Begins s tv_sec ok h = split (Bool-cases (tv_sec == s.now))
  where
    split :
        ((tv_sec == s.now) ≡ true) ⊎ ((tv_sec == s.now) ≡ false)
        → Begins s tv_sec (new_second s tv_sec)
    split (inl t) = rw t (same-Begins s tv_sec ok (ground arith))
    split (inr t) =
        let pos : (s.drift == 0) ≡ false = ground (arith, ok.drift) in
        let slot = mod-lt tv_sec ok.drift in
        rw (t, pos)
          (Emptied-Begins s tv_sec (multibloom_reset s.replays (tv_sec % s.drift)) ok h
            (ground arith)
            (multibloom_reset-Emptied s.replays (tv_sec % s.drift) ok.replays
              (omega (arith, slot, ok.slots))))

-- The verdict that the times and the filters of the sampler call for.
abbrev pub verdict : ℕ → StatsdSecure → Token → Verdict
verdict tv_sec s t =
    if ltb tv_sec t.timestamp
    then rejected Stat.from_future
    else if ltb s.drift (tv_sec - t.timestamp)
    then rejected Stat.delayed
    else if remembers s t
    then rejected Stat.replayed
    else fresh

abbrev pub Judges : StatsdSecure → Token → Option (Verdict × StatsdSecure) → Type 0
Judges s t none = ⊥
Judges s t (some (v, s')) =
    Same s s'
    × (s'.now ≡ s.now)
    × (v ≡ verdict s.now s t)
    × ((g y : ℕ) → holds s.replays g y ≡ true → holds s'.replays g y ≡ true)
    × (v ≡ fresh → remembers s' t ≡ true)

Checked-Judges :
    (s : StatsdSecure) (t : Token) (r : Option (Bool × Multibloom))
    → IsValid s
    → ltb s.now t.timestamp ≡ false
    → ltb s.drift (s.now - t.timestamp) ≡ false
    → Checked s.replays (t.timestamp % s.drift) (bits_of s.replays t.ha t.hb) r
    → Judges s t (
        r >>= λ (seen, replays).
        some (if seen then rejected Stat.replayed else fresh, record s { replays = replays }))
Checked-Judges s t none ok past near c = c
Checked-Judges s t (some (seen, replays)) ok past near (keeps, eq, bits) = (
  record {
    valid = record {
      drift = ok.drift;
      replays = keeps.valid;
      slots = keeps.count ∙ ok.slots;
      hashes = omega (arith, keeps.hashes, ok.hashes);
      clock = ok.clock;
    };
    drift = refl;
    bits = keeps.bits;
    hashes = keeps.hashes;
  },
  refl,
  rw (past, near, eq) refl,
  λ g y. grows g y (Nat-cases g (t.timestamp % s.drift)),
  λ _. stored,
)
  where
    slot : ℕ
    slot = t.timestamp % s.drift

    grows :
        (g y : ℕ) → (g ≡ slot) ⊎ (g ≢ slot) → holds s.replays g y ≡ true → holds replays g y ≡ true
    grows g y (inl e) h =
        let at : holds s.replays slot y ≡ true = subst (λ k. holds s.replays k y ≡ true) e h in
        let now : holds replays slot y ≡ true = bits y ∙ ground (arith, at) in
        subst (λ k. holds replays k y ≡ true) (sym e) now
    grows g y (inr ne) h = ap (λ xs. has xs y) (keeps.others g ne) ∙ h

    stored : holds_all replays slot (bits_of replays t.ha t.hb) ≡ true
    stored =
        rw (keeps.bits, keeps.hashes)
          (has_all-member (filter_of replays slot) (bits_of s.replays t.ha t.hb)
            (λ y m. bits y ∙ rw m refl))

pub check_token-Judges : (s : StatsdSecure) (t : Token) → IsValid s → Judges s t (check_token s t)
unfolding check_token
check_token-Judges s t ok =
    split (Bool-cases (ltb s.now t.timestamp)) (Bool-cases (ltb s.drift (s.now - t.timestamp)))
  where
    clock : u64 s.now ≡ s.now
    clock = mod-eq_of_lt ok.clock

    rests : (stat : Stat) → verdict s.now s t ≡ rejected stat → Judges s t (some (rejected stat, s))
    rests stat e = (
      record { valid = ok; drift = refl; bits = refl; hashes = refl },
      refl,
      sym e,
      λ _ _ h. h,
      λ bad. cc,
    )

    split :
        (ltb s.now t.timestamp ≡ true) ⊎ (ltb s.now t.timestamp ≡ false)
        → (ltb s.drift (s.now - t.timestamp) ≡ true) ⊎ (ltb s.drift (s.now - t.timestamp) ≡ false)
        → Judges s t (check_token s t)
    split (inl future) _ = rw (clock, future) (rests Stat.from_future (rw future refl))
    split (inr past) (inl late) = rw (clock, past, late) (rests Stat.delayed (rw (past, late) refl))
    split (inr past) (inr near) =
        let pos : (s.drift == 0) ≡ false = ground (arith, ok.drift) in
        let inside = mod-lt t.timestamp ok.drift in
        rw (clock, past, near, pos)
          (Checked-Judges s t (multibloom_check s.replays (t.timestamp % s.drift) t.ha t.hb) ok past
            near
            (multibloom_check-Checked s.replays (t.timestamp % s.drift) t.ha t.hb ok.replays
              (omega (arith, inside, ok.slots))))
