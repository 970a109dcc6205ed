-- ===== src/Statsd/Message/Accept.antt =====
-- What an accepted message of src/samplers/statsd.c is known to be, and what happens to a message
-- that is parsed twice or has no key.
use mathlib.Core.Path.{subst}
use mathlib.Core.Option.{some-injective}
use brubeck.Prelude.{
  ℕ, ◌≡◌, ◌≢◌, refl, ap, List, [], ◌∷◌, ◌++◌, Option, none, some, false, ◌||◌, All, arith, length,
  u16, ◌==◌, ◌⊎◌, inl, inr, Bool-cases, Option-cases, sym, ◌&&◌, >>=-eq-some,
}
use brubeck.Value.{Double}
use brubeck.Metric.{MetricType, internal_stats}
use brubeck.Statsd.Number.{Libc, peek, skip, parse_float}
use brubeck.Statsd.Message.{
  Msg, scan_key, last_byte, parse_type, at_end, parse_rate, parse_body, msg_parse, scribble,
}
use brubeck.Statsd.Message.Print.{IsKeyByte}

-- The key that is scanned stands before the first ':' of the text.
abbrev pub Scanned : List ℕ → Option (List ℕ × List ℕ) → Type 0
Scanned text none = Unit
Scanned text (some (key, rest)) = (text ≡ key ++ (b':' ∷ rest)) × All IsKeyByte key

pub scan_key-Scanned : (text : List ℕ) → Scanned text (scan_key text)
unfolding scan_key
scan_key-Scanned [] = tt
scan_key-Scanned (c ∷ cs) = ground (arith, scan_key-Scanned cs)

-- A zero byte before the first ':' stops the scan.
scan_key-stop : (key rest : List ℕ) → All IsKeyByte key → scan_key (key ++ (0 ∷ rest)) ≡ none
unfolding scan_key
scan_key-stop [] rest h = refl
scan_key-stop (c ∷ key) rest (h, hs) = rw (scan_key-stop key rest hs) (ground arith)

first_of_some {ℓ κ} :
    {A : Type ℓ} {B : Type κ} (c : A) {a : A} {b b' : B}
    → ◌≡◌ {A = Option (A × B)} (some (a, b)) (some (c, b'))
    → c ≡ a
first_of_some {A} {B} c {a} e =
    sym (ap (λ (o : Option (A × B)). elim o [ none ↦ c | some p ↦ p.0 ]) e)

pub scribble_of_stop : (text : List ℕ) → scan_key text ≡ none → scribble text ≡ text
unfolding scribble
scribble_of_stop text e = rw (e, scribble)

pub scribble_of_key :
    (text key rest : List ℕ) → scan_key text ≡ some (key, rest) → scribble text ≡ key ++ (0 ∷ rest)
unfolding scribble
scribble_of_key text key rest e = rw (e, scribble)

pub scan_key-scribble : (text : List ℕ) → scan_key (scribble text) ≡ none
scan_key-scribble text = elim (Option-cases (scan_key text)) [
  | inl e ↦ rw (scribble_of_stop text e) e
  | inr ((key, rest), e) ↦
      let split : Scanned text (some (key, rest)) =
        subst (Scanned text) e (scan_key-Scanned text) in
      rw (scribble_of_key text key rest e) (scan_key-stop key rest split.1)
]

module _ {V : Type 0} ⦃d : Double V⦄ (libc : Libc V) where
  -- The frequency is 1.0, or the inverse of a rate above 0.0 and at most 1.0, as far as the
  -- comparisons of `double` tell.
  abbrev pub IsFrequency : V → Type 0
  IsFrequency f =
      (f ≡ d.of_nat 1)
      ⊎ ((r : V) × (f ≡ d.div (d.of_nat 1) r)
          × (d.le r (d.of_nat 0) ≡ false)
          × (d.lt (d.of_nat 1) r ≡ false))

  -- What is known of a message that was accepted.
  pub record IsAccepted (before : ℕ) (text : List ℕ) (m : Msg V) : Type 0 where
    pub body : List ℕ
    pub split : text ≡ m.key ++ (b':' ∷ body)
    pub key_bytes : All IsKeyByte m.key
    pub key_len : m.key_len ≡ u16 (length m.key)
    pub last : last_byte before m.key ≢ b'.'
    pub type : m.type ≢ internal_stats
    pub value : m.value ≡ (parse_float libc body 0).0
    pub modifiers : m.modifiers ≡ (parse_float libc body 0).1
    pub freq : IsFrequency m.sample_freq

  parse_rate-IsFrequency :
      (text : List ℕ) {f : V} {rest : List ℕ}
      → parse_rate libc text ≡ some (f, rest)
      → IsFrequency f
  unfolding parse_rate
  parse_rate-IsFrequency text {f} e =
      let (rate, _, after) = parse_float libc (skip (skip text)) 0 in
      let refused = d.le rate (d.of_nat 0) || d.lt (d.of_nat 1) rate in
      elim (Bool-cases ((peek text == b'|') && (peek (skip text) == b'@'))) [
        | inl here ↦ elim (Bool-cases refused) [
          | inl bad ↦ cc (rw (here, bad) at e)
          | inr good ↦
              inr (rate, first_of_some f (rw (here, good) at e), ground arith, ground arith)
        ]
        | inr not_here ↦ inl (first_of_some f (rw not_here at e))
      ]

  parse_type-ne :
      (text : List ℕ) {t : MetricType} {rest : List ℕ}
      → parse_type text ≡ some (t, rest)
      → t ≢ internal_stats
  unfolding parse_type
  parse_type-ne text e = ground arith

  -- What an accepted body says.
  pub record IsBody (key text : List ℕ) (m : Msg V) : Type 0 where
    pub same_key : m.key ≡ key
    pub key_len : m.key_len ≡ u16 (length m.key)
    pub type : m.type ≢ internal_stats
    pub value : m.value ≡ (parse_float libc text 0).0
    pub modifiers : m.modifiers ≡ (parse_float libc text 0).1
    pub freq : IsFrequency m.sample_freq

  parse_body-IsBody :
      (key text : List ℕ) {m : Msg V} → parse_body libc key text ≡ some m → IsBody key text m
  unfolding parse_body
  parse_body-IsBody key text e =
      let (value, mods, rest) = parse_float libc text 0 in
      elim (Bool-cases (peek rest == b'|')) [
        | inr absent ↦ cc (rw absent at e)
        | inl bar ↦
            let ((type, rest'), typed, e') = >>=-eq-some (parse_type (skip rest)) _ (rw bar at e) in
            let ((freq, rest''), rated, e'') = >>=-eq-some (parse_rate libc rest') _ e' in
            elim (Bool-cases (at_end rest'')) [
              | inr more ↦ cc (rw more at e'')
              | inl ended ↦ subst (IsBody key text) (some-injective _ _ (rw ended at e'')) (record {
                same_key = refl;
                key_len = refl;
                type = parse_type-ne (skip rest) typed;
                value = refl;
                modifiers = refl;
                freq = parse_rate-IsFrequency rest' rated;
              })
            ]
      ]

  -- Whatever is accepted has a key that stands before the first ':', holds no ':', space or zero byte
  -- and is not ended by a '.' where the parser looks; a type that a client can name; the value and
  -- the modifiers of the number after the ':'; and a frequency of 1.0 or the inverse of a rate that
  -- is not at most 0.0 and not above 1.0.
  pub msg_parse-IsAccepted :
      (before : ℕ) (text : List ℕ) {m : Msg V}
      → msg_parse libc before text ≡ some m
      → IsAccepted before text m
  unfolding msg_parse
  msg_parse-IsAccepted before text {m} e =
      let ((key, rest), scanned, e') = >>=-eq-some (scan_key text) _ e in
      elim (Bool-cases (last_byte before key == b'.')) [
        | inl dot ↦ cc (rw dot at e')
        | inr no_dot ↦
            let b = parse_body-IsBody key rest (rw no_dot at e') in
            let known = scan_key-Scanned text in
            let split : Scanned text (some (key, rest)) = rw scanned at known in
            record {
              body = rest;
              split = rw (b.same_key) split.0;
              key_bytes = rw (b.same_key) split.1;
              key_len = b.key_len;
              last = rw (b.same_key) (ground arith);
              type = b.type;
              value = b.value;
              modifiers = b.modifiers;
              freq = b.freq;
            }
      ]

  -- Parsing leaves a text that is refused when it is parsed again, and that parsing does not change
  -- further: a buffer that is not filled anew gives no metrics.
  pub msg_parse-scribble :
      (before : ℕ) (text : List ℕ)
      → (msg_parse libc before (scribble text) ≡ none) × (scribble (scribble text) ≡ scribble text)
  unfolding msg_parse
  msg_parse-scribble before text =
      let stopped = scan_key-scribble text in (rw stopped, scribble_of_stop (scribble text) stopped)
