-- ===== src/Statsd/Message.antt =====
-- `brubeck_statsd_msg_parse` of src/samplers/statsd.c.
pub mod Print
pub mod Accept
use brubeck.Prelude.{
  ℕ, ◌+◌, ◌-◌, ◌<◌, List, [], ◌∷◌, ◌++◌, Option, none, some, Bool, true, false, ◌&&◌, ◌||◌, length,
  get_or, ltb, leb, ◌==◌, if◌then◌else◌, ◌>>=◌, u16,
}
use brubeck.Value.{Double}
use brubeck.Metric.{MetricType, gauge, meter, counter, histo, timer}
use brubeck.Statsd.Number.{Libc, peek, skip, parse_float}

-- `struct brubeck_statsd_msg`
pub record Msg (V : Type 0) : Type 0 where
  pub key : List ℕ
  pub key_len : ℕ
  pub type : MetricType
  pub value : V
  pub sample_freq : V
  pub modifiers : ℕ

-- The key up to the first ':', and the text after that. `none`: a space, or no ':' before a zero
-- byte.
unfoldable pub scan_key : List ℕ → Option (List ℕ × List ℕ)
scan_key [] = none
scan_key (c ∷ cs) =
    if c == b':'
    then some ([], cs)
    else if c == 0
    then none
    else if c == b' '
    then none
    else (do (key, rest) ← scan_key cs; some (c ∷ key, rest))

-- `msg->key[msg->key_len - 1]`; `before` is the byte in front of the buffer.
abbrev pub last_byte : ℕ → List ℕ → ℕ
last_byte before key = if u16 (length key) == 0 then before else get_or key (u16 (length key) - 1) 0

-- The `switch` on the type, and the text after it.
unfoldable pub parse_type : List ℕ → Option (MetricType × List ℕ)
parse_type text =
    if peek text == b'g'
    then some (gauge, skip text)
    else if peek text == b'c'
    then some (meter, skip text)
    else if peek text == b'C'
    then some (counter, skip text)
    else if peek text == b'h'
    then some (histo, skip text)
    else if (peek text == b'm') && (peek (skip text) == b's')
    then some (timer, skip (skip text))
    else none

-- The end of the message, or a newline and the end.
abbrev pub at_end : List ℕ → Bool
at_end text = (peek text == 0) || (peek text == b'\n') && (peek (skip text) == 0)

module _ {V : Type 0} ⦃d : Double V⦄ (libc : Libc V) where
  -- The trailer "|@rate", if it is there: the sample frequency, and the text after it. What the
  -- modifiers of the rate come to is not used.
  unfoldable pub parse_rate : List ℕ → Option (V × List ℕ)
  parse_rate text =
      if (peek text == b'|') && (peek (skip text) == b'@')
      then (let (rate, _, rest) = parse_float libc (skip (skip text)) 0 in
          if d.le rate (d.of_nat 0) || d.lt (d.of_nat 1) rate
          then none
          else some (d.div (d.of_nat 1) rate, rest))
      else some (d.of_nat 1, text)

  -- What follows the key and its ':'.
  unfoldable pub parse_body : List ℕ → List ℕ → Option (Msg V)
  parse_body key text =
      let (value, mods, rest) = parse_float libc text 0 in
      if peek rest == b'|'
      then (do
        (type, rest') ← parse_type (skip rest)
        (freq, rest'') ← parse_rate rest'
        (if at_end rest''
            then some (record {
              key = key;
              key_len = u16 (length key);
              type = type;
              value = value;
              sample_freq = freq;
              modifiers = mods;
            })
            else none))
      else none

  -- The message, or `none` for -1. `before` is the byte in front of the buffer.
  unfoldable pub msg_parse : ℕ → List ℕ → Option (Msg V)
  msg_parse before text = do
    (key, rest) ← scan_key text
    if last_byte before key == b'.' then none else parse_body key rest

-- The text as the parser leaves it: the ':' after the key is overwritten by a zero byte.
unfoldable pub scribble : List ℕ → List ℕ
scribble text = elim (scan_key text) [ none ↦ text | some (key, rest) ↦ key ++ (0 ∷ rest) ]
