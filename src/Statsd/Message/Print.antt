-- ===== src/Statsd/Message/Print.antt =====
-- Every well formed message is accepted by src/samplers/statsd.c with the values that were written.
use brubeck.Prelude.{
  ℕ, ◌-◌, ◌<◌, ◌^◌, ◌≡◌, ◌≢◌, refl, List, [], ◌∷◌, ◌++◌, Option, none, some, Bool, true, false,
  ◌||◌, suc, length-append, get_or, All, arith, length, u16, ◌==◌, if◌then◌else◌, ◌>>=◌,
}
use brubeck.Value.{Double}
use brubeck.Metric.{MetricType, gauge, meter, counter, histo, timer, internal_stats}
use brubeck.Statsd.Number.{Libc}
use brubeck.Statsd.Number.Decimal.{
  Number, IsNumeral, Ends, print_number, meaning, modifiers_of, parse_float-print,
}
use brubeck.Statsd.Message.{
  Msg, scan_key, last_byte, parse_type, at_end, parse_rate, parse_body, msg_parse,
}

-- The tag of a type, "g", "c", "C", "h" or "ms"; the internal statistics have none.
abbrev pub tag : MetricType → List ℕ
tag gauge = b'g' ∷ []
tag meter = b'c' ∷ []
tag counter = b'C' ∷ []
tag histo = b'h' ∷ []
tag timer = b'm' ∷ b's' ∷ []
tag internal_stats = []

parse_type_lem :
    (type : MetricType) (rest : List ℕ)
    → type ≢ internal_stats
    → parse_type (tag type ++ rest) ≡ some (type, rest)
unfolding parse_type
parse_type_lem gauge rest h = refl
parse_type_lem meter rest h = refl
parse_type_lem counter rest h = refl
parse_type_lem histo rest h = refl
parse_type_lem timer rest h = refl
parse_type_lem internal_stats rest h = absurd (h refl)

-- A byte that the key of a message may hold.
abbrev pub IsKeyByte : ℕ → Type 0
IsKeyByte c = (c ≢ b':') × (c ≢ b' ') × (c ≢ 0)

scan_key_lem :
    (key rest : List ℕ) → All IsKeyByte key → scan_key (key ++ (b':' ∷ rest)) ≡ some (key, rest)
unfolding scan_key
scan_key_lem [] rest h = refl
scan_key_lem (c ∷ key) rest (h, hs) = rw (scan_key_lem key rest hs) (ground arith)

-- The trailer of a message: none, or a rate.
pub data Trailer : Type 0 where
  plain : Trailer
  rate : Number → Trailer

abbrev print_trailer : Trailer → List ℕ → List ℕ
print_trailer plain rest = rest
print_trailer (rate w) rest = b'|' ∷ b'@' ∷ print_number w rest

-- A message as a client writes it. The key is its stem and its last byte.
pub record Text : Type 0 where
  pub stem : List ℕ
  pub last : ℕ
  pub number : Number
  pub type : MetricType
  pub trailer : Trailer
  pub newline : Bool

abbrev pub key_of : Text → List ℕ
key_of t = t.stem ++ (t.last ∷ [])

abbrev pub print_end : Bool → List ℕ
print_end true = b'\n' ∷ []
print_end false = []

abbrev pub print_body : Text → List ℕ
print_body t =
    print_number t.number (b'|' ∷ (tag t.type ++ print_trailer t.trailer (print_end t.newline)))

abbrev pub print : Text → List ℕ
print t = key_of t ++ (b':' ∷ print_body t)

abbrev IsTrailer : Trailer → Type 0
IsTrailer plain = Unit
IsTrailer (rate w) = IsNumeral w

-- The key fits its length field, has no ':', space or zero byte and does not end in '.'; the numbers
-- are made of digits; and the type has a tag.
pub record IsText (t : Text) : Type 0 where
  pub key_bytes : All IsKeyByte (key_of t)
  pub key_fits : length (key_of t) < 2 ^ 16
  pub last_byte : t.last ≢ b'.'
  pub number : IsNumeral t.number
  pub type : t.type ≢ internal_stats
  pub trailer : IsTrailer t.trailer

get_or-last : (xs : List ℕ) (c : ℕ) → get_or (xs ++ (c ∷ [])) (length xs) 0 ≡ c
get_or-last [] c = refl
get_or-last (x ∷ xs) c = get_or-last xs c

last_byte_lem :
    (before : ℕ) (t : Text) → length (key_of t) < 2 ^ 16 → last_byte before (key_of t) ≡ t.last
last_byte_lem before t h =
    let long : length (key_of t) ≡ suc (length t.stem) =
      omega (arith, length-append t.stem (t.last ∷ [])) in
    let index : u16 (length (key_of t)) - 1 ≡ length t.stem = omega arith in
    let some_ : (u16 (length (key_of t)) == 0) ≡ false = ground arith in
    rw (some_, index) (get_or-last t.stem t.last)

end_Ends : (newline : Bool) → Ends (print_end newline) × (at_end (print_end newline) ≡ true)
end_Ends true = ground arith
end_Ends false = ground arith

module _ {V : Type 0} ⦃d : Double V⦄ (libc : Libc V) where
  -- The frequency that a trailer asks for; `none` for a rate that is not above 0.0 and at most 1.0.
  abbrev pub freq_of : Trailer → Option V
  freq_of plain = some (d.of_nat 1)
  freq_of (rate w) =
      let r = meaning libc w in
      if d.le r (d.of_nat 0) || d.lt (d.of_nat 1) r then none else some (d.div (d.of_nat 1) r)

  parse_rate_lem :
      (tr : Trailer) (newline : Bool)
      → IsTrailer tr
      → parse_rate libc (print_trailer tr (print_end newline))
        ≡ (freq_of tr >>= λ f. some (f, print_end newline))
  unfolding parse_rate
  parse_rate_lem plain true h = refl
  parse_rate_lem plain false h = refl
  parse_rate_lem (rate w) newline h =
      rw (parse_float-print libc w (print_end newline) h (end_Ends newline).0) (ground arith)

  abbrev pub message_of : List ℕ → Text → V → Msg V
  message_of key t freq = record {
    key = key;
    key_len = length key;
    type = t.type;
    value = meaning libc t.number;
    sample_freq = freq;
    modifiers = modifiers_of t.number.sign;
  }

  bind_end :
      (o : Option V) (newline : Bool) (m : V → Msg V)
      → let ended : Option (V × List ℕ) = (o >>= λ f. some (f, print_end newline)) in
        (ended >>= λ x. if at_end x.1 then some (m x.0) else none) ≡ (o >>= λ f. some (m f))
  bind_end none newline m = refl
  bind_end (some f) true m = refl
  bind_end (some f) false m = refl

  parse_body_lem :
      (key : List ℕ) (t : Text)
      → length key < 2 ^ 16
      → IsText t
      → parse_body libc key (print_body t) ≡ (freq_of t.trailer >>= λ f. some (message_of key t f))
  unfolding parse_body
  parse_body_lem key t short ok =
      let fits : u16 (length key) ≡ length key = omega arith in
      let end = print_end t.newline in
      rw
        (
          parse_float-print libc t.number (b'|' ∷ (tag t.type ++ print_trailer t.trailer end))
              ok.number (ground arith),
          parse_type_lem t.type (print_trailer t.trailer end) ok.type,
          parse_rate_lem t.trailer t.newline ok.trailer,
          fits,
        )
        (bind_end (freq_of t.trailer) t.newline (message_of key t))

  -- A well formed message is read as it was written, whatever byte stands in front of it: the key,
  -- the type, the value, whether it is relative, and the frequency 1.0 or the inverse of the rate.
  -- Only a rate outside of (0.0, 1.0] makes it fail.
  pub msg_parse-print :
      (before : ℕ) (t : Text)
      → IsText t
      → msg_parse libc before (print t)
        ≡ (freq_of t.trailer >>= λ f. some (message_of (key_of t) t f))
  unfolding msg_parse
  msg_parse-print before t ok =
      let good : (last_byte before (key_of t) == b'.') ≡ false =
        ground (arith, last_byte_lem before t ok.key_fits, ok.last_byte) in
      rw (scan_key_lem (key_of t) (print_body t) ok.key_bytes, good)
        (parse_body_lem (key_of t) t ok.key_fits ok)

  -- A message that is well formed but for its key, which is missing, is judged by the byte in front
  -- of the buffer, which is no part of it: after a '.' it is refused, and after any other byte it is
  -- accepted with an empty key.
  pub msg_parse_no_key :
      (before : ℕ) (t : Text)
      → IsText t
      → msg_parse libc before (b':' ∷ print_body t)
        ≡ (if before == b'.' then none else (freq_of t.trailer >>= λ f. some (message_of [] t f)))
  unfolding msg_parse scan_key
  msg_parse_no_key before t ok = rw (parse_body_lem [] t (omega arith) ok)
