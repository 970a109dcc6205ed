-- ===== src/Receive/Stale.antt =====
-- A buffer that the loop over `recvmmsg` in src/samplers/statsd.c parses again, though no packet was
-- put into it since.
use mathlib.Core.Path.{subst}
use mathlib.Core.List.{append-nil}
use brubeck.Prelude.{
  ℕ, zero, suc, ◌≡◌, ◌≢◌, refl, ap, sym, ◌∙◌, List, [], ◌∷◌, ◌++◌, none, some, arith, ◌==◌, ltb,
  if◌then◌else◌, length, Bool, true, false, Bool-cases, Option-cases, length-append, inl, inr,
}
use brubeck.Value.{Double}
use brubeck.Stats.{Stat}
use brubeck.HashTable.{CkHt}
use brubeck.Server.{Server}
use brubeck.Statsd.Number.{Libc}
use brubeck.Statsd.Message.{scan_key, msg_parse, scribble}
use brubeck.Statsd.Message.Accept.{
  Scanned, scan_key-Scanned, scribble_of_stop, scribble_of_key, scan_key-scribble,
}
use brubeck.Packet.{cut, inc, handled, packet_parse}
use brubeck.Packet.Lines.{IsLine, lines, lines_of_line, handle_lines, packet_parse-lines}
use brubeck.Receive.{left_from, left}

IsLine-append : (xs ys : List ℕ) → IsLine xs → IsLine ys → IsLine (xs ++ ys)
IsLine-append [] ys h k = k
IsLine-append (x ∷ xs) ys (h, hs) k = (h, IsLine-append xs ys hs k)

IsLine-cut : (cs : List ℕ) → IsLine (cut cs).0
unfolding cut
IsLine-cut [] = tt
IsLine-cut (c ∷ cs) = elim (Bool-cases (c == b'\n')) [
  | inl e ↦ rw e tt
  | inr e ↦ let ne : c ≢ b'\n' = ground arith in rw e (ne, IsLine-cut cs)
]

-- The parts of a text that is a line are lines.
IsLine-parts : (xs ys : List ℕ) → IsLine (xs ++ ys) → IsLine xs × IsLine ys
IsLine-parts [] ys h = (tt, h)
IsLine-parts (x ∷ xs) ys (h, hs) = let (a, b) = IsLine-parts xs ys hs in ((h, a), b)

-- What the parser does to a line puts no newline into it, and takes no byte away.
scribble-IsLine :
    (line : List ℕ) → IsLine line → IsLine (scribble line) × (length (scribble line) ≡ length line)
scribble-IsLine line h = elim (Option-cases (scan_key line)) [
  | inl e ↦ rw (scribble_of_stop line e) (h, refl)
  | inr ((key, rest), e) ↦
      let split : Scanned line (some (key, rest)) =
        subst (Scanned line) e (scan_key-Scanned line) in
      let (a, (_, b)) = IsLine-parts key (b':' ∷ rest) (subst IsLine split.0 h) in
      let whole = ap length split.0 ∙ length-append key (b':' ∷ rest) in
      rw (scribble_of_key line key rest e) (
        IsLine-append key (0 ∷ rest) a ((λ z. absurd (omega arith)), b),
        length-append key (0 ∷ rest) ∙ sym whole,
      )
]

-- Where no key is found, none is found with a zero byte and more bytes behind.
scan_key-append : (xs ys : List ℕ) → scan_key xs ≡ none → scan_key (xs ++ (0 ∷ ys)) ≡ none
unfolding scan_key
scan_key-append [] ys h = refl
scan_key-append (c ∷ xs) ys h = ground (arith, scan_key-append xs ys)

-- A line without a newline, in which no key is found.
abbrev Spent : List ℕ → Type 0
Spent text = IsLine text × (scan_key text ≡ none)

Spent-append :
    (xs ys : List ℕ) (b : Bool) → Spent xs → IsLine ys → Spent (xs ++ (if b then 0 ∷ ys else []))
Spent-append xs ys true (l, k) h =
    (IsLine-append xs (0 ∷ ys) l ((λ z. absurd (omega arith)), h), scan_key-append xs ys k)
Spent-append xs ys false h k = rw (append-nil xs) h

left_from-Spent : (turns : ℕ) (buffer : List ℕ) → Spent (left_from turns buffer)
unfolding left_from scan_key
left_from-Spent zero buffer = (tt, refl)
left_from-Spent (suc turns) [] = (tt, refl)
left_from-Spent (suc turns) (c ∷ cs) =
    let (line, rest) = cut (c ∷ cs) in
    Spent-append (scribble line) (left_from turns rest) (ltb (length line) (suc (length cs)))
      ((scribble-IsLine line (IsLine-cut (c ∷ cs))).0, scan_key-scribble line)
      (left_from-Spent turns rest).0

left-Spent : (packet : List ℕ) → Spent (left packet)
unfolding left
left-Spent packet = left_from-Spent (suc (length packet)) packet

opened :
    (xs ys : List ℕ) (n m : ℕ)
    → length xs ≡ n
    → (z : ℕ) × ((zs : List ℕ) × (xs ++ (if ltb n (suc m) then 0 ∷ ys else []) ≡ z ∷ zs))
opened [] ys n m h = let t : ltb n (suc m) ≡ true = ground arith in rw t (0, (ys, refl))
opened (x ∷ xs) ys n m h = (x, (xs ++ (if ltb n (suc m) then 0 ∷ ys else []), refl))

-- A packet that is not empty leaves bytes behind.
left-there : (c : ℕ) (cs : List ℕ) → (z : ℕ) × ((zs : List ℕ) × (left (c ∷ cs) ≡ z ∷ zs))
unfolding left left_from
left-there c cs =
    let (line, rest) = cut (c ∷ cs) in
    opened (scribble line) (left_from (suc (length cs)) rest) (length line) (length cs)
      (scribble-IsLine line (IsLine-cut (c ∷ cs))).1

module _ {V T : Type 0} ⦃d : Double V⦄ (ck : CkHt T) (libc : Libc V) where
  one_refusal :
      (s : Server V T) (before : ℕ) (text : List ℕ)
      → scan_key text ≡ none
      → handle_lines ck libc s before (text ∷ []) ≡ some (inc s Stat.errors)
  unfolding handle_lines handled msg_parse
  one_refusal s before text e = rw e refl

  no_line : (s : Server V T) (before : ℕ) → handle_lines ck libc s before (lines (left [])) ≡ some s
  unfolding handle_lines left left_from
  no_line s before = refl

  -- What a packet with any bytes has left in its buffer is parsed again as one message that is refused:
  -- the counter of errors grows by one and nothing else changes. An empty packet changes nothing.
  pub packet_parse-left :
      (s : Server V T) (before : ℕ) (packet : List ℕ)
      → packet_parse ck libc s before (left packet)
        ≡ elim packet [ [] ↦ some s | ◌∷◌ _ _ ↦ some (inc s Stat.errors) ]
  packet_parse-left s before [] = packet_parse-lines ck libc s before (left []) ∙ no_line s before
  packet_parse-left s before (c ∷ cs) =
      let (z, (zs, e)) = left-there c cs in
      let spent : Spent (left (c ∷ cs)) = left-Spent (c ∷ cs) in
      let (line, stop) = subst Spent e spent in
      rw e (
        packet_parse-lines ck libc s before (z ∷ zs)
        ∙ ap (handle_lines ck libc s before) (lines_of_line z zs line)
        ∙ one_refusal s before (z ∷ zs) stop)
