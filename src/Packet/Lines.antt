-- ===== src/Packet/Lines.antt =====
-- The loop of `brubeck_statsd_packet_parse` in src/samplers/statsd.c goes through the lines of the
-- packet.
use brubeck.Prelude.{
  ℕ, zero, suc, ◌≤◌, ◌<◌, ◌≡◌, ◌≢◌, refl, ap, ◌∙◌, List, [], ◌∷◌, ◌++◌, Option, some, arith, ◌==◌,
  if◌then◌else◌, ◌>>=◌, length, All,
}
use mathlib.Core.Path.{fun_ext}
use brubeck.Value.{Double}
use brubeck.HashTable.{CkHt}
use brubeck.Server.{Server}
use brubeck.Statsd.Number.{Libc}
use brubeck.Statsd.Message.{msg_parse}
use brubeck.Packet.{cut, handled, packet_from, packet_parse}

abbrev pub cons_head : ℕ → List (List ℕ) → List (List ℕ)
cons_head c [] = (c ∷ []) ∷ []
cons_head c (line ∷ lines) = (c ∷ line) ∷ lines

-- The lines of a text, each ended by a newline but perhaps the last.
abbrev pub lines : List ℕ → List (List ℕ)
lines [] = []
lines (c ∷ cs) = if c == b'\n' then [] ∷ lines cs else cons_head c (lines cs)

lines-cut : (c : ℕ) (cs : List ℕ) → lines (c ∷ cs) ≡ (cut (c ∷ cs)).0 ∷ lines ((cut (c ∷ cs)).1)
unfolding cut
lines-cut c [] = ground arith
lines-cut c (x ∷ xs) = ground (arith, lines-cut x xs)

length-cut : (c : ℕ) (cs : List ℕ) → length (cut (c ∷ cs)).1 ≤ length cs
unfolding cut
length-cut c [] = ground arith
length-cut c (x ∷ xs) = ground (arith, length-cut x xs)

-- No newline stands in a line.
abbrev pub IsLine : List ℕ → Type 0
IsLine = All (λ c. c ≢ b'\n')

-- Lines written one below the other, without a newline at the end.
abbrev pub join : List (List ℕ) → List ℕ
join [] = []
join (line ∷ []) = line
join (line ∷ line' ∷ lines) = line ++ (b'\n' ∷ join (line' ∷ lines))

pub lines_of_line : (c : ℕ) (cs : List ℕ) → IsLine (c ∷ cs) → lines (c ∷ cs) ≡ (c ∷ cs) ∷ []
lines_of_line c [] h = ground arith
lines_of_line c (x ∷ xs) (h, hs) = rw (lines_of_line x xs hs) (ground arith)

lines-append :
    (line rest : List ℕ) → IsLine line → lines (line ++ (b'\n' ∷ rest)) ≡ line ∷ lines rest
lines-append [] rest h = ground arith
lines-append (c ∷ cs) rest (h, hs) = rw (lines-append cs rest hs) (ground arith)

abbrev pub IsMessage : List ℕ → Type 0
IsMessage line = (line ≢ []) × IsLine line

lines-join : (ls : List (List ℕ)) → All IsMessage ls → lines (join ls) ≡ ls
lines-join [] h = refl
lines-join ([] ∷ []) ((ne, _), _) = absurd (ne refl)
lines-join ((c ∷ cs) ∷ []) ((_, h), _) = lines_of_line c cs h
lines-join (line ∷ line' ∷ ls) ((_, h), hs) =
    lines-append line (join (line' ∷ ls)) h ∙ ap (◌∷◌ line) (lines-join (line' ∷ ls) hs)

module _ {V T : Type 0} ⦃d : Double V⦄ (ck : CkHt T) (libc : Libc V) where
  -- Each line is parsed and recorded in turn; a zero stands in front of all but the first.
  unfoldable pub handle_lines : Server V T → ℕ → List (List ℕ) → Option (Server V T)
  handle_lines s before [] = some s
  handle_lines s before (line ∷ lines) = do
    s' ← handled ck libc s (msg_parse libc before line)
    handle_lines s' 0 lines

  packet_from-lines :
      (turns : ℕ) (s : Server V T) (before : ℕ) (buffer : List ℕ)
      → length buffer < turns
      → packet_from ck libc turns s before buffer ≡ handle_lines s before (lines buffer)
  unfolding packet_from handle_lines
  packet_from-lines zero s before buffer h = absurd (omega arith)
  packet_from-lines (suc turns) s before [] h = refl
  packet_from-lines (suc turns) s before (c ∷ cs) h =
      let shorter = length-cut c cs in
      rw (lines-cut c cs) (
        ap (λ k. handled ck libc s (msg_parse libc before ((cut (c ∷ cs)).0)) >>= k)
          (fun_ext λ s'. packet_from-lines turns s' 0 ((cut (c ∷ cs)).1) (omega (arith, shorter))))

  -- The loop ends, and it comes to the lines of the packet, in order, each handled once.
  pub packet_parse-lines :
      (s : Server V T) (before : ℕ) (packet : List ℕ)
      → packet_parse ck libc s before packet ≡ handle_lines s before (lines packet)
  unfolding packet_parse
  packet_parse-lines s before packet =
      packet_from-lines (suc (length packet)) s before packet (omega arith)

  -- A packet of non-empty messages without a newline in them, written one below the other, is handled
  -- message by message.
  pub packet_parse-join :
      (s : Server V T) (before : ℕ) (messages : List (List ℕ))
      → All IsMessage messages
      → packet_parse ck libc s before (join messages) ≡ handle_lines s before messages
  packet_parse-join s before messages h =
      packet_parse-lines s before (join messages)
      ∙ ap (handle_lines s before) (lines-join messages h)
