-- ===== src/Packet/Count.antt =====
-- A whole packet in `brubeck_statsd_packet_parse` of src/samplers/statsd.c: no fault, and every line
-- is counted once.
use mathlib.Core.Path.{subst}
use brubeck.Prelude.{
  ℕ, suc, ◌+◌, ◌≤◌, ◌≡◌, sym, List, [], ◌∷◌, Option, none, some, arith, length, All, ◌==◌, ◌>>=◌,
  Bool-cases, inl, inr,
}
use brubeck.Value.{Double}
use brubeck.HashTable.{CkHt, IsTable}
use brubeck.Server.{Server}
use brubeck.Server.Valid.{IsValid, Extends-refl, Extends-trans}
use brubeck.Server.Insert.{max_key}
use brubeck.Statsd.Number.{Libc}
use brubeck.Statsd.Message.{Msg, msg_parse}
use brubeck.Packet.{handled, packet_parse}
use brubeck.Packet.Lines.{cons_head, lines, handle_lines, packet_parse-lines}
use brubeck.Packet.Handle.{Handles, HandlesAll, refusal, acceptance, IsForeign, handled-Handles}

abbrev AllShort : ℕ → List (List ℕ) → Type 0
AllShort n = All (λ line. length line ≤ n)

AllShort-mono : (m n : ℕ) (ls : List (List ℕ)) → m ≤ n → AllShort m ls → AllShort n ls
AllShort-mono m n [] h all = tt
AllShort-mono m n (l ∷ ls) h (p, ps) = (omega arith, AllShort-mono m n ls h ps)

AllShort-cons_head :
    (m c : ℕ) (ls : List (List ℕ)) → AllShort m ls → AllShort (suc m) (cons_head c ls)
AllShort-cons_head m c [] all = (omega arith, tt)
AllShort-cons_head m c (l ∷ ls) (p, ps) = (omega arith, AllShort-mono m (suc m) ls (omega arith) ps)

-- No line is longer than the text.
AllShort-lines : (text : List ℕ) → AllShort (length text) (lines text)
AllShort-lines [] = tt
AllShort-lines (c ∷ cs) =
    let rest = AllShort-lines cs in
    elim (Bool-cases (c == b'\n')) [
      | inl e ↦
          rw e
            (omega arith, AllShort-mono (length cs) (suc (length cs)) (lines cs) (omega arith) rest)
      | inr e ↦ rw e (AllShort-cons_head (length cs) c (lines cs) rest)
    ]

module _ {V T : Type 0} ⦃d : Double V⦄ (ck : CkHt T) (name : List ℕ) (libc : Libc V) where
  -- The lines that the parser refuses and those that it accepts; a zero stands in front of all but
  -- the first.
  abbrev pub refusals : ℕ → List (List ℕ) → ℕ
  refusals before [] = 0
  refusals before (line ∷ ls) = refusal ck name libc (msg_parse libc before line) + refusals 0 ls

  abbrev pub acceptances : ℕ → List (List ℕ) → ℕ
  acceptances before [] = 0
  acceptances before (line ∷ ls) =
      acceptance ck name libc (msg_parse libc before line) + acceptances 0 ls

  -- The name of the server is the key of no line.
  abbrev pub AllForeign : ℕ → List (List ℕ) → Type 0
  AllForeign before [] = Unit
  AllForeign before (line ∷ ls) = IsForeign ck name libc before line × AllForeign 0 ls

  each_once :
      (before : ℕ) (ls : List (List ℕ)) → refusals before ls + acceptances before ls ≡ length ls
  each_once before [] = omega arith
  each_once before (line ∷ ls) = let rest = each_once 0 ls in one (msg_parse libc before line) rest
    where
      one :
          (r : Option (Msg V))
          → refusals 0 ls + acceptances 0 ls ≡ length ls
          → refusal ck name libc r + refusals 0 ls + (acceptance ck name libc r + acceptances 0 ls)
            ≡ suc (length ls)
      one none h = omega arith
      one (some m) h = omega arith

  Handles-trans :
      (s s' s'' : Server V T) (r a r' a' : ℕ)
      → Handles ck name s r a s'
      → Handles ck name s' r' a' s''
      → Handles ck name s (r + r') (a + a') s''
  Handles-trans s s' s'' r a r' a' h h' = record {
    valid = h'.valid;
    extends = Extends-trans s s' s'' h.extends h'.extends;
    entries = λ k j e. h'.entries k j (h.entries k j e);
    errors = omega (arith, h.errors, h'.errors);
    metrics = omega (arith, h.metrics, h'.metrics);
  }

  HandlesAll-trans :
      (s s' : Server V T) (r a r' a' : ℕ) (q : Option (Server V T))
      → Handles ck name s r a s'
      → HandlesAll ck name s' r' a' q
      → HandlesAll ck name s (r + r') (a + a') q
  HandlesAll-trans s s' r a r' a' none h h' = h'
  HandlesAll-trans s s' r a r' a' (some s'') h h' = Handles-trans s s' s'' r a r' a' h h'

  handle_lines-Handles :
      (ls : List (List ℕ)) (s : Server V T) (before : ℕ)
      → IsValid ck name s
      → IsTable ck
      → AllShort max_key ls
      → AllForeign before ls
      → HandlesAll ck name s
          (refusals before ls)
          (acceptances before ls)
          (handle_lines ck libc s before ls)
  unfolding handle_lines
  handle_lines-Handles [] s before ok laws short foreign = record {
    valid = ok;
    extends = Extends-refl s;
    entries = λ k j e. e;
    errors = omega arith;
    metrics = omega arith;
  }
  handle_lines-Handles (line ∷ ls) s before ok laws (fits, short) (f, foreign) =
      let r = msg_parse libc before line in
      first (handled ck libc s r) (handled-Handles ck name libc s before line ok laws fits f)
        (λ s' ok'. handle_lines-Handles ls s' 0 ok' laws short foreign)
    where
      first :
          (q : Option (Server V T))
          → let r = msg_parse libc before line in
            HandlesAll ck name s (refusal ck name libc r) (acceptance ck name libc r) q
            → ((s' : Server V T)
                → IsValid ck name s'
                → HandlesAll ck name s'
                    (refusals 0 ls)
                    (acceptances 0 ls)
                    (handle_lines ck libc s' 0 ls))
            → HandlesAll ck name s
                (refusals before (line ∷ ls))
                (acceptances before (line ∷ ls))
                (q >>= λ s'. handle_lines ck libc s' 0 ls)
      first none h rest = h
      first (some s') h rest =
          let r = msg_parse libc before line in
          HandlesAll-trans s s' (refusal ck name libc r) (acceptance ck name libc r) (refusals 0 ls)
            (acceptances 0 ls) (handle_lines ck libc s' 0 ls) h (rest s' h.valid)

  -- On a valid server a packet of at most 4031 bytes never faults, if the server's own name is the key
  -- of no line in it. The server is valid after it; no metric, no entry of the table and none of a
  -- queue is lost; the counter of errors grows by the lines that the parser refuses and the counter of
  -- metrics by those that it accepts, modulo their width, and these are all the lines. For a table
  -- that keeps what was put in.
  pub packet_parse-Handles :
      (s : Server V T) (before : ℕ) (packet : List ℕ)
      → IsValid ck name s
      → IsTable ck
      → length packet ≤ max_key
      → AllForeign before (lines packet)
      → HandlesAll ck name s
          (refusals before (lines packet))
          (acceptances before (lines packet))
          (packet_parse ck libc s before packet)
        × (refusals before (lines packet) + acceptances before (lines packet)
            ≡ length (lines packet))
  packet_parse-Handles s before packet ok laws fits foreign =
      let short =
        AllShort-mono (length packet) max_key (lines packet) fits (AllShort-lines packet) in
      (
        subst
            (HandlesAll ck name s (refusals before (lines packet))
              (acceptances before (lines packet)))
            (sym (packet_parse-lines ck libc s before packet))
            (handle_lines-Handles (lines packet) s before ok laws short foreign),
        each_once before (lines packet),
      )
