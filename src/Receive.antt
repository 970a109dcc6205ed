-- ===== src/Receive.antt =====
-- The receive loops of src/samplers/statsd.c. What the calls of the kernel gave is the list that a
-- loop goes through; `before` is the byte that the allocator has in front of a buffer.
pub mod Many
pub mod Stale
mod Tests
use brubeck.Prelude.{
  ℕ, zero, suc, ◌+◌, List, [], ◌∷◌, ◌++◌, Option, none, some, if◌then◌else◌, ◌>>=◌, length, u64,
  map, ltb, drop,
}
use brubeck.Value.{Double}
use brubeck.Stats.{Stat}
use brubeck.HashTable.{CkHt}
use brubeck.Server.{Server}
use brubeck.Statsd.Number.{Libc}
use brubeck.Statsd.Message.{scribble}
use brubeck.Packet.{cut, inc, packet_parse}

-- An answer of `recvfrom`: a packet, EAGAIN or EINTR, or another error.
pub data Recv : Type 0 where
  received : List ℕ → Recv
  try_again recv_failed : Recv

-- An answer of `recvmmsg`, with the packets that it put into the first buffers.
pub data RecvMany : Type 0 where
  received_many : List (List ℕ) → RecvMany
  try_many_again many_failed : RecvMany

-- What a worker thread changes.
pub record Receiver (V T : Type 0) : Type 0 where
  pub server : Server V T
  pub inflow : ℕ

-- The lines of a packet as the parser leaves them, for so many turns of its loop.
unfoldable pub left_from : ℕ → List ℕ → List ℕ
unfolding cut scribble
left_from zero buffer = []
left_from (suc turns) [] = []
left_from (suc turns) (c ∷ cs) =
    let (line, rest) = cut (c ∷ cs) in
    let behind = left_from turns rest in
    scribble line ++ (if ltb (length line) (suc (length cs)) then 0 ∷ behind else [])

-- A packet in its buffer after `brubeck_statsd_packet_parse`: every newline is a zero byte, and so is
-- every ':' behind a key.
unfoldable pub left : List ℕ → List ℕ
unfolding left_from
left packet = left_from (suc (length packet)) packet

-- The packets in the buffers after a call; the others are still there.
abbrev pub refill : List (List ℕ) → List (List ℕ) → List (List ℕ)
refill [] buffers = buffers
refill (p ∷ ps) [] = []
refill (p ∷ ps) (b ∷ buffers) = p ∷ refill ps buffers

module _ {V T : Type 0} ⦃d : Double V⦄ (ck : CkHt T) (libc : Libc V) (before : ℕ) where
  unfoldable pub recv_one : Recv → Receiver V T → Option (Receiver V T)
  recv_one (received packet) w = do
    server ← packet_parse ck libc w.server before packet
    some (record { server = server; inflow = u64 (w.inflow + 1) })
  recv_one try_again w = some w
  recv_one recv_failed w = some (record w { server = inc w.server Stat.errors })

  -- The receiver when the answers are used up; `none` is a fault.
  unfoldable pub run_recvmsg : List Recv → Receiver V T → Option (Receiver V T)
  unfolding recv_one
  run_recvmsg [] w = some w
  run_recvmsg (r ∷ rs) w = recv_one r w >>= run_recvmsg rs

  -- The loop over the buffers.
  unfoldable pub parse_all : List (List ℕ) → Server V T → Option (Server V T)
  parse_all [] s = some s
  parse_all (p ∷ ps) s = packet_parse ck libc s before p >>= parse_all ps

  -- All the buffers are parsed and counted, whatever the call has filled.
  unfoldable pub recv_many :
      RecvMany → Receiver V T → List (List ℕ) → Option (Receiver V T × List (List ℕ))
  unfolding parse_all left
  recv_many (received_many packets) w buffers =
      let filled = refill packets buffers in
      do
        server ← parse_all filled w.server
        some (record { server = server; inflow = u64 (w.inflow + length buffers) }, map left filled)
  recv_many try_many_again w buffers = some (w, buffers)
  recv_many many_failed w buffers = some (record w { server = inc w.server Stat.errors }, buffers)

  unfoldable pub run_recvmmsg :
      List RecvMany → Receiver V T → List (List ℕ) → Option (Receiver V T × List (List ℕ))
  unfolding recv_many
  run_recvmmsg [] w buffers = some (w, buffers)
  run_recvmmsg (r ∷ rs) w buffers = do
    (w', buffers') ← recv_many r w buffers
    run_recvmmsg rs w' buffers'
