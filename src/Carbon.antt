-- ===== src/Carbon.antt =====
-- The pickles of src/backends/carbon.c, and the write loop of src/utils.h. The buffer is the list
-- of the bytes that were written from its fifth byte on; a value is the list of its eight bytes in
-- memory, the lowest first. The answers of the socket are given.
pub mod Connection
pub mod Pickle
pub mod Plain
pub mod Write
mod Tests
use mathlib.Core.List.{reverse}
use brubeck.Prelude.{
  ℕ, zero, suc, ◌+◌, ◌-◌, ◌*◌, ◌/◌, ◌%◌, ◌^◌, List, [], ◌∷◌, ◌++◌, Option, none, some, Bool, true,
  false, not, ◌||◌, ◌==◌, ltb, if◌then◌else◌, ◌>>=◌, u8, u16, u32, u64, length, take,
}

abbrev pub pickle_buffer_size : ℕ
pickle_buffer_size = 4096

-- `PICKLE1_SIZE`
abbrev pub pickle1_size : ℕ → ℕ
pickle1_size key_len = 32 + key_len

-- An answer of `write`: so many bytes, EAGAIN or EINTR, or another error.
pub data Written : Type 0 where
  wrote : ℕ → Written
  interrupted failed : Written

-- The bytes that were written, or -1.
pub data Outcome : Type 0 where
  total : ℕ → Outcome
  write_error : Outcome

-- `write_in_full` with `xwrite`, from a count of bytes and a total on, and the answers that are left.
-- `none`: the answers are used up while `write` is called.
unfoldable pub write_in_full : List Written → ℕ → ℕ → Option (Outcome × List Written)
write_in_full answers zero sum = some (total sum, answers)
write_in_full [] (suc count) sum = none
write_in_full (interrupted ∷ answers) (suc count) sum = write_in_full answers (suc count) sum
write_in_full (failed ∷ answers) (suc count) sum = some (write_error, answers)
write_in_full (wrote zero ∷ answers) (suc count) sum = some (write_error, answers)
write_in_full (wrote (suc n) ∷ answers) (suc count) sum =
    write_in_full answers (suc count - suc n) (sum + suc n)

pub record Pickler : Type 0 where
  pub body : List ℕ
  pub pos : ℕ
  pub pt : ℕ

-- The connection is `out_sock >= 0`; `stream` is what was given to the socket to write.
pub record Carbon : Type 0 where
  pub is_connected : Bool
  pub tick_time : ℕ
  pub pickler : Pickler
  pub sent : ℕ
  pub stream : List ℕ

-- The bytes of a `uint32_t` in memory, and in the order of the network.
abbrev pub bytes32 : ℕ → List ℕ
bytes32 n = n % 256 ∷ n / 2 ^ 8 % 256 ∷ n / 2 ^ 16 % 256 ∷ n / 2 ^ 24 % 256 ∷ []

abbrev pub htonl_bytes : ℕ → List ℕ
htonl_bytes n = reverse (bytes32 n)

abbrev pub pickle1_int32 : ℕ → List ℕ
pickle1_int32 n = b'J' ∷ bytes32 n

abbrev pub pickle1_double : List ℕ → List ℕ
pickle1_double source = b'G' ∷ reverse source

-- The tuple of a metric; the memo numbers are written to a `char`.
unfoldable pub pickle1_tuple : List ℕ → ℕ → ℕ → List ℕ → ℕ → List ℕ
pickle1_tuple key key_len timestamp value pt =
    (b'(' ∷ b'U' ∷ key_len ∷ take key_len key)
    ++ (b'q' ∷ u8 pt ∷ b'(' ∷ pickle1_int32 timestamp)
    ++ pickle1_double value
    ++ (b't' ∷ b'q' ∷ u8 (pt + 1) ∷ b't' ∷ b'q' ∷ u8 (pt + 2) ∷ [])

unfoldable pub pickle1_push : Pickler → List ℕ → ℕ → ℕ → List ℕ → Pickler
pickle1_push buf key key_len timestamp value =
    let tuple = pickle1_tuple key key_len timestamp value buf.pt in
    record { body = buf.body ++ tuple; pos = u16 (buf.pos + length tuple); pt = u16 (buf.pt + 3) }

abbrev pub lead : List ℕ
lead = b']' ∷ b'q' ∷ 0 ∷ b'(' ∷ []

abbrev pub trail : List ℕ
trail = b'e' ∷ b'.' ∷ []

abbrev pub pickle1_init : Pickler
pickle1_init = record { body = lead; pos = 8; pt = 1 }

-- The frame: the length of the rest in the first four bytes, and the rest.
abbrev pub frame : Pickler → List ℕ
frame buf = htonl_bytes (u32 (u16 (buf.pos + 2) - 4)) ++ buf.body ++ trail

abbrev pub carbon_disconnect : Carbon → Carbon
carbon_disconnect c = record c { is_connected = false }

-- What follows the write.
unfoldable pub flushed : Carbon → Outcome × List Written → Carbon × List Written
flushed c (total wr, answers) = (record c { sent = u64 (c.sent + wr) }, answers)
flushed c (write_error, answers) = (carbon_disconnect c, answers)

unfoldable pub pickle1_flush : Carbon → List Written → Option (Carbon × List Written)
pickle1_flush c answers =
    if (c.pickler.pt == 1) || not c.is_connected then some (c, answers) else (do
      let c' = record c { pickler = pickle1_init; stream = c.stream ++ frame c.pickler }
      result ← write_in_full answers (u16 (c.pickler.pos + 2)) 0
      some (flushed c' result))

unfoldable pub pickle1_each :
    Carbon → List Written → List ℕ → List ℕ → Option (Carbon × List Written)
pickle1_each c answers key value =
    let key_len = u8 (length key) in
    do
      (c', answers') ←
          (if ltb (c.pickler.pos + pickle1_size key_len) pickle_buffer_size
            then some (c, answers)
            else pickle1_flush c answers)
      some (
        (if c'.is_connected
            then record c' { pickler = pickle1_push c'.pickler key key_len c'.tick_time value }
            else c'),
        answers',
      )
