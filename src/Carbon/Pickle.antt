-- ===== src/Carbon/Pickle.antt =====
-- The pickle buffer of src/backends/carbon.c: no write leaves it, and what is sent is framed.
use mathlib.Core.Path.{subst}
use brubeck.Prelude.{
  length-reverse, ℕ, ◌+◌, ◌-◌, ◌*◌, ◌≤◌, ◌<◌, ◌≡◌, ◌⊎◌, inl, inr, refl, ap, sym, List, ◌++◌, Option,
  none, some, true, false, ◌==◌, ltb, if◌then◌else◌, ◌>>=◌, arith, u8, u16, u32, length, take, drop,
  length-append, length-take, Bool-cases,
}
use brubeck.Carbon.Write.{moved, IsHonest, Completes, write_in_full-Completes}
use brubeck.Carbon.{
  Written, Outcome, total, write_error, write_in_full, Pickler, Carbon, pickle_buffer_size,
  pickle1_size, pickle1_tuple, pickle1_push, pickle1_init, htonl_bytes, frame, flushed,
  pickle1_flush, pickle1_each, trail,
}

-- `pos` is the end of what was written, and the trail still fits; the memo number is 1 only while no
-- value was written, since it grows too slowly to wrap around.
pub record IsValid (buf : Pickler) : Type 0 where
  pub memo : (1 ≤ buf.pt) × (26 * buf.pt + 24 ≤ 26 + 3 * buf.pos)
  pub unused : buf.pt ≡ 1 → buf.pos ≡ 8
  pub end : buf.pos ≡ 4 + length buf.body
  pub room : buf.pos + 2 ≤ pickle_buffer_size

length-tuple :
    (key value : List ℕ) (key_len timestamp pt : ℕ)
    → key_len ≤ length key
    → length value ≡ 8
    → length (pickle1_tuple key key_len timestamp value pt) ≡ 26 + key_len
unfolding pickle1_tuple
length-tuple key value key_len timestamp pt le eight =
    simp length-append (omega (arith, length-take key_len key, length-reverse value))

push-IsValid :
    (buf : Pickler) (key value : List ℕ) (timestamp : ℕ)
    → IsValid buf
    → length value ≡ 8
    → buf.pos + pickle1_size (u8 (length key)) < pickle_buffer_size
    → IsValid (pickle1_push buf key (u8 (length key)) timestamp value)
unfolding pickle1_push
push-IsValid buf key value timestamp ok eight room =
    let tuple = length-tuple key value (u8 (length key)) timestamp buf.pt (omega arith) eight in
    let all = length-append buf.body (pickle1_tuple key (u8 (length key)) timestamp value buf.pt) in
    let (one, slow) = ok.memo in
    record {
      memo = omega (arith, tuple, all, ok.end);
      unused = λ h. absurd (omega (arith, ok.end));
      end = omega (arith, tuple, all, ok.end);
      room = omega (arith, tuple, all, ok.end);
    }

-- The first four bytes say how many follow, and the whole fits the buffer.
pub record IsFramed (bytes : List ℕ) : Type 0 where
  pub long : 4 ≤ length bytes
  pub fits : length bytes ≤ pickle_buffer_size
  pub header : take 4 bytes ≡ htonl_bytes (length (drop 4 bytes))

frame-IsFramed : (buf : Pickler) → IsValid buf → IsFramed (frame buf)
frame-IsFramed buf ok =
    let size = length-append buf.body trail in
    let wraps : u32 (u16 (buf.pos + 2) - 4) ≡ length (buf.body ++ trail) =
      omega (arith, size, ok.end, ok.room) in
    record {
      long = omega arith;
      fits = omega (arith, size, ok.end, ok.room);
      header = ap htonl_bytes wraps;
    }

pub init-IsValid : IsValid pickle1_init
init-IsValid = record { memo = omega arith; unused = λ h. refl; end = refl; room = omega arith }

-- What was given to the socket: nothing, or one frame.
abbrev pub Sends : Carbon → Carbon → Type 0
Sends c c' =
    (c'.stream ≡ c.stream) ⊎ ((bytes : List ℕ) × IsFramed bytes × (c'.stream ≡ c.stream ++ bytes))

-- After a flush the buffer is valid, and empty if there still is a connection.
abbrev Flushes : Carbon → List Written → Option (Carbon × List Written) → Type 0
Flushes c answers none = moved answers < c.pickler.pos + 2
Flushes c answers (some (c', answers')) =
    IsValid c'.pickler × Sends c c' × (c'.is_connected ≡ true → c'.pickler.pos ≡ 8)

flushed-Flushes :
    (c c' : Carbon) (answers : List Written) (r : Option (Outcome × List Written))
    → IsValid c.pickler
    → c'.pickler ≡ pickle1_init
    → c'.stream ≡ c.stream ++ frame c.pickler
    → Completes answers (c.pickler.pos + 2) 0 r
    → Flushes c answers (r >>= λ result. some (flushed c' result))
unfolding flushed
flushed-Flushes c c' answers none ok e s h = h
flushed-Flushes c c' answers (some (total n, rest)) ok e s h = (
  subst IsValid (sym e) init-IsValid,
  inr (frame c.pickler, frame-IsFramed c.pickler ok, s),
  λ _. ap (λ p. p.pos) e,
)
flushed-Flushes c c' answers (some (write_error, rest)) ok e s h = (
  subst IsValid (sym e) init-IsValid,
  inr (frame c.pickler, frame-IsFramed c.pickler ok, s),
  λ _. ap (λ p. p.pos) e,
)

pickle1_flush-Flushes :
    (c : Carbon) (answers : List Written)
    → IsValid c.pickler
    → IsHonest answers (c.pickler.pos + 2)
    → Flushes c answers (pickle1_flush c answers)
unfolding pickle1_flush
pickle1_flush-Flushes c answers ok honest =
    split (Bool-cases (c.pickler.pt == 1)) (Bool-cases c.is_connected)
  where
    split :
        ((c.pickler.pt == 1) ≡ true) ⊎ ((c.pickler.pt == 1) ≡ false)
        → (c.is_connected ≡ true) ⊎ (c.is_connected ≡ false)
        → Flushes c answers (pickle1_flush c answers)
    split (inl unused) _ = rw unused (ok, inl refl, λ _. ok.unused (ground arith))
    split (inr used) (inr off) = rw (used, off) (ok, inl refl, λ on. cc)
    split (inr used) (inl on) =
        let whole : u16 (c.pickler.pos + 2) ≡ c.pickler.pos + 2 = omega (arith, ok.room) in
        rw (used, on, whole)
          (flushed-Flushes c _ answers (write_in_full answers (c.pickler.pos + 2) 0) ok refl
            (rw whole refl) (write_in_full-Completes answers (c.pickler.pos + 2) 0 honest))

abbrev pub Keeps : Carbon → List Written → Option (Carbon × List Written) → Type 0
Keeps c answers none = moved answers < c.pickler.pos + 2
Keeps c answers (some (c', answers')) = IsValid c'.pickler × Sends c c'

-- What is there after the test for room, and then the value.
pushed-Keeps :
    (c c' : Carbon) (key value : List ℕ)
    → IsValid c'.pickler
    → Sends c c'
    → length value ≡ 8
    → (c'.is_connected ≡ true
        → c'.pickler.pos + pickle1_size (u8 (length key)) < pickle_buffer_size)
    → let c'' =
        if c'.is_connected
        then record c' {
          pickler = pickle1_push c'.pickler key (u8 (length key)) c'.tick_time value;
        }
        else c' in
      IsValid c''.pickler × Sends c c''
pushed-Keeps c c' key value ok sends eight room = split (Bool-cases c'.is_connected)
  where
    after : Carbon
    after =
        if c'.is_connected
        then record c' {
          pickler = pickle1_push c'.pickler key (u8 (length key)) c'.tick_time value;
        }
        else c'

    split :
        (c'.is_connected ≡ true) ⊎ (c'.is_connected ≡ false) → IsValid after.pickler × Sends c after
    split (inl on) =
        rw on (push-IsValid c'.pickler key value c'.tick_time ok eight (room on), sends)
    split (inr off) = rw off (ok, sends)

-- With a valid buffer, one value of eight bytes more leaves the buffer valid, so that every write lies
-- inside of its 4096 bytes, and gives the socket nothing or one frame: four bytes that say how many
-- follow, and those. It waits only for a socket that has not taken the whole frame. For a socket
-- that never reports more bytes than it was given.
pub pickle1_each-Keeps :
    (c : Carbon) (answers : List Written) (key value : List ℕ)
    → IsValid c.pickler
    → length value ≡ 8
    → IsHonest answers (c.pickler.pos + 2)
    → Keeps c answers (pickle1_each c answers key value)
unfolding pickle1_each
pickle1_each-Keeps c answers key value ok eight honest =
    split (Bool-cases (ltb (c.pickler.pos + pickle1_size (u8 (length key))) pickle_buffer_size))
  where
    then_push : Carbon × List Written → Option (Carbon × List Written)
    then_push (c', answers') = some (
      (if c'.is_connected
          then record c' {
            pickler = pickle1_push c'.pickler key (u8 (length key)) c'.tick_time value;
          }
          else c'),
      answers',
    )

    flushed_first :
        (r : Option (Carbon × List Written))
        → Flushes c answers r
        → Keeps c answers (r >>= then_push)
    flushed_first none h = h
    flushed_first (some (c', answers')) (ok', sends, empty) =
        pushed-Keeps c c' key value ok' sends eight (λ on. omega (arith, empty on))

    split :
        (ltb (c.pickler.pos + pickle1_size (u8 (length key))) pickle_buffer_size ≡ true)
          ⊎ (ltb (c.pickler.pos + pickle1_size (u8 (length key))) pickle_buffer_size ≡ false)
        → Keeps c answers (pickle1_each c answers key value)
    split (inl room) = rw room (pushed-Keeps c c key value ok (inl refl) eight (λ _. ground arith))
    split (inr full) =
        rw full
          (flushed_first (pickle1_flush c answers) (pickle1_flush-Flushes c answers ok honest))
