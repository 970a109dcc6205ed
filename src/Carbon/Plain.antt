-- ===== src/Carbon/Plain.antt =====
-- The plain text side of src/backends/carbon.c. A value is given as the bits of the float that
-- `brubeck_ftoa` is passed.
use brubeck.Prelude.{
  ℕ, List, [], ◌∷◌, ◌++◌, Option, none, some, not, ltb, if◌then◌else◌, ◌>>=◌, length,
}
use brubeck.Printing.{itoa}
use brubeck.Printing.Float.{ftoa}
use brubeck.Tick.{Operations}
use brubeck.Carbon.{Written, Carbon, write_in_full, flushed}
use brubeck.Carbon.Connection.{Dial, carbon_is_connected, carbon_connect}

-- `sizeof(buffer)`
abbrev pub plaintext_buffer_size : ℕ
plaintext_buffer_size = 1024

unfoldable pub plaintext_line : List ℕ → ℕ → ℕ → List ℕ
plaintext_line key bits tick_time =
    key ++ (b' ' ∷ ftoa bits) ++ (b' ' ∷ itoa tick_time) ++ (b'\n' ∷ [])

-- `none` is also a line that is longer than its buffer.
unfoldable pub plaintext_each : Carbon → List Written → List ℕ → ℕ → Option (Carbon × List Written)
unfolding plaintext_line
plaintext_each c answers key bits =
    let line = plaintext_line key bits c.tick_time in
    if not (carbon_is_connected c)
    then some (c, answers)
    else if ltb plaintext_buffer_size (length line)
    then none
    else (do
      result ← write_in_full answers (length line) 0
      some (flushed (record c { stream = c.stream ++ line }) result))

-- The backend over plain text, which has no flush; `bits` are those of a value as a float.
unfoldable pub plaintext_operations :
    {V : Type 0} → (V → ℕ) → Dial → Operations (Carbon × List Written) V
unfolding plaintext_each
plaintext_operations bits dial = record {
  connect = λ (c, answers). let (up, c') = carbon_connect dial c in (up, (c', answers));
  at_time = λ now (c, answers). (record c { tick_time = now }, answers);
  sample = λ key value (c, answers). plaintext_each c answers key (bits value);
  flush = none;
}
