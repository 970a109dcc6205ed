-- ===== src/Carbon/Connection.antt =====
-- The connection of src/backends/carbon.c, and the backend that its functions make up.
use brubeck.Prelude.{ℕ, List, some, Bool, true, false, ◌&&◌, if◌then◌else◌}
use brubeck.Tick.{Operations}
use brubeck.Carbon.{Written, Carbon, pickle1_each, pickle1_flush}

-- What `socket` and `connect` answer when they are called.
pub record Dial : Type 0 where
  pub socket : Bool
  pub connect : Bool

abbrev pub carbon_is_connected : Carbon → Bool
carbon_is_connected c = c.is_connected

-- With true where the code returns 0; a socket that does not connect is closed.
unfoldable pub carbon_connect : Dial → Carbon → Bool × Carbon
carbon_connect dial c =
    if carbon_is_connected c
    then (true, c)
    else if dial.socket && dial.connect
    then (true, record c { is_connected = true })
    else (false, record c { is_connected = false })

-- The backend over pickles; `bytes` are those of a value in memory.
unfoldable pub carbon_operations :
    {V : Type 0} → (V → List ℕ) → Dial → Operations (Carbon × List Written) V
unfolding carbon_connect
carbon_operations bytes dial = record {
  connect = λ (c, answers). let (up, c') = carbon_connect dial c in (up, (c', answers));
  at_time = λ now (c, answers). (record c { tick_time = now }, answers);
  sample = λ key value (c, answers). pickle1_each c answers key (bytes value);
  flush = some (λ (c, answers). pickle1_flush c answers);
}
