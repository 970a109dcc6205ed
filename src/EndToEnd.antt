-- ===== src/EndToEnd.antt =====
-- From the packet to the report: src/samplers/statsd.c, src/metric.c and src/backend.c together. The
-- messages of a packet are recorded into the metric of their key, and a backend reports it.
pub mod Recorded
pub mod Reported
mod Tests
use brubeck.Prelude.{ℕ, ◌≡◌, List, [], ◌∷◌, Option, some, All}
use brubeck.Value.{Double}
use brubeck.Metric.Record.{Call}
use brubeck.Statsd.Number.{Libc}
use brubeck.Statsd.Number.Decimal.{meaning, modifiers_of}
use brubeck.Statsd.Message.Print.{Text, key_of, print, IsText, freq_of}
use brubeck.Packet.Lines.{IsMessage, join}

-- A message with the frequency that it asks for.
pub record Sent (V : Type 0) : Type 0 where
  pub text : Text
  pub freq : V

abbrev pub texts : {V : Type 0} → List (Sent V) → List (List ℕ)
texts [] = []
texts (m ∷ ms) = print m.text ∷ texts ms

-- The packet, with the messages one below the other.
abbrev pub packet_of : {V : Type 0} → List (Sent V) → List ℕ
packet_of ms = join (texts ms)

module _ {V : Type 0} ⦃d : Double V⦄ (libc : Libc V) where
  abbrev pub call_of : Sent V → Call V
  call_of m = record {
    value = meaning libc m.text.number;
    freq = m.freq;
    mods = modifiers_of m.text.number.sign;
  }

  abbrev pub calls_of : List (Sent V) → List (Call V)
  calls_of [] = []
  calls_of (m ∷ ms) = call_of m ∷ calls_of ms

  -- A well formed message of that key, without a newline.
  pub record IsSent (k : List ℕ) (m : Sent V) : Type 0 where
    pub form : IsText m.text
    pub key : key_of m.text ≡ k
    pub asked : freq_of libc m.text.trailer ≡ some m.freq
    pub line : IsMessage (print m.text)
