-- ===== src/Carbon/Tests.antt =====
-- The pickle buffer at concrete values.
use brubeck.Prelude.{
  ℕ, ◌≡◌, refl, arith, List, [], ◌∷◌, ◌++◌, Option, none, some, true, false, replicate, ◌>>=◌,
  codes,
}
use brubeck.Carbon.{
  Written, wrote, interrupted, write_in_full, Carbon, pickle1_tuple, pickle1_push, pickle1_init,
  flushed, pickle1_flush, pickle1_each,
}
use brubeck.Printing.{itoa, digits_from}
use brubeck.Printing.Float.{ftoa, int_text, frac_text, frac_digits, trim}
use brubeck.Carbon.Plain.{plaintext_each}
use brubeck.Carbon.Pickle.{Keeps, init-IsValid, pickle1_each-Keeps}

abbrev start : Carbon
start = record {
  is_connected = true;
  tick_time = 258;
  pickler = pickle1_init;
  sent = 0;
  stream = [];
}

abbrev stream_of : Option (Carbon × List Written) → List ℕ
stream_of none = []
stream_of (some (c, answers)) = c.stream

abbrev frame_of_one : List ℕ
frame_of_one =
    (0 ∷ 0 ∷ 0 ∷ 33 ∷ codes "]q")
    ++ (0 ∷ codes "((U")
    ++ (1 ∷ codes "aq")
    ++ (1 ∷ codes "(J")
    ++ (2 ∷ 1 ∷ 0 ∷ 0 ∷ codes "G")
    ++ (8 ∷ 7 ∷ 6 ∷ 5 ∷ 4 ∷ 3 ∷ 2 ∷ 1 ∷ codes "tq")
    ++ (2 ∷ codes "tq")
    ++ (3 ∷ codes "e.")

-- One value, and a flush that is written in two parts.
one_frame :
    stream_of (do
      (c, answers) ←
          pickle1_each start
            (interrupted ∷ wrote 30 ∷ wrote 7 ∷ [])
            (codes "a")
            (1 ∷ 2 ∷ 3 ∷ 4 ∷ 5 ∷ 6 ∷ 7 ∷ 8 ∷ [])
      pickle1_flush c answers)
    ≡ frame_of_one
unfolding pickle1_each pickle1_push pickle1_tuple pickle1_flush flushed write_in_full
one_frame = refl

pickle1_each-Keeps_example : Keeps start [] (pickle1_each start [] (codes "a.b") (replicate 8 1))
pickle1_each-Keeps_example =
    pickle1_each-Keeps start [] (codes "a.b") (replicate 8 1) init-IsValid (omega arith) tt

-- A line in two parts, and none without a connection.
plain_lines :
    (stream_of (plaintext_each start (wrote 5 ∷ wrote 6 ∷ []) (codes "a") 0x41780000)
      ≡ codes "a 15.5 258\n")
    × (stream_of (plaintext_each (record start { is_connected = false }) [] (codes "a") 0x41780000)
        ≡ [])
unfolding plaintext_each flushed write_in_full ftoa int_text frac_text frac_digits trim itoa
    digits_from
plain_lines = (refl, refl)
