-- ===== src/Title/Tests.antt =====
-- The title of a server with one backend and one sampler, in a short area of arguments.
use brubeck.Prelude.{
  ℕ, ◌+◌, ◌/◌, ◌%◌, ◌^◌, ◌≤◌, ◌<◌, ◌≡◌, refl, arith, List, [], ◌∷◌, ◌++◌, Option, none, some, true,
  codes, length, replicate, ◌>>=◌,
}
use brubeck.Value.Whole.{whole}
use brubeck.Title.{buffer_size, Shown, Listened, setproctitle, update_proctitle, backend_texts}
use brubeck.Title.Text.{Shows, shown, setproctitle-Shows}
use brubeck.Title.Bounds.{joined, pieces, Prints, update_proctitle-joined}

-- One digit is enough for the test.
abbrev digit : ℕ → List ℕ
digit n = (b'0' + n % 10) ∷ []

abbrev tenths : ℕ → List ℕ
tenths n = digit n ++ codes ".0"

abbrev area : List ℕ
area = replicate 12 b'x'

text_of :
    setproctitle (some area) (codes "abc") (codes "defgh")
    ≡ some (some (codes "abc -- def" ++ (0 ∷ 0 ∷ [])))
unfolding setproctitle
text_of = refl

setproctitle-Shows_example :
    (length (codes "abc") + length (codes "defgh") + 5 ≤ buffer_size
      → Shows area
          (shown area (codes "abc") (codes "defgh"))
          (setproctitle (some area) (codes "abc") (codes "defgh")))
    × (buffer_size < length (codes "abc") + length (codes "defgh") + 5
        → setproctitle (some area) (codes "abc") (codes "defgh") ≡ some (some area))
setproctitle-Shows_example =
    setproctitle-Shows area (codes "abc") (codes "defgh") (omega arith) (omega arith) (omega arith)

below_1024 : (n : ℕ) → n < 2 ^ 64 → n / 1024 / 1024 / 1024 / 1024 / 1024 / 1024 < 1024
below_1024 n h = omega arith

digit-Prints : Prints digit tenths
digit-Prints = record {
  numbers = λ n. omega arith;
  falls = λ n h. let few = below_1024 n h in ground (arith, few);
  tenths = λ n h. omega arith;
}

abbrev backends : List (Option Shown)
backends = some (record { sent = 5000; connected = true }) ∷ none ∷ []

abbrev samplers : List Listened
samplers = record { port = 8; current_flow = 3 } ∷ []

title :
    (update_proctitle digit tenths (codes "a.json") backends samplers >>= λ l. some l.buf)
    ≡ some (
        codes "[a.json] [ "
        ++ (226 ∷ 134 ∷ 145 ∷ [])
        ++ codes " #1 4.0kb ] [ "
        ++ (226 ∷ 134 ∷ 147 ∷ [])
        ++ codes " :8 3/s ]")
unfolding update_proctitle
title = refl

update_proctitle-joined_example :
    (sent : List (List ℕ)) × (backend_texts digit tenths 0 backends ≡ some sent)
    × (let buf = joined (pieces digit tenths digit-Prints (codes "a.json") sent samplers) in
        (update_proctitle digit tenths (codes "a.json") backends samplers
          ≡ some (record { buf = buf; pos = length buf }))
        × (length buf ≤ 721))
update_proctitle-joined_example =
    update_proctitle-joined digit tenths digit-Prints (codes "a.json") backends samplers
      (omega arith) (omega arith) (omega arith) (omega arith)
