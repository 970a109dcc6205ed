-- ===== src/Balancer/Tests.antt =====
-- A balancer of two addresses, and one that is given too many.
use brubeck.Prelude.{
  ℕ, ◌+◌, ◌*◌, ◌-◌, ◌≡◌, refl, List, [], ◌∷◌, Option, none, some, true, codes, map, length,
}
use brubeck.Balancer.{
  Stop, done, stopped, ◌>>=◌, Os, Out, cut_at, init_sock, place, add_outs, main, send_from, forward,
  balancer__worker,
}
use brubeck.Balancer.Forward.{Forwards, main-Forwards}

abbrev number_from : ℕ → List ℕ → ℕ
number_from n [] = n
number_from n (c ∷ cs) = number_from (n * 10 + (c - b'0')) cs

abbrev os : Os
os = record {
  socket = λ i. true;
  setsockopt = λ i. true;
  bind = true;
  atoi = number_from 0;
  inet_addr = length;
}

abbrev argv : List (List ℕ)
argv = map codes ("--listen" ∷ "0.0.0.0:8126" ∷ "10.0.0.1:8127" ∷ "0.0.0.0:8128" ∷ [])

abbrev received : List (Option (List ℕ))
received = some (codes "hits:1|c") ∷ none ∷ some [] ∷ []

abbrev to : ℕ → ℕ → ℕ → Out
to socket port addr = record { socket = socket; port = port; addr = addr }

sent_values :
    (main os argv >>= λ b. balancer__worker b received)
    ≡ done ((to 3 8127 8, codes "hits:1|c") ∷ (to 4 8128 0, codes "hits:1|c") ∷ [])
unfolding main init_sock cut_at place add_outs send_from forward balancer__worker
sent_values = refl

five_addresses :
    main os (map codes ("a:1" ∷ "b:2" ∷ "c:3" ∷ "d:4" ∷ "e:5" ∷ [])) ≡ stopped Stop.usage
unfolding main init_sock cut_at place add_outs
five_addresses = refl

main-Forwards_example :
    Forwards os argv received (main os argv >>= λ b. balancer__worker b received)
main-Forwards_example = main-Forwards os argv received
