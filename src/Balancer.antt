-- ===== src/Balancer.antt =====
-- test-bin/balancer.c, which sends every packet that it receives on to several addresses. What the
-- system and the C library give is the record `Os`; a socket is the place of its argument on the
-- command line, and numbers of an address are in the order of the host.
pub mod Address
pub mod Table
pub mod Forward
mod Tests
use brubeck.Prelude.{
  ℕ, zero, suc, List, [], ◌∷◌, ◌++◌, Option, none, some, Bool, true, ◌==◌, ltb, if◌then◌else◌,
  length, get_elem?, set, take, replicate, text_eq, codes, u16,
}

-- What ends the program: `usage`, or the address that is refused, the call that fails, no address.
pub data Stop : Type 0 where
  usage invalid_address diep no_fanout : Stop

-- `fault` is a write or a read outside of the table.
pub data Outcome (A : Type 0) : Type 0 where
  done : A → Outcome A
  stopped : Stop → Outcome A
  fault : Outcome A

module _ {A B : Type 0} where
  infixl 10 ◌>>=◌
  abbrev pub ◌>>=◌ : Outcome A → (A → Outcome B) → Outcome B
  done a >>= f = f a
  stopped why >>= f = stopped why
  fault >>= f = fault

-- The answers of socket, setsockopt and bind to the argument at a place, and two functions on text.
pub record Os : Type 0 where
  pub socket : ℕ → Bool
  pub setsockopt : ℕ → Bool
  pub bind : Bool
  pub atoi : List ℕ → ℕ
  pub inet_addr : List ℕ → ℕ

-- An element of `out`; all bytes are zero at first.
pub record Out : Type 0 where
  pub socket : ℕ
  pub port : ℕ
  pub addr : ℕ

pub record Balancer : Type 0 where
  pub fanout : ℕ
  pub in_socket : ℕ
  pub out : List Out

abbrev pub max_fanout : ℕ
max_fanout = 4

abbrev pub max_packet_size : ℕ
max_packet_size = 512

abbrev pub initial : Balancer
initial = record {
  fanout = 0;
  in_socket = 0;
  out = replicate max_fanout (record { socket = 0; port = 0; addr = 0 });
}

-- The texts in front of the first such byte and behind it, where `strchr` finds one.
unfoldable pub cut_at : ℕ → List ℕ → Option (List ℕ × List ℕ)
cut_at c [] = none
cut_at c (x ∷ xs) =
    let rest = cut_at c xs in
    if x == c then some ([], xs) else elim rest [ none ↦ none | some (a, b) ↦ some (x ∷ a, b) ]

-- The element of the table at `fanout` is written.
unfoldable pub place : Balancer → Out → Outcome Balancer
place b o =
    if ltb b.fanout (length b.out)
    then done (record b { fanout = suc b.fanout; out = set b.out b.fanout o })
    else fault

abbrev pub some_out : Balancer → Outcome Balancer
some_out b = if b.fanout == 0 then stopped Stop.no_fanout else done b

module _ (os : Os) where
  -- The structure that is filled for the two parts of an address.
  abbrev pub filled : ℕ → List ℕ × List ℕ → Out
  filled i (host, port_s) = record {
    socket = i;
    port = u16 (os.atoi port_s);
    addr = if text_eq host (codes "0.0.0.0") then 0 else os.inet_addr host;
  }

  abbrev pub opened : ℕ → Option (List ℕ × List ℕ) → Outcome Out
  opened i none = stopped Stop.invalid_address
  opened i (some parts) = if os.socket i then done (filled i parts) else stopped Stop.diep

  unfoldable pub init_sock : ℕ → List ℕ → Outcome Out
  unfolding cut_at
  init_sock i address_s = opened i (cut_at b':' address_s)

  abbrev pub enlarge : ℕ → Outcome (Unit {0})
  enlarge i = if os.setsockopt i then done tt else stopped Stop.diep

  -- The loop over the arguments from the place `i` on.
  unfoldable pub add_outs : ℕ → List (List ℕ) → Balancer → Outcome Balancer
  unfolding init_sock place
  add_outs i [] b = done b
  add_outs i (address ∷ argv) b =
      if b.fanout == max_fanout
      then stopped Stop.usage
      else (do o ← init_sock i address; _ ← enlarge i; b' ← place b o; add_outs (suc i) argv b')

  abbrev pub listening : List ℕ → Outcome Balancer
  listening address = do
    o ← init_sock 2 address
    _ ← enlarge 2
    if os.bind then done (record initial { in_socket = o.socket }) else stopped Stop.diep

  -- `main` up to the threads: the arguments behind the name of the program.
  unfoldable pub main : List (List ℕ) → Outcome Balancer
  unfolding init_sock add_outs
  main [] = stopped Stop.no_fanout
  main (first ∷ argv) =
      if text_eq first (codes "--listen")
      then (elim argv [
        | [] ↦ stopped Stop.usage
        | address ∷ outs ↦ listening address >>= (λ b. add_outs 3 outs b >>= some_out)
      ])
      else (add_outs 1 (first ∷ argv) initial >>= some_out)

-- The loop of a thread over `out`, from the place `j` on; the result is what is sent, and to whom.
unfoldable pub send_from : Balancer → List ℕ → ℕ → ℕ → Outcome (List (Out × List ℕ))
send_from b buffer j zero = done []
send_from b buffer j (suc turns) = elim (get_elem? b.out j) [
  | none ↦ fault
  | some o ↦ send_from b buffer (suc j) turns >>= λ rest. done ((o, buffer) ∷ rest)
]

-- A turn of the thread for what recvfrom gives, a packet or an error.
unfoldable pub forward : Balancer → Option (List ℕ) → Outcome (List (Out × List ℕ))
unfolding send_from
forward b none = done []
forward b (some []) = done []
forward b (some (c ∷ packet)) = send_from b (take max_packet_size (c ∷ packet)) 0 b.fanout

unfoldable pub balancer__worker : Balancer → List (Option (List ℕ)) → Outcome (List (Out × List ℕ))
unfolding forward
balancer__worker b [] = done []
balancer__worker b (received ∷ more) = do
  sent ← forward b received
  rest ← balancer__worker b more
  done (sent ++ rest)
