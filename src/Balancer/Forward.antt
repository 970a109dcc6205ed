-- ===== src/Balancer/Forward.antt =====
-- What test-bin/balancer.c sends on, from its command line and what it receives.
use mathlib.Core.Path.{subst}
use mathlib.Core.List.{append_assoc}
use brubeck.Prelude.{
  ℕ, suc, ◌≤◌, ◌<◌, ◌≡◌, ◌⊎◌, inl, inr, refl, sym, ap, ◌∙◌, List, [], ◌∷◌, ◌++◌, Option, none, some,
  Bool, true, false, Bool-cases, ◌==◌, if◌then◌else◌, length, get_elem?, take, drop, map, codes,
  text_eq, text_eq_iff, arith, length-append, get_elem?-append_length,
}
use brubeck.Balancer.{
  Stop, Outcome, done, stopped, fault, ◌>>=◌, Os, Out, Balancer, max_fanout, max_packet_size,
  initial, init_sock, enlarge, listening, add_outs, some_out, main, send_from, forward,
  balancer__worker,
}
use brubeck.Balancer.Address.{AreTargets, HasBad, Fails, Opens, init_sock-Opens}
use brubeck.Balancer.Table.{Holds, Adds, add_outs-Adds, initial-Holds}

-- What is sent for one packet, and for all.
abbrev copies : List Out → List ℕ → List (Out × List ℕ)
copies ts buffer = map (λ o. (o, buffer)) ts

abbrev pub all_copies : List Out → List (Option (List ℕ)) → List (Out × List ℕ)
all_copies ts [] = []
all_copies ts (none ∷ more) = all_copies ts more
all_copies ts (some [] ∷ more) = all_copies ts more
all_copies ts (some (c ∷ packet) ∷ more) =
    copies ts (take max_packet_size (c ∷ packet)) ++ all_copies ts more

send_from-copies :
    (b : Balancer) (buffer : List ℕ) (sent ts spare : List Out)
    → b.out ≡ sent ++ (ts ++ spare)
    → send_from b buffer (length sent) (length ts) ≡ done (copies ts buffer)
unfolding send_from
send_from-copies b buffer sent [] spare e = refl
send_from-copies b buffer sent (o ∷ ts) spare e =
    let at : get_elem? b.out (length sent) ≡ some o =
      rw e (get_elem?-append_length sent o (ts ++ spare)) in
    let size : length (sent ++ (o ∷ [])) ≡ suc (length sent) =
      omega (arith, length-append sent (o ∷ [])) in
    let rest : send_from b buffer (suc (length sent)) (length ts) ≡ done (copies ts buffer) =
      subst (λ n. send_from b buffer n (length ts) ≡ done (copies ts buffer)) size
        (send_from-copies b buffer (sent ++ (o ∷ [])) ts spare
          (e ∙ sym (append_assoc sent (o ∷ []) (ts ++ spare)))) in
    rw (at, send_from, rest) refl

balancer__worker-all_copies :
    (b : Balancer) (ts : List Out) (received : List (Option (List ℕ)))
    → Holds b ts
    → balancer__worker b received ≡ done (all_copies ts received)
unfolding balancer__worker forward
balancer__worker-all_copies b ts [] h = refl
balancer__worker-all_copies b ts (none ∷ more) h = rw (balancer__worker-all_copies b ts more h) refl
balancer__worker-all_copies b ts (some [] ∷ more) h =
    rw (balancer__worker-all_copies b ts more h) refl
balancer__worker-all_copies b ts (some (c ∷ packet) ∷ more) h =
    rw
      (
        h.active,
        send_from-copies b (take max_packet_size (c ∷ packet)) [] ts h.spare h.table,
        balancer__worker-all_copies b ts more h,
      )
      refl

-- The addresses on the command line, and the place of the first.
abbrev pub outs_of : List (List ℕ) → List (List ℕ)
outs_of [] = []
outs_of (first ∷ argv) = if text_eq first (codes "--listen") then drop 1 argv else first ∷ argv

abbrev pub first_at : List (List ℕ) → ℕ
first_at [] = 1
first_at (first ∷ argv) = if text_eq first (codes "--listen") then 3 else 1

-- The addresses that are opened: all of them, and the one that follows `--listen`.
abbrev pub addresses : List (List ℕ) → List (List ℕ)
addresses [] = []
addresses (first ∷ argv) = if text_eq first (codes "--listen") then argv else first ∷ argv

-- What the program comes to, for such addresses from a place on.
abbrev pub Gives :
    Os
    → List (List ℕ)
    → List (List ℕ)
    → ℕ
    → List (List ℕ)
    → List (Option (List ℕ))
    → Outcome (List (Out × List ℕ))
    → Type 0
Gives os argv all i outs received fault = ⊥
Gives os argv all i outs received (stopped Stop.usage) =
    (argv ≡ codes "--listen" ∷ []) ⊎ (max_fanout < length outs)
Gives os argv all i outs received (stopped Stop.invalid_address) = HasBad all
Gives os argv all i outs received (stopped Stop.diep) = Fails os
Gives os argv all i outs received (stopped Stop.no_fanout) = outs ≡ []
Gives os argv all i outs received (done sent) =
    (ts : List Out) × AreTargets os i outs ts
    × (0 < length outs)
    × (length outs ≤ max_fanout)
    × (sent ≡ all_copies ts received)

abbrev pub Forwards :
    Os → List (List ℕ) → List (Option (List ℕ)) → Outcome (List (Out × List ℕ)) → Type 0
Forwards os argv received r =
    Gives os argv (addresses argv) (first_at argv) (outs_of argv) received r

length-AreTargets :
    (os : Os) (i : ℕ) (outs : List (List ℕ)) (ts : List Out)
    → AreTargets os i outs ts
    → length ts ≡ length outs
length-AreTargets os i [] [] h = refl
length-AreTargets os i [] (o ∷ ts) h = absurd h
length-AreTargets os i (a ∷ outs) [] h = absurd h
length-AreTargets os i (a ∷ outs) (o ∷ ts) (_, h) = ap suc (length-AreTargets os (suc i) outs ts h)

empty_of_length : (outs : List (List ℕ)) → length outs ≡ 0 → outs ≡ []
empty_of_length [] e = refl
empty_of_length (a ∷ outs) e = absurd (omega (arith, e))

abbrev running : List (Option (List ℕ)) → Outcome Balancer → Outcome (List (Out × List ℕ))
running received r = r >>= λ b. balancer__worker b received

running-Gives :
    (os : Os) (argv all : List (List ℕ)) (i : ℕ) (outs : List (List ℕ))
    (received : List (Option (List ℕ))) (r : Outcome Balancer)
    → (HasBad outs → HasBad all)
    → Adds os i outs [] r
    → Gives os argv all i outs received (running received (r >>= some_out))
running-Gives os argv all i outs received fault bad adds = adds
running-Gives os argv all i outs received (stopped Stop.usage) bad adds = inr (omega (arith, adds))
running-Gives os argv all i outs received (stopped Stop.invalid_address) bad adds = bad adds
running-Gives os argv all i outs received (stopped Stop.diep) bad adds = adds
running-Gives os argv all i outs received (stopped Stop.no_fanout) bad adds = absurd adds
running-Gives os argv all i outs received (done b) bad (ts, targets, h) =
    let size : length ts ≡ length outs = length-AreTargets os i outs ts targets in
    let active : b.fanout ≡ length outs = h.active ∙ size in
    let within : length ts ≤ max_fanout =
      omega (arith, h.size, ap length h.table, length-append ts h.spare) in
    elim (Bool-cases (b.fanout == 0)) [
      | inl none_ ↦ rw none_ (empty_of_length outs (ground (arith, active)))
      | inr some_ ↦
          rw (some_, balancer__worker-all_copies b ts received h)
            (ts, targets, ground (arith, active), omega (arith, within, size), refl)
    ]

-- With `--listen` and an address, once its socket is there or not.
abbrev with_socket : Os → List (List ℕ) → Outcome Out → Outcome Balancer
with_socket os outs r =
    (r >>= λ o. enlarge os 2 >>= λ _.
    if os.bind then done (record initial { in_socket = o.socket }) else stopped Stop.diep)
    >>= (λ b. add_outs os 3 outs b >>= some_out)

with_socket-Gives :
    (os : Os) (flag address : List ℕ) (outs : List (List ℕ)) (received : List (Option (List ℕ)))
    (r : Outcome Out)
    → Opens os 2 address r
    → Gives os
        (flag ∷ address ∷ outs)
        (address ∷ outs)
        3
        outs
        received
        (running received (with_socket os outs r))
with_socket-Gives os flag address outs received fault opens = opens
with_socket-Gives os flag address outs received (stopped Stop.usage) opens = absurd opens
with_socket-Gives os flag address outs received (stopped Stop.invalid_address) opens = inl opens
with_socket-Gives os flag address outs received (stopped Stop.diep) opens = opens
with_socket-Gives os flag address outs received (stopped Stop.no_fanout) opens = absurd opens
with_socket-Gives os flag address outs received (done o) target =
    elim (Bool-cases (os.setsockopt 2)) [
      | inr failed ↦ rw failed (2, inr (inl failed))
      | inl ok ↦ rw ok (after_bind os.bind refl)
    ]
  where
    after_bind :
        (bound : Bool)
        → os.bind ≡ bound
        → Gives os (flag ∷ address ∷ outs) (address ∷ outs) 3 outs received (
            running received (
              (if bound then done (record initial { in_socket = o.socket }) else stopped Stop.diep)
              >>= (λ b. add_outs os 3 outs b >>= some_out)))
    after_bind false failed = (2, inr (inr failed))
    after_bind true bound =
        running-Gives os (flag ∷ address ∷ outs) (address ∷ outs) 3 outs received
          (add_outs os 3 outs (record initial { in_socket = o.socket })) (λ b. inr b)
          (add_outs-Adds os 3 outs (record initial { in_socket = o.socket }) []
            (initial-Holds o.socket))

-- Whatever the command line and whatever is received, nothing outside of the table of addresses is read or
-- written. The program goes on to its threads with one to four addresses, each a host, a colon and a port;
-- and a thread then sends every packet that is received and not empty to each of them, in the order of the
-- command line, cut to 512 bytes, and nothing else. It stops before that only with no address or more
-- than four, with one that has no colon, if a call of the system fails, or if `--listen` stands alone.
pub main-Forwards :
    (os : Os) (argv : List (List ℕ)) (received : List (Option (List ℕ)))
    → Forwards os argv received (main os argv >>= λ b. balancer__worker b received)
unfolding main
main-Forwards os [] received = refl
main-Forwards os (first ∷ argv) received = elim (Bool-cases (text_eq first (codes "--listen"))) [
  | inr other ↦ rw other (
      running-Gives os (first ∷ argv) (first ∷ argv) 1 (first ∷ argv) received
        (add_outs os 1 (first ∷ argv) initial) (λ b. b)
        (add_outs-Adds os 1 (first ∷ argv) initial [] (initial-Holds 0)))
  | inl listens ↦
      rw listens (listening_case argv ((text_eq_iff first (codes "--listen")).0 listens))
]
  where
    listening_case :
        (argv : List (List ℕ))
        → first ≡ codes "--listen"
        → Gives os (first ∷ argv) argv 3 (drop 1 argv) received (
            running received (elim argv [
              | [] ↦ stopped Stop.usage
              | address ∷ outs ↦ listening os address >>= (λ b. add_outs os 3 outs b >>= some_out)
            ]))
    listening_case [] same = inl (ap (λ f. f ∷ []) same)
    listening_case (address ∷ outs) same =
        with_socket-Gives os first address outs received (init_sock os 2 address)
          (init_sock-Opens os 2 address)
