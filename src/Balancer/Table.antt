-- ===== src/Balancer/Table.antt =====
-- The table of addresses in test-bin/balancer.c while the arguments are gone through.
use mathlib.Core.Path.{subst}
use mathlib.Core.List.{append-nil, append_assoc}
use brubeck.Prelude.{
  ℕ, suc, ◌+◌, ◌≤◌, ◌<◌, ◌≡◌, inl, inr, refl, sym, ap, ◌∙◌, List, [], ◌∷◌, ◌++◌, true, Bool-cases,
  ◌==◌, ltb, length, set, arith, length-append, length-set,
}
use brubeck.Balancer.{
  Stop, Outcome, done, stopped, fault, ◌>>=◌, Os, Out, Balancer, max_fanout, initial, init_sock,
  enlarge, place, add_outs,
}
use brubeck.Balancer.Address.{AreTargets, IsTarget, HasBad, Fails, Opens, init_sock-Opens}

-- The table begins with these.
pub record Holds (b : Balancer) (ts : List Out) : Type 0 where
  pub spare : List Out
  pub table : b.out ≡ ts ++ spare
  pub active : b.fanout ≡ length ts
  pub size : length b.out ≡ max_fanout

set-append_length :
    (ts : List Out) (x o : Out) (spare : List Out)
    → set (ts ++ (x ∷ spare)) (length ts) o ≡ (ts ++ (o ∷ [])) ++ spare
set-append_length [] x o spare = refl
set-append_length (t ∷ ts) x o spare = ap (◌∷◌ t) (set-append_length ts x o spare)

abbrev Places : List Out → Out → Outcome Balancer → Type 0
Places ts o fault = ⊥
Places ts o (stopped why) = ⊥
Places ts o (done b) = Holds b (ts ++ (o ∷ []))

place-Places :
    (b : Balancer) (ts : List Out) (o : Out)
    → Holds b ts
    → b.fanout < max_fanout
    → Places ts o (place b o)
unfolding place
place-Places b ts o h room =
    elim h.spare as (λ spare. b.out ≡ ts ++ spare → Places ts o (place b o)) [
      | [] ↦ λ e.
          let all : length ts ≡ max_fanout = sym (ap length (e ∙ append-nil ts)) ∙ h.size in
          absurd (omega (arith, h.active))
      | x ∷ spare ↦ λ e.
          let fits : ltb b.fanout (length b.out) ≡ true = ground (arith, h.size) in
          rw fits (record {
            spare = spare;
            table = rw (h.active, e) (set-append_length ts x o spare);
            active = omega (arith, length-append ts (o ∷ []), h.active);
            size = length-set b.out b.fanout o ∙ h.size;
          })
    ]
      h.table

-- What the loop over the arguments comes to, from a table that begins with `ts` on.
abbrev pub Adds : Os → ℕ → List (List ℕ) → List Out → Outcome Balancer → Type 0
Adds os i argv ts fault = ⊥
Adds os i argv ts (stopped Stop.usage) = max_fanout < length ts + length argv
Adds os i argv ts (stopped Stop.invalid_address) = HasBad argv
Adds os i argv ts (stopped Stop.diep) = Fails os
Adds os i argv ts (stopped Stop.no_fanout) = ⊥
Adds os i argv ts (done b) = (ts' : List Out) × AreTargets os i argv ts' × Holds b (ts ++ ts')

Adds-cons :
    (os : Os) (i : ℕ) (a : List ℕ) (argv : List (List ℕ)) (ts : List Out) (o : Out)
    (r : Outcome Balancer)
    → IsTarget os i a o
    → Adds os (suc i) argv (ts ++ (o ∷ [])) r
    → Adds os i (a ∷ argv) ts r
Adds-cons os i a argv ts o fault target h = h
Adds-cons os i a argv ts o (stopped Stop.usage) target h =
    omega (arith, h, length-append ts (o ∷ []))
Adds-cons os i a argv ts o (stopped Stop.invalid_address) target h = inr h
Adds-cons os i a argv ts o (stopped Stop.diep) target h = h
Adds-cons os i a argv ts o (stopped Stop.no_fanout) target h = h
Adds-cons os i a argv ts o (done b) target (ts', targets, h) =
    (o ∷ ts', (target, targets), subst (Holds b) (append_assoc ts (o ∷ []) ts') h)

-- What follows the opening of the socket of an address.
abbrev and_add : Os → ℕ → List (List ℕ) → Balancer → Out → Outcome Balancer
and_add os i argv b o = enlarge os i >>= λ _. place b o >>= λ b'. add_outs os (suc i) argv b'

and_add-Adds :
    (os : Os) (i : ℕ) (a : List ℕ) (argv : List (List ℕ)) (b : Balancer) (ts : List Out)
    (r : Outcome Out)
    → ((b' : Balancer) (o : Out)
        → Holds b' (ts ++ (o ∷ []))
        → Adds os (suc i) argv (ts ++ (o ∷ [])) (add_outs os (suc i) argv b'))
    → Holds b ts
    → b.fanout < max_fanout
    → Opens os i a r
    → Adds os i (a ∷ argv) ts (r >>= and_add os i argv b)
and_add-Adds os i a argv b ts fault ih h room opens = opens
and_add-Adds os i a argv b ts (stopped Stop.usage) ih h room opens = absurd opens
and_add-Adds os i a argv b ts (stopped Stop.invalid_address) ih h room opens = inl opens
and_add-Adds os i a argv b ts (stopped Stop.diep) ih h room opens = opens
and_add-Adds os i a argv b ts (stopped Stop.no_fanout) ih h room opens = absurd opens
and_add-Adds os i a argv b ts (done o) ih h room target = elim (Bool-cases (os.setsockopt i)) [
  | inr failed ↦ rw failed (i, inr (inl failed))
  | inl ok ↦ rw ok (go (place b o) (place-Places b ts o h room))
]
  where
    go :
        (p : Outcome Balancer)
        → Places ts o p
        → Adds os i (a ∷ argv) ts (p >>= λ b'. add_outs os (suc i) argv b')
    go fault held = held
    go (stopped why) held = absurd held
    go (done b') held =
        Adds-cons os i a argv ts o (add_outs os (suc i) argv b') target (ih b' o held)

pub add_outs-Adds :
    (os : Os) (i : ℕ) (argv : List (List ℕ)) (b : Balancer) (ts : List Out)
    → Holds b ts
    → Adds os i argv ts (add_outs os i argv b)
unfolding add_outs
add_outs-Adds os i [] b ts h = ([], tt, subst (Holds b) (sym (append-nil ts)) h)
add_outs-Adds os i (a ∷ argv) b ts h = elim (Bool-cases (b.fanout == max_fanout)) [
  | inl full ↦ rw full (ground (arith, h.active))
  | inr more ↦
      let within : length ts ≤ max_fanout =
        omega (arith, h.size, ap length h.table, length-append ts h.spare) in
      let room : b.fanout < max_fanout = ground (arith, h.active, within) in
      rw more (
        and_add-Adds os i a argv b ts (init_sock os i a)
          (λ b' o. add_outs-Adds os (suc i) argv b' (ts ++ (o ∷ []))) h room
          (init_sock-Opens os i a))
]

pub initial-Holds : (n : ℕ) → Holds (record initial { in_socket = n }) []
initial-Holds n = record { spare = initial.out; table = refl; active = refl; size = refl }
