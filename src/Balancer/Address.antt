-- ===== src/Balancer/Address.antt =====
-- What the addresses on the command line of test-bin/balancer.c are read as.
use brubeck.Prelude.{
  ℕ, suc, ◌≡◌, ◌≢◌, ◌⊎◌, inl, inr, refl, ap, List, [], ◌∷◌, ◌++◌, Option, none, some, false,
  Bool-cases, ◌==◌, All, arith,
}
use brubeck.Balancer.{
  Stop, Outcome, done, stopped, fault, Os, Out, cut_at, filled, init_sock, opened,
}

abbrev pub HasNoColon : List ℕ → Type 0
HasNoColon = All (λ c. c ≢ b':')

-- The address is a host, a colon and a port, and these are what the structure has.
pub record IsTarget (os : Os) (i : ℕ) (address : List ℕ) (o : Out) : Type 0 where
  pub host : List ℕ
  pub port_s : List ℕ
  pub text : address ≡ host ++ (b':' ∷ port_s)
  pub first : HasNoColon host
  pub structure : o ≡ filled os i (host, port_s)

-- What `cut_at` finds.
abbrev Cuts : List ℕ → Option (List ℕ × List ℕ) → Type 0
Cuts address none = HasNoColon address
Cuts address (some (host, port_s)) = (address ≡ host ++ (b':' ∷ port_s)) × HasNoColon host

Cuts-cons :
    (x : ℕ) (xs : List ℕ) (r : Option (List ℕ × List ℕ))
    → x ≢ b':'
    → Cuts xs r
    → Cuts (x ∷ xs) (elim r [ none ↦ none | some (a, b) ↦ some (x ∷ a, b) ])
Cuts-cons x xs none ne h = (ne, h)
Cuts-cons x xs (some (a, b)) ne (e, h) = (ap (◌∷◌ x) e, (ne, h))

cut_at-Cuts : (xs : List ℕ) → Cuts xs (cut_at b':' xs)
unfolding cut_at
cut_at-Cuts [] = tt
cut_at-Cuts (x ∷ xs) = elim (Bool-cases (x == b':')) [
  | inl e ↦ let same : x ≡ b':' = ground arith in rw e (ap (λ c. c ∷ xs) same, tt)
  | inr e ↦
      let ne : x ≢ b':' = ground arith in rw e (Cuts-cons x xs (cut_at b':' xs) ne (cut_at-Cuts xs))
]

-- Each argument, from a place on, has its structure.
abbrev pub AreTargets : Os → ℕ → List (List ℕ) → List Out → Type 0
AreTargets os i [] [] = Unit
AreTargets os i [] (o ∷ ts) = ⊥
AreTargets os i (a ∷ argv) [] = ⊥
AreTargets os i (a ∷ argv) (o ∷ ts) = IsTarget os i a o × AreTargets os (suc i) argv ts

abbrev pub HasBad : List (List ℕ) → Type 0
HasBad [] = ⊥
HasBad (a ∷ argv) = HasNoColon a ⊎ HasBad argv

-- A call of the system fails.
abbrev pub Fails : Os → Type 0
Fails os = (i : ℕ) × ((os.socket i ≡ false) ⊎ ((os.setsockopt i ≡ false) ⊎ (os.bind ≡ false)))

abbrev pub Opens : Os → ℕ → List ℕ → Outcome Out → Type 0
Opens os i address fault = ⊥
Opens os i address (done o) = IsTarget os i address o
Opens os i address (stopped Stop.invalid_address) = HasNoColon address
Opens os i address (stopped Stop.diep) = Fails os
Opens os i address (stopped _) = ⊥

pub init_sock-Opens :
    (os : Os) (i : ℕ) (address : List ℕ) → Opens os i address (init_sock os i address)
unfolding init_sock
init_sock-Opens os i address = go (cut_at b':' address) (cut_at-Cuts address)
  where
    go : (r : Option (List ℕ × List ℕ)) → Cuts address r → Opens os i address (opened os i r)
    go none h = h
    go (some (host, port_s)) (e, h) = elim (Bool-cases (os.socket i)) [
      | inl ok ↦
          rw ok (record { host = host; port_s = port_s; text = e; first = h; structure = refl })
      | inr closed ↦ rw closed (i, inl closed)
    ]
