-- ===== src/Loop/Stop.antt =====
-- When the loop of `brubeck_server_run` in src/server.c ends.
use mathlib.Core.List.{append_assoc}
use brubeck.Prelude.{
  ℕ, suc, map, ◌≡◌, refl, List, [], ◌∷◌, ◌++◌, Option, none, some, Bool, true, false, ◌&&◌,
  if◌then◌else◌, All, Bool-cases, inl, inr, ◌∙◌, ap,
}
use brubeck.HashTable.{CkHt}
use brubeck.Loop.{
  Signal, sighup, sigusr2, sigint, sigterm, other_signal, Poll, signal_triggered, timer_elapsed,
  Daemon, Sampler, Effect, backend_cancelled, sampler_shut_down, cancel_backends,
  shut_down_samplers, on_signal, on_update, on_expire, turn, run_loop, shut_down, stopped,
  server_run,
}

-- SIGINT or SIGTERM
abbrev pub is_stop : Option Signal → Bool
is_stop none = false
is_stop (some sighup) = false
is_stop (some sigusr2) = false
is_stop (some sigint) = true
is_stop (some sigterm) = true
is_stop (some other_signal) = false

-- The call of `poll` succeeded and the signal that was read is one of the two.
abbrev pub ends : Poll → Bool
ends p = if p.failed then false else is_stop (signal_triggered p.signal)

abbrev pub Goes : List Poll → Type 0
Goes = All (λ p. ends p ≡ false)

-- The elements with their places.
abbrev pub numbered : {A : Type 0} → ℕ → List A → List (ℕ × A)
numbered i [] = []
numbered i (x ∷ xs) = (i, x) ∷ numbered (suc i) xs

abbrev pub with_shutdown : List (ℕ × Sampler) → List ℕ
with_shutdown [] = []
with_shutdown ((i, x) ∷ xs) = elim x.shutdown [
  | true ↦ i ∷ with_shutdown xs
  | false ↦ with_shutdown xs
]

-- The places of the backends, and of the samplers that have a function for their shutdown.
abbrev pub last_effects : {V T : Type 0} → Daemon V T → List Effect
last_effects d =
    map (λ b. backend_cancelled b.0) (numbered 0 d.server.backends)
    ++ map sampler_shut_down (with_shutdown (numbered 0 d.samplers))

cancel_backends_lem :
    (i : ℕ) (bs : List (List ℕ))
    → cancel_backends i bs ≡ map (λ b. backend_cancelled b.0) (numbered i bs)
cancel_backends_lem i [] = refl
cancel_backends_lem i (b ∷ bs) = ap (◌∷◌ (backend_cancelled i)) (cancel_backends_lem (suc i) bs)

shut_down_samplers_lem :
    (i : ℕ) (xs : List Sampler)
    → shut_down_samplers i xs ≡ map sampler_shut_down (with_shutdown (numbered i xs))
shut_down_samplers_lem i [] = refl
shut_down_samplers_lem i (x ∷ xs) = elim (Bool-cases x.shutdown) [
  | inl e ↦ rw e (ap (◌∷◌ (sampler_shut_down i)) (shut_down_samplers_lem (suc i) xs))
  | inr e ↦ rw e (shut_down_samplers_lem (suc i) xs)
]

module _ {V T : Type 0} (ck : CkHt T) where
  -- The bodies of the loop, one after the other.
  unfoldable pub turns : List Poll → Daemon V T → Daemon V T
  turns [] d = d
  turns (p ∷ ps) d = turns ps (turn ck p d)

  signal_running :
      (r : Option Signal) (opens : Bool) (d : Daemon V T)
      → (on_signal ck r opens d).running ≡ (if is_stop r then false else d.running)
  unfolding on_signal
  signal_running none opens d = refl
  signal_running (some sighup) opens d = refl
  signal_running (some sigusr2) opens d = refl
  signal_running (some sigint) opens d = refl
  signal_running (some sigterm) opens d = refl
  signal_running (some other_signal) opens d = refl

  update_running : (b : Bool) (d : Daemon V T) → (on_update b d).running ≡ d.running
  unfolding on_update
  update_running true d = refl
  update_running false d = refl

  expire_running : (b : Bool) (d : Daemon V T) → (on_expire ck b d).running ≡ d.running
  unfolding on_expire
  expire_running true d = refl
  expire_running false d = refl

  turn_running :
      (p : Poll) (d : Daemon V T) → (turn ck p d).running ≡ (if ends p then false else d.running)
  unfolding turn
  turn_running p d = elim (Bool-cases p.failed) [
    | inl e ↦ rw e refl
    | inr e ↦
        let d₁ = on_signal ck (signal_triggered p.signal) p.opens d in
        let d₂ = on_update (timer_elapsed p.update) d₁ in
        rw e (
          expire_running (d.expires && timer_elapsed p.expire) d₂
          ∙ update_running (timer_elapsed p.update) d₁
          ∙ signal_running (signal_triggered p.signal) p.opens d)
  ]

  loop_on :
      (p : Poll) (ps : List Poll) (d : Daemon V T)
      → d.running ≡ true
      → run_loop ck (p ∷ ps) d ≡ run_loop ck ps (turn ck p d)
  unfolding run_loop
  loop_on p ps d on = ap (λ b. if b then run_loop ck ps (turn ck p d) else some (d, p ∷ ps)) on

  -- Until a signal ends it the loop runs on.
  runs_on :
      (before after : List Poll) (d : Daemon V T)
      → Goes before
      → d.running ≡ true
      → (run_loop ck (before ++ after) d ≡ run_loop ck after (turns before d))
        × ((turns before d).running ≡ true)
  unfolding run_loop turns
  runs_on [] after d goes on = (refl, on)
  runs_on (p ∷ ps) after d (h, hs) on =
      let (e, on') = runs_on ps after (turn ck p d) hs (turn_running p d ∙ rw h on) in
      (loop_on p (ps ++ after) d on ∙ e, on')

  waiting : (ps : List Poll) (d : Daemon V T) → Goes ps → d.running ≡ true → run_loop ck ps d ≡ none
  unfolding run_loop
  waiting [] d goes on = ap (λ b. if b then none else some (d, [])) on
  waiting (p ∷ ps) d (h, hs) on =
      loop_on p ps d on ∙ waiting ps (turn ck p d) hs (turn_running p d ∙ rw h on)

  turns_end :
      (before : List Poll) (p : Poll) (d : Daemon V T)
      → turns (before ++ (p ∷ [])) d ≡ turn ck p (turns before d)
  unfolding turns
  turns_end [] p d = refl
  turns_end (q ∷ qs) p d = turns_end qs p (turn ck q d)

  ended : (ps : List Poll) (d : Daemon V T) → d.running ≡ false → run_loop ck ps d ≡ some (d, ps)
  unfolding run_loop
  ended [] d off = ap (λ b. if b then none else some (d, [])) off
  ended (q ∷ qs) d off = ap (λ b. if b then run_loop ck qs (turn ck q d) else some (d, q ∷ qs)) off

  stops :
      (p : Poll) (after : List Poll) (d : Daemon V T)
      → ends p ≡ true
      → d.running ≡ true
      → (run_loop ck (p ∷ after) d ≡ some (turn ck p d, after)) × ((turn ck p d).running ≡ false)
  unfolding run_loop
  stops p after d h on =
      let off = turn_running p d ∙ rw h refl in
      (loop_on p after d on ∙ ended after (turn ck p d) off, off)

  shut_down_lem :
      (d : Daemon V T) → shut_down d ≡ record d { effects = d.effects ++ last_effects d }
  shut_down_lem d =
      let cancelled = map (λ b. backend_cancelled b.0) (numbered 0 d.server.backends) in
      let shut = map sampler_shut_down (with_shutdown (numbered 0 d.samplers)) in
      rw (cancel_backends_lem 0 d.server.backends, shut_down_samplers_lem 0 d.samplers)
        (ap (λ effects. record d { effects = effects }) (append_assoc d.effects cancelled shut))

  -- As long as no call of `poll` gives SIGINT or SIGTERM, the loop waits for another one; with the
  -- first that does it ends after that turn and asks for no more. What it has done to the world by
  -- then is followed by the cancelling of every backend, by its number and in order, and then by the
  -- shutdown of every sampler that has a function for it, in order as well, and by nothing else.
  pub server_run-stops :
      (before : List Poll) (d : Daemon V T)
      → Goes before
      → (server_run ck before d ≡ none)
        × ((p : Poll) (after : List Poll)
            → ends p ≡ true
            → let d' = turns (before ++ (p ∷ [])) (record d { running = true }) in
              (server_run ck (before ++ (p ∷ after)) d
                ≡ some (record d' { effects = d'.effects ++ last_effects d' }, after))
              × (d'.running ≡ false))
  unfolding server_run
  server_run-stops before d goes =
      let d₀ = record d { running = true } in
      let (_, on) = runs_on before [] d₀ goes refl in
      (
        ap (stopped {V = V} {T = T}) (waiting before d₀ goes refl),
        λ p after h.
            let (e', _) = runs_on before (p ∷ after) d₀ goes refl in
            let (e'', off) = stops p after (turns before d₀) h on in
            rw (turns_end before p d₀) (
              ap (stopped {V = V} {T = T}) (e' ∙ e'')
                  ∙ ap (λ x. some (x, after)) (shut_down_lem (turn ck p (turns before d₀))),
              off,
            ),
      )
