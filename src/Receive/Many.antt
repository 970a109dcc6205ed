-- ===== src/Receive/Many.antt =====
-- The two receive loops of src/samplers/statsd.c compared.
use mathlib.Core.Path.{subst}
use brubeck.Prelude.{
  ℕ, suc, ◌+◌, ◌<◌, ◌^◌, ◌≡◌, refl, ap, sym, ◌∙◌, List, [], ◌∷◌, Option, some, arith, ◌>>=◌,
  >>=-assoc, >>=-ext, length, u64, map, All,
}
use brubeck.Value.{Double}
use brubeck.Stats.{Stat}
use brubeck.HashTable.{CkHt}
use brubeck.Server.{Server}
use brubeck.Statsd.Number.{Libc}
use brubeck.Packet.{inc, packet_parse}
use brubeck.Receive.{
  Recv, received, try_again, recv_failed, RecvMany, received_many, try_many_again, many_failed,
  Receiver, left, refill, run_recvmsg, parse_all, run_recvmmsg,
}

-- A call that gives packets fills that many buffers.
abbrev pub Fills : ℕ → RecvMany → Type 0
Fills n (received_many packets) = length packets ≡ n
Fills n try_many_again = Unit
Fills n many_failed = Unit

-- The packets of the calls, one by one.
abbrev pub one_by_one : List Recv → List (List ℕ) → List Recv
one_by_one rest [] = rest
one_by_one rest (p ∷ ps) = received p ∷ one_by_one rest ps

abbrev pub singly : List RecvMany → List Recv
singly [] = []
singly (received_many packets ∷ rs) = one_by_one (singly rs) packets
singly (try_many_again ∷ rs) = try_again ∷ singly rs
singly (many_failed ∷ rs) = recv_failed ∷ singly rs

refill_all : (ps bs : List (List ℕ)) → length ps ≡ length bs → refill ps bs ≡ ps
refill_all [] [] h = refl
refill_all [] (b ∷ bs) h = absurd (omega arith)
refill_all (p ∷ ps) [] h = absurd (omega arith)
refill_all (p ∷ ps) (b ∷ bs) h = ap (◌∷◌ p) (refill_all ps bs (omega arith))

length-map : (ps : List (List ℕ)) → length (map left ps) ≡ length ps
length-map [] = refl
length-map (p ∷ ps) = ap suc (length-map ps)

abbrev pub receiver_of :
    {V T : Type 0} → Option (Receiver V T × List (List ℕ)) → Option (Receiver V T)
receiver_of r = r >>= λ x. some (x.0)

module _ {V T : Type 0} ⦃d : Double V⦄ (ck : CkHt T) (libc : Libc V) (before : ℕ) where
  run_one_by_one :
      (ps : List (List ℕ)) (rest : List Recv) (s : Server V T) (n : ℕ)
      → n < 2 ^ 64
      → run_recvmsg ck libc before (one_by_one rest ps) (record { server = s; inflow = n }) ≡ (do
        server ← parse_all ck libc before ps s
        run_recvmsg ck libc before rest (record { server = server; inflow = u64 (n + length ps) }))
  unfolding run_recvmsg parse_all
  run_one_by_one [] rest s n h =
      ap (λ (m : ℕ). run_recvmsg ck libc before rest (record { server = s; inflow = m }))
        (omega arith)
  run_one_by_one (p ∷ ps) rest s n h =
      >>=-assoc (packet_parse ck libc s before p) _ _
      ∙ >>=-ext (packet_parse ck libc s before p) _ _ (λ s'.
        run_one_by_one ps rest s' (u64 (n + 1)) (omega arith)
        ∙ >>=-ext (parse_all ck libc before ps s') _ _ (λ server.
          ap (λ (m : ℕ). run_recvmsg ck libc before rest (record { server = server; inflow = m }))
            (omega arith)))
      ∙ sym (>>=-assoc (packet_parse ck libc s before p) _ _)

  -- Where every call that gives packets fills all the buffers, the loop over `recvmmsg` leaves the
  -- server and the inflow as the loop over `recvmsg` does, or faults as it does, when that one is given
  -- the same packets, interruptions and errors one by one. The inflow is a number of 64 bits.
  pub run_recvmmsg-singly :
      (rs : List RecvMany) (w : Receiver V T) (buffers : List (List ℕ))
      → All (Fills (length buffers)) rs
      → w.inflow < 2 ^ 64
      → receiver_of (run_recvmmsg ck libc before rs w buffers)
        ≡ run_recvmsg ck libc before (singly rs) w
  unfolding run_recvmmsg run_recvmsg
  run_recvmmsg-singly [] w buffers fills h = refl
  run_recvmmsg-singly (try_many_again ∷ rs) w buffers (_, fills) h =
      run_recvmmsg-singly rs w buffers fills h
  run_recvmmsg-singly (many_failed ∷ rs) w buffers (_, fills) h =
      run_recvmmsg-singly rs (record w { server = inc w.server Stat.errors }) buffers fills h
  run_recvmmsg-singly (received_many ps ∷ rs) w buffers (fits, fills) h =
      let filled = refill ps buffers in
      let same : filled ≡ ps = refill_all ps buffers fits in
      let kept : length (map left filled) ≡ length buffers =
        length-map filled ∙ ap length same ∙ fits in
      let fills' = subst (λ n. All (Fills n) rs) (sym kept) fills in
      let parsed = parse_all ck libc before filled w.server in
      let next = λ (n : ℕ) (server : Server V T).
        run_recvmsg ck libc before (singly rs)
          (record { server = server; inflow = u64 (w.inflow + n) }) in
      ap receiver_of (>>=-assoc parsed _ _)
      ∙ >>=-assoc parsed _ _
      ∙ >>=-ext parsed _ (next (length buffers)) (λ server.
        run_recvmmsg-singly rs
          (record { server = server; inflow = u64 (w.inflow + length buffers) }) (map left filled)
          fills' (omega arith))
      ∙ ap (λ xs. parse_all ck libc before xs w.server >>= next (length buffers)) same
      ∙ ap (λ n. parse_all ck libc before ps w.server >>= next n) (sym fits)
      ∙ sym (run_one_by_one ps (singly rs) w.server w.inflow h)
