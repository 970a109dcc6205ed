-- ===== src/EndToEnd/Recorded.antt =====
-- Every message of a packet is recorded once, in order, and reported.
use mathlib.Core.Path.{subst}
use brubeck.Prelude.{
  ℕ, ◌<◌, ◌^◌, ◌≡◌, ◌≢◌, refl, ap, sym, ◌∙◌, List, [], ◌∷◌, Option, none, some, All, ◌>>=◌, length,
  get_elem?, set, set-set, get_elem?-set_self, get_elem?-set_other,
}
use brubeck.Value.{Double}
use brubeck.Stats.{Stat}
use brubeck.Metric.{MetricType, As, Metric, expire_active, internal_stats}
use brubeck.Metric.Record.{
  Call, HasMember, accumulated, accumulated-cons, metric_record-accumulated,
}
use brubeck.HashTable.{CkHt}
use brubeck.Server.{Server, touch, found, metric_find}
use brubeck.Server.Find.{get_or-length, take-u16}
use brubeck.Statsd.Number.{Libc}
use brubeck.Statsd.Message.{Msg, msg_parse}
use brubeck.Statsd.Message.Print.{key_of, print, msg_parse-print, message_of}
use brubeck.Packet.{inc, recorded, handled, packet_parse}
use brubeck.Packet.Lines.{IsMessage, handle_lines, packet_parse-join}
use brubeck.EndToEnd.{Sent, texts, packet_of, call_of, calls_of, IsSent}

module _ {V T : Type 0} ⦃d : Double V⦄ (ck : CkHt T) (libc : Libc V) where
  abbrev call : Msg V → Call V
  call msg = record { value = msg.value; freq = msg.sample_freq; mods = msg.modifiers }

  -- The metric with what the calls come to, active.
  abbrev pub with : Metric V → As V → Metric V
  with m a = record m { expire = expire_active; as_ = a }

  find_known :
      (s : Server V T) (key : List ℕ) (type : MetricType) (i : ℕ) (m : Metric V)
      → ck.get_spmc s.metrics key ≡ some i
      → length key < 2 ^ 16
      → get_elem? s.store i ≡ some m
      → metric_find ck s key (length key) type
        ≡ some (some i, record s { store = set s.store i (record m { expire = expire_active }) })
  unfolding metric_find found touch
  find_known s key type i m entry short at =
      let looked = ap (ck.get_spmc s.metrics) (take-u16 key (length key) short refl) ∙ entry in
      rw (get_or-length key) (ap (found ck s key (length key) type) looked ∙ rw at refl)

  -- A message of a key that has a metric.
  handled_known :
      (s : Server V T) (msg : Msg V) (i : ℕ) (m : Metric V)
      → ck.get_spmc s.metrics msg.key ≡ some i
      → msg.key_len ≡ length msg.key
      → length msg.key < 2 ^ 16
      → get_elem? s.store i ≡ some m
      → m.type ≢ internal_stats
      → HasMember m.type m.as_
      → handled ck libc s (some msg)
        ≡ some (record (inc s Stat.metrics) {
          store = set s.store i (with m (accumulated m.as_ (call msg ∷ [])));
        })
  unfolding handled recorded
  handled_known s msg i m entry size short at ne member =
      let s' = inc s Stat.metrics in
      let marked = record m { expire = expire_active } in
      let written = get_elem?-set_self s.store i m marked at in
      let (made, _) = metric_record-accumulated marked (call msg) ne member in
      ap (λ n. metric_find ck s' msg.key n msg.type >>= λ (id, t). recorded ck libc t msg id) size
      ∙ ap (λ r. r >>= λ (id, t). recorded ck libc t msg id)
          (find_known s' msg.key msg.type i m entry short at)
      ∙ rw (written, made)
          (ap (λ store. some (record s' { store = store }))
            (set-set s.store i marked (with m (accumulated m.as_ (call msg ∷ [])))))

  -- The metric has what the calls come to, and no other metric and no entry has changed.
  pub record Has (s s' : Server V T) (i : ℕ) (m : Metric V) (calls : List (Call V)) : Type 0 where
    pub there : get_elem? s'.store i ≡ some (with m (accumulated m.as_ calls))
    pub others : (j : ℕ) → j ≢ i → get_elem? s'.store j ≡ get_elem? s.store j
    pub table : s'.metrics ≡ s.metrics
    pub queues : s'.backends ≡ s.backends

  abbrev pub Reaches : Server V T → ℕ → Metric V → List (Call V) → Option (Server V T) → Type 0
  Reaches s i m calls none = ⊥
  Reaches s i m calls (some s') = Has s s' i m calls

  -- What one message leaves, and what it is for the others that come after it.
  abbrev after : Server V T → ℕ → Metric V → Call V → Server V T
  after s i m c = record (inc s Stat.metrics) {
    store = set s.store i (with m (accumulated m.as_ (c ∷ [])));
  }

  after-Has :
      (s : Server V T) (i : ℕ) (m : Metric V) (c : Call V)
      → get_elem? s.store i ≡ some m
      → Has s (after s i m c) i m (c ∷ [])
  after-Has s i m c at = record {
    there = get_elem?-set_self s.store i m (with m (accumulated m.as_ (c ∷ []))) at;
    others = λ j ne. get_elem?-set_other s.store i j (with m (accumulated m.as_ (c ∷ []))) ne;
    table = refl;
    queues = refl;
  }

  after-Reaches :
      (s : Server V T) (i : ℕ) (m : Metric V) (c : Call V) (cs : List (Call V))
      (r : Option (Server V T))
      → get_elem? s.store i ≡ some m
      → Reaches (after s i m c) i (with m (accumulated m.as_ (c ∷ []))) cs r
      → Reaches s i m (c ∷ cs) r
  after-Reaches s i m c cs none at h = h
  after-Reaches s i m c cs (some s') at h =
      let first = after-Has s i m c at in
      record {
        there = h.there ∙ ap (λ a. some (with m a)) (sym (accumulated-cons m.as_ c cs));
        others = λ j ne. h.others j ne ∙ first.others j ne;
        table = h.table;
        queues = h.queues;
      }

  handle_first :
      (key : List ℕ) (x : Sent V) (s : Server V T) (before i : ℕ) (m : Metric V)
      → IsSent libc key x
      → ck.get_spmc s.metrics key ≡ some i
      → get_elem? s.store i ≡ some m
      → m.type ≢ internal_stats
      → HasMember m.type m.as_
      → handled ck libc s (msg_parse libc before (print x.text))
        ≡ some (after s i m (call_of libc x))
  handle_first key x s before i m sent entry at ne member =
      let msg = message_of libc (key_of x.text) x.text x.freq in
      let parsed : msg_parse libc before (print x.text) ≡ some msg =
        msg_parse-print libc before x.text sent.form ∙ rw (sent.asked) refl in
      let entry' = subst (λ k. ck.get_spmc s.metrics k ≡ some i) (sym sent.key) entry in
      ap (handled ck libc s) parsed
      ∙ handled_known s msg i m entry' refl sent.form.key_fits at ne member

  handle_sent :
      (key : List ℕ) (x : Sent V) (ms : List (Sent V)) (s : Server V T) (before i : ℕ)
      (m : Metric V)
      → IsSent libc key x
      → All (IsSent libc key) ms
      → ck.get_spmc s.metrics key ≡ some i
      → get_elem? s.store i ≡ some m
      → m.type ≢ internal_stats
      → HasMember m.type m.as_
      → Reaches s i m (calls_of libc (x ∷ ms)) (handle_lines ck libc s before (texts (x ∷ ms)))
  unfolding handle_lines
  handle_sent key x [] s before i m sent all entry at ne member =
      rw (handle_first key x s before i m sent entry at ne member)
        (after-Has s i m (call_of libc x) at)
  handle_sent key x (y ∷ ms) s before i m sent (sent', all) entry at ne member =
      let c = call_of libc x in
      let (_, member') = metric_record-accumulated m c ne member in
      let now = (after-Has s i m c at).there in
      rw (handle_first key x s before i m sent entry at ne member) (
        after-Reaches s i m c (calls_of libc (y ∷ ms)) _ at (
          handle_sent key y ms (after s i m c) 0 i (with m (accumulated m.as_ (c ∷ []))) sent' all
            entry now ne member'))

  lines-All :
      (key : List ℕ) (ms : List (Sent V)) → All (IsSent libc key) ms → All IsMessage (texts ms)
  lines-All key [] all = tt
  lines-All key (x ∷ ms) (sent, all) = (sent.line, lines-All key ms all)

  -- A packet of well formed messages of one key, whatever their types, where the table has a metric for the
  -- key of a client type with the member of that type: parsing does not fail, the metric is active and
  -- has what all the messages come to for its type, in order, and neither another metric nor the table
  -- nor a queue has changed.
  pub packet_parse-Has :
      (key : List ℕ) (x : Sent V) (ms : List (Sent V)) (s : Server V T) (before i : ℕ)
      (m : Metric V)
      → All (IsSent libc key) (x ∷ ms)
      → ck.get_spmc s.metrics key ≡ some i
      → get_elem? s.store i ≡ some m
      → m.type ≢ internal_stats
      → HasMember m.type m.as_
      → Reaches s i m (calls_of libc (x ∷ ms)) (packet_parse ck libc s before (packet_of (x ∷ ms)))
  packet_parse-Has key x ms s before i m (sent, all) entry at ne member =
      subst (Reaches s i m (calls_of libc (x ∷ ms)))
        (sym (
          packet_parse-join ck libc s before (texts (x ∷ ms)) (lines-All key (x ∷ ms) (sent, all))))
        (handle_sent key x ms s before i m sent all entry at ne member)
