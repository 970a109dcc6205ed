-- ===== src/Packet/Handle.antt =====
-- One message of a packet in `brubeck_statsd_packet_parse` of src/samplers/statsd.c.
use mathlib.Core.Path.{subst}
use brubeck.Prelude.{
  ℕ, ◌+◌, ◌≤◌, ◌≡◌, ◌≢◌, refl, ap, sym, List, [], ◌∷◌, Option, none, some, arith, length, u32,
  ◌>>=◌, >>=-eq-some, length-append,
}
use brubeck.Value.{Double}
use brubeck.Stats.{InternalStats, Stat, get, stats_inc}
use brubeck.Metric.{Metric, metric_record, internal_stats}
use brubeck.Metric.Record.{Call, HasMember, record_all, accumulated, record_all-accumulated}
use brubeck.HashTable.{CkHt, IsTable}
use brubeck.Server.{Server, metric_find}
use brubeck.Server.Valid.{
  IsValid, IsValid-Extends, Continues, Extends, Extends-trans, Extends-refl, write-Extends,
}
use brubeck.Server.Insert.{max_key, Finds, Located}
use brubeck.Server.Find.{metric_find-Finds}
use brubeck.Statsd.Number.{Libc}
use brubeck.Statsd.Message.{Msg, msg_parse}
use brubeck.Statsd.Message.Accept.{msg_parse-IsAccepted}
use brubeck.Packet.{recorded, inc, handled}

module _ {V : Type 0} ⦃d : Double V⦄ where
  pub record_one :
      (m : Metric V) (value freq : V) (mods : ℕ)
      → m.type ≢ internal_stats
      → HasMember m.type m.as_
      → (m' : Metric V) × (metric_record m value freq mods ≡ some m') × Continues m m'
  unfolding record_all
  record_one m value freq mods ne member =
      let c : Call V = record { value = value; freq = freq; mods = mods } in
      let (e, after) = record_all-accumulated m (c ∷ []) ne member in
      let (m', e', e'') = >>=-eq-some (metric_record m value freq mods) _ e in
      let same : m' ≡ record m { as_ = accumulated m.as_ (c ∷ []) } = cc in
      (
        m',
        e',
        subst (Continues m) (sym same) (record { key = refl; type = refl; member = λ _. after }),
      )

-- What the two increments of the parser's loop do to the counters.
inc_errors :
    (x : InternalStats)
    → (u32 (get Stat.errors (stats_inc Stat.errors x).live) ≡ u32 (get Stat.errors x.live + 1))
      × (get Stat.metrics (stats_inc Stat.errors x).live ≡ get Stat.metrics x.live)
unfolding stats_inc
inc_errors x = omega arith

inc_metrics :
    (x : InternalStats)
    → (u32 (get Stat.metrics (stats_inc Stat.metrics x).live) ≡ u32 (get Stat.metrics x.live + 1))
      × (get Stat.errors (stats_inc Stat.metrics x).live ≡ get Stat.errors x.live)
unfolding stats_inc
inc_metrics x = omega arith

module _ {V T : Type 0} ⦃d : Double V⦄ (ck : CkHt T) (name : List ℕ) where
  -- Nothing is lost, the server is valid, and the two counters of messages have grown.
  pub record Handles (s : Server V T) (refused accepted : ℕ) (s' : Server V T) : Type 0 where
    pub valid : IsValid ck name s'
    pub extends : Extends s s'
    pub entries :
        (k : List ℕ) (j : ℕ) → ck.get_spmc s.metrics k ≡ some j → ck.get_spmc s'.metrics k ≡ some j
    pub errors :
        u32 (get Stat.errors s'.internal_stats.live)
        ≡ u32 (get Stat.errors s.internal_stats.live + refused)
    pub metrics :
        u32 (get Stat.metrics s'.internal_stats.live)
        ≡ u32 (get Stat.metrics s.internal_stats.live + accepted)

  abbrev pub HandlesAll : Server V T → ℕ → ℕ → Option (Server V T) → Type 0
  HandlesAll s refused accepted none = ⊥
  HandlesAll s refused accepted (some s') = Handles s refused accepted s'

  -- Another value of the counters.
  pub inc-IsValid :
      (s : Server V T) (x : InternalStats)
      → IsValid ck name s
      → let s' = record s { internal_stats = x } in IsValid ck name s' × Extends s s'
  inc-IsValid s x ok =
      let s' = record s { internal_stats = x } in
      let e : Extends s s' = record {
        kept = (Extends-refl s).kept;
        width = refl;
        queues = λ g i l. l;
      } in
      (IsValid-Extends ck name s s' e ok.slab refl ok, e)

  module _ (libc : Libc V) where
    recorded-Handles :
        (s s' : Server V T) (msg : Msg V) (i : ℕ)
        → Located ck name (inc s Stat.metrics) s' msg.key msg.type i
        → msg.key ≢ name
        → HandlesAll s 0 1 (recorded ck libc s' msg (some i))
    unfolding recorded
    recorded-Handles s s' msg i l ne =
        let n = l.valid.known msg.key i l.entry in
        let (m', e, c) =
          record_one n.metric msg.value msg.sample_freq msg.modifiers (λ t. ne (n.named t))
            n.member in
        let x = write-Extends s' i n.metric m' n.there c in
        let first = (inc_metrics s.internal_stats) in
        rw (n.there, e)
          (record {
            valid = IsValid-Extends ck name s' _ x l.valid.slab refl l.valid;
            extends =
                let y = Extends-trans (inc s Stat.metrics) s' _ l.extends x in
                record { kept = y.kept; width = y.width; queues = y.queues };
            entries = l.entries;
            errors = omega (arith, l.counted Stat.errors (λ e. cc), first);
            metrics = omega (arith, l.counted Stat.metrics (λ e. cc), first);
          })

    -- Whether a line counts as an error or as a metric.
    abbrev pub refusal : Option (Msg V) → ℕ
    refusal none = 1
    refusal (some msg) = 0

    abbrev pub acceptance : Option (Msg V) → ℕ
    acceptance none = 0
    acceptance (some msg) = 1

    found-Handles :
        (s : Server V T) (msg : Msg V) (r : Option (Option ℕ × Server V T))
        → IsValid ck name s
        → msg.key ≢ name
        → Finds ck name (inc s Stat.metrics) msg.key msg.type r
        → HandlesAll s 0 1 (r >>= λ (found, s'). recorded ck libc s' msg found)
    unfolding recorded
    found-Handles s msg none ok ne f = f
    found-Handles s msg (some (none, s')) ok ne (full, absent, e) =
        let (valid, extends) = inc-IsValid s (stats_inc Stat.metrics s.internal_stats) ok in
        let first = inc_metrics s.internal_stats in
        subst (Handles s 0 1) (sym e) (record {
          valid = valid;
          extends = extends;
          entries = λ k j f. f;
          errors = omega (arith, first);
          metrics = omega (arith, first);
        })
    found-Handles s msg (some (some i, s')) ok ne l = recorded-Handles s s' msg i l ne

    -- The name of the server is not the key of that line.
    abbrev pub IsForeign : ℕ → List ℕ → Type 0
    IsForeign before line = (msg : Msg V) → msg_parse libc before line ≡ some msg → msg.key ≢ name

    parsed-Handles :
        (s : Server V T) (before : ℕ) (line : List ℕ) (r : Option (Msg V))
        → IsValid ck name s
        → IsTable ck
        → length line ≤ max_key
        → IsForeign before line
        → msg_parse libc before line ≡ r
        → HandlesAll s (refusal r) (acceptance r) (handled ck libc s r)
    unfolding handled
    parsed-Handles s before line none ok laws fits foreign e =
        let (valid, extends) = inc-IsValid s (stats_inc Stat.errors s.internal_stats) ok in
        let first = inc_errors s.internal_stats in
        record {
          valid = valid;
          extends = extends;
          entries = λ k j f. f;
          errors = omega (arith, first);
          metrics = omega (arith, first);
        }
    parsed-Handles s before line (some msg) ok laws fits foreign e =
        let a = msg_parse-IsAccepted libc before line e in
        let shorter : length msg.key ≤ length line =
          omega (arith, ap length a.split, length-append msg.key (b':' ∷ a.body)) in
        let whole : msg.key_len ≡ length msg.key = omega (arith, a.key_len) in
        let (valid, _) = inc-IsValid s (stats_inc Stat.metrics s.internal_stats) ok in
        rw whole (
          found-Handles s msg
            (metric_find ck (inc s Stat.metrics) msg.key (length msg.key) msg.type) ok
            (foreign msg e)
            (metric_find-Finds ck name (inc s Stat.metrics) msg.key msg.type valid laws
              (λ t. absurd (a.type t)) (omega arith)))

    -- A line of a packet, on a valid server.
    pub handled-Handles :
        (s : Server V T) (before : ℕ) (line : List ℕ)
        → IsValid ck name s
        → IsTable ck
        → length line ≤ max_key
        → IsForeign before line
        → let r = msg_parse libc before line in
          HandlesAll s (refusal r) (acceptance r) (handled ck libc s r)
    handled-Handles s before line ok laws fits foreign =
        parsed-Handles s before line (msg_parse libc before line) ok laws fits foreign refl
