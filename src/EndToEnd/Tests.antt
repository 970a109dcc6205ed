-- ===== src/EndToEnd/Tests.antt =====
-- A packet of two messages for one meter, at whole values.
use brubeck.Prelude.{
  ℕ, ◌≡◌, ◌≢◌, refl, arith, List, [], ◌∷◌, Option, none, some, codes, false, true, get_elem?,
}
use brubeck.Value.Whole.{whole}
use brubeck.Slab.{slab_init, push_node, slab_alloc}
use brubeck.Metric.{Metric, MetricType, new_metric}
use brubeck.HashTable.Assoc.{Entries, assoc}
use brubeck.Histogram.InsertionSort.{insertion_sort}
use brubeck.City.{city_hash32}
use brubeck.Server.{Server, metric_find, touch}
use brubeck.Server.Tests.{empty_server}
use brubeck.Statsd.Number.{is_digit}
use brubeck.Statsd.Number.Decimal
use brubeck.Statsd.Number.Decimal.{none_}
use brubeck.Statsd.Message.Print.{plain}
use brubeck.Packet.{packet_parse}
use brubeck.Packet.Tests.{libc}
use brubeck.EndToEnd.{Sent, packet_of, calls_of, IsSent}
use brubeck.EndToEnd.Recorded.{Reaches, packet_parse-Has}
use brubeck.EndToEnd.Reported.{Reports, packet_parse-Reports}

abbrev server_of : Option (Option ℕ × Server ℕ Entries) → Server ℕ Entries
server_of none = empty_server
server_of (some (_, s)) = s

abbrev server : Server ℕ Entries
server = server_of (metric_find assoc empty_server (codes "hits") 4 MetricType.meter)

abbrev hits : List ℕ → Sent ℕ
hits digits = record {
  text = record {
    stem = codes "hit";
    last = b's';
    number = record { sign = none_; digits = digits; fraction = Decimal.whole };
    type = MetricType.meter;
    trailer = plain;
    newline = false;
  };
  freq = 1;
}

packet_text : packet_of (hits (codes "3") ∷ hits (codes "4") ∷ []) ≡ codes "hits:3|c\nhits:4|c"
packet_text = refl

hits-IsSent : (c : ℕ) → is_digit c ≡ true → c ≢ 10 → IsSent libc (codes "hits") (hits (c ∷ []))
hits-IsSent c digit ne = record {
  form = record {
    key_bytes = omega arith;
    key_fits = omega arith;
    last_byte = omega arith;
    number = ((digit, tt), tt);
    type = λ e. cc;
    trailer = tt;
  };
  key = refl;
  asked = refl;
  line = (λ e. absurd cc, omega arith);
}

hits_known : assoc.get_spmc server.metrics (codes "hits") ≡ some 0
unfolding metric_find city_hash32 slab_init push_node slab_alloc new_metric
hits_known = refl

abbrev hits_metric : Metric ℕ
hits_metric = new_metric (codes "hits") MetricType.meter

hits_stored : get_elem? server.store 0 ≡ some hits_metric
unfolding metric_find city_hash32 slab_init push_node slab_alloc new_metric touch
hits_stored = refl

packet_parse-Reports_example :
    Reports assoc libc insertion_sort 10 0 hits_metric
      (calls_of libc (hits (codes "3") ∷ hits (codes "4") ∷ []))
      server.internal_stats
      (packet_parse assoc libc server 0 (packet_of (hits (codes "3") ∷ hits (codes "4") ∷ [])))
unfolding new_metric
packet_parse-Reports_example =
    packet_parse-Reports assoc libc insertion_sort 10 (codes "hits") (hits (codes "3"))
      (hits (codes "4") ∷ []) server 0 0 hits_metric server.internal_stats
      (hits-IsSent b'3' refl (omega arith), (hits-IsSent b'4' refl (omega arith), tt)) hits_known
      hits_stored refl refl

packet_parse-Has_example :
    Reaches assoc libc server 0 hits_metric
      (calls_of libc (hits (codes "3") ∷ hits (codes "4") ∷ []))
      (packet_parse assoc libc server 0 (packet_of (hits (codes "3") ∷ hits (codes "4") ∷ [])))
unfolding new_metric
packet_parse-Has_example =
    packet_parse-Has assoc libc (codes "hits") (hits (codes "3")) (hits (codes "4") ∷ []) server 0 0
      hits_metric (hits-IsSent b'3' refl (omega arith), (hits-IsSent b'4' refl (omega arith), tt))
      hits_known hits_stored (λ e. absurd cc) tt
