-- ===== src/Server/Init.antt =====
-- `brubeck_internal__init` of src/internal_sampler.c: the server's own metric.
use brubeck.Prelude.{ℕ, List, Option, some, ◌>>=◌, length, get_elem?, set, Bool}
use brubeck.Value.{Double}
use brubeck.Metric.{MetricType, as_other}
use brubeck.HashTable.{CkHt}
use brubeck.Server.{Server, metric_new, metric_shard}

-- With the sample frequencies of the backends; `none` is also the end of the program where there is
-- no metric.
unfoldable pub internal__init :
    {V T : Type 0} ⦃d : Double V⦄ → CkHt T → List ℕ → List ℕ → Server V T → Option (Server V T)
internal__init ck name frequencies s = do
  (made, s') ← metric_new ck s name (length name) MetricType.internal_stats
  id ← made
  internal ← get_elem? s'.store id
  shard ← metric_shard s' internal.key internal.key_len
  frequency ← get_elem? frequencies shard
  some (record s' {
    store = set s'.store id (record internal { as_ = as_other Bool.true });
    internal_stats = record s'.internal_stats { sample_freq = frequency };
  })
