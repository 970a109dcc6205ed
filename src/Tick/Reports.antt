-- ===== src/Tick/Reports.antt =====
-- What a turn of `backend__thread` in src/backend.c gives to the backend.
use brubeck.Prelude.{
  ℕ, ◌≡◌, refl, ap, sym, ◌∙◌, List, [], ◌∷◌, ◌++◌, Option, none, some, if◌then◌else◌, ◌>>=◌,
  >>=-assoc, >>=-ext, >>=-comm, Bool, true, false, ltb, get_elem?, set,
}
use brubeck.Value.{Double}
use brubeck.Stats.{InternalStats}
use brubeck.Histogram.Sorted.{Compare}
use brubeck.Metric.{Metric, expire_disabled}
use brubeck.Metric.Sampling.{Report, metric_sample}
use brubeck.Tick.{Operations, Turn, deliver, flush_if, sample_one, sample_queue, backend_turn}

-- What sampling makes of the metrics, with the keys and values of all the calls.
pub record Sampled (V : Type 0) : Type 0 where
  pub report : Report V
  pub store : List (Metric V)
  pub stats : InternalStats

module _ {V : Type 0} ⦃d : Double V⦄ (qsort : Compare V → List V → List V) (freq : ℕ) where
  -- One metric is sampled if it is not disabled; no backend is involved.
  unfoldable pub sampled_one : ℕ → List (Metric V) → InternalStats → Option (Sampled V)
  sampled_one id store stats = do
    m ← get_elem? store id
    (if ltb expire_disabled m.expire
        then (do
          (report, m', stats') ← metric_sample qsort m freq stats
          some (record { report = report; store = set store id m'; stats = stats' }))
        else some (record { report = []; store = store; stats = stats }))

  -- The metrics of a queue, one after the other.
  unfoldable pub sampled : List ℕ → List (Metric V) → InternalStats → Option (Sampled V)
  unfolding sampled_one
  sampled [] store stats = some (record { report = []; store = store; stats = stats })
  sampled (id ∷ queue) store stats = do
    first ← sampled_one id store stats
    rest ← sampled queue first.store first.stats
    some (record rest { report = first.report ++ rest.report })

module _ {K V : Type 0} (ops : Operations K V) where
  -- What a backend is given of a report: each key with its value, in order.
  abbrev pub fed : Report V → K → Option K
  fed [] self = some self
  fed (line ∷ report) self = elim (ops.sample line.0 line.1 self) [
    | none ↦ none
    | some self' ↦ fed report self'
  ]

  -- A backend without a function for it is not flushed.
  abbrev pub flushed : Option (K → Option K) → K → Option K
  flushed none self = some self
  flushed (some flush) self = flush self

  flush_if_lem : (f : Option (K → Option K)) (self : K) → flush_if ops f self ≡ flushed f self
  unfolding flush_if
  flush_if_lem none self = refl
  flush_if_lem (some flush) self = refl

  deliver_lem : (report : Report V) (self : K) → deliver ops report self ≡ fed report self
  unfolding deliver
  deliver_lem [] self = refl
  deliver_lem ((key, value) ∷ report) self =
      go (ops.sample key value self) (λ self'. deliver_lem report self')
    where
      go :
          (r : Option K)
          → ((self' : K) → deliver ops report self' ≡ fed report self')
          → (r >>= deliver ops report) ≡ elim r [ none ↦ none | some self' ↦ fed report self' ]
      go none each = refl
      go (some self') each = each self'

  deliver-append :
      (xs ys : Report V) (self : K)
      → deliver ops (xs ++ ys) self ≡ (deliver ops xs self >>= deliver ops ys)
  unfolding deliver
  deliver-append [] ys self = refl
  deliver-append ((key, value) ∷ xs) ys self =
      >>=-ext (ops.sample key value self) (deliver ops (xs ++ ys))
        (λ self'. deliver ops xs self' >>= deliver ops ys) (λ self'. deliver-append xs ys self')
      ∙ sym (>>=-assoc (ops.sample key value self) (deliver ops xs) (deliver ops ys))

module _ {K V : Type 0} ⦃d : Double V⦄ (qsort : Compare V → List V → List V) (freq : ℕ)
    (ops : Operations K V) where
  -- The backend is given a report.
  abbrev pub given : K → Sampled V → Option (Turn K V)
  given self s = do
    self' ← deliver ops s.report self
    some (record { self = self'; store = s.store; stats = s.stats })

  by_expire :
      (b : Bool) (id : ℕ) (t : Turn K V) (r : Option (Report V × Metric V × InternalStats))
      → (if b
          then (do
            (report, m', stats) ← r
            self ← deliver ops report t.self
            some (record { self = self; store = set t.store id m'; stats = stats }))
          else some t)
        ≡ ((if b
              then (do
                (report, m', stats) ← r
                some (record { report = report; store = set t.store id m'; stats = stats }))
              else some (record { report = []; store = t.store; stats = t.stats }))
            >>= given t.self)
  unfolding deliver
  by_expire true id t r = sym (>>=-assoc r _ (given t.self))
  by_expire false id t r = refl

  sample_one_lem :
      (id : ℕ) (t : Turn K V)
      → sample_one qsort freq ops id t
        ≡ (sampled_one qsort freq id t.store t.stats >>= given t.self)
  unfolding sample_one sampled_one
  sample_one_lem id t =
      >>=-ext (get_elem? t.store id) _ _
        (λ m. by_expire (ltb expire_disabled m.expire) id t (metric_sample qsort m freq t.stats))
      ∙ sym (>>=-assoc (get_elem? t.store id) _ (given t.self))

  -- A report in two parts is given in two parts.
  given-append :
      (self : K) (report : Report V) (s : Sampled V)
      → given self (record s { report = report ++ s.report })
        ≡ (deliver ops report self >>= λ self'. given self' s)
  given-append self report s =
      ap (λ r. r >>= λ self'. some (record { self = self'; store = s.store; stats = s.stats }))
        (deliver-append ops report s.report self)
      ∙ >>=-assoc (deliver ops report self) (deliver ops s.report) _

  rest_of_queue :
      (queue : List ℕ) (self : K) (first : Sampled V)
      → ((t : Turn K V)
          → sample_queue qsort freq ops queue t
            ≡ (sampled qsort freq queue t.store t.stats >>= given t.self))
      → (given self first >>= sample_queue qsort freq ops queue) ≡ (
          (sampled qsort freq queue first.store first.stats >>= λ rest.
          some (record rest { report = first.report ++ rest.report }))
          >>= given self)
  rest_of_queue queue self first each =
      let reached = deliver ops first.report self in
      let next = sampled qsort freq queue first.store first.stats in
      >>=-assoc reached _ (sample_queue qsort freq ops queue)
      ∙ >>=-ext reached _ (λ self'. next >>= given self')
          (λ self'. each (record { self = self'; store = first.store; stats = first.stats }))
      ∙ >>=-comm reached next given
      ∙ >>=-ext next _ _ (λ rest. sym (given-append self first.report rest))
      ∙ sym (>>=-assoc next _ (given self))

  sample_queue_lem :
      (queue : List ℕ) (t : Turn K V)
      → sample_queue qsort freq ops queue t
        ≡ (sampled qsort freq queue t.store t.stats >>= given t.self)
  unfolding sample_queue sampled deliver
  sample_queue_lem [] t = refl
  sample_queue_lem (id ∷ queue) t =
      ap (λ r. r >>= sample_queue qsort freq ops queue) (sample_one_lem id t)
      ∙ >>=-assoc (sampled_one qsort freq id t.store t.stats) (given t.self)
          (sample_queue qsort freq ops queue)
      ∙ >>=-ext (sampled_one qsort freq id t.store t.stats) _ _
          (λ first. rest_of_queue queue t.self first (λ t'. sample_queue_lem queue t'))
      ∙ sym (>>=-assoc (sampled_one qsort freq id t.store t.stats) _ (given t.self))

  backend_turn_lem :
      (now : ℕ) (queue : List ℕ) (t : Turn K V)
      → backend_turn qsort freq ops now queue t ≡ (
          let (up, self) = ops.connect t.self in
          if up
          then (do
            s ← sampled qsort freq queue t.store t.stats
            t' ← given (ops.at_time now self) s
            self' ← flush_if ops ops.flush t'.self
            some (record t' { self = self' }))
          else some (record t { self = self }))
  unfolding backend_turn
  backend_turn_lem now queue t = connected (ops.connect t.self)
    where
      connected :
          (r : Bool × K)
          → (if r.0
              then (do
                t' ← sample_queue qsort freq ops queue (record t { self = ops.at_time now r.1 })
                self' ← flush_if ops ops.flush t'.self
                some (record t' { self = self' }))
              else some (record t { self = r.1 }))
            ≡ (if r.0
                then (do
                  s ← sampled qsort freq queue t.store t.stats
                  t' ← given (ops.at_time now r.1) s
                  self' ← flush_if ops ops.flush t'.self
                  some (record t' { self = self' }))
                else some (record t { self = r.1 }))
      connected (true, self) =
          ap
            (λ q. q >>= λ t'.
              flush_if ops ops.flush t'.self >>= λ self'. some (record t' { self = self' }))
            (sample_queue_lem queue (record t { self = ops.at_time now self }))
          ∙ >>=-assoc (sampled qsort freq queue t.store t.stats) (given (ops.at_time now self)) _
      connected (false, self) = refl

  -- What is left of a turn once the metrics are sampled.
  abbrev pub reported : K → Sampled V → Option (Turn K V)
  reported self s = do
    self' ← fed ops s.report self
    self'' ← flushed ops ops.flush self'
    some (record { self = self''; store = s.store; stats = s.stats })

  given-reported :
      (self : K) (s : Sampled V)
      → (given self s >>= λ t'.
          flush_if ops ops.flush t'.self >>= λ self'. some (record t' { self = self' }))
        ≡ reported self s
  given-reported self s =
      let finish : K → Option (Turn K V) =
        λ self''. some (record { self = self''; store = s.store; stats = s.stats }) in
      >>=-assoc (deliver ops s.report self) _ _
      ∙ >>=-ext (deliver ops s.report self) _ (λ self'. flushed ops ops.flush self' >>= finish)
          (λ self'. ap (λ r. r >>= finish) (flush_if_lem ops ops.flush self'))
      ∙ ap (λ r. r >>= λ self'. flushed ops ops.flush self' >>= finish)
          (deliver_lem ops s.report self)

  -- Sampling a queue and giving the results to a backend as they come is the same as sampling first
  -- and then giving the whole report: a turn in which the backend is connected gives it the time, the
  -- reports of the metrics that are not disabled, in the order of the queue and each once, and then
  -- the flush, if it has a function for that; in another turn no metric is sampled.
  pub backend_turn-sampled :
      (now : ℕ) (queue : List ℕ) (t : Turn K V)
      → backend_turn qsort freq ops now queue t ≡ (
          let (up, self) = ops.connect t.self in
          if up
          then (sampled qsort freq queue t.store t.stats >>= reported (ops.at_time now self))
          else some (record t { self = self }))
  backend_turn-sampled now queue t =
      let (up, self) = ops.connect t.self in
      backend_turn_lem now queue t
      ∙ ap (λ r. if up then r else some (record t { self = self }))
          (>>=-ext (sampled qsort freq queue t.store t.stats) _ (reported (ops.at_time now self))
            (λ s. given-reported (ops.at_time now self) s))
