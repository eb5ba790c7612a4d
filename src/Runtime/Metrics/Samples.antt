-- ===== src/Runtime/Metrics/Samples.antt =====
-- What is read of a metric after it was written.
use esp8266_event_driven_fra.Prelude.{
  ℕ, ◌<◌, ◌≡◌, ◌≢◌, arith, length, get_or, some, add32, max, get_or-set_self, get_or-set_ne, lt→ltb,
}
use esp8266_event_driven_fra.Core.Result.{ok}
use esp8266_event_driven_fra.Runtime.Metrics.Registry.{
  Metrics, Kind, metric_count, increment, set_gauge, read,
}

-- An increment adds to the value that is read of its metric, on 32 bits, and a gauge keeps the
-- greatest value it was set to; neither changes what is read of another metric.
pub read-written :
    (r : Metrics) (id other x : ℕ)
    → length r.values ≡ metric_count
    → id < metric_count
    → other < metric_count
    → other ≢ id
    → let value = get_or r.values id 0 in
      ((increment r id x).0 ≡ ok)
      × (read (increment r id x).1 id
          ≡ (ok, some (record { id = id; value = add32 value x; kind = Kind.counter })))
      × (read (increment r id x).1 other ≡ read r other)
      × ((set_gauge r id x).0 ≡ ok)
      × (read (set_gauge r id x).1 id
          ≡ (ok, some (record { id = id; value = max value x; kind = Kind.counter })))
      × (read (set_gauge r id x).1 other ≡ read r other)
unfolding increment set_gauge read
read-written r id other x size h h' ne =
    let a = lt→ltb id metric_count h in
    let b = lt→ltb other metric_count h' in
    let apart : id ≢ other = ground arith in
    ground (
      arith,
      get_or-set_self r.values id (add32 (get_or r.values id 0) x) 0 (omega arith),
      get_or-set_ne r.values id other (add32 (get_or r.values id 0) x) 0 apart,
      get_or-set_self r.values id x 0 (omega arith),
      get_or-set_ne r.values id other x 0 apart,
    )
