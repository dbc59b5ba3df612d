-- ===== src/NotifyInvalidate/Watcher/Tests.antt =====
-- A queue of bounded length, and the theorems applied to it.
use virtiofsd.Common.{
  ℕ, ◌≡◌, refl, Bool, true, false, List, [], ◌∷◌, ◌++◌, length, ltb, if◌then◌else◌, arith,
}
use virtiofsd.DentryIndex.{FilePath, normal}
use virtiofsd.NotifyInvalidate.Translate.{HostEvent, modify, create}
use virtiofsd.NotifyInvalidate.Watcher.{
  created, Channel, RawEvent, event, handle_raw_event, classify, classify_kind, of_path,
  unless_sent, send_or_overflow, send_classified,
}
use virtiofsd.NotifyInvalidate.Watcher.Queued.{Queued, handle_raw_event_exact}

try_send : ℕ → List HostEvent → HostEvent → List HostEvent × Bool
try_send n q e = if ltb (length q) n then (q ++ e ∷ [], true) else (q, false)

bounded_sent :
    (n : ℕ) (q q' : List HostEvent) (e : HostEvent) → try_send n q e ≡ (q', true) → q' ≡ q ++ e ∷ []
unfolding try_send
bounded_sent n q q' e h = ground (arith, h)

bounded_refused :
    (n : ℕ) (q q' : List HostEvent) (e : HostEvent) → try_send n q e ≡ (q', false) → q' ≡ q
unfolding try_send
bounded_refused n q q' e h = ground (arith, h)

abbrev bounded_channel : ℕ → Channel
bounded_channel n = record {
  Queue = List HostEvent;
  contents = λ q. q;
  try_send = try_send n;
  sent = bounded_sent n;
  refused = bounded_refused n;
}

abbrev file : FilePath
file = normal (b'f' ∷ []) ∷ []

abbrev raw : RawEvent
raw = event (record { kind = created; paths = file ∷ [] })

handle_raw_event_exact_example :
    Queued (bounded_channel 1) raw [] (handle_raw_event (bounded_channel 1) raw [])
handle_raw_event_exact_example = handle_raw_event_exact (bounded_channel 1) raw []

first_is_queued : handle_raw_event (bounded_channel 1) raw [] ≡ create file ∷ []
unfolding try_send handle_raw_event send_classified send_or_overflow classify classify_kind of_path
    unless_sent
first_is_queued = refl

-- A full queue loses the event, and the overflow too.
second_is_lost : handle_raw_event (bounded_channel 1) raw (modify file ∷ []) ≡ modify file ∷ []
unfolding first_is_queued
second_is_lost = refl
