-- ===== src/NotifyInvalidate/Notifier.antt =====
-- src/notify_invalidate/notifier.rs: notifications, and the trait by which they are sent.
use virtiofsd.Common.{ℕ, ◌+◌, List, [], ◌∷◌, ◌++◌}
use virtiofsd.DentryIndex.{Inode, Name}

pub data Notification : Type 0 where
  inval_inode : Inode → Notification
  inval_entry : Inode → Name → Notification

-- The texts of an `io::Error` are not modelled, its `errno` is.
pub data NotifierError : Type 0 where
  queue_not_negotiated queue_full : NotifierError
  buffer_too_small : ℕ → ℕ → NotifierError
  io : ℕ → NotifierError

-- `Result<(), NotifierError>`
pub data Sent : Type 0 where
  ok : Sent
  err : NotifierError → Sent

-- The trait: what a sink keeps, and what a call of `send` makes of it.
pub record Notifier : Type 1 where
  pub Sink : Type 0
  pub send : Sink → Notification → Sink × Sent

-- Records every notification, and never fails.
abbrev pub capturing_notifier : Notifier
capturing_notifier = record {
  Sink = List Notification;
  send = λ captured n. (captured ++ n ∷ [], ok);
}

-- The counter of dropped notifications beside the inner sink.
unfoldable pub drop_on_full_send : (n : Notifier) → n.Sink × ℕ → Notification → (n.Sink × ℕ) × Sent
drop_on_full_send n (s, dropped) notification =
    let (s', result) = n.send s notification in
    elim result [ err queue_full ↦ ((s', dropped + 1), ok) | other ↦ ((s', dropped), other) ]

abbrev pub drop_on_full_notifier : Notifier → Notifier
drop_on_full_notifier n = record { Sink = n.Sink × ℕ; send = drop_on_full_send n }
