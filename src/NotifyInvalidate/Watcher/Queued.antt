-- ===== src/NotifyInvalidate/Watcher/Queued.antt =====
-- What becomes of a raw event in the queue.
use virtiofsd.Common.{
  true, false, ◌≡◌, ◌≢◌, refl, ap, ◌∙◌, Option, none, some, List, [], ◌∷◌, ◌++◌, inl, inr,
  Bool-cases,
}
use virtiofsd.DentryIndex.{FilePath}
use virtiofsd.NotifyInvalidate.Translate.{HostEvent, modify, create, removed, renamed, overflow}
use virtiofsd.NotifyInvalidate.Watcher.{
  RenameMode, both, from, to, other_mode, name, contents, EventKind, created, removal, access,
  other, any, modified, Channel, RawEvent, event, backend_error, renaming, classify_rename, of_path,
  classify_modified, classify_kind, classify, unless_sent, send_or_overflow, send_classified,
  handle_raw_event,
}

-- A raw event of a kind, at these paths.
abbrev pub raw_event : EventKind → List FilePath → RawEvent
raw_event kind paths = event (record { kind = kind; paths = paths })

-- What a raw event says of the host: of its paths, the first is where it happened, and the second
-- where a rename went. There is nothing to say of an access, and of a change at no path.
pub data Meaning : RawEvent → Option HostEvent → Type 0 where
  failure : Meaning backend_error (some overflow)
  unrecognized : (paths : List FilePath) → Meaning (raw_event other paths) (some overflow)
  accessed : (paths : List FilePath) → Meaning (raw_event access paths) none
  creation :
      (p : FilePath) (more : List FilePath)
      → Meaning (raw_event created (p ∷ more)) (some (create p))
  removed_entry :
      (p : FilePath) (more : List FilePath)
      → Meaning (raw_event removal (p ∷ more)) (some (removed p))
  change :
      (p : FilePath) (more : List FilePath)
      → Meaning (raw_event (modified contents) (p ∷ more)) (some (modify p))
  some_change :
      (p : FilePath) (more : List FilePath) → Meaning (raw_event any (p ∷ more)) (some (modify p))
  nowhere :
      (kind : EventKind)
      → ((mode : RenameMode) → kind ≢ modified (name mode))
      → kind ≢ other
      → Meaning (raw_event kind []) none
  moved_away :
      (p : FilePath) (more : List FilePath)
      → Meaning (raw_event (modified (name from)) (p ∷ more)) (some (renamed (some p) none))
  moved_in :
      (p : FilePath) (more : List FilePath)
      → Meaning (raw_event (modified (name to)) (p ∷ more)) (some (renamed none (some p)))
  moved :
      (mode : RenameMode) (p q : FilePath) (more : List FilePath)
      → mode ≢ from
      → mode ≢ to
      → Meaning (raw_event (modified (name mode)) (p ∷ q ∷ more)) (some (renamed (some p) (some q)))
  half_moved :
      (mode : RenameMode) (p : FilePath)
      → mode ≢ from
      → mode ≢ to
      → Meaning (raw_event (modified (name mode)) (p ∷ [])) (some (renamed (some p) none))
  moved_nowhere :
      (mode : RenameMode) → Meaning (raw_event (modified (name mode)) []) (some (renamed none none))

-- What a raw event makes of the queue.
pub data Queued (c : Channel) (raw : RawEvent) (q q' : c.Queue) : Type 0 where
  ignored : Meaning raw none → q' ≡ q → Queued c raw q q'
  queued :
      (e : HostEvent)
      → Meaning raw (some e)
      → (c.try_send q e).1 ≡ true
      → c.contents q' ≡ c.contents q ++ e ∷ []
      → Queued c raw q q'
  -- The queue refused the event, and took an overflow in its place.
  overflowed :
      (e : HostEvent)
      → Meaning raw (some e)
      → (c.try_send q e).1 ≡ false
      → (c.try_send q overflow).1 ≡ true
      → c.contents q' ≡ c.contents q ++ overflow ∷ []
      → Queued c raw q q'
  -- The queue took neither.
  lost :
      (e : HostEvent)
      → Meaning raw (some e)
      → (c.try_send q e).1 ≡ false
      → (c.try_send q overflow).1 ≡ false
      → q' ≡ q
      → Queued c raw q q'

rename-Meaning :
    (mode : RenameMode) (paths : List FilePath)
    → Meaning (raw_event (modified (name mode)) paths) (some (renaming mode paths))
unfolding renaming
rename-Meaning both [] = moved_nowhere both
rename-Meaning from [] = moved_nowhere from
rename-Meaning to [] = moved_nowhere to
rename-Meaning other_mode [] = moved_nowhere other_mode
rename-Meaning from (p ∷ more) = moved_away p more
rename-Meaning to (p ∷ more) = moved_in p more
rename-Meaning both (p ∷ []) = half_moved both p (λ e. cc) (λ e. cc)
rename-Meaning other_mode (p ∷ []) = half_moved other_mode p (λ e. cc) (λ e. cc)
rename-Meaning both (p ∷ q ∷ more) = moved both p q more (λ e. cc) (λ e. cc)
rename-Meaning other_mode (p ∷ q ∷ more) = moved other_mode p q more (λ e. cc) (λ e. cc)

classify-Meaning :
    (kind : EventKind) (paths : List FilePath)
    → Meaning (raw_event kind paths) (classify (record { kind = kind; paths = paths }))
unfolding classify classify_kind of_path classify_modified classify_rename
classify-Meaning (modified (name mode)) paths = rename-Meaning mode paths
classify-Meaning other paths = unrecognized paths
classify-Meaning access paths = accessed paths
classify-Meaning created [] = nowhere created (λ m. cc) (λ e. cc)
classify-Meaning removal [] = nowhere removal (λ m. cc) (λ e. cc)
classify-Meaning any [] = nowhere any (λ m. cc) (λ e. cc)
classify-Meaning (modified contents) [] = nowhere (modified contents) (λ m. cc) (λ e. cc)
classify-Meaning created (p ∷ more) = creation p more
classify-Meaning removal (p ∷ more) = removed_entry p more
classify-Meaning any (p ∷ more) = some_change p more
classify-Meaning (modified contents) (p ∷ more) = change p more

module _ (c : Channel) where
  after : c.Queue → HostEvent → c.Queue
  after q e = (c.try_send q e).0

  taken :
      (q : c.Queue) (e : HostEvent)
      → (c.try_send q e).1 ≡ true
      → c.contents (after q e) ≡ c.contents q ++ e ∷ []
  unfolding after
  taken q e t = c.sent q (c.try_send q e).0 e (ap (λ b. ((c.try_send q e).0, b)) t)

  kept : (q : c.Queue) (e : HostEvent) → (c.try_send q e).1 ≡ false → after q e ≡ q
  unfolding after
  kept q e t = c.refused q (c.try_send q e).0 e (ap (λ b. ((c.try_send q e).0, b)) t)

  send_overflow :
      (raw : RawEvent) (e : HostEvent) (q : c.Queue)
      → Meaning raw (some e)
      → (c.try_send q e).1 ≡ false
      → Queued c raw q (after q overflow)
  send_overflow raw e q m f = elim (Bool-cases (c.try_send q overflow).1) [
    | inl t ↦ overflowed e m f t (taken q overflow t)
    | inr t ↦ lost e m f t (kept q overflow t)
  ]

  send_or_overflow-taken :
      (e : HostEvent) (q : c.Queue) → (c.try_send q e).1 ≡ true → send_or_overflow c e q ≡ after q e
  unfolding send_or_overflow after unless_sent
  send_or_overflow-taken e q t = ap (unless_sent c (c.try_send q e).0) t

  send_or_overflow-full :
      (e : HostEvent) (q : c.Queue)
      → (c.try_send q e).1 ≡ false
      → send_or_overflow c e q ≡ after q overflow
  unfolding send_or_overflow after unless_sent
  send_or_overflow-full e q t =
      ap (unless_sent c (c.try_send q e).0) t ∙ ap (λ q. (c.try_send q overflow).0) (kept q e t)

  send_or_overflow-Queued :
      (raw : RawEvent) (e : HostEvent) (q : c.Queue)
      → Meaning raw (some e)
      → Queued c raw q (send_or_overflow c e q)
  send_or_overflow-Queued raw e q m = elim (Bool-cases (c.try_send q e).1) [
    | inl t ↦ rw (send_or_overflow-taken e q t) (queued e m t (taken q e t))
    | inr t ↦ rw (send_or_overflow-full e q t) (send_overflow raw e q m t)
  ]

  backend-Queued : (q : c.Queue) → Queued c backend_error q (after q overflow)
  backend-Queued q = elim (Bool-cases (c.try_send q overflow).1) [
    | inl t ↦ queued overflow failure t (taken q overflow t)
    | inr t ↦ lost overflow failure t t (kept q overflow t)
  ]

  send_classified-Queued :
      (raw : RawEvent) (o : Option HostEvent) (q : c.Queue)
      → Meaning raw o
      → Queued c raw q (send_classified c o q)
  unfolding send_classified
  send_classified-Queued raw none q m = ignored m refl
  send_classified-Queued raw (some e) q m = send_or_overflow-Queued raw e q m

  -- A raw event that says nothing of the host is ignored. What it says, of its first two paths, goes
  -- to the end of the queue, if the queue takes it; an overflow does in its place, if the queue
  -- refuses it and takes the overflow; and it is lost, and the queue stays as it was, only where the
  -- queue refuses both, as a full one does. A failure of the backend and an unrecognized kind say
  -- overflow.
  pub handle_raw_event_exact :
      (raw : RawEvent) (q : c.Queue) → Queued c raw q (handle_raw_event c raw q)
  unfolding handle_raw_event
  handle_raw_event_exact backend_error q = unfold after in backend-Queued q
  handle_raw_event_exact (event e) q =
      send_classified-Queued (event e) (classify e) q (classify-Meaning e.kind e.paths)
