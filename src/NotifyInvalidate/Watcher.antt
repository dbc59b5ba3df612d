-- ===== src/NotifyInvalidate/Watcher.antt =====
-- src/notify_invalidate/watcher.rs: the raw events of the notify crate, classified and queued for
-- the translator. The kinds are those that the code tells apart. The queue is the crossbeam
-- channel's: a parameter, with a queue of bounded length in the tests.
pub mod Queued
pub mod Tests
use virtiofsd.Common.{
  ℕ, ◌+◌, Bool, true, false, ◌≡◌, refl, Option, none, some, List, [], ◌∷◌, ◌++◌, get_elem?,
}
use virtiofsd.DentryIndex.{FilePath}
use virtiofsd.NotifyInvalidate.Translate.{HostEvent, modify, create, removed, renamed, overflow}

-- `RenameMode`; `other_mode` is any other.
pub data RenameMode : Type 0 where
  both from to other_mode : RenameMode

-- `ModifyKind`; `contents` is any other than a name.
pub data ModifyKind : Type 0 where
  name : RenameMode → ModifyKind
  contents : ModifyKind

-- `EventKind`; the four kinds of a removal are treated alike.
pub data EventKind : Type 0 where
  created removal access other any : EventKind
  modified : ModifyKind → EventKind

-- `notify::Event`
pub record Event : Type 0 where
  pub kind : EventKind
  pub paths : List FilePath

unfoldable pub renaming : RenameMode → List FilePath → HostEvent
renaming from paths = renamed (get_elem? paths 0) none
renaming to paths = renamed none (get_elem? paths 0)
renaming both paths = renamed (get_elem? paths 0) (get_elem? paths 1)
renaming other_mode paths = renamed (get_elem? paths 0) (get_elem? paths 1)

unfoldable pub classify_rename : Event → HostEvent
classify_rename event = elim event.kind [
  | modified m ↦ elim m [
    | name mode ↦ renaming mode event.paths
    | contents ↦ renaming other_mode event.paths
  ]
  | _ ↦ renaming other_mode event.paths
]

-- `path.map(...)`
unfoldable pub of_path : (FilePath → HostEvent) → Option FilePath → Option HostEvent
of_path f none = none
of_path f (some p) = some (f p)

unfoldable pub classify_modified : Event → Option FilePath → ModifyKind → Option HostEvent
classify_modified event path (name mode) = some (classify_rename event)
classify_modified event path contents = of_path modify path

unfoldable pub classify_kind : Event → Option FilePath → EventKind → Option HostEvent
classify_kind event path created = of_path create path
classify_kind event path (modified m) = classify_modified event path m
classify_kind event path removal = of_path removed path
classify_kind event path access = none
classify_kind event path other = some overflow
classify_kind event path any = of_path modify path

unfoldable pub classify : Event → Option HostEvent
classify event = classify_kind event (get_elem? event.paths 0) event.kind

-- `Sender<HostEvent>`: what `try_send` makes of the queue, and whether it took the event. It never
-- blocks, and a full queue stays as it is.
pub record Channel : Type 1 where
  pub Queue : Type 0
  pub contents : Queue → List HostEvent
  pub try_send : Queue → HostEvent → Queue × Bool
  pub sent :
      (q q' : Queue) (e : HostEvent)
      → try_send q e ≡ (q', true)
      → contents q' ≡ contents q ++ e ∷ []
  pub refused : (q q' : Queue) (e : HostEvent) → try_send q e ≡ (q', false) → q' ≡ q

-- `notify::Result<Event>`, without the error.
pub data RawEvent : Type 0 where
  event : Event → RawEvent
  backend_error : RawEvent

module _ (c : Channel) where
  -- What follows the first `try_send`.
  unfoldable pub unless_sent : c.Queue → Bool → c.Queue
  unless_sent q true = q
  unless_sent q false = (c.try_send q overflow).0

  unfoldable pub send_or_overflow : HostEvent → c.Queue → c.Queue
  send_or_overflow kind q = let (q', sent) = c.try_send q kind in unless_sent q' sent

  unfoldable pub send_classified : Option HostEvent → c.Queue → c.Queue
  send_classified none q = q
  send_classified (some kind) q = send_or_overflow kind q

  unfoldable pub handle_raw_event : RawEvent → c.Queue → c.Queue
  handle_raw_event backend_error q = (c.try_send q overflow).0
  handle_raw_event (event e) q = send_classified (classify e) q
