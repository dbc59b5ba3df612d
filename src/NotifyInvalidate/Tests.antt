-- ===== src/NotifyInvalidate/Tests.antt =====
-- The translator on a small index, and the theorems applied to it.
use virtiofsd.Common.{length, ◌≡◌, ◌≢◌, ◌↔◌, refl, true, some, List, [], ◌∷◌, ◌++◌, arith}
use virtiofsd.BTreeMap
use virtiofsd.Common.Key.{cmp_bytes}
use virtiofsd.DentryIndex.{
  Inode, Name, Dentry, DentryIndex, FilePath, root_dir, normal, segments, insert,
}
use virtiofsd.DentryIndex.Inner.{empty, link}
use virtiofsd.DentryIndex.History.{Call, insert_call, apply, run, view, run-empty_refines}
use virtiofsd.DentryIndex.Resolve.{Walk, here, step}
use virtiofsd.NotifyInvalidate.Notifier.{
  Notification, inval_inode, inval_entry, ok, capturing_notifier, drop_on_full_notifier,
}
use virtiofsd.NotifyInvalidate.Translate.{
  Translator, removed, overflow, handle, file_name, parent_or_default,
}
use virtiofsd.NotifyInvalidate.Frame.{encode}
use virtiofsd.NotifyInvalidate.Frame.Layout.{encode_framed}
use virtiofsd.Fuse.Bytes.{read_le}
use virtiofsd.NotifyInvalidate.Translate.Tells.{Tells, removed_entry, known, below_root}
use virtiofsd.NotifyInvalidate.Translate.Tells.Follows.{send_all, handle_refines}
use virtiofsd.NotifyInvalidate.Translate.Overflow.{invalidates, overflow_exact}

abbrev foo : Name
foo = b'f' ∷ []

abbrev bar : Name
bar = b'b' ∷ []

abbrev calls : List Call
calls = insert_call 1 foo 2 ∷ insert_call 2 bar 3 ∷ []

index : DentryIndex
unfolding run apply insert link empty BTreeMap.insert BTreeMap.get cmp_bytes
index = run calls empty

abbrev translator : Translator
translator = record {
  root_inode = 1;
  shared_dir = root_dir ∷ normal (b's' ∷ []) ∷ [];
  index = index;
}

foo_cached : Walk (view index) 1 (segments (normal foo ∷ [])) 2
unfolding segments index
foo_cached = step refl here

bar_reads : view index (2, bar) ≡ some 3
unfolding index
bar_reads = refl

below_foo : FilePath
below_foo = normal foo ∷ normal bar ∷ []

removal-Tells :
    Tells translator
      (removed (translator.shared_dir ++ below_foo))
      (inval_entry 2 bar ∷ inval_inode 3 ∷ [])
unfolding below_foo index segments file_name parent_or_default
removal-Tells =
    removed_entry (translator.shared_dir ++ below_foo) (inval_entry 2 bar ∷ []) (inval_inode 3 ∷ [])
      (known below_foo bar 2 refl refl foo_cached)
      (below_root 3 (known below_foo 3 refl (step refl (step refl here))) (omega arith))

handle_refines_example :
    handle
      (drop_on_full_notifier capturing_notifier)
      translator
      (removed (translator.shared_dir ++ below_foo))
      ([], 0)
    ≡ send_all
        (drop_on_full_notifier capturing_notifier)
        (inval_entry 2 bar ∷ inval_inode 3 ∷ [])
        ([], 0)
handle_refines_example =
    handle_refines (drop_on_full_notifier capturing_notifier) translator
      (removed (translator.shared_dir ++ below_foo)) (inval_entry 2 bar ∷ inval_inode 3 ∷ [])
      ([], 0) removal-Tells

overflow_exact_example :
    (added : List Notification) × (handle capturing_notifier translator overflow [] ≡ (added, ok))
    × ((i : Inode)
        → (invalidates i added ≡ true) ↔ ((i ≢ 1) × ((j : Dentry) × (view index j ≡ some i))))
unfolding index
overflow_exact_example = overflow_exact translator [] (run-empty_refines calls).0

encode_framed_example :
    (read_le 4 (encode (inval_entry 2 bar))).0 ≡ length (encode (inval_entry 2 bar))
encode_framed_example = encode_framed (inval_entry 2 bar) (omega arith)
