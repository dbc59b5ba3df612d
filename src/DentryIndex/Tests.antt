-- ===== src/DentryIndex/Tests.antt =====
-- The index on concrete inputs, and the theorems applied to them.
use virtiofsd.Common.{◌≡◌, ◌↔◌, refl, true, none, some, List, [], ◌∷◌, ◌++◌}
use virtiofsd.Common.Key.{cmp_bytes, nat_key, pair_key, bytes_key}
use virtiofsd.BTreeMap
use virtiofsd.BTreeMap.Sorted.{elem}
use virtiofsd.DentryIndex.{
  Name, Dentry, DentryIndex, FilePath, insert, rename, get, names_for, all_inodes, segments,
  resolve_path, normal,
}
use virtiofsd.DentryIndex.Inner.{empty, rename_key, move_key, unlink, link}
use virtiofsd.DentryIndex.History.{
  apply, Call, insert_call, rename_call, run, run_view, view, run-empty_refines,
}
use virtiofsd.DentryIndex.Consistent.{IsConsistent}
use virtiofsd.DentryIndex.Queries.{names_for_exact, all_inodes_exact}
use virtiofsd.DentryIndex.Resolve.{
  Walk, here, step, IsStuck, resolve_path_deepest, resolve_path_full,
}

abbrev foo : Name
foo = b'f' ∷ b'o' ∷ []

abbrev bar : Name
bar = b'b' ∷ []

-- A directory `foo`, a file in it, a hard link to the file, and a rename.
abbrev calls : List Call
calls =
    insert_call 1 foo 2
    ∷ insert_call 2 bar 3
    ∷ insert_call 1 bar 3
    ∷ rename_call 1 foo 1 (b'd' ∷ [])
    ∷ []

index : DentryIndex
unfolding run apply insert rename rename_key move_key unlink link empty BTreeMap.insert
    BTreeMap.remove BTreeMap.get cmp_bytes
index = run calls empty

run-empty_refines_example : IsConsistent index × (view index ≡ run_view calls (λ _. none))
unfolding index
run-empty_refines_example = run-empty_refines calls

names_for_exact_example :
    (elem (2, bar) (names_for index 3) ≡ true) ↔ (view index (2, bar) ≡ some 3)
names_for_exact_example = names_for_exact index run-empty_refines_example.0 3 (2, bar)

all_inodes_exact_example :
    (elem 3 (all_inodes index) ≡ true) ↔ ((j : Dentry) × (view index j ≡ some 3))
all_inodes_exact_example = all_inodes_exact index run-empty_refines_example.0 3

-- The file is still there under its parent and under the link; the old name of `foo` is gone.
index_reads : (get index 2 bar ≡ some 3) × (get index 1 bar ≡ some 3) × (get index 1 foo ≡ none)
unfolding index get
index_reads = (refl, refl, refl)

abbrev path : FilePath
path = normal (b'd' ∷ []) ∷ normal bar ∷ normal foo ∷ []

resolve_path_deepest_example :
    let (inode, remaining) = resolve_path index 1 path in
    (known : List Name) × (segments path ≡ known ++ remaining)
    × Walk (view index) 1 known inode
    × IsStuck (view index) inode remaining
resolve_path_deepest_example = resolve_path_deepest index 1 path

abbrev file_path : FilePath
file_path = normal (b'd' ∷ []) ∷ normal bar ∷ []

file_path_leads : Walk (view index) 1 (segments file_path) 3
unfolding segments index
file_path_leads = step refl (step refl here)

resolve_path_full_example : resolve_path index 1 file_path ≡ (3, [])
resolve_path_full_example = resolve_path_full index 1 3 file_path file_path_leads
