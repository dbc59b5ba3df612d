-- ===== src/InodeStore/Store/Claim.antt =====
-- Taking references: what is found, what fails, and that nothing panics.
use virtiofsd.Common.{
  ◌+◌, ◌%◌, ◌^◌, ◌≡◌, ◌≢◌, ◌⊎◌, refl, ap, ◌∙◌, true, false, Option, none, some, arith, Option-cases,
  Bool-cases, inl, inr, is_some, ltb,
}
use virtiofsd.Common.Key.{nat_key, bytes_key, pair_key}
use virtiofsd.Common.Io.{IoResult, ok, err, not_found, done}
use virtiofsd.BTreeMap
use virtiofsd.InodeStore.Types.{
  Inode, InodeIds, FileHandle, InodeArc, InodeStore, handle_of, is_file,
}
use virtiofsd.InodeStore.Inner.{get, unwrap_inode, get_by_ids, get_by_handle}
use virtiofsd.InodeStore.Inner.Fuel.{set_refcount}
use virtiofsd.InodeStore.Inner.WellFormed.{IsWellFormed, get_by_ids_total, get_by_handle_total}
use virtiofsd.InodeStore.Store.{
  increment_refcount_for, new_with_data, keep_file, find_by_handle, or_by_ids, reference_to,
  claim_inode,
}

-- An entry of the store that a claim by this handle and these IDs may find.
abbrev pub Matches : InodeStore → Option FileHandle → InodeIds → InodeArc → Type 0
Matches s handle ids d =
    (get s d.inode ≡ some d)
    × (((handle_of d.file_or_handle ≡ handle) × (is_some handle ≡ true))
        ⊎ ((is_file d.file_or_handle ≡ true) × (d.ids ≡ ids)))

keep_file-some :
    (o : Option InodeArc) (d : InodeArc)
    → keep_file o ≡ some d
    → (o ≡ some d) × (is_file d.file_or_handle ≡ true)
unfolding keep_file
keep_file-some none d e = cc
keep_file-some (some x) d e = ground arith

by_ids :
    (s : InodeStore) (handle : Option FileHandle) (ids : InodeIds) (o : Option InodeArc)
    (d : InodeArc)
    → (o ≡ some d) × (is_file d.file_or_handle ≡ true)
    → ((d : InodeArc) → o ≡ some d → (d.ids ≡ ids) × (get s d.inode ≡ some d))
    → Matches s handle ids d
by_ids s handle ids o d p f = let (i, g) = f d p.0 in (g, inr (p.1, i))

-- No index leads to what a claim by this handle and these IDs may find: no inode is there under the
-- handle, and one that is there under the IDs does not keep a file open.
abbrev pub Unmatched : InodeStore → Option FileHandle → InodeIds → Type 0
Unmatched s handle ids =
    ((k : FileHandle) → handle ≡ some k → BTreeMap.get s.by_handle k ≡ none)
    × ((i : Inode) (d : InodeArc)
        → BTreeMap.get s.by_ids ids ≡ some i
        → get s i ≡ some d
        → is_file d.file_or_handle ≡ false)

unwrap_inode-none : (s : InodeStore) (o : Option Inode) → unwrap_inode s o ≡ done none → o ≡ none
unfolding unwrap_inode
unwrap_inode-none s none e = refl
unwrap_inode-none s (some i) e = ground (arith, e)

no_handle :
    (s : InodeStore) (k : FileHandle)
    → get_by_handle s k ≡ done none
    → BTreeMap.get s.by_handle k ≡ none
unfolding get_by_handle
no_handle s k e = unwrap_inode-none s (BTreeMap.get s.by_handle k) e

no_file :
    (s : InodeStore) (ids : InodeIds) (o : Option InodeArc) (i : Inode) (d : InodeArc)
    → get_by_ids s ids ≡ done o
    → keep_file o ≡ none
    → BTreeMap.get s.by_ids ids ≡ some i
    → get s i ≡ some d
    → is_file d.file_or_handle ≡ false
unfolding get_by_ids unwrap_inode keep_file
no_file s ids none i d e k p q = ground (arith, e, p, q)
no_file s ids (some x) i d e k p q = ground (arith, e, k, p, q)

-- The result of the search, before the reference is taken.
find_total :
    (s : InodeStore) (handle : Option FileHandle) (ids : InodeIds)
    → IsWellFormed s
    → (o : Option InodeArc) × (claim_inode s handle ids ≡ done (reference_to s o))
      × ((d : InodeArc) → o ≡ some d → Matches s handle ids d)
      × (o ≡ none → Unmatched s handle ids)
unfolding claim_inode find_by_handle or_by_ids
find_total s none ids h =
    let (o, e, f) = get_by_ids_total s ids h in
    (
      keep_file o,
      ground (arith, e),
      λ d p. by_ids s none ids o d (keep_file-some o d p) f,
      λ n. (λ k p. cc, λ i d. no_file s ids o i d e n),
    )
find_total s (some k) ids h =
    let (o, e, f) = get_by_handle_total s k h in
    elim (Option-cases o) [
      | inl n ↦
          let (o', e', f') = get_by_ids_total s ids h in
          (
            keep_file o',
            ground (arith, e, n, e'),
            λ d p. by_ids s (some k) ids o' d (keep_file-some o' d p) f',
            λ m. (
              λ k' p. ground (arith, no_handle s k (e ∙ ap done n), p),
              λ i d. no_file s ids o' i d e' m,
            ),
          )
      | inr (x, n) ↦ (
        o,
        ground (arith, e, n),
        λ d p. let (k, g) = f d p in (g, inl (k, refl)),
        λ m. absurd (ground (arith, m, n)),
      )
    ]

pub referenced :
    (s : InodeStore) (o : Option InodeArc) (d : InodeArc) (s' : InodeStore)
    → reference_to s o ≡ ok (d, s')
    → (o ≡ some d)
      × (s.refcount d.addr ≢ 0)
      × (s' ≡ set_refcount s d ((s.refcount d.addr + 1) % 2 ^ 64))
unfolding reference_to new_with_data increment_refcount_for
referenced s none d s' p = cc
referenced s (some x) d s' p = ground arith

-- Why a claim fails.
pub data Unclaimable (s : InodeStore) (handle : Option FileHandle) (ids : InodeIds) : Type 0 where
  unmatched : Unmatched s handle ids → Unclaimable s handle ids
  -- The entry that matches is about to be removed.
  dead : (d : InodeArc) → Matches s handle ids d → s.refcount d.addr ≡ 0 → Unclaimable s handle ids

-- What a claim may return: a reference to a matching entry whose refcount was not zero, and is now
-- one more, or that there is none.
pub data Claimed (s : InodeStore) (handle : Option FileHandle) (ids : InodeIds)
    : IoResult (InodeArc × InodeStore) → Type 0 where
  found :
      (d : InodeArc)
      → Matches s handle ids d
      → s.refcount d.addr ≢ 0
      → Claimed s handle ids (ok (d, set_refcount s d ((s.refcount d.addr + 1) % 2 ^ 64)))
  missing : Unclaimable s handle ids → Claimed s handle ids (err not_found)

reference_to-none : (s : InodeStore) → reference_to s none ≡ err not_found
unfolding reference_to
reference_to-none s = refl

reference_to-live :
    (s : InodeStore) (d : InodeArc)
    → ltb 0 (s.refcount d.addr) ≡ true
    → reference_to s (some d) ≡ ok (d, set_refcount s d ((s.refcount d.addr + 1) % 2 ^ 64))
unfolding reference_to new_with_data increment_refcount_for
reference_to-live s d e = ground (arith, e)

reference_to-dead :
    (s : InodeStore) (d : InodeArc)
    → ltb 0 (s.refcount d.addr) ≡ false
    → reference_to s (some d) ≡ err not_found
unfolding reference_to new_with_data increment_refcount_for
reference_to-dead s d e = ground (arith, e)

reference_to-Claimed :
    (s : InodeStore) (handle : Option FileHandle) (ids : InodeIds) (o : Option InodeArc)
    → ((d : InodeArc) → o ≡ some d → Matches s handle ids d)
    → (o ≡ none → Unmatched s handle ids)
    → Claimed s handle ids (reference_to s o)
reference_to-Claimed s handle ids none f g = rw (reference_to-none s) (missing (unmatched (g refl)))
reference_to-Claimed s handle ids (some d) f g = elim (Bool-cases (ltb 0 (s.refcount d.addr))) [
  | inl e ↦ rw (reference_to-live s d e) (found d (f d refl) (ground arith))
  | inr e ↦ rw (reference_to-dead s d e) (missing (dead d (f d refl) (ground arith)))
]

-- A claim on a well-formed store does not panic. It returns a reference to an entry of the store
-- with the given handle, or, where it keeps a file open, with the given IDs; the refcount of that
-- entry was not zero and is now one more. Or it fails with not-found, and then such an entry has the
-- refcount zero, or no inode stands under the handle and none that keeps a file open under the IDs.
pub claim_inode_sound :
    (s : InodeStore) (handle : Option FileHandle) (ids : InodeIds)
    → IsWellFormed s
    → (r : IoResult (InodeArc × InodeStore)) × (claim_inode s handle ids ≡ done r)
      × Claimed s handle ids r
claim_inode_sound s handle ids h =
    let (o, e, f, g) = find_total s handle ids h in
    (reference_to s o, e, reference_to-Claimed s handle ids o f g)
