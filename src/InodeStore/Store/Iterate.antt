-- ===== src/InodeStore/Store/Iterate.antt =====
-- Iteration over the store, which is unlocked between the calls.
use virtiofsd.Common.{
  ◌+◌, ◌-◌, ◌%◌, ◌^◌, ◌<◌, ◌≤◌, ◌≡◌, true, Option, none, some, arith, inl, inr, Option-cases,
}
use virtiofsd.Common.Key.{nat_key}
use virtiofsd.BTreeMap
use virtiofsd.BTreeMap.Sorted.{first_from-least, first_from-none}
use virtiofsd.InodeStore.Types.{Inode, InodeArc, InodeStore}
use virtiofsd.InodeStore.Inner.{get, contains}
use virtiofsd.InodeStore.Inner.WellFormed.{IsWellFormed}
use virtiofsd.InodeStore.Store.{next}

-- Below every inode, where there is no last one.
abbrev pub Beyond : Option Inode → Inode → Type 0
Beyond none i = Unit
Beyond (some last) i = last < i

-- What a call of `next` may return.
pub data Next (s : InodeStore) (last : Option Inode) : Option (Inode × InodeArc) → Type 0 where
  -- The entry with the least inode beyond the last one.
  least :
      (i : Inode) (d : InodeArc)
      → Beyond last i
      → get s i ≡ some d
      → ((j : Inode) → contains s j ≡ true → Beyond last j → i ≤ j)
      → Next s last (some (i, d))
  finished : ((j : Inode) → contains s j ≡ true → ¬ Beyond last j) → Next s last none

-- On a well-formed store, where the last inode is less than 2 ^ 64 - 1, `next` returns the entry with
-- the least inode beyond the last one, and stops only where the store has no inode beyond the last
-- one, whatever was added or removed since the call before.
pub next_exact :
    (s : InodeStore) (last : Option Inode)
    → IsWellFormed s
    → Beyond last (2 ^ 64 - 1)
    → Next s last (next s last)
unfolding next contains get
next_exact s none h small = elim (Option-cases (BTreeMap.first_from s.data_map 0)) [
  | inl e ↦ rw e (finished λ j c b. ground (arith, first_from-none s.data_map 0 j e c))
  | inr ((i, d), e) ↦
      let (found, above, low) = first_from-least s.data_map 0 i d h.sorted e in
      rw e (least i d tt found λ j c b. ground (arith, low j c))
]
next_exact s (some last) h small =
    let step : (last + 1) % 2 ^ 64 ≡ last + 1 = omega arith in
    rw step elim (Option-cases (BTreeMap.first_from s.data_map (last + 1))) [
      | inl e ↦ rw e (finished λ j c b. ground (arith, first_from-none s.data_map (last + 1) j e c))
      | inr ((i, d), e) ↦
          let (found, above, low) = first_from-least s.data_map (last + 1) i d h.sorted e in
          rw e (least i d (ground (arith, above)) found λ j c b. ground (arith, low j c))
    ]
