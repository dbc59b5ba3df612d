-- ===== src/SoftIdmap/Honours.antt =====
-- A map that is made from the command line does what each of its entries says.
use mathlib.Core.Path.{subst}
use virtiofsd.Common.{
  ap, sym, ◌∙◌, ℕ, ◌+◌, ◌^◌, ◌≤◌, ◌<◌, ◌≡◌, true, some, List, [], ◌∷◌, arith, All, get_elem?, zero,
  suc,
}
use virtiofsd.Common.Io.{IoResult, ok, err, done}
use virtiofsd.Common.Chain.{◌>>=◌, >>=-eq-ok}
use virtiofsd.SoftIdmap.Ranges.{Range, contains, RangeMap}
use virtiofsd.SoftIdmap.{
  MapEntry, squash, range, fail, CmdIdMap, guest, host, squash_guest, squash_host, bidirectional,
  forbid_guest, ok_id, explicit_fail_mapping, add_u32, map_entry, source_range, id_range_from_u32,
  IdMap, empty, map_by, map_guest, map_host, do_push, push_guest_to_host, push_host_to_guest, push,
  push_all, try_from,
}

module _ (R : RangeMap MapEntry) where
  -- The map has this entry at each ID of the entry's range.
  abbrev pub HasEntry : R.Map → MapEntry → Type 0
  HasEntry m e = (id : ℕ) → contains (source_range e) id ≡ true → R.get m id ≡ some e

  -- What was mapped stays as it was.
  abbrev pub Grows : R.Map → R.Map → Type 0
  Grows m m' = (id : ℕ) (e : MapEntry) → R.get m id ≡ some e → R.get m' id ≡ some e

  do_push-HasEntry :
      (m m' : R.Map) (e : MapEntry) → do_push R m e ≡ ok m' → HasEntry m' e × Grows m m'
  unfolding do_push
  do_push-HasEntry m m' e h = (
    λ id c. ground (arith, R.get-insert m (source_range e) e id),
    λ id x p.
        ground
          (arith, R.get-insert m (source_range e) e id, R.get-intersects m (source_range e) id),
  )

  -- Both directions grow.
  abbrev pub Extends : IdMap R → IdMap R → Type 0
  Extends m m' = Grows m.guest_to_host m'.guest_to_host × Grows m.host_to_guest m'.host_to_guest

  abbrev pub IdRange : ℕ → ℕ → Range
  IdRange base count = record { start = base; end = base + count }

  -- What an entry of the command line puts into the map.
  abbrev pub HasCmd : IdMap R → CmdIdMap → Type 0
  HasCmd m (guest f t c) = (f + c < 2 ^ 32) × HasEntry m.guest_to_host (range (IdRange f c) t)
  HasCmd m (host f t c) = (f + c < 2 ^ 32) × HasEntry m.host_to_guest (range (IdRange f c) t)
  HasCmd m (squash_guest f t c) =
      (f + c < 2 ^ 32) × HasEntry m.guest_to_host (squash (IdRange f c) t)
  HasCmd m (squash_host f t c) =
      (f + c < 2 ^ 32) × HasEntry m.host_to_guest (squash (IdRange f c) t)
  HasCmd m (bidirectional g h c) =
      (g + c < 2 ^ 32)
      × (h + c < 2 ^ 32)
      × HasEntry m.guest_to_host (range (IdRange g c) h)
      × HasEntry m.host_to_guest (range (IdRange h c) g)
  HasCmd m (forbid_guest f c) =
      HasEntry m.guest_to_host (fail (record { start = f; end = add_u32 f c }))

  Extends-trans : (l m n : IdMap R) → Extends l m → Extends m n → Extends l n
  Extends-trans l m n f g = (λ id e p. g.0 id e (f.0 id e p), λ id e p. g.1 id e (f.1 id e p))

  push_guest_lem :
      (m m' : IdMap R) (e : MapEntry)
      → push_guest_to_host R m e ≡ ok m'
      → HasEntry m'.guest_to_host e × Extends m m'
  unfolding push_guest_to_host
  push_guest_lem m m' e h =
      let (g, p, q) = >>=-eq-ok (do_push R m.guest_to_host e) _ h in
      let (has, grows) = do_push-HasEntry m.guest_to_host g e p in
      subst (λ r. elim r [ ok x ↦ HasEntry x.guest_to_host e × Extends m x | err _ ↦ Unit ]) q
        (has, (grows, λ id e p. p))

  push_host_lem :
      (m m' : IdMap R) (e : MapEntry)
      → push_host_to_guest R m e ≡ ok m'
      → HasEntry m'.host_to_guest e × Extends m m'
  unfolding push_host_to_guest
  push_host_lem m m' e h =
      let (g, p, q) = >>=-eq-ok (do_push R m.host_to_guest e) _ h in
      let (has, grows) = do_push-HasEntry m.host_to_guest g e p in
      subst (λ r. elim r [ ok x ↦ HasEntry x.host_to_guest e × Extends m x | err _ ↦ Unit ]) q
        (has, (λ id e p. p, grows))

  id_range_lem :
      (base count : ℕ) (r : Range)
      → id_range_from_u32 base count ≡ ok r
      → (base + count < 2 ^ 32) × (r ≡ IdRange base count)
  unfolding id_range_from_u32
  id_range_lem base count r h = ground arith

  -- What follows the check of a range.
  checked :
      (base count : ℕ) (f : Range → IoResult (IdMap R)) (m' : IdMap R)
      → (id_range_from_u32 base count >>= f) ≡ ok m'
      → (base + count < 2 ^ 32) × (f (IdRange base count) ≡ ok m')
  checked base count f m' h =
      let (r, p, q) = >>=-eq-ok (id_range_from_u32 base count) f h in
      let (fits, e) = id_range_lem base count r p in (fits, ap f (sym e) ∙ q)

  push_lem : (m m' : IdMap R) (e : CmdIdMap) → push R m e ≡ ok m' → HasCmd m' e × Extends m m'
  unfolding push
  push_lem m m' (guest f t c) h =
      let (fits, p) = checked f c _ m' h in
      let (has, ext) = push_guest_lem m m' (range (IdRange f c) t) p in ((fits, has), ext)
  push_lem m m' (host f t c) h =
      let (fits, p) = checked f c _ m' h in
      let (has, ext) = push_host_lem m m' (range (IdRange f c) t) p in ((fits, has), ext)
  push_lem m m' (squash_guest f t c) h =
      let (fits, p) = checked f c _ m' h in
      let (has, ext) = push_guest_lem m m' (squash (IdRange f c) t) p in ((fits, has), ext)
  push_lem m m' (squash_host f t c) h =
      let (fits, p) = checked f c _ m' h in
      let (has, ext) = push_host_lem m m' (squash (IdRange f c) t) p in ((fits, has), ext)
  push_lem m m' (bidirectional g k c) h =
      let (fits, p) = checked g c _ m' h in
      let (x, p', q) = >>=-eq-ok (push_guest_to_host R m (range (IdRange g c) k)) _ p in
      let (has, ext) = push_guest_lem m x (range (IdRange g c) k) p' in
      let (fits', q') = checked k c _ m' q in
      let (has', ext') = push_host_lem x m' (range (IdRange k c) g) q' in
      ((fits, fits', λ id i. ext'.0 id _ (has id i), has'), Extends-trans m x m' ext ext')
  push_lem m m' (forbid_guest f c) h = push_guest_lem m m' _ h

  HasCmd-Extends : (m m' : IdMap R) (e : CmdIdMap) → Extends m m' → HasCmd m e → HasCmd m' e
  HasCmd-Extends m m' (guest f t c) x h = (h.0, λ id i. x.0 id _ (h.1 id i))
  HasCmd-Extends m m' (host f t c) x h = (h.0, λ id i. x.1 id _ (h.1 id i))
  HasCmd-Extends m m' (squash_guest f t c) x h = (h.0, λ id i. x.0 id _ (h.1 id i))
  HasCmd-Extends m m' (squash_host f t c) x h = (h.0, λ id i. x.1 id _ (h.1 id i))
  HasCmd-Extends m m' (bidirectional g k c) x h =
      (h.0, h.1, λ id i. x.0 id _ (h.2 id i), λ id i. x.1 id _ (h.3 id i))
  HasCmd-Extends m m' (forbid_guest f c) x h = λ id i. x.0 id _ (h id i)

  pub push_all_lem :
      (l : List CmdIdMap) (m m' : IdMap R)
      → push_all R m l ≡ ok m'
      → All (HasCmd m') l × Extends m m'
  unfolding push_all
  push_all_lem [] m m' h =
      (tt, subst (λ r. elim r [ ok x ↦ Extends m x | err _ ↦ Unit ]) h (λ id e p. p, λ id e p. p))
  push_all_lem (e ∷ l) m m' h =
      let (x, p, q) = >>=-eq-ok (push R m e) _ h in
      let (has, ext) = push_lem m x e p in
      let (all, ext') = push_all_lem l x m' q in
      ((HasCmd-Extends x m' e ext' has, all), Extends-trans m x m' ext ext')

  -- How many IDs an entry of the command line covers.
  abbrev pub count_of : CmdIdMap → ℕ
  count_of (guest f t c) = c
  count_of (host f t c) = c
  count_of (squash_guest f t c) = c
  count_of (squash_host f t c) = c
  count_of (bidirectional g h c) = c
  count_of (forbid_guest f c) = c

  -- The one kind of range that `try_from` does not check.
  abbrev pub Fits : CmdIdMap → Type 0
  Fits (forbid_guest f c) = f + c < 2 ^ 32
  Fits _ = Unit

  -- What an entry of the command line promises of the k-th ID that it covers.
  abbrev pub Honours : IdMap R → CmdIdMap → ℕ → Type 0
  Honours m (guest f t c) k = map_guest R m (f + k) ≡ done (ok_id (add_u32 t k))
  Honours m (host f t c) k = map_host R m (f + k) ≡ done (ok_id (add_u32 t k))
  Honours m (squash_guest f t c) k = map_guest R m (f + k) ≡ done (ok_id t)
  Honours m (squash_host f t c) k = map_host R m (f + k) ≡ done (ok_id t)
  Honours m (bidirectional g h c) k =
      (map_guest R m (g + k) ≡ done (ok_id (h + k))) × (map_host R m (h + k) ≡ done (ok_id (g + k)))
  Honours m (forbid_guest f c) k = map_guest R m (f + k) ≡ done (explicit_fail_mapping (f + k))

  HasCmd-Honours :
      (m : IdMap R) (e : CmdIdMap) (k : ℕ) → HasCmd m e → k < count_of e → Fits e → Honours m e k
  unfolding map_guest map_host map_by map_entry source_range
  HasCmd-Honours m (guest f t c) k h l _ = ground (arith, h.1 (f + k))
  HasCmd-Honours m (host f t c) k h l _ = ground (arith, h.1 (f + k))
  HasCmd-Honours m (squash_guest f t c) k h l _ = ground (arith, h.1 (f + k))
  HasCmd-Honours m (squash_host f t c) k h l _ = ground (arith, h.1 (f + k))
  HasCmd-Honours m (bidirectional g i c) k h l _ =
      (ground (arith, h.2 (g + k)), ground (arith, h.3 (i + k)))
  HasCmd-Honours m (forbid_guest f c) k h l fits = ground (arith, h (f + k))

  All-get_elem? :
      (P : CmdIdMap → Type 0) (l : List CmdIdMap) (n : ℕ) (e : CmdIdMap)
      → All P l
      → get_elem? l n ≡ some e
      → P e
  All-get_elem? P [] n e a h = cc
  All-get_elem? P (x ∷ l) zero e a h = let q : x ≡ e = cc in subst P q a.0
  All-get_elem? P (x ∷ l) (suc n) e a h = All-get_elem? P l n e a.1 h

  -- A map that `try_from` makes does what each entry of the command line says of each ID that the
  -- entry covers, without a panic: a range goes one to one to the target range, which wraps at
  -- 2^32; a squashed range goes to the one target; a bidirectional range goes both ways, each
  -- the way back of the other; a forbidden range, if it ends below 2^32, is refused.
  pub try_from-Honours :
      (l : List CmdIdMap) (m : IdMap R) (n : ℕ) (e : CmdIdMap) (k : ℕ)
      → try_from R l ≡ ok m
      → get_elem? l n ≡ some e
      → k < count_of e
      → Fits e
      → Honours m e k
  unfolding try_from
  try_from-Honours l m n e k h at_n less fits =
      HasCmd-Honours m e k (All-get_elem? (HasCmd m) l n e (push_all_lem l (empty R) m h).0 at_n)
        less fits

  -- A forbidden range that ends beyond 2^32 is accepted, and the map refuses no ID: each maps to
  -- itself.
  pub forbid_guest_overflow :
      (f c : ℕ)
      → f < 2 ^ 32
      → c < 2 ^ 32
      → 2 ^ 32 ≤ f + c
      → (m : IdMap R) × (try_from R (forbid_guest f c ∷ []) ≡ ok m)
        × ((id : ℕ) → map_guest R m id ≡ done (ok_id id))
  unfolding try_from push_all push push_guest_to_host do_push empty map_guest map_by source_range
  forbid_guest_overflow f c hf hc over =
      let r : Range = record { start = f; end = add_u32 f c } in
      (
        record { guest_to_host = R.insert R.new r (fail r); host_to_guest = R.new },
        ground (arith, R.intersects-new r),
        λ id. ground (arith, R.get-insert R.new r (fail r) id, R.get-new id),
      )
