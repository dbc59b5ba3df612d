-- ===== src/DentryIndex/Inner.antt =====
-- The two maps of the index, over any ordered type of dentries.
use virtiofsd.Common.{ℕ, none, some, List, [], ◌∷◌, if◌then◌else◌, ◌==◌}
use virtiofsd.Common.Key.{Key, nat_key}
use virtiofsd.BTreeMap
use virtiofsd.BTreeMap.{BTreeMap, BTreeSet}

pub record Inner (D : Type 0) : Type 0 where
  pub forward : BTreeMap D ℕ
  pub reverse : BTreeMap ℕ (BTreeSet D)

module _ {D : Type 0} where
  unfoldable pub empty : Inner D
  empty = record { forward = []; reverse = [] }

module _ {D : Type 0} ⦃o : Key D⦄ where
  -- The block that the methods repeat: take `key` out of the set of `child`, and the set away with
  -- its last member.
  unfoldable pub detach : BTreeMap ℕ (BTreeSet D) → ℕ → D → BTreeMap ℕ (BTreeSet D)
  detach reverse child key = elim (BTreeMap.get reverse child) [
    | none ↦ reverse
    | some set ↦
        let left = BTreeMap.remove set key in
        if BTreeMap.is_empty left
        then BTreeMap.remove reverse child
        else BTreeMap.insert reverse child left
  ]

  -- `reverse.entry(child).or_default().insert(key)`
  unfoldable pub attach : BTreeMap ℕ (BTreeSet D) → ℕ → D → BTreeMap ℕ (BTreeSet D)
  attach reverse child key = elim (BTreeMap.get reverse child) [
    | none ↦ BTreeMap.insert reverse child (BTreeMap.insert [] key tt)
    | some set ↦ BTreeMap.insert reverse child (BTreeMap.insert set key tt)
  ]

  -- The first half of `insert`: the reverse map without what `key` led to before.
  unfoldable pub displace : Inner D → D → ℕ → BTreeMap ℕ (BTreeSet D)
  unfolding detach
  displace i key child = elim (BTreeMap.get i.forward key) [
    | none ↦ i.reverse
    | some prev ↦ if prev == child then i.reverse else detach i.reverse prev key
  ]

  -- `insert`, behind the making of the key
  unfoldable pub link : Inner D → D → ℕ → Inner D
  unfolding displace attach
  link i key child = record {
    forward = BTreeMap.insert i.forward key child;
    reverse = attach (displace i key child) child key;
  }

  -- `remove`
  unfoldable pub unlink : Inner D → D → Inner D
  unfolding detach
  unlink i key = elim (BTreeMap.get i.forward key) [
    | none ↦ i
    | some child ↦ record {
      forward = BTreeMap.remove i.forward key;
      reverse = detach i.reverse child key;
    }
  ]

  -- The second half of `rename`: move the source mapping. The set of `child` is changed in place,
  -- if there is one.
  unfoldable pub move_key : Inner D → D → D → Inner D
  move_key i old new = elim (BTreeMap.get i.forward old) [
    | none ↦ i
    | some child ↦ record {
      forward = BTreeMap.insert (BTreeMap.remove i.forward old) new child;
      reverse = elim (BTreeMap.get i.reverse child) [
        | none ↦ i.reverse
        | some set ↦
            BTreeMap.insert i.reverse child (BTreeMap.insert (BTreeMap.remove set old) new tt)
      ];
    }
  ]

  -- `rename`
  unfoldable pub rename_key : Inner D → D → D → Inner D
  rename_key i old new = move_key (unlink i new) old new

  unfoldable pub remove_all : BTreeMap D ℕ → List D → BTreeMap D ℕ
  remove_all forward [] = forward
  remove_all forward (key ∷ keys) = remove_all (BTreeMap.remove forward key) keys

  -- `forget_inode`
  unfoldable pub forget : Inner D → ℕ → Inner D
  unfolding remove_all
  forget i inode = elim (BTreeMap.get i.reverse inode) [
    | none ↦ i
    | some set ↦ record {
      forward = remove_all i.forward (BTreeMap.keys set);
      reverse = BTreeMap.remove i.reverse inode;
    }
  ]
