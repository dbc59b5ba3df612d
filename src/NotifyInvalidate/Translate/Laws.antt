-- ===== src/NotifyInvalidate/Translate/Laws.antt =====
-- Paths below the shared directory, taken apart.
use virtiofsd.Common.{◌≡◌, refl, true, some, [], ◌∷◌, ◌++◌, ap, arith}
use virtiofsd.Common.Key.{bytes_key, cmp_bytes_refl, same_iff}
use virtiofsd.DentryIndex.{
  Name, FilePath, Component, root_dir, cur_dir, parent_dir, normal, segments,
}
use virtiofsd.NotifyInvalidate.Translate.{
  same_component, strip_prefix, file_name, parent_or_default,
}

same_component_refl : (c : Component) → same_component c c ≡ true
unfolding same_component
same_component_refl root_dir = refl
same_component_refl cur_dir = refl
same_component_refl parent_dir = refl
same_component_refl (normal n) = rw cmp_bytes_refl

pub strip_prefix-append : (base rel : FilePath) → strip_prefix (base ++ rel) base ≡ some rel
unfolding strip_prefix
strip_prefix-append [] rel = refl
strip_prefix-append (c ∷ base) rel = rw (same_component_refl c) (strip_prefix-append base rel)

pub file_name-append : (dir : FilePath) (n : Name) → file_name (dir ++ normal n ∷ []) ≡ some n
unfolding file_name
file_name-append [] n = refl
file_name-append (c ∷ []) n = refl
file_name-append (c ∷ d ∷ dir) n = file_name-append (d ∷ dir) n

pub parent-append : (dir : FilePath) (n : Name) → parent_or_default (dir ++ normal n ∷ []) ≡ dir
unfolding parent_or_default
parent-append [] n = refl
parent-append (c ∷ []) n = refl
parent-append (c ∷ d ∷ dir) n = ap (λ r. c ∷ r) (parent-append (d ∷ dir) n)

pub segments-append :
    (dir : FilePath) (n : Name) → segments (dir ++ normal n ∷ []) ≡ segments dir ++ n ∷ []
unfolding segments
segments-append [] n = refl
segments-append (normal m ∷ dir) n = ap (λ r. m ∷ r) (segments-append dir n)
segments-append (c ∷ dir) n = segments-append dir n

same_component-eq : (c d : Component) → same_component c d ≡ true → c ≡ d
unfolding same_component
same_component-eq root_dir root_dir h = refl
same_component-eq cur_dir cur_dir h = refl
same_component-eq parent_dir parent_dir h = refl
same_component-eq (normal a) (normal b) h = ap normal ((same_iff a b).0 h)
same_component-eq root_dir cur_dir h = cc
same_component-eq root_dir parent_dir h = cc
same_component-eq root_dir (normal b) h = cc
same_component-eq cur_dir root_dir h = cc
same_component-eq cur_dir parent_dir h = cc
same_component-eq cur_dir (normal b) h = cc
same_component-eq parent_dir root_dir h = cc
same_component-eq parent_dir cur_dir h = cc
same_component-eq parent_dir (normal b) h = cc
same_component-eq (normal a) root_dir h = cc
same_component-eq (normal a) cur_dir h = cc
same_component-eq (normal a) parent_dir h = cc

-- What is left of a path that starts with the base.
pub strip_prefix-some : (p base rel : FilePath) → strip_prefix p base ≡ some rel → p ≡ base ++ rel
unfolding strip_prefix
strip_prefix-some p [] rel h = cc
strip_prefix-some [] (c ∷ base) rel h = cc
strip_prefix-some (d ∷ p) (c ∷ base) rel h =
    ground (arith, same_component-eq d c, strip_prefix-some p base rel)
