-- ===== src/FileStore/Files/Laws.antt =====
-- Laws of the file system: what a path holds behind each operation.
use inbucket.Common.{
  ◌≡◌, ◌↔◌, refl, ap, sym, length, ◌≤◌, ◌∙◌, ◌++◌, arith, true, none, some, [], ◌∷◌, if◌then◌else◌,
  Bytes, equal_iff,
}
use mathlib.Core.List.{append_assoc, append-nil}
use inbucket.FileStore.Files.{
  Node, FilePath, Disk, same, is_under, directory, exists, find, make_dir, make_dirs, file_at,
  parent, remove_path, remove_tree, put,
}

pub same_iff : (p q : FilePath) → (same p q ≡ true) ↔ (p ≡ q)
same_iff [] [] = ground arith
same_iff [] (b ∷ q) = ground arith
same_iff (a ∷ p) [] = ground arith
same_iff (a ∷ p) (b ∷ q) = ground (arith, equal_iff a b, same_iff p q)

pub find-remove_path :
    (p q : FilePath) (d : Disk) → find q (remove_path p d) ≡ (if same p q then none else find q d)
unfolding find remove_path
find-remove_path p q [] = ground arith
find-remove_path p q ((r, n) ∷ d) =
    ground (arith, find-remove_path p q d, same_iff r p, same_iff r q, same_iff p q)

pub find-remove_tree :
    (p q : FilePath) (d : Disk)
    → find q (remove_tree p d) ≡ (if is_under p q then none else find q d)
unfolding find remove_tree
find-remove_tree p q [] = ground arith
find-remove_tree p q ((r, n) ∷ d) =
    ground (arith, find-remove_tree p q d, same_iff r q, ap (is_under p) {x = r} {y = q})

pub find-put :
    (p q : FilePath) (n : Node) (d : Disk)
    → find q (put p n d) ≡ (if same p q then some n else find q d)
unfolding find put
find-put p q n d = ground (arith, find-remove_path p q d)

pub ruleset disk_laws = (find-remove_path, find-remove_tree, find-put)

file_at-make_dir : (p q : FilePath) (d : Disk) → file_at q (make_dir p d) ≡ file_at q d
unfolding exists
file_at-make_dir p q d = ground (arith, find-put p q directory d, same_iff p q)

pub file_at-make_dirs :
    (base p q : FilePath) (d : Disk) → file_at q (make_dirs base p d) ≡ file_at q d
unfolding make_dirs
file_at-make_dirs base [] q d = file_at-make_dir base q d
file_at-make_dirs base (a ∷ p) q d =
    file_at-make_dirs (base ++ a ∷ []) p q (make_dir base d) ∙ file_at-make_dir base q d

pub same-length : (p q : FilePath) → same p q ≡ true → length p ≡ length q
same-length p q e = ap length ((same_iff p q).0 e)

pub parent-append : (p : FilePath) (b : Bytes) → parent (p ++ b ∷ []) ≡ p
unfolding parent
parent-append [] b = refl
parent-append (a ∷ []) b = refl
parent-append (a ∷ c ∷ p) b = ap (◌∷◌ a) (parent-append (c ∷ p) b)

pub length-parent : (p : FilePath) → length (parent p) ≤ length p
unfolding parent
length-parent [] = omega arith
length-parent (a ∷ []) = omega arith
length-parent (a ∷ b ∷ p) = omega (arith, length-parent (b ∷ p))

-- A path is under its directory, and not under another of the same depth.
pub is_under-append : (p : FilePath) (b : Bytes) → is_under p (p ++ b ∷ []) ≡ true
is_under-append [] b = refl
is_under-append (a ∷ p) b = ground (arith, equal_iff a a, is_under-append p b)

exists-make_dir : (p : FilePath) (d : Disk) → exists p (make_dir p d) ≡ true
unfolding exists
exists-make_dir p d = ground (arith, find-put p p directory d, same_iff p p)

pub exists-make_dirs :
    (base p : FilePath) (d : Disk) → exists (base ++ p) (make_dirs base p d) ≡ true
unfolding make_dirs
exists-make_dirs base [] d = rw (append-nil base) (exists-make_dir base d)
exists-make_dirs base (a ∷ p) d =
    rw (sym (append_assoc base (a ∷ []) p)) (exists-make_dirs (base ++ a ∷ []) p (make_dir base d))
