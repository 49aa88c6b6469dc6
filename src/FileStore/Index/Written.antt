-- ===== src/FileStore/Index/Written.antt =====
-- What writing an index does to the disk.
use inbucket.Common.{
  ◌+◌, ◌<◌, ◌≡◌, refl, ap, ◌∙◌, arith, Bool, true, false, not, ◌&&◌, Option, none, some, List, [],
  ◌∷◌, ◌++◌, length, length-append, codes, if◌then◌else◌, Bool-cases, inl, inr,
}
use inbucket.FileStore.Files.{
  Meta, FilePath, Node, directory, index_file, Disk, same, is_under, find, exists, remove_path,
  remove_tree, put, parent, has_entries, make_dir, make_dirs, file_at,
}
use inbucket.FileStore.Files.Laws.{
  find-put, find-remove_path, find-remove_tree, file_at-make_dirs, same-length, parent-append,
  length-parent, exists-make_dirs, is_under-append, same_iff,
}
use inbucket.FileStore.{Store, call}
use inbucket.FileStore.Index.{
  index_path, stat, create_file, create_dir, remove_dir_if_empty, remove_dir, flush_index,
  write_fields,
}

-- A store whose calls of the operating system all succeed.
abbrev pub calm : Store → Store
calm s = record s { outcomes = [] }

abbrev pub on_disk : Disk → Store → Store
on_disk d s = record s { disk = d; outcomes = [] }

abbrev removable : FilePath → Disk → Bool
removable p d = exists p d && not (has_entries p d)

-- The disk without the directories above `p` that have become empty.
abbrev pruned : FilePath → Disk → Disk
pruned p d =
    if removable (parent p) d
    then (let d' = remove_path (parent p) d in
        if removable (parent (parent p)) d' then remove_path (parent (parent p)) d' else d')
    else d

abbrev pub opened : FilePath → Disk → Disk
opened p d = if exists p d then d else make_dirs [] p d

-- The disk behind `writeIndex`.
abbrev pub written : FilePath → List Meta → Disk → Disk
written p [] d = pruned p (remove_tree p d)
written p (m ∷ ms) d =
    put (index_path p) (index_file (m ∷ ms) true)
      (put (index_path p) (index_file [] true) (opened p d))

pub create_dir_lem :
    (p : FilePath) (s : Store) → create_dir p (calm s) ≡ (some tt, on_disk (opened p s.disk) s)
unfolding create_dir stat call
create_dir_lem p s = ground arith

pub exists-opened : (p : FilePath) (d : Disk) → exists p (opened p d) ≡ true
exists-opened p d = ground (arith, exists-make_dirs [] p d)

pub create_file_lem :
    (p : FilePath) (n : Node) (s : Store)
    → exists (parent p) s.disk ≡ true
    → create_file p n (calm s) ≡ (some tt, on_disk (put p n s.disk) s)
unfolding create_file stat call
create_file_lem p n s e = ground arith

remove_dir_lem :
    (p : FilePath) (s : Store)
    → remove_dir p (calm s) ≡ (some tt, on_disk (pruned p (remove_tree p s.disk)) s)
unfolding remove_dir remove_dir_if_empty stat call
remove_dir_lem p s = ground arith

pub write_fields_lem :
    (p : FilePath) (ms : List Meta) (s : Store)
    → write_fields p ms (calm s) ≡ (some tt, on_disk (written p ms s.disk) s)
unfolding write_fields flush_index
write_fields_lem p [] s = remove_dir_lem p s
write_fields_lem p (m ∷ ms) s =
    let dir : exists (parent (index_path p)) (opened p s.disk) ≡ true =
      ap (λ q. exists q (opened p s.disk)) (parent-append p _) ∙ exists-opened p s.disk in
    ground (
      arith,
      create_dir_lem p s,
      create_file_lem (index_path p) (index_file [] true) (on_disk (opened p s.disk) s) dir,
    )

-- A path deeper than a mailbox's directory keeps its file when the directories above are removed.
not_same : (p q : FilePath) → length p < length q → same p q ≡ false
not_same p q h = elim (Bool-cases (same p q)) [
  | inl e ↦ absurd (omega (arith, same-length p q e))
  | inr e ↦ e
]

find-make_dir : (p q : FilePath) (d : Disk) → length p < length q → find q (make_dir p d) ≡ find q d
find-make_dir p q d h = ground (arith, find-put p q directory d, not_same p q h)

find-make_dirs :
    (base p q : FilePath) (d : Disk)
    → length base + length p < length q
    → find q (make_dirs base p d) ≡ find q d
unfolding make_dirs
find-make_dirs base [] q d h = find-make_dir base q d (omega arith)
find-make_dirs base (a ∷ p) q d h =
    find-make_dirs (base ++ a ∷ []) p q (make_dir base d)
      (omega (arith, length-append base (a ∷ [])))
    ∙ find-make_dir base q d (omega arith)

pub find-opened : (p q : FilePath) (d : Disk) → length p < length q → find q (opened p d) ≡ find q d
find-opened p q d h = ground (arith, find-make_dirs [] p q d (omega arith))

find-pruned : (p q : FilePath) (d : Disk) → length p < length q → find q (pruned p d) ≡ find q d
find-pruned p q d h =
    let short = length-parent p in
    let shorter = length-parent (parent p) in
    ground (
      arith,
      find-remove_path (parent p) q d,
      find-remove_path (parent (parent p)) q (remove_path (parent p) d),
      not_same (parent p) q (omega arith),
      not_same (parent (parent p)) q (omega arith),
    )

pub file_at-opened : (p q : FilePath) (d : Disk) → file_at q (opened p d) ≡ file_at q d
file_at-opened p q d = elim (Bool-cases (exists p d)) [
  | inl e ↦ rw e refl
  | inr e ↦ rw e (file_at-make_dirs [] p q d)
]

-- The records of an index, none where there is no index.
abbrev pub listed : Option Node → List Meta
listed (some (index_file ms whole)) = ms
listed _ = []

abbrev pub listing : FilePath → Disk → List Meta
listing p d = listed (find (index_path p) d)

pub length-index_path : (p : FilePath) → length p < length (index_path p)
length-index_path p = ground (arith, length-append p (codes "index.gob" ∷ []))

-- Whatever the index held, it holds the fields that were written.
pub listing-written : (p : FilePath) (ms : List Meta) (d : Disk) → listing p (written p ms d) ≡ ms
listing-written p [] d = ground (
  arith,
  find-pruned p (index_path p) (remove_tree p d) (length-index_path p),
  find-remove_tree p (index_path p) d,
  is_under-append p (codes "index.gob"),
)
listing-written p (m ∷ ms) d = ground (
  arith,
  find-put (index_path p) (index_path p) (index_file (m ∷ ms) true)
      (put (index_path p) (index_file [] true) (opened p d)),
  same_iff (index_path p) (index_path p),
)

-- Files that are deeper than the mailbox's directory and not in it stay as they are.
pub file_at-written :
    (p q : FilePath) (ms : List Meta) (d : Disk)
    → length p < length q
    → is_under p q ≡ false
    → file_at q (written p ms d) ≡ file_at q d
file_at-written p q [] d h u =
    ground (arith, find-pruned p q (remove_tree p d) h, find-remove_tree p q d)
file_at-written p q (m ∷ ms) d h u = ground (
  arith,
  file_at-opened p q d,
  find-put (index_path p) q (index_file (m ∷ ms) true)
      (put (index_path p) (index_file [] true) (opened p d)),
  find-put (index_path p) q (index_file [] true) (opened p d),
  same_iff (index_path p) q,
  is_under-append p (codes "index.gob"),
  ap (is_under p) {x = index_path p} {y = q},
)

-- In a directory that keeps messages the other files stay.
pub file_at-written_cons :
    (p q : FilePath) (m : Meta) (ms : List Meta) (d : Disk)
    → same (index_path p) q ≡ false
    → file_at q (written p (m ∷ ms) d) ≡ file_at q d
file_at-written_cons p q m ms d u = ground (
  arith,
  file_at-opened p q d,
  find-put (index_path p) q (index_file (m ∷ ms) true)
      (put (index_path p) (index_file [] true) (opened p d)),
  find-put (index_path p) q (index_file [] true) (opened p d),
)

-- A mailbox with no messages loses its directory and all that is in it.
pub file_at-written_nil :
    (p q : FilePath) (d : Disk)
    → length p < length q
    → file_at q (written p [] d) ≡ (if is_under p q then none else file_at q d)
file_at-written_nil p q d h =
    ground (arith, find-pruned p q (remove_tree p d) h, find-remove_tree p q d)
