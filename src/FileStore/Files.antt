-- ===== src/FileStore/Files.antt =====
-- The part of the file system below the store's mail directory, as Go's `os` and `ioutil` show it
-- to smtpd/filestore.go and smtpd/filemsg.go. A path is the names of its components below that
-- directory.
pub mod Laws
use inbucket.Common.{
  ℕ, zero, suc, Bool, true, false, not, ◌&&◌, Option, none, some, List, [], ◌∷◌, ◌++◌,
  if◌then◌else◌, Bytes, equal,
}

-- What the index of a mailbox keeps of a message: the exported fields of `FileMessage`.
pub record Meta : Type 0 where
  pub fid : Bytes
  pub fdate : ℕ
  pub ffrom : Bytes
  pub fto : List Bytes
  pub fsubject : Bytes
  pub fsize : ℕ

abbrev pub FilePath : Type 0
FilePath = List Bytes

-- An index is the messages that a decoder reads from it, and whether it then meets the end of the
-- file rather than a damaged record.
pub data Node : Type 0 where
  directory : Node
  index_file : List Meta → Bool → Node
  raw_file : Bytes → Node

abbrev pub Disk : Type 0
Disk = List (FilePath × Node)

abbrev pub same : FilePath → FilePath → Bool
same [] [] = true
same [] (b ∷ q) = false
same (a ∷ p) [] = false
same (a ∷ p) (b ∷ q) = equal a b && same p q

-- The path `q` is `p`, or below it.
abbrev pub is_under : FilePath → FilePath → Bool
is_under [] q = true
is_under (a ∷ p) [] = false
is_under (a ∷ p) (b ∷ q) = equal a b && is_under p q

unfoldable pub find : FilePath → Disk → Option Node
find p [] = none
find p ((q, n) ∷ d) = let rest = find p d in if same q p then some n else rest

abbrev pub is_some : {A : Type 0} → Option A → Bool
is_some none = false
is_some (some a) = true

unfoldable pub exists : FilePath → Disk → Bool
exists p d = is_some (find p d)

-- The file system without the one path, and without all that is under it.
unfoldable pub remove_path : FilePath → Disk → Disk
remove_path p [] = []
remove_path p ((q, n) ∷ d) = let rest = remove_path p d in if same q p then rest else (q, n) ∷ rest

unfoldable pub remove_tree : FilePath → Disk → Disk
remove_tree p [] = []
remove_tree p ((q, n) ∷ d) =
    let rest = remove_tree p d in if is_under p q then rest else (q, n) ∷ rest

unfoldable pub put : FilePath → Node → Disk → Disk
put p n d = (p, n) ∷ remove_path p d

-- The directory of a path.
unfoldable pub parent : FilePath → FilePath
parent [] = []
parent (a ∷ []) = []
parent (a ∷ b ∷ p) = a ∷ parent (b ∷ p)

abbrev is_child : FilePath → FilePath → Bool
is_child p [] = false
is_child p (a ∷ q) = same p (parent (a ∷ q))

-- Whether a directory has an entry.
unfoldable pub has_entries : FilePath → Disk → Bool
has_entries p [] = false
has_entries p ((q, n) ∷ d) = let rest = has_entries p d in if is_child p q then true else rest

-- `os.MkdirAll`: the directories of a path, from one that is there on.
abbrev pub make_dir : FilePath → Disk → Disk
make_dir p d = if exists p d then d else put p directory d

unfoldable pub make_dirs : FilePath → FilePath → Disk → Disk
make_dirs base [] d = make_dir base d
make_dirs base (a ∷ p) d = make_dirs (base ++ a ∷ []) p (make_dir base d)

-- The file at a path.
abbrev pub only_file : Option Node → Option Node
only_file (some directory) = none
only_file o = o

abbrev pub file_at : FilePath → Disk → Option Node
file_at p d = only_file (find p d)
