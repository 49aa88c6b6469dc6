-- ===== src/FileStore/Index/Heaps.antt =====
-- Writing an index, whatever the operating system answers, leaves the objects in memory alone.
use inbucket.Common.{ℕ, ◌≡◌, arith, Bool, not, Option, none, some, List, [], ◌∷◌, if◌then◌else◌}
use inbucket.FileStore.Files.{
  Meta, FilePath, Node, Disk, has_entries, exists, put, parent, remove_path, remove_tree, make_dirs,
}
use inbucket.FileStore.{Store, M, and_then, ◌>>◌, ignore, modify, call, fields_of}
use inbucket.FileStore.Index.{
  stat, create_file, create_dir, remove_dir_if_empty, remove_dir, flush_index, write_fields,
  write_index,
}

pub record SameHeaps (s t : Store) : Type 0 where
  pub mailboxes : t.mailboxes ≡ s.mailboxes
  pub messages : t.messages ≡ s.messages

pub record Keeps (m : M (Unit {0})) : Type 0 where
  pub at : (s : Store) → SameHeaps s (m s).1

after :
    (n : M (Unit {0})) (o : Option (Unit {0})) (s t : Store)
    → Keeps n
    → SameHeaps s t
    → SameHeaps s (and_then o (λ u. n) t).1
after n none s t k h = h
after n (some u) s t k h = ground (arith, h, k.at t)

pub Keeps-then : (m n : M (Unit {0})) → Keeps m → Keeps n → Keeps (m >> n)
Keeps-then m n km kn = record { at = λ s. after n (m s).0 s (m s).1 kn (km.at s) }

pub Keeps-ignore : (m : M (Unit {0})) → Keeps m → Keeps (ignore m)
Keeps-ignore m k = record { at = k.at }

pub Keeps-call : Keeps call
unfolding call
Keeps-call = record { at = λ s. ground arith }

Keeps-test : (test : Store → Bool) → Keeps (λ s. (if test s then some tt else none, s))
Keeps-test test = record { at = λ s. ground arith }

pub Keeps-disk : (f : Disk → Disk) → Keeps (modify (λ s. record s { disk = f s.disk }))
Keeps-disk f = record { at = λ s. ground arith }

pub Keeps-stat : (p : FilePath) → Keeps (stat p)
unfolding stat
Keeps-stat p = Keeps-then _ _ Keeps-call (Keeps-test (λ s. exists p s.disk))

Keeps-create_file : (p : FilePath) (n : Node) → Keeps (create_file p n)
unfolding create_file
Keeps-create_file p n =
    Keeps-then (stat (parent p)) (modify (λ s. record s { disk = put p n s.disk }))
      (Keeps-stat (parent p)) (Keeps-disk (put p n))

Keeps-remove_dir_if_empty : (p : FilePath) → Keeps (remove_dir_if_empty p)
unfolding remove_dir_if_empty
Keeps-remove_dir_if_empty p = Keeps-then _ _ (Keeps-stat p) (
    Keeps-then _ _ Keeps-call (
      Keeps-then _ _ (Keeps-test (λ s. not (has_entries p s.disk)))
        (Keeps-then _ _ Keeps-call (Keeps-disk (remove_path p)))))

Keeps-remove_dir : (p : FilePath) → Keeps (remove_dir p)
unfolding remove_dir
Keeps-remove_dir p = Keeps-then _ _ Keeps-call (
    Keeps-then _ _ (Keeps-disk (remove_tree p)) (
      Keeps-ignore _ (
        Keeps-then _ _ (Keeps-remove_dir_if_empty (parent p))
          (Keeps-remove_dir_if_empty (parent (parent p))))))

Keeps-make_dirs :
    (p : FilePath) → Keeps (do call; modify (λ s. record s { disk = make_dirs [] p s.disk }))
Keeps-make_dirs p = Keeps-then _ _ Keeps-call (Keeps-disk (make_dirs [] p))

Keeps-create_dir : (p : FilePath) → Keeps (create_dir p)
unfolding create_dir
Keeps-create_dir p = record {
  at = λ s. ground (arith, (Keeps-stat p).at s, (Keeps-make_dirs p).at (stat p s).1);
}

Keeps-flush_index : (p : FilePath) (ms : List Meta) → Keeps (flush_index p ms)
unfolding flush_index
Keeps-flush_index p ms = record { at = λ s. ground arith }

Keeps-write_fields : (p : FilePath) (ms : List Meta) → Keeps (write_fields p ms)
unfolding write_fields
Keeps-write_fields p [] = Keeps-remove_dir p
Keeps-write_fields p (m ∷ ms) =
    Keeps-then _ _ (Keeps-create_dir p)
      (Keeps-then _ _ (Keeps-create_file _ _) (Keeps-flush_index _ _))

pub Keeps-write_index : (h : ℕ) → Keeps (write_index h)
unfolding write_index
Keeps-write_index h = record {
  at = λ s.
      (Keeps-write_fields (s.mailboxes h).path (fields_of s.messages (s.mailboxes h).messages)).at
        s;
}
