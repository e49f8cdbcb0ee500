-- ===== src/Tests/Files.antt =====
-- The file systems of src/fs on a small tree: `/f` with three bytes, and `/a` with an empty `/a/g`.
use os_test.Prelude.{ℕ, ◌+◌, ◌≡◌, refl, true, some, none, [], ◌∷◌, ◌++◌, arith, length}
use os_test.Prelude.Outcome.{done}
use os_test.Prelude.Result.{ok, err}
use os_test.Fs.Str.{has_slash, is_empty, slash}
use os_test.Fs.FilePath.{FilePath, root, has_root}
use os_test.Fs.VfsError.{FileType, path_does_not_exist}
use os_test.Fs.Ramfs.{Ramfs, RamfsFileHandle, dir, file, root_id, dir_at, find_file}
use os_test.Fs.Ramfs.Ops.{read, write}
use os_test.Fs.Ramfs.Data.{IsOpen, Written, write-Written, read-write}
use os_test.Fs.Ramfs.Walk.{resolve, first_file, file_in, path_of, find_file-resolve}
use os_test.Fs.Ramfs.Entries.{IsName, AreNames}
use os_test.Fs.Vfs.{DynFile, DynFileSystem, Vfs, mount, exists, find_mount}
use os_test.Fs.Vfs
use os_test.Fs.FilePath.Relative.{unslash}
use os_test.Fs.Vfs.Mounts.{mount-open_file}

abbrev a : FilePath
a = b'a' ∷ []

abbrev f : FilePath
f = b'f' ∷ []

abbrev g : FilePath
g = b'g' ∷ []

abbrev n : FilePath
n = b'n' ∷ []

abbrev tree : Ramfs
tree = record {
  dirs =
      record { name = root; entries = file 0 ∷ dir 1 ∷ []; parent_dir = 0 }
      ∷ record { name = a; entries = file 1 ∷ []; parent_dir = 0 }
      ∷ [];
  files =
      record { name = f; data_ = 1 ∷ 2 ∷ 3 ∷ []; parent_dir = 0 }
      ∷ record { name = g; data_ = []; parent_dir = 1 }
      ∷ [];
}

-- A handle on `/f` behind the first byte.
abbrev handle : RamfsFileHandle
handle = record { inner = 0; pos = 1 }

handle-IsOpen : IsOpen tree handle
handle-IsOpen = record { target = omega arith; within = omega arith }

write-Written_example :
    (fs' : Ramfs) × (h' : RamfsFileHandle) × (write tree handle (8 ∷ 9 ∷ []) ≡ done (fs', h', ok 2))
    × Written tree handle (8 ∷ 9 ∷ []) fs' h'
write-Written_example = write-Written tree handle (8 ∷ 9 ∷ []) handle-IsOpen

read-write_example :
    (fs' : Ramfs) × (h' : RamfsFileHandle) × (write tree handle (8 ∷ 9 ∷ []) ≡ done (fs', h', ok 2))
    × (read fs' handle (0 ∷ 0 ∷ []) ≡ (h', 8 ∷ 9 ∷ [], ok 2))
read-write_example = read-write tree handle (8 ∷ 9 ∷ []) (0 ∷ 0 ∷ []) handle-IsOpen refl

a-IsName : IsName a
unfolding has_slash is_empty
a-IsName = (refl, refl)

f-IsName : IsName f
unfolding has_slash is_empty
f-IsName = (refl, refl)

n-IsName : IsName n
unfolding has_slash is_empty
n-IsName = (refl, refl)

in_a-AreNames : AreNames (a ∷ [])
in_a-AreNames = (a-IsName, tt)

found_dir : resolve tree root_id (a ∷ []) ≡ some 1
unfolding resolve
found_dir = refl

no_n : first_file tree n (dir_at tree 1).entries ≡ none
unfolding first_file
no_n = refl

find_file-resolve_example :
    find_file 2 tree root_id (path_of (a ∷ []) n)
    ≡ (elim (resolve tree root_id (a ∷ [])) [ none ↦ none | some e ↦ file_in tree e n ])
find_file-resolve_example =
    find_file-resolve tree 2 root_id (a ∷ []) n (omega arith) (a-IsName.0, tt) n-IsName.0

-- A root file system in which nothing exists, and one to be mounted that opens every path but the
-- empty one.
abbrev nothing : DynFileSystem
nothing = record {
  open_file = λ p. err path_does_not_exist;
  file_type = λ p. err path_does_not_exist;
}

abbrev length_file : ℕ → DynFile
length_file size = record {
  Data = ℕ;
  inner = size;
  read = λ s buf. done (s, buf, ok 0);
  write = λ s buf. done (s + length buf, ok (length buf));
}

abbrev lengths : DynFileSystem
lengths = record { open_file = λ p. ok (length_file (length p)); file_type = λ p. ok FileType.file }

abbrev bare : Vfs
bare = record { root = nothing; mounts = [] }

abbrev at_a : FilePath
at_a = slash ∷ a

rooted : has_root at_a ≡ true
unfolding has_root
rooted = refl

unmounted : find_mount at_a (bare.mounts) ≡ none
unfolding find_mount
unmounted = refl

rooted_file : has_root (at_a ++ slash ∷ f) ≡ true
unfolding has_root
rooted_file = refl

mount-open_file_example :
    (after : Vfs) × (mount bare lengths at_a ≡ (after, ok tt))
    × (Vfs.open_file after (at_a ++ slash ∷ f) ≡ lengths.open_file (unslash (slash ∷ f)))
mount-open_file_example =
    mount-open_file bare lengths at_a (slash ∷ f) rooted refl unmounted tt rooted_file refl
