-- ===== src/Tests/Stores.antt =====
-- A store that calls of src/fs/ramfs.rs made from an empty one: the directory `/a` with the file `/a/f`.
use os_test.Prelude.{◌≡◌, refl, ◌∙◌, some, none, [], ◌∷◌}
use os_test.Prelude.Outcome.{done}
use os_test.Prelude.Result.{ok, err}
use os_test.Fs.Str.{Str, has_slash, is_empty}
use os_test.Fs.VfsError.{path_does_not_exist}
use os_test.Fs.Ramfs.{Ramfs, RamfsFileHandle, new, new_handle, root_id, dir_at, file_at}
use os_test.Fs.Ramfs.Ops.{create_file, delete, file_type, open_file}
use os_test.Fs.Ramfs.Walk.{resolve, first_file}
use os_test.Fs.Ramfs.Entries.{absolute, IsName, AreNames}
use os_test.Fs.Ramfs.Effects.{CreateFile, Delete, create_file-CreateFile, delete-Delete}
use os_test.Fs.Ramfs.Behaviour.{with_file, with_dir, create_file_lem, create_dir_lem}
use os_test.Fs.Ramfs.Invariant.{IsWellFormed}
use os_test.Fs.Ramfs.Invariant.Reach.{
  Reach, empty, call, created_file, created_dir, Reach-IsWellFormed,
}
use os_test.Fs.Ramfs.Reached.{create_file-open_file_reached, delete-file_type_reached}

abbrev a : Str
a = b'a' ∷ []

abbrev f : Str
f = b'f' ∷ []

abbrev n : Str
n = b'n' ∷ []

a-IsName : IsName a
unfolding has_slash is_empty
a-IsName = (refl, refl)

f-IsName : IsName f
unfolding has_slash is_empty
f-IsName = (refl, refl)

n-IsName : IsName n
unfolding has_slash is_empty
n-IsName = (refl, refl)

in_a : AreNames (a ∷ [])
in_a = (a-IsName, tt)

abbrev with_a : Ramfs
with_a = with_dir new root_id a

abbrev with_f : Ramfs
with_f = with_file with_a 1 f

made_a : Reach with_a
unfolding resolve
made_a = call empty (created_dir (absolute [] a) (ok tt) (create_dir_lem new [] a tt a-IsName))

found_a : resolve with_a root_id (a ∷ []) ≡ some 1
unfolding resolve
found_a = refl

made_f : Reach with_f
made_f = call made_a (
    created_file (absolute (a ∷ []) f) (ok (new_handle 0))
      (create_file_lem with_a (a ∷ []) f in_a f-IsName ∙ rw found_a refl))

still_a : resolve with_f root_id (a ∷ []) ≡ some 1
unfolding resolve
still_a = refl

no_n : first_file with_f n (dir_at with_f 1).entries ≡ none
unfolding first_file
no_n = refl

Reach-IsWellFormed_example : IsWellFormed with_f
Reach-IsWellFormed_example = Reach-IsWellFormed made_f

create_file-open_file_reached_example :
    (after : Ramfs) × (made : RamfsFileHandle) × (create_file with_f (absolute (a ∷ []) n)
      ≡ done (after, ok made))
    × (open_file after (absolute (a ∷ []) n) ≡ ok made)
    × ((file_at after made.inner).data_ ≡ [])
create_file-open_file_reached_example =
    create_file-open_file_reached (a ∷ []) n 1 made_f in_a n-IsName still_a no_n

delete-file_type_reached_example :
    (after : Ramfs) × (delete with_f (absolute (a ∷ []) f) ≡ done (after, ok tt))
    × (file_type after (absolute (a ∷ []) f) ≡ done (err path_does_not_exist))
    × (open_file after (absolute (a ∷ []) f) ≡ err path_does_not_exist)
    × ((other : Str)
        → IsName other
        → ¬ (other ≡ f)
        → file_type after (absolute (a ∷ []) other) ≡ file_type with_f (absolute (a ∷ []) other))
delete-file_type_reached_example =
    delete-file_type_reached (a ∷ []) f 1 made_f in_a f-IsName still_a

-- A second file of the name that is there.
create_file-CreateFile_example :
    CreateFile with_f (a ∷ []) f (create_file with_f (absolute (a ∷ []) f))
create_file-CreateFile_example = create_file-CreateFile (a ∷ []) f made_f in_a f-IsName

delete-Delete_example : Delete with_f (a ∷ []) f (delete with_f (absolute (a ∷ []) f))
delete-Delete_example = delete-Delete (a ∷ []) f made_f in_a f-IsName
