-- ===== src/Fs/Vfs/Mounts.antt =====
-- Which file system `Vfs` of src/fs/vfs.rs asks for a path.
use os_test.Prelude.{◌≡◌, refl, ◌∙◌, true, false, none, List, [], ◌∷◌, ◌++◌, arith}
use os_test.Prelude.Result.{ok, err, or, is_ok}
use os_test.Fs.FilePath.{FilePath, has_root, relative_to}
use os_test.Fs.FilePath.Relative.{unslash, relative_to-append}
use os_test.Fs.VfsError.{VfsResult}
use os_test.Fs.Vfs.{
  DynFile, DynFileSystem, Mount, Vfs, exists, find_mount, mount, open_file_in, open_file,
}

-- No mount has a path that the path begins with.
abbrev pub NoneMatches : FilePath → List Mount → Type 0
NoneMatches path [] = Unit
NoneMatches path (m ∷ mounts) = (relative_to path m.path ≡ none) × NoneMatches path mounts

open_file_in-append :
    (path : FilePath) (mounts more : List Mount)
    → NoneMatches path mounts
    → open_file_in path (mounts ++ more) ≡ open_file_in path more
unfolding open_file_in
open_file_in-append path [] more h = refl
open_file_in-append path (m ∷ mounts) more h =
    rw (h.0, open_file_in) (open_file_in-append path mounts more h.1)

or_second : (first second : VfsResult DynFile) → is_ok first ≡ false → or first second ≡ second
or_second (ok file) second h = absurd (ground (arith, h))
or_second (err e) second h = refl

matches :
    (fs : DynFileSystem) (path rest : FilePath)
    → open_file_in (path ++ rest) (record { path = path; filesystem = fs } ∷ [])
      ≡ fs.open_file (unslash rest)
unfolding open_file_in
matches fs path rest = rw (relative_to-append path rest, open_file_in)

-- For a path with a root that does not exist in the root file system, and at which nothing is
-- mounted, `mount` succeeds. A path with a root that begins with it, that the root file system
-- does not open, and that begins with the path of no earlier mount, is then opened by the
-- mounted file system, which is asked for what follows the path of the mount, less one leading
-- slash.
pub mount-open_file :
    (vfs : Vfs) (fs : DynFileSystem) (path rest : FilePath)
    → has_root path ≡ true
    → exists vfs.root path ≡ false
    → find_mount path vfs.mounts ≡ none
    → NoneMatches (path ++ rest) vfs.mounts
    → has_root (path ++ rest) ≡ true
    → is_ok (vfs.root.open_file (path ++ rest)) ≡ false
    → (after : Vfs) × (mount vfs fs path ≡ (after, ok tt))
      × (open_file after (path ++ rest) ≡ fs.open_file (unslash rest))
unfolding mount open_file
mount-open_file vfs fs path rest rooted fresh unmounted others whole missing = (
  record vfs { mounts = vfs.mounts ++ record { path = path; filesystem = fs } ∷ [] },
  rw (rooted, mount) (rw (fresh, mount) (rw unmounted)),
  rw (whole, open_file)
      (or_second (vfs.root.open_file (path ++ rest)) _ missing
        ∙ open_file_in-append (path ++ rest) vfs.mounts
            (record { path = path; filesystem = fs } ∷ []) others
        ∙ matches fs path rest),
)
