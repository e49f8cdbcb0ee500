-- ===== src/KernelTests/Files.antt =====
-- The tests of src/fs/ramfs.rs that the kernel runs at its start in a test build.
use os_test.Prelude.{◌≡◌, refl, Bool, true, false, [], ◌∷◌, ◌==◌, length, replicate}
use os_test.Prelude.Outcome.{Outcome, done, panic, assert, ◌>>=◌, ◌>>◌}
use os_test.Prelude.Result.{ok, err}
use os_test.Fs.Str.{str_eq}
use os_test.Fs.FilePath.{FilePath, parent, filename, has_root, is_root, split_from_top, relative_to}
use os_test.Fs.VfsError.{VfsResult, FileType, path_does_not_exist, directory_does_not_exist}
use os_test.Fs.Ramfs.{new, find_file, find_dir, find_entry, without_entry}
use os_test.Fs.Ramfs.Ops.{
  read, write, create_file, create_dir, delete, file_type, open_file, open_dir,
}

-- `Result::unwrap`
abbrev unwrap_result : {A : Type 0} → VfsResult A → Outcome A
unwrap_result (ok a) = done a
unwrap_result (err e) = panic

-- `assert_eq!` with an error.
abbrev fails_missing : {A : Type 0} → VfsResult A → Bool
fails_missing (err path_does_not_exist) = true
fails_missing _ = false

abbrev fails_no_directory : {A : Type 0} → VfsResult A → Bool
fails_no_directory (err directory_does_not_exist) = true
fails_no_directory _ = false

abbrev is_file : VfsResult FileType → Bool
is_file (ok FileType.file) = true
is_file _ = false

abbrev is_directory : VfsResult FileType → Bool
is_directory (ok FileType.directory) = true
is_directory _ = false

-- "/hello.txt"
abbrev hello_txt : FilePath
hello_txt = b'/' ∷ b'h' ∷ b'e' ∷ b'l' ∷ b'l' ∷ b'o' ∷ b'.' ∷ b't' ∷ b'x' ∷ b't' ∷ []

-- "hello, world!"
abbrev wrote : FilePath
wrote =
    b'h' ∷ b'e' ∷ b'l' ∷ b'l' ∷ b'o' ∷ b',' ∷ b' ' ∷ b'w' ∷ b'o' ∷ b'r' ∷ b'l' ∷ b'd' ∷ b'!' ∷ []

-- "/hello"
abbrev hello : FilePath
hello = b'/' ∷ b'h' ∷ b'e' ∷ b'l' ∷ b'l' ∷ b'o' ∷ []

-- "/hello/test.txt"
abbrev inner_txt : FilePath
inner_txt =
    b'/' ∷ b'h' ∷ b'e' ∷ b'l' ∷ b'l' ∷ b'o' ∷ b'/' ∷ b't' ∷ b'e' ∷ b's' ∷ b't' ∷ b'.' ∷ b't' ∷ b'x'
    ∷ b't' ∷ []

-- "/doesnotexist/testing.txt"
abbrev lost_txt : FilePath
lost_txt =
    b'/' ∷ b'd' ∷ b'o' ∷ b'e' ∷ b's' ∷ b'n' ∷ b'o' ∷ b't' ∷ b'e' ∷ b'x' ∷ b'i' ∷ b's' ∷ b't' ∷ b'/'
    ∷ b't' ∷ b'e' ∷ b's' ∷ b't' ∷ b'i' ∷ b'n' ∷ b'g' ∷ b'.' ∷ b't' ∷ b'x' ∷ b't' ∷ []

-- "/doesnotexist/testingg"
abbrev lost_dir : FilePath
lost_dir =
    b'/' ∷ b'd' ∷ b'o' ∷ b'e' ∷ b's' ∷ b'n' ∷ b'o' ∷ b't' ∷ b'e' ∷ b'x' ∷ b'i' ∷ b's' ∷ b't' ∷ b'/'
    ∷ b't' ∷ b'e' ∷ b's' ∷ b't' ∷ b'i' ∷ b'n' ∷ b'g' ∷ b'g' ∷ []

-- "/test.html"
abbrev test_html : FilePath
test_html = b'/' ∷ b't' ∷ b'e' ∷ b's' ∷ b't' ∷ b'.' ∷ b'h' ∷ b't' ∷ b'm' ∷ b'l' ∷ []

-- "random_nonsense"
abbrev nonsense : FilePath
nonsense =
    b'r' ∷ b'a' ∷ b'n' ∷ b'd' ∷ b'o' ∷ b'm' ∷ b'_' ∷ b'n' ∷ b'o' ∷ b'n' ∷ b's' ∷ b'e' ∷ b'n' ∷ b's'
    ∷ b'e' ∷ []

-- "/test.txt"
abbrev test_txt : FilePath
test_txt = b'/' ∷ b't' ∷ b'e' ∷ b's' ∷ b't' ∷ b'.' ∷ b't' ∷ b'x' ∷ b't' ∷ []

-- "/some/random/path"
abbrev some_path : FilePath
some_path =
    b'/' ∷ b's' ∷ b'o' ∷ b'm' ∷ b'e' ∷ b'/' ∷ b'r' ∷ b'a' ∷ b'n' ∷ b'd' ∷ b'o' ∷ b'm' ∷ b'/' ∷ b'p'
    ∷ b'a' ∷ b't' ∷ b'h' ∷ []

abbrev basic_ramfs : Outcome (Unit {0})
basic_ramfs = do
  assert (fails_missing (open_file new hello_txt))
  (fs1, created) ← create_file new hello_txt
  file ← unwrap_result created
  (fs2, _, amount) ← write fs1 file wrote
  wrote_amount ← unwrap_result amount
  assert (wrote_amount == length wrote)
  opened ← unwrap_result (open_file fs2 hello_txt)
  let (_, buf, got) = read fs2 opened (replicate 13 0)
  read_amount ← unwrap_result got
  assert (read_amount == length wrote)
  assert (str_eq buf wrote)
  (fs3, made) ← create_dir fs2 hello
  _ ← unwrap_result made
  (fs4, inner) ← create_file fs3 inner_txt
  _ ← unwrap_result inner
  (fs5, lost) ← create_file fs4 lost_txt
  assert (fails_no_directory lost)
  (_, lost_too) ← create_dir fs5 lost_dir
  assert (fails_no_directory lost_too)

abbrev delete_stuff : Outcome (Unit {0})
delete_stuff = do
  (fs1, created) ← create_file new test_html
  file ← unwrap_result created
  (fs2, _, amount) ← write fs1 file nonsense
  _ ← unwrap_result amount
  (fs3, gone) ← delete fs2 test_html
  _ ← unwrap_result gone
  assert (fails_missing (open_file fs3 test_html))
  (fs4, made) ← create_dir fs3 hello
  _ ← unwrap_result made
  (fs5, inner) ← create_file fs4 inner_txt
  _ ← unwrap_result inner
  (fs6, gone_too) ← delete fs5 hello
  _ ← unwrap_result gone_too
  listed ← open_dir fs6 hello
  assert (fails_missing listed)
  assert (fails_missing (open_file fs6 inner_txt))

abbrev file_types : Outcome (Unit {0})
file_types = do
  (fs1, created) ← create_file new test_txt
  _ ← unwrap_result created
  first ← file_type fs1 test_txt
  assert (is_file first)
  second ← file_type fs1 some_path
  assert (fails_missing second)
  (fs2, made) ← create_dir fs1 hello
  _ ← unwrap_result made
  third ← file_type fs2 hello
  assert (is_directory third)

basic_ramfs_passes : basic_ramfs ≡ done tt
unfolding open_file create_file create_dir write read find_file find_dir parent filename has_root
    split_from_top relative_to is_root str_eq
basic_ramfs_passes = refl

delete_stuff_passes : delete_stuff ≡ done tt
unfolding open_file create_file create_dir write delete open_dir find_file find_dir parent filename
    has_root split_from_top relative_to is_root str_eq without_entry
delete_stuff_passes = refl

file_types_pass : file_types ≡ done tt
unfolding create_file create_dir file_type find_file find_dir find_entry parent filename has_root
    split_from_top relative_to is_root str_eq
file_types_pass = refl
