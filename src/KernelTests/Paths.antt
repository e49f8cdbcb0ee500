-- ===== src/KernelTests/Paths.antt =====
-- The tests of src/fs/path.rs that the kernel runs at its start in a test build.
use os_test.Prelude.{◌≡◌, refl, Bool, true, false, Option, none, some, [], ◌∷◌}
use os_test.Prelude.Outcome.{Outcome, done, assert, unwrap, ◌>>=◌, ◌>>◌}
use os_test.Fs.Str.{str_eq}
use os_test.Fs.FilePath.{FilePath, root, parent, top_folder, relative_to}

-- `==` on `Option<&Path>`
abbrev path_option_eq : Option FilePath → Option FilePath → Bool
path_option_eq none none = true
path_option_eq none (some q) = false
path_option_eq (some p) none = false
path_option_eq (some p) (some q) = str_eq p q

-- "/usr/foo/tmp.html"
abbrev html : FilePath
html =
    b'/' ∷ b'u' ∷ b's' ∷ b'r' ∷ b'/' ∷ b'f' ∷ b'o' ∷ b'o' ∷ b'/' ∷ b't' ∷ b'm' ∷ b'p' ∷ b'.' ∷ b'h'
    ∷ b't' ∷ b'm' ∷ b'l' ∷ []

-- "/usr/foo"
abbrev usr_foo : FilePath
usr_foo = b'/' ∷ b'u' ∷ b's' ∷ b'r' ∷ b'/' ∷ b'f' ∷ b'o' ∷ b'o' ∷ []

-- "/usr"
abbrev usr : FilePath
usr = b'/' ∷ b'u' ∷ b's' ∷ b'r' ∷ []

-- "hello"
abbrev hello : FilePath
hello = b'h' ∷ b'e' ∷ b'l' ∷ b'l' ∷ b'o' ∷ []

-- "hello/byebyte/good/bye"
abbrev long : FilePath
long =
    b'h' ∷ b'e' ∷ b'l' ∷ b'l' ∷ b'o' ∷ b'/' ∷ b'b' ∷ b'y' ∷ b'e' ∷ b'b' ∷ b'y' ∷ b't' ∷ b'e' ∷ b'/'
    ∷ b'g' ∷ b'o' ∷ b'o' ∷ b'd' ∷ b'/' ∷ b'b' ∷ b'y' ∷ b'e' ∷ []

-- "bye"
abbrev bye : FilePath
bye = b'b' ∷ b'y' ∷ b'e' ∷ []

-- "/usr/foo/tmp/ok.html"
abbrev ok_html : FilePath
ok_html =
    b'/' ∷ b'u' ∷ b's' ∷ b'r' ∷ b'/' ∷ b'f' ∷ b'o' ∷ b'o' ∷ b'/' ∷ b't' ∷ b'm' ∷ b'p' ∷ b'/' ∷ b'o'
    ∷ b'k' ∷ b'.' ∷ b'h' ∷ b't' ∷ b'm' ∷ b'l' ∷ []

-- "tmp/ok.html"
abbrev tmp_ok : FilePath
tmp_ok = b't' ∷ b'm' ∷ b'p' ∷ b'/' ∷ b'o' ∷ b'k' ∷ b'.' ∷ b'h' ∷ b't' ∷ b'm' ∷ b'l' ∷ []

-- "/text.html"
abbrev text : FilePath
text = b'/' ∷ b't' ∷ b'e' ∷ b'x' ∷ b't' ∷ b'.' ∷ b'h' ∷ b't' ∷ b'm' ∷ b'l' ∷ []

-- "text.html"
abbrev text_name : FilePath
text_name = b't' ∷ b'e' ∷ b'x' ∷ b't' ∷ b'.' ∷ b'h' ∷ b't' ∷ b'm' ∷ b'l' ∷ []

-- "ok/test/testing"
abbrev testing : FilePath
testing =
    b'o' ∷ b'k' ∷ b'/' ∷ b't' ∷ b'e' ∷ b's' ∷ b't' ∷ b'/' ∷ b't' ∷ b'e' ∷ b's' ∷ b't' ∷ b'i' ∷ b'n'
    ∷ b'g' ∷ []

-- "/ok/test"
abbrev unrelated_parent : FilePath
unrelated_parent = b'/' ∷ b'o' ∷ b'k' ∷ b'/' ∷ b't' ∷ b'e' ∷ b's' ∷ b't' ∷ []

abbrev parents : Outcome (Unit {0})
parents = do
  first ← unwrap (parent html)
  grand_parent ← unwrap (parent first)
  assert (str_eq first usr_foo)
  assert (str_eq grand_parent usr)
  assert (path_option_eq (parent grand_parent) (some root))
  assert (path_option_eq (parent hello) none)

abbrev top_folders : Outcome (Unit {0})
top_folders = do
  assert (path_option_eq (top_folder html) (some root))
  assert (path_option_eq (top_folder long) (some hello))
  assert (path_option_eq (top_folder bye) none)
  assert (path_option_eq (top_folder root) (some root))

abbrev relative : Outcome (Unit {0})
relative = do
  assert (path_option_eq (relative_to ok_html usr_foo) (some tmp_ok))
  assert (path_option_eq (relative_to text root) (some text_name))
  assert (path_option_eq (relative_to testing unrelated_parent) none)

parents_pass : parents ≡ done tt
unfolding parent str_eq
parents_pass = refl

top_folders_pass : top_folders ≡ done tt
unfolding top_folder str_eq
top_folders_pass = refl

relative_passes : relative ≡ done tt
unfolding relative_to str_eq
relative_passes = refl
