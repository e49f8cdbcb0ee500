-- ===== src/Tests/Paths.antt =====
-- Paths of src/fs/path.rs.
use os_test.Prelude.{◌≡◌, refl, some, [], ◌∷◌}
use os_test.Fs.FilePath.{FilePath, relative_to}
use os_test.Fs.FilePath.Parts.{Parts, path-Parts}

-- `/a/b`
abbrev a_b : FilePath
a_b = b'/' ∷ b'a' ∷ b'/' ∷ b'b' ∷ []

abbrev a : FilePath
a = b'/' ∷ b'a' ∷ []

path-Parts_example : Parts a_b
path-Parts_example = path-Parts a_b

below_a : relative_to a_b a ≡ some (b'b' ∷ [])
unfolding relative_to
below_a = refl
