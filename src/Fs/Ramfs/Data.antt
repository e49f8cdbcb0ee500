-- ===== src/Fs/Ramfs/Data.antt =====
-- Reading and writing the data of a file of src/fs/ramfs.rs through handles.
use native.Mathlib.Nat.{add-zero, zero-add}
use mathlib.Core.List.{append-nil, append_assoc}
use os_test.Prelude.{
  ◌≢◌, sym, length-set, ℕ, zero, suc, ◌+◌, ◌≤◌, ◌<◌, ◌≡◌, refl, ap, ◌∙◌, List, [], ◌∷◌, ◌++◌, arith,
  length, take, drop, set, length-append, take-append-drop, length-drop, length-take,
}
use os_test.Prelude.Outcome.{done}
use os_test.Prelude.Result.{ok}
use os_test.Fs.Ramfs.{Ramfs, RamfsFile, RamfsFileHandle, file_at}
use os_test.Fs.Ramfs.Objects.{file_at-set_self, file_at-set_ne}
use os_test.Fs.Ramfs.Ops.{read_into, read, insert_at, write_from, write}

-- An insertion, where the list is written as the part before the place and the part behind it.
insert_at-append :
    (before : List ℕ) (byte : ℕ) (after : List ℕ)
    → insert_at (length before) byte (before ++ after) ≡ done (before ++ byte ∷ after)
unfolding insert_at
insert_at-append [] byte after = refl
insert_at-append (x ∷ before) byte after = rw (insert_at-append before byte after)

write_from-append :
    (before : List ℕ) (pos wrote : ℕ) (buf after : List ℕ)
    → pos + wrote ≡ length before
    → write_from pos buf (before ++ after) wrote ≡ done (before ++ buf ++ after, wrote + length buf)
unfolding write_from
write_from-append before pos wrote [] after e = rw (append-nil before, add-zero wrote)
write_from-append before pos wrote (byte ∷ buf) after e =
    let longer : pos + (wrote + 1) ≡ length (before ++ byte ∷ []) =
      omega (arith, length-append before (byte ∷ [])) in
    rw
      (
        e,
        insert_at-append before byte after,
        ← append_assoc before (byte ∷ []) after,
        write_from-append (before ++ byte ∷ []) pos (wrote + 1) buf after longer,
        append_assoc before (byte ∷ []) buf,
      )
      (ap (λ n. done ((before ++ byte ∷ buf) ++ after, n)) (omega arith))

-- What one `read` hands over: the bytes of `rest` that the buffer has room for, and what was in
-- the buffer behind them.
read_into_lem :
    (buf rest : List ℕ)
    → read_into buf rest
      ≡ (take (length buf) rest ++ drop (length rest) buf, length (take (length buf) rest))
unfolding read_into
read_into_lem [] [] = refl
read_into_lem [] (byte ∷ rest) = refl
read_into_lem (b ∷ buf) [] = refl
read_into_lem (b ∷ buf) (byte ∷ rest) = rw (read_into_lem buf rest)

-- The data of the file of a handle.
abbrev pub contents : Ramfs → RamfsFileHandle → List ℕ
contents fs h = (file_at fs h.inner).data_

-- The handle refers to a file, and its position is not behind the end of the data.
pub record IsOpen (fs : Ramfs) (h : RamfsFileHandle) : Type 0 where
  pub target : h.inner < length fs.files
  pub within : h.pos ≤ length (contents fs h)

-- The data with the buffer put in at `pos`.
abbrev pub spliced : ℕ → List ℕ → List ℕ → List ℕ
spliced pos old buf = (take pos old ++ buf) ++ drop pos old

length-spliced :
    (pos : ℕ) (old buf : List ℕ)
    → pos ≤ length old
    → length (spliced pos old buf) ≡ length old + length buf
length-spliced pos old buf h = omega (
  arith,
  length-append (take pos old ++ buf) (drop pos old),
  length-append (take pos old) buf,
  length-take pos old,
  length-drop pos old,
)

write_from_old :
    (pos : ℕ) (old buf : List ℕ)
    → pos ≤ length old
    → write_from pos buf old 0 ≡ done (spliced pos old buf, length buf)
write_from_old pos old buf h =
    let at : pos + 0 ≡ length (take pos old) = omega (arith, length-take pos old) in
    ap (λ d. write_from pos buf d 0) (sym (take-append-drop pos old))
    ∙ write_from-append (take pos old) pos 0 buf (drop pos old) at
    ∙ ap (λ n. done (spliced pos old buf, n)) (zero-add (length buf))

-- What a `write` leaves behind.
pub record Written (fs : Ramfs) (h : RamfsFileHandle) (buf : List ℕ) (fs' : Ramfs)
    (h' : RamfsFileHandle) : Type 0 where
  pub inserted : contents fs' h ≡ spliced h.pos (contents fs h) buf
  pub moved : h'.pos ≡ h.pos + length buf
  pub same_file : h'.inner ≡ h.inner
  pub still_open : IsOpen fs' h'
  pub others : (g : ℕ) → g ≢ h.inner → file_at fs' g ≡ file_at fs g
  pub same_dirs : fs'.dirs ≡ fs.dirs

-- `write` through a handle on a file, whose position is not behind the end of the data, does not
-- panic and reports every byte as written. It puts the buffer in at the position of the handle,
-- in front of the bytes that were there, and moves the handle behind it; no other file and no
-- directory changes, and the handle stays at a place in its file.
pub write-Written :
    (fs : Ramfs) (h : RamfsFileHandle) (buf : List ℕ)
    → IsOpen fs h
    → (fs' : Ramfs) × (h' : RamfsFileHandle) × (write fs h buf ≡ done (fs', h', ok (length buf)))
      × Written fs h buf fs' h'
unfolding write
write-Written fs h buf op =
    let target = file_at fs h.inner in
    let new = spliced h.pos (contents fs h) buf in
    let changed : RamfsFile = record target { data_ = new } in
    let there = file_at-set_self fs h.inner changed op.target in
    (
      record fs { files = set fs.files h.inner changed },
      record h { pos = h.pos + length buf },
      rw (write_from_old h.pos (contents fs h) buf op.within),
      record {
        inserted = ap (λ (f : RamfsFile). f.data_) there;
        moved = refl;
        same_file = refl;
        still_open = record {
          target = rw (length-set fs.files h.inner changed) op.target;
          within =
              rw (there, contents)
                (omega (arith, length-spliced h.pos (contents fs h) buf, op.within));
        };
        others = λ g ne. file_at-set_ne fs h.inner g changed ne;
        same_dirs = refl;
      },
    )

-- `read` fills the buffer from the position of the handle with as many bytes as both hold,
-- leaves the buffer behind them as it was, reports their number and moves the handle by it.
pub read_lem :
    (fs : Ramfs) (h : RamfsFileHandle) (buf : List ℕ)
    → let got = take (length buf) (drop h.pos (contents fs h)) in
      read fs h buf ≡ (
        record h { pos = h.pos + length got },
        got ++ drop (length (drop h.pos (contents fs h))) buf,
        ok (length got),
      )
unfolding read
read_lem fs h buf = rw read_into_lem

drop-spliced :
    (pos : ℕ) (old buf : List ℕ)
    → pos ≤ length old
    → drop pos (spliced pos old buf) ≡ buf ++ drop pos old
drop-spliced zero old buf h = refl
drop-spliced (suc pos) [] buf h = absurd (omega arith)
drop-spliced (suc pos) (x ∷ old) buf h = drop-spliced pos old buf (omega arith)

take-append_length : (xs ys : List ℕ) → take (length xs) (xs ++ ys) ≡ xs
take-append_length [] ys = refl
take-append_length (x ∷ xs) ys = ap (λ t. x ∷ t) (take-append_length xs ys)

drop_all : (xs : List ℕ) (n : ℕ) → length xs ≤ n → drop n xs ≡ []
drop_all [] zero h = refl
drop_all [] (suc n) h = refl
drop_all (x ∷ xs) zero h = absurd (omega arith)
drop_all (x ∷ xs) (suc n) h = drop_all xs n (omega arith)

-- What was written is read back: after a `write` through a handle on a file, whose position is
-- not behind the end of the data, a `read` of as many bytes from the position at which the
-- handle stood gives exactly the buffer.
pub read-write :
    (fs : Ramfs) (h : RamfsFileHandle) (buf room : List ℕ)
    → IsOpen fs h
    → length room ≡ length buf
    → (fs' : Ramfs) × (h' : RamfsFileHandle) × (write fs h buf ≡ done (fs', h', ok (length buf)))
      × (read fs' h room ≡ (h', buf, ok (length buf)))
read-write fs h buf room op same = after (write-Written fs h buf op)
  where
    back :
        (fs' : Ramfs)
        → contents fs' h ≡ spliced h.pos (contents fs h) buf
        → read fs' h room ≡ (record h { pos = h.pos + length buf }, buf, ok (length buf))
    back fs' e =
        let ahead = drop-spliced h.pos (contents fs h) buf op.within in
        let whole = take-append_length buf (drop h.pos (contents fs h)) in
        let full : drop (length (buf ++ drop h.pos (contents fs h))) room ≡ [] =
          drop_all room _ (omega (arith, length-append buf (drop h.pos (contents fs h)))) in
        rw (read_lem fs' h room, e, ahead, same, whole, full, append-nil buf)

    after :
        ((fs' : Ramfs) × (h' : RamfsFileHandle) × (write fs h buf ≡ done (fs', h', ok (length buf)))
          × Written fs h buf fs' h')
        → (fs' : Ramfs) × (h' : RamfsFileHandle) × (write fs h buf
            ≡ done (fs', h', ok (length buf)))
          × (read fs' h room ≡ (h', buf, ok (length buf)))
    after (fs', h', runs, w) = (fs', h', runs, ground (arith, back fs' w.inserted))
