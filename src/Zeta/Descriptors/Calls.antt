-- ===== src/Zeta/Descriptors/Calls.antt =====
-- A thread's calls of zeta/source/vfs.cpp one after the other.
use sigma.Base.{
  ℕ, ◌<◌, ◌≤◌, ◌≡◌, refl, ◌&&◌, if◌then◌else◌, Bool, true, false, Option, none, some, List,
}
use sigma.Zeta.{VfsEntry}
use sigma.Zeta.Descriptors.{dup_result, ThreadVfsEntry, put, open_file, close, dup2, seek, Whence}
use sigma.Zeta.Descriptors.Fresh.{IsUnused}

module _ (call : ℕ → List ℕ → ℕ → Option ℕ) (mounts : List VfsEntry) (is_file : ℕ → Bool)
    (size : ℕ → ℕ) where
  -- One call; `dup2` only onto descriptors that `open` has passed.
  pub data Step (t : ThreadVfsEntry) : ThreadVfsEntry → Type 0 where
    opens :
        (path : List ℕ) (mode : ℕ) (r : Option ℕ) (t' : ThreadVfsEntry)
        → open_file call mounts path mode t ≡ some (r, t')
        → Step t t'
    closes : (fd : ℕ) → Step t (close fd t)
    seeks : (fd offset : ℕ) (whence : Whence) → Step t (seek is_file size fd offset whence t).1
    dups : (oldfd newfd : ℕ) → newfd < t.free_fd → Step t (dup2 oldfd newfd t).1

  pub data Steps (t : ThreadVfsEntry) : ThreadVfsEntry → Type 0 where
    stays : Steps t t
    goes_on : (t' t'' : ThreadVfsEntry) → Steps t t' → Step t' t'' → Steps t t''

  abbrev ResultUnused : Option (Option ℕ × ThreadVfsEntry) → Type 0
  ResultUnused none = Unit {0}
  ResultUnused (some (r, t')) = IsUnused t'

  -- One of two results, by a test.
  chosen :
      (c : Bool) (x y : Option ℕ × ThreadVfsEntry)
      → (c ≡ true → IsUnused x.1)
      → IsUnused y.1
      → IsUnused (if c then x else y).1
  chosen true x y h k = h refl
  chosen false x y h k = k

  abbrev moved : ℕ → ℕ → Bool → ThreadVfsEntry → Option ℕ × ThreadVfsEntry
  moved fd offset b t =
      if (t.fd_map fd).is_open && b
      then (some offset, put fd (record (t.fd_map fd) { offset = offset }) t)
      else (none, t)

  abbrev IsEntered : ThreadVfsEntry → Type 0
  IsEntered t = IsUnused t × (3 ≤ t.free_fd)

  -- After the file has been opened, if it has, and put at its place.
  abbrev Placed : ℕ → Option (Option ℕ × ThreadVfsEntry) → Type 0
  Placed newfd none = Unit {0}
  Placed newfd (some r) = IsEntered (dup_result newfd r)

  abbrev EntryUnused : Option ThreadVfsEntry → Type 0
  EntryUnused none = Unit {0}
  EntryUnused (some t) = IsUnused t
