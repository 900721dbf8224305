-- ===== src/Zeta/Descriptors/Fresh.antt =====
-- Which descriptors of zeta/source/vfs.cpp are in use.
use sigma.Base.{
  ℕ_discrete, ℕ, ◌≤◌, ◌≡◌, ◌≢◌, inl, inr, refl, arith, ◌==◌, true, false, Bool-cases, Option, none,
  some, List, ◌∷◌,
}
use sigma.Zeta.{VfsEntry, get_mountpoint}
use sigma.Zeta.Descriptors.{FdData, ThreadVfsEntry, put, add_node, open_file, close, dup2, tell}

-- No descriptor from `free_fd` on is open.
abbrev pub IsUnused : ThreadVfsEntry → Type 0
IsUnused t = (fd : ℕ) → t.free_fd ≤ fd → (t.fd_map fd).is_open ≡ false

-- A new descriptor, which was closed, at the start of the file; the others as they were.
pub record IsOpened (t : ThreadVfsEntry) (fd : ℕ) (t' : ThreadVfsEntry) : Type 0 where
  pub was_closed : tell fd t ≡ none
  pub at_start : tell fd t' ≡ some 0
  pub others : (i : ℕ) → i ≢ fd → t'.fd_map i ≡ t.fd_map i
  pub unused : IsUnused t'
  pub more : t.free_fd ≤ t'.free_fd

pub data Opened (t : ThreadVfsEntry) : Option (Option ℕ × ThreadVfsEntry) → Type 0 where
  throws : Opened t none
  refused : Opened t (some (none, t))
  opened : (fd : ℕ) (t' : ThreadVfsEntry) → IsOpened t fd t' → Opened t (some (some fd, t'))

add_node-IsOpened :
    (node mode : ℕ) (t : ThreadVfsEntry)
    → IsUnused t
    → IsOpened t t.free_fd (add_node node mode t).1
unfolding add_node put tell
add_node-IsOpened node mode t u = record {
  was_closed = rw (u t.free_fd (omega arith), tell) refl;
  at_start = ground arith;
  others = λ i ne. ground arith;
  unused = λ fd le. ground (arith, u fd (omega arith));
  more = omega arith;
}

-- Where no descriptor from `free_fd` on is open, `open` throws or is undefined, or refuses and changes nothing, or
-- gives a descriptor that was closed before and is at the start of its file, changes no other one,
-- and again none from the new `free_fd` on is open.
pub open_file-Opened :
    (call : ℕ → List ℕ → ℕ → Option ℕ) (mounts : List VfsEntry) (path : List ℕ) (mode : ℕ)
    (t : ThreadVfsEntry)
    → IsUnused t
    → Opened t (open_file call mounts path mode t)
unfolding open_file
open_file-Opened call mounts path mode t u = from (get_mountpoint mounts t.cwd path)
  where
    answered :
        (o : Option ℕ)
        → Opened t (elim o [ none ↦ some (none, t) | some node ↦ some (add_node node mode t) ])
    answered none = refused
    answered (some node) = opened t.free_fd _ (add_node-IsOpened node mode t u)

    from :
        (o : Option (Option VfsEntry × List ℕ))
        → Opened t (elim o [
          | none ↦ none
          | some (none, out) ↦ some (none, t)
          | some (some m, out) ↦ elim (call m.file_system out mode) [
            | none ↦ some (none, t)
            | some node ↦ some (add_node node mode t)
          ]
        ])
    from none = throws
    from (some (none, out)) = refused
    from (some (some m, out)) = answered (call m.file_system out mode)

pub put-IsUnused :
    (fd : ℕ) (d : FdData) (t : ThreadVfsEntry)
    → (t.free_fd ≤ fd → d.is_open ≡ false)
    → IsUnused t
    → IsUnused (put fd d t)
unfolding put
put-IsUnused fd d t here u i le = elim (ℕ_discrete fd i) [
  | yes e ↦ rw (same e) (here (omega (arith, e)))
  | no ne ↦ rw (other ne) (u i le)
]
  where
    same : fd ≡ i → (fd == i) ≡ true
    same e = ground arith

    other : fd ≢ i → (fd == i) ≡ false
    other ne = ground arith

pub close-IsUnused : (fd : ℕ) (t : ThreadVfsEntry) → IsUnused t → IsUnused (close fd t)
unfolding close
close-IsUnused fd t u = elim (Bool-cases ((t.fd_map fd).is_open)) [
  | inl there ↦
      rw (there, close)
        (put-IsUnused fd _ (record t { closed_nodes = (t.fd_map fd).node ∷ t.closed_nodes })
          (λ le. refl) u)
  | inr gone ↦ rw (gone, close) u
]

-- A descriptor that `dup2` has put at `free_fd` is overwritten by the next `open`, and the node that
-- it was open on is not told to close.
pub dup2_overwritten :
    (oldfd node mode : ℕ) (t : ThreadVfsEntry)
    → IsUnused t
    → (t.fd_map oldfd).is_open ≡ true
    → let t' = (dup2 oldfd t.free_fd t).1 in
      let t'' = (add_node node mode t').1 in
      (tell t.free_fd t' ≡ some (t.fd_map oldfd).offset)
      × ((add_node node mode t').0 ≡ some t.free_fd)
      × (tell t.free_fd t'' ≡ some 0)
      × (t''.closed_nodes ≡ t.closed_nodes)
unfolding dup2 put add_node tell
dup2_overwritten oldfd node mode t u h =
    rw (h, u t.free_fd (omega arith), differ, dup2)
      (rw (itself, h) refl, refl, rw itself refl, refl)
  where
    itself : (t.free_fd == t.free_fd) ≡ true
    itself = ground arith

    differ : (oldfd == t.free_fd) ≡ false
    differ = ground (arith, h, u oldfd)
