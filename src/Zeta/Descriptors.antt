-- ===== src/Zeta/Descriptors.antt =====
-- The file descriptors of a thread, in zeta/source/vfs.cpp and zeta/include/Zeta/vfs.h. What a file
-- system answers to `open`, and what its nodes are, are arguments; the nodes that are told to close
-- are a list. The map of descriptors is a function; what was never put there is closed.
pub mod Fresh
pub mod Calls
use sigma.Base.{
  ℕ, zero, suc, ◌+◌, ◌==◌, ◌&&◌, not, if◌then◌else◌, Bool, true, false, Option, none, some, List,
  [], ◌∷◌,
}
use sigma.Zeta.{VfsEntry, get_mountpoint}

pub record FdData : Type 0 where
  pub is_open : Bool
  pub fd : ℕ
  pub node : ℕ
  pub mode : ℕ
  pub offset : ℕ

pub record ThreadVfsEntry : Type 0 where
  pub free_fd : ℕ
  pub fd_map : ℕ → FdData
  pub cwd : List ℕ
  pub closed_nodes : List ℕ

unfoldable pub put : ℕ → FdData → ThreadVfsEntry → ThreadVfsEntry
put fd d t = record t { fd_map = λ i. if fd == i then d else t.fd_map i }

-- The descriptor for a node that a file system has opened.
unfoldable pub add_node : ℕ → ℕ → ThreadVfsEntry → Option ℕ × ThreadVfsEntry
unfolding put
add_node node mode t = (
  some t.free_fd,
  put t.free_fd (record { is_open = true; fd = t.free_fd; node = node; mode = mode; offset = 0 })
      (record t { free_fd = suc t.free_fd }),
)

-- `open`: the inner `none` is the result -1, the outer one an exception or a read out of bounds.
unfoldable pub open_file :
    (call : ℕ → List ℕ → ℕ → Option ℕ)
    → List VfsEntry
    → List ℕ
    → ℕ
    → ThreadVfsEntry
    → Option (Option ℕ × ThreadVfsEntry)
unfolding get_mountpoint add_node
open_file call mounts path mode t = elim (get_mountpoint mounts t.cwd path) [
  | none ↦ none
  | some (none, out) ↦ some (none, t)
  | some (some m, out) ↦ elim (call m.file_system out mode) [
    | none ↦ some (none, t)
    | some node ↦ some (add_node node mode t)
  ]
]

unfoldable pub close : ℕ → ThreadVfsEntry → ThreadVfsEntry
unfolding put
close fd t =
    if (t.fd_map fd).is_open
    then put fd (record (t.fd_map fd) { is_open = false })
        (record t { closed_nodes = (t.fd_map fd).node ∷ t.closed_nodes })
    else t

unfoldable pub dup2 : ℕ → ℕ → ThreadVfsEntry → Option ℕ × ThreadVfsEntry
unfolding close put
dup2 oldfd newfd t =
    if not (t.fd_map oldfd).is_open
    then (none, t)
    else if oldfd == newfd
    then (some newfd, t)
    else (
      some newfd,
      (let t' = if (t.fd_map newfd).is_open then close newfd t else t in
          put newfd (record (t'.fd_map oldfd) { fd = newfd }) t'),
    )

pub data Whence : Type 0 where
  seek_set seek_cur seek_end other_whence : Whence

-- The last result is what `ret` is set to, if it is set.
unfoldable pub seek :
    (is_file : ℕ → Bool) (size : ℕ → ℕ)
    → ℕ
    → ℕ
    → Whence
    → ThreadVfsEntry
    → Option ℕ × ThreadVfsEntry
unfolding put
seek is_file size fd offset seek_set t =
    if (t.fd_map fd).is_open && is_file (t.fd_map fd).node
    then (some offset, put fd (record (t.fd_map fd) { offset = offset }) t)
    else (none, t)
seek is_file size fd offset seek_cur t =
    if (t.fd_map fd).is_open && is_file (t.fd_map fd).node
    then (some (t.fd_map fd).offset, t)
    else (none, t)
seek is_file size fd offset seek_end t =
    if (t.fd_map fd).is_open && is_file (t.fd_map fd).node
    then (
      some (size (t.fd_map fd).node),
      put fd (record (t.fd_map fd) { offset = size (t.fd_map fd).node }) t,
    )
    else (none, t)
seek is_file size fd offset other_whence t = (none, t)

unfoldable pub tell : ℕ → ThreadVfsEntry → Option ℕ
tell fd t = if (t.fd_map fd).is_open then some (t.fd_map fd).offset else none

-- `read` and `write`: what the node answers at the descriptor's offset, which stays where it is.
unfoldable pub access : (call : ℕ → ℕ → ℕ → Option ℕ) → ℕ → ℕ → ThreadVfsEntry → Option ℕ
access call fd count t =
    if (t.fd_map fd).is_open then call (t.fd_map fd).node count (t.fd_map fd).offset else none

-- "/dev/stdout" and "/dev/stderr".
abbrev pub stdout_path : List ℕ
stdout_path = 47 ∷ 100 ∷ 101 ∷ 118 ∷ 47 ∷ 115 ∷ 116 ∷ 100 ∷ 111 ∷ 117 ∷ 116 ∷ []

abbrev pub stderr_path : List ℕ
stderr_path = 47 ∷ 100 ∷ 101 ∷ 118 ∷ 47 ∷ 115 ∷ 116 ∷ 100 ∷ 101 ∷ 114 ∷ 114 ∷ []

-- `thread_vfs_entry` after `init`.
abbrev pub new_entry : ThreadVfsEntry
new_entry = record {
  free_fd = 3;
  fd_map = λ fd. record { is_open = false; fd = 0; node = 0; mode = 0; offset = 0 };
  cwd = [];
  closed_nodes = [];
}

-- The descriptor that was opened, if any, is put at `newfd`; `dup2` refuses -1.
abbrev pub dup_result : ℕ → Option ℕ × ThreadVfsEntry → ThreadVfsEntry
dup_result newfd (none, t) = t
dup_result newfd (some fd, t) = (dup2 fd newfd t).1

-- What `get_thread_entry` does for a thread that has no entry; O_WRONLY is an argument.
unfoldable pub enter :
    (call : ℕ → List ℕ → ℕ → Option ℕ) → List VfsEntry → (o_wronly : ℕ) → Option ThreadVfsEntry
unfolding open_file dup2
enter call mounts o_wronly = elim (open_file call mounts stdout_path o_wronly new_entry) [
  | none ↦ none
  | some first ↦ elim (open_file call mounts stderr_path o_wronly (dup_result 1 first)) [
    | none ↦ none
    | some second ↦ some (dup_result 2 second)
  ]
]
