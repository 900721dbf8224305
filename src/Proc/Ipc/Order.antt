-- ===== src/Proc/Ipc/Order.antt =====
-- What goes through a ring of kernel/source/proc/ipc.cpp, to whom, and in which order.
use mathlib.Core.List.{reverse, reverse-cons}
use sigma.Base.{
  add64, u64, ◌+◌, ◌<◌, ◌⊎◌, inl, inr, get_elem?, length-reverse, ap, sym, ◌∙◌, List, Option,
  Outcome, [], ok, panic, some, ◌>>=◌, ◌≡◌, ◌≢◌, ◌∷◌, ◌++◌, ℕ, zero, suc, Bool, true, length, map,
  arith, refl, append_assoc,
}
use sigma.Proc.Ipc.{
  Message, Ring, send_queue, copy_of, read_bytes, send, receive, get_n_messages,
  get_top_message_size,
}

-- The messages that wait for a thread, the last sent first.
abbrev pub waiting_for_b : Ring → List Message
waiting_for_b r = r.b_queue.queue.items

abbrev pub waiting_for_a : Ring → List Message
waiting_for_a r = r.a_queue.queue.items

-- A buffer that is sent, with the memory at that moment.
pub record Sent : Type 0 where
  pub mem : ℕ → ℕ
  pub buffer : ℕ
  pub size : ℕ

abbrev pub message : Sent → Message
message x = copy_of x.mem x.buffer x.size

-- Sends the list in order, as thread `tid`; every copy finds memory.
unfoldable pub send_all : ℕ → List Sent → Ring → Outcome Ring
send_all tid [] r = ok r
send_all tid (x ∷ xs) r = send tid true x.mem x.buffer x.size r >>= λ y. send_all tid xs y.1

-- Receives `n` times as thread `tid`.
unfoldable pub receive_n : ℕ → ℕ → Ring → Outcome (List (Option Message))
receive_n tid zero r = ok []
receive_n tid (suc n) r = receive tid r >>= λ x. receive_n tid n x.1 >>= λ rest. ok (x.0 ∷ rest)

-- One message from the first thread of a ring to the second.
send-b_queue :
    (r : Ring) (mem : ℕ → ℕ) (buffer size : ℕ)
    → send r.a true mem buffer size r
      ≡ ok (true, record r { b_queue = (send_queue true mem buffer size r.b_queue).1 })
unfolding send
send-b_queue r mem buffer size = ground arith

-- And from the second to the first.
send-a_queue :
    (r : Ring) (mem : ℕ → ℕ) (buffer size : ℕ)
    → r.a ≢ r.b
    → send r.b true mem buffer size r
      ≡ ok (true, record r { a_queue = (send_queue true mem buffer size r.a_queue).1 })
unfolding send
send-a_queue r mem buffer size ne = ground arith

-- Receiving as the second thread takes the head of what waits for it.
receive-head :
    (r : Ring) (m : Message) (ms : List Message)
    → r.a ≢ r.b
    → waiting_for_b r ≡ m ∷ ms
    → (r' : Ring) × (receive r.b r ≡ ok (some m, r'))
      × (r'.a ≡ r.a)
      × (r'.b ≡ r.b)
      × (waiting_for_b r' ≡ ms)
      × (waiting_for_a r' ≡ waiting_for_a r)
unfolding receive
receive-head r m ms ne h = (
  record r {
    b_queue = record r.b_queue {
      queue = record { items = ms; capacity = r.b_queue.queue.capacity };
    };
  },
  ground arith,
  refl,
  refl,
  refl,
  refl,
)

-- And as the first thread.
receive-head_a :
    (r : Ring) (m : Message) (ms : List Message)
    → waiting_for_a r ≡ m ∷ ms
    → (r' : Ring) × (receive r.a r ≡ ok (some m, r'))
      × (waiting_for_b r' ≡ waiting_for_b r)
      × (waiting_for_a r' ≡ ms)
unfolding receive
receive-head_a r m ms h = (
  record r {
    a_queue = record r.a_queue {
      queue = record { items = ms; capacity = r.a_queue.queue.capacity };
    };
  },
  ground arith,
  refl,
  refl,
)

length-read_bytes : (mem : ℕ → ℕ) (buffer n : ℕ) → length (read_bytes mem buffer n) ≡ n
unfolding read_bytes
length-read_bytes mem buffer zero = refl
length-read_bytes mem buffer (suc n) = ap suc (length-read_bytes mem (add64 buffer 1) n)

get_elem?-read_bytes :
    (mem : ℕ → ℕ) (n buffer i : ℕ)
    → buffer + n < u64
    → i < n
    → get_elem? (read_bytes mem buffer n) i ≡ some (mem (buffer + i))
unfolding read_bytes
get_elem?-read_bytes mem zero buffer i fits lt = absurd (omega arith)
get_elem?-read_bytes mem (suc n) buffer zero fits lt = ap (λ p. some (mem p)) (omega arith)
get_elem?-read_bytes mem (suc n) buffer (suc i) fits lt =
    get_elem?-read_bytes mem n (add64 buffer 1) i (omega arith) (omega arith)
    ∙ ap (λ p. some (mem p)) (omega arith)

-- The message holds the bytes of the buffer.
abbrev pub IsCopy : (ℕ → ℕ) → ℕ → ℕ → Message → Type 0
IsCopy mem buffer size m =
    (m.size ≡ size)
    × (length m.bytes ≡ size)
    × ((i : ℕ) → i < size → get_elem? m.bytes i ≡ some (mem (buffer + i)))

copy_of-IsCopy :
    (mem : ℕ → ℕ) (buffer size : ℕ)
    → buffer + size < u64
    → IsCopy mem buffer size (copy_of mem buffer size)
unfolding copy_of
copy_of-IsCopy mem buffer size fits = (
  refl,
  length-read_bytes mem buffer size,
  λ i lt. get_elem?-read_bytes mem size buffer i fits lt,
)

-- The threads `from` and `to` are the two of the ring, either way round.
abbrev pub ArePeers : Ring → ℕ → ℕ → Type 0
ArePeers r from to = ((from ≡ r.a) × (to ≡ r.b)) ⊎ ((from ≡ r.b) × (to ≡ r.a))

-- What the peer of a thread that sends is told and gets.
abbrev pub Delivered : Ring → ℕ → ℕ → (ℕ → ℕ) → ℕ → ℕ → Type 0
Delivered r from to mem buffer size =
    (r' : Ring) × (r'' : Ring) × (m : Message) × (send from true mem buffer size r ≡ ok (true, r'))
    × (get_top_message_size to r' ≡ ok size)
    × (receive to r' ≡ ok (some m, r''))
    × IsCopy mem buffer size m
    × (waiting_for_b r'' ≡ waiting_for_b r)
    × (waiting_for_a r'' ≡ waiting_for_a r)

-- When either thread of a ring sends a buffer that lies below 2 ^ 64, and memory for the copy is
-- found, the other thread is told its size and receives its bytes next, and what waits for either
-- thread is then as it was before.
pub send-receive :
    (r : Ring) (from to : ℕ) (mem : ℕ → ℕ) (buffer size : ℕ)
    → r.a ≢ r.b
    → ArePeers r from to
    → buffer + size < u64
    → Delivered r from to mem buffer size
unfolding get_top_message_size send_queue copy_of
send-receive r from to mem buffer size ne (inl (e, f)) fits =
    let r' : Ring = record r { b_queue = (send_queue true mem buffer size r.b_queue).1 } in
    let m : Message = copy_of mem buffer size in
    let (r'', got, a, b, left, other) = receive-head r' m (waiting_for_b r) ne refl in
    rw (e, f)
      (
        r',
        r'',
        m,
        send-b_queue r mem buffer size,
        ground arith,
        got,
        copy_of-IsCopy mem buffer size fits,
        left,
        other,
      )
send-receive r from to mem buffer size ne (inr (e, f)) fits =
    let r' : Ring = record r { a_queue = (send_queue true mem buffer size r.a_queue).1 } in
    let m : Message = copy_of mem buffer size in
    let (r'', got, other, left) = receive-head_a r' m (waiting_for_a r) refl in
    rw (e, f)
      (
        r',
        r'',
        m,
        send-a_queue r mem buffer size ne,
        ground arith,
        got,
        copy_of-IsCopy mem buffer size fits,
        other,
        left,
      )

-- A thread that is neither of the two can do nothing with the ring.
pub stranger_halts :
    (r : Ring) (tid : ℕ) (found : Bool) (mem : ℕ → ℕ) (buffer size : ℕ)
    → tid ≢ r.a
    → tid ≢ r.b
    → (send tid found mem buffer size r ≡ panic)
      × (receive tid r ≡ panic)
      × (get_n_messages tid r ≡ panic)
      × (get_top_message_size tid r ≡ panic)
unfolding send receive get_n_messages get_top_message_size
stranger_halts r tid found mem buffer size na nb =
    (ground arith, ground arith, ground arith, ground arith)

abbrev Arrived : Ring → List Message → Outcome Ring → Type 0
Arrived r waiting o =
    (r' : Ring) × (o ≡ ok r') × (r'.a ≡ r.a) × (r'.b ≡ r.b) × (waiting_for_b r' ≡ waiting)

send_all-Arrived :
    (xs : List Sent) (r : Ring)
    → Arrived r (reverse (map message xs) ++ waiting_for_b r) (send_all r.a xs r)
unfolding send_all send_queue
send_all-Arrived [] r = (r, refl, refl, refl, refl)
send_all-Arrived (x ∷ xs) r =
    let r' : Ring = record r { b_queue = (send_queue true x.mem x.buffer x.size r.b_queue).1 } in
    let (q, eq, a, b, waiting) = send_all-Arrived xs r' in
    rw
      (
        send-b_queue r x.mem x.buffer x.size,
        reverse-cons (message x) (map message xs),
        append_assoc (reverse (map message xs)) (message x ∷ []) (waiting_for_b r),
      )
      (q, eq, a, b, waiting)

receive_n_lem :
    (xs rest : List Message) (tid : ℕ) (r : Ring)
    → tid ≡ r.b
    → r.a ≢ r.b
    → waiting_for_b r ≡ xs ++ rest
    → receive_n tid (length xs) r ≡ ok (map some xs)
unfolding receive_n
receive_n_lem [] rest tid r own ne h = refl
receive_n_lem (x ∷ xs) rest tid r own ne h =
    let (r', got, a, b, left, other) = receive-head r x (xs ++ rest) ne h in
    let later = receive_n_lem xs rest tid r' (own ∙ sym b) (λ e. ne (sym a ∙ e ∙ b)) left in
    rw (own, got) (ap (λ o. o >>= λ rest. ok (some x ∷ rest)) later)

length-map-message : (xs : List Sent) → length (map message xs) ≡ length xs
length-map-message [] = refl
length-map-message (x ∷ xs) = ap suc (length-map-message xs)

-- A run of messages comes out in the reverse of the order in which it was sent.
pub send_all_reverses :
    (xs : List Sent) (r : Ring)
    → r.a ≢ r.b
    → (send_all r.a xs r >>= receive_n r.b (length xs)) ≡ ok (map some (reverse (map message xs)))
send_all_reverses xs r ne =
    let (q, eq, a, b, waiting) = send_all-Arrived xs r in
    rw (eq, ← length-map-message xs, ← length-reverse (map message xs))
      (receive_n_lem (reverse (map message xs)) (waiting_for_b r) r.b q (sym b)
        (λ e. ne (sym a ∙ e ∙ b)) waiting)
