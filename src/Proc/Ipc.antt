-- ===== src/Proc/Ipc.antt =====
-- `proc::ipc` of kernel/source/proc/ipc.cpp and kernel/include/Sigma/proc/ipc.hpp: two message
-- queues between two threads. Memory is a function from addresses to bytes, read by `send`; whether
-- `new` finds memory for the copy is an argument; the DEBUG
-- magic numbers are left out. The locks make each call one step.
pub mod Order
use sigma.Base.{
  List, Option, Outcome, [], none, ok, panic, some, ◌>>=◌, ◌≡◌, ◌∷◌, ℕ, Bool, true, false, ◌==◌,
  if◌then◌else◌, length, add64, zero, suc,
}
use sigma.Types.Queue.{Queue, n_items}
use sigma.Types.Queue
use sigma.Generic.Event.{Event, trigger}

pub record Message : Type 0 where
  pub size : ℕ
  pub bytes : List ℕ

pub record IpcQueue : Type 0 where
  pub receive_event : Event
  pub queue : Queue Message
  pub sender : ℕ
  pub receiver : ℕ

unfoldable pub new_queue : ℕ → ℕ → IpcQueue
unfolding Queue.empty
new_queue sender receiver = record {
  receive_event = 0;
  queue = Queue.empty;
  sender = sender;
  receiver = receiver;
}

-- The bytes that `memcpy` takes from memory.
unfoldable pub read_bytes : (ℕ → ℕ) → ℕ → ℕ → List ℕ
read_bytes mem buffer zero = []
read_bytes mem buffer (suc n) = mem buffer ∷ read_bytes mem (add64 buffer 1) n

-- The copy of `size` bytes from `buffer` on.
unfoldable pub copy_of : (ℕ → ℕ) → ℕ → ℕ → Message
unfolding read_bytes
copy_of mem buffer size = record { size = size; bytes = read_bytes mem buffer size }

unfoldable pub send_queue : Bool → (ℕ → ℕ) → ℕ → ℕ → IpcQueue → Bool × IpcQueue
unfolding Queue.push trigger
send_queue false mem buffer size q = (false, q)
send_queue true mem buffer size q = (
  true,
  record q {
    queue = Queue.push (copy_of mem buffer size) q.queue;
    receive_event = trigger q.receive_event;
  },
)

-- What `memcpy` writes into the receiver's buffer, or `none` when no message waits.
unfoldable pub receive_queue : IpcQueue → Outcome (Option Message × IpcQueue)
unfolding Queue.pop
receive_queue q =
    if n_items q.queue == 0
    then ok (none, q)
    else (do r ← Queue.pop q.queue; ok (some r.0, record q { queue = r.1 }))

unfoldable pub top_size : IpcQueue → Outcome ℕ
unfolding Queue.back
top_size q = if n_items q.queue == 0 then ok 0 else (do m ← Queue.back q.queue; ok m.size)

pub record Ring : Type 0 where
  pub a : ℕ
  pub b : ℕ
  pub a_queue : IpcQueue
  pub b_queue : IpcQueue

unfoldable pub new_ring : ℕ → ℕ → Ring
unfolding new_queue
new_ring a b = record { a = a; b = b; a_queue = new_queue b a; b_queue = new_queue a b }

-- The calling thread's number comes first; a thread that does not own the ring halts the kernel.
unfoldable pub send : ℕ → Bool → (ℕ → ℕ) → ℕ → ℕ → Ring → Outcome (Bool × Ring)
unfolding send_queue
send tid found mem buffer size r =
    if tid == r.a
    then (let (sent, q) = send_queue found mem buffer size r.b_queue in
        ok (sent, record r { b_queue = q }))
    else if tid == r.b
    then (let (sent, q) = send_queue found mem buffer size r.a_queue in
        ok (sent, record r { a_queue = q }))
    else panic

unfoldable pub receive : ℕ → Ring → Outcome (Option Message × Ring)
unfolding receive_queue
receive tid r =
    if tid == r.a
    then (do x ← receive_queue r.a_queue; ok (x.0, record r { a_queue = x.1 }))
    else if tid == r.b
    then (do x ← receive_queue r.b_queue; ok (x.0, record r { b_queue = x.1 }))
    else panic

unfoldable pub get_top_message_size : ℕ → Ring → Outcome ℕ
unfolding top_size
get_top_message_size tid r =
    if tid == r.a then top_size r.a_queue else if tid == r.b then top_size r.b_queue else panic

unfoldable pub get_n_messages : ℕ → Ring → Outcome ℕ
get_n_messages tid r =
    if tid == r.a
    then ok (n_items r.a_queue.queue)
    else if tid == r.b
    then ok (n_items r.b_queue.queue)
    else panic

unfoldable pub get_receive_event : ℕ → Ring → Outcome Event
get_receive_event tid r =
    if tid == r.a
    then ok r.a_queue.receive_event
    else if tid == r.b
    then ok r.b_queue.receive_event
    else panic

unfoldable pub get_recipients : Ring → ℕ × ℕ
get_recipients r = (r.a, r.b)
