-- ===== src/Net/Tcp/Ring.antt =====
-- `RingBuffer` of src/net/tcp.rs: the byte queues of a connection.
pub mod Queue
mod Examples
use ralph_os.Base.{
  ℕ, zero, suc, ◌+◌, ◌-◌, ◌%◌, min, Bool, List, [], ◌∷◌, leb, if◌then◌else◌, length, get_or, set,
  take, replicate,
}

abbrev pub rx_buffer_size : ℕ
rx_buffer_size = 1024

pub record RingBuffer : Type 0 where
  pub bytes : List ℕ
  pub head : ℕ
  pub tail : ℕ
  pub len : ℕ

unfoldable pub new : RingBuffer
new = record { bytes = replicate rx_buffer_size 0; head = 0; tail = 0; len = 0 }

unfoldable pub available : RingBuffer → ℕ
available r = r.len

unfoldable pub free_space : RingBuffer → ℕ
free_space r = rx_buffer_size - r.len

-- The loop of `write`: each byte goes to `head`, which advances.
unfoldable pub write_loop : List ℕ → RingBuffer → RingBuffer
write_loop [] r = r
write_loop (b ∷ bs) r =
    write_loop bs (record r { bytes = set r.bytes r.head b; head = (r.head + 1) % rx_buffer_size })

-- The count written, and the buffer.
unfoldable pub write : List ℕ → RingBuffer → ℕ × RingBuffer
unfolding write_loop free_space
write input r =
    let to_write = min (length input) (free_space r) in
    let r' = write_loop (take to_write input) r in (to_write, record r' { len = r'.len + to_write })

-- `n` bytes from position `pos` on, and the position behind them: the loop of the reads.
unfoldable pub read_loop : ℕ → ℕ → List ℕ → List ℕ
read_loop zero pos bytes = []
read_loop (suc n) pos bytes = get_or bytes pos 0 ∷ read_loop n ((pos + 1) % rx_buffer_size) bytes

unfoldable pub advance : ℕ → ℕ → ℕ
advance zero pos = pos
advance (suc n) pos = advance n ((pos + 1) % rx_buffer_size)

-- `buf_len` is the length of the caller's slice. The bytes put there (their number is what the
-- source returns), and the buffer.
unfoldable pub read : ℕ → RingBuffer → List ℕ × RingBuffer
unfolding read_loop advance
read buf_len r =
    let to_read = min buf_len r.len in
    (
      read_loop to_read r.tail r.bytes,
      record r { tail = advance to_read r.tail; len = r.len - to_read },
    )

unfoldable pub peek : ℕ → RingBuffer → List ℕ
unfolding read_loop
peek buf_len r = read_loop (min buf_len r.len) r.tail r.bytes

unfoldable pub peek_offset : ℕ → ℕ → RingBuffer → List ℕ
unfolding read_loop
peek_offset offset buf_len r =
    if leb r.len offset
    then []
    else read_loop (min buf_len (r.len - offset)) ((r.tail + offset) % rx_buffer_size) r.bytes

unfoldable pub consume : ℕ → RingBuffer → RingBuffer
consume count r =
    let to_consume = min count r.len in
    record r { tail = (r.tail + to_consume) % rx_buffer_size; len = r.len - to_consume }

unfoldable pub clear : RingBuffer → RingBuffer
clear r = record r { head = 0; tail = 0; len = 0 }
