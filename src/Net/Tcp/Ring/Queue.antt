-- ===== src/Net/Tcp/Ring/Queue.antt =====
-- A ring buffer is a queue of at most 1024 bytes: the invariant, the queue that a buffer stands
-- for, and each operation as one on the queue.
use ralph_os.Base.{
  ℕ, zero, suc, ◌+◌, ◌-◌, ◌%◌, ◌≤◌, ◌<◌, min, ◌≡◌, refl, sym, ap, ◌∙◌, List, [], ◌∷◌, ◌++◌, arith,
  leb, length, get_or, set, take, drop, length-set, length-take, take-min, drop-min, drop_count,
  leb→le, take-length_le, drop-length_le, length-replicate, get_or-set_self, get_or-set_ne,
  Bool-cases, inl, inr,
}
use mathlib.Core.Path.{ap₂}
use mathlib.Core.List.{append-nil, append_assoc}
use ralph_os.Net.Tcp.Ring.{
  rx_buffer_size, RingBuffer, new, write_loop, write, read_loop, advance, read, peek_offset,
  consume,
}

pub record IsRing (r : RingBuffer) : Type 0 where
  pub size : length r.bytes ≡ rx_buffer_size
  pub tail_in : r.tail < rx_buffer_size
  pub len_in : r.len ≤ rx_buffer_size
  pub head_at : r.head ≡ (r.tail + r.len) % rx_buffer_size

-- The queue, oldest byte first.
unfoldable pub contents : RingBuffer → List ℕ
contents r = read_loop r.len r.tail r.bytes

pub new-IsRing : IsRing new
unfolding new
new-IsRing = record {
  size = length-replicate {A = ℕ} rx_buffer_size 0;
  tail_in = omega arith;
  len_in = omega arith;
  head_at = refl;
}

pub length-read_loop : (n pos : ℕ) (d : List ℕ) → length (read_loop n pos d) ≡ n
unfolding read_loop
length-read_loop zero pos d = refl
length-read_loop (suc n) pos d = ap suc (length-read_loop n ((pos + 1) % rx_buffer_size) d)

pub length-contents : (r : RingBuffer) → length (contents r) ≡ r.len
unfolding contents
length-contents r = length-read_loop r.len r.tail r.bytes

read_loop_count : (j k p : ℕ) (d : List ℕ) → j ≡ k → read_loop j p d ≡ read_loop k p d
read_loop_count j k p d e = ap (λ n. read_loop n p d) e

-- The last byte of a stretch.
read_loop-snoc :
    (n p : ℕ) (d : List ℕ)
    → p < rx_buffer_size
    → read_loop (suc n) p d ≡ read_loop n p d ++ (get_or d ((p + n) % rx_buffer_size) 0 ∷ [])
unfolding read_loop
read_loop-snoc zero p d h = ap (λ k. get_or d k 0 ∷ []) (omega arith)
read_loop-snoc (suc n) p d h =
    ap (λ l. get_or d p 0 ∷ l)
      (read_loop-snoc n ((p + 1) % rx_buffer_size) d (omega arith)
        ∙ ap (λ k. read_loop n ((p + 1) % rx_buffer_size) d ++ (get_or d k 0 ∷ [])) (omega arith))

-- A write outside a stretch does not show in it.
read_loop-set :
    (n p h v : ℕ) (d : List ℕ)
    → p < rx_buffer_size
    → h < rx_buffer_size
    → n ≤ (h + rx_buffer_size - p) % rx_buffer_size
    → read_loop n p (set d h v) ≡ read_loop n p d
unfolding read_loop
read_loop-set zero p h v d a b c = refl
read_loop-set (suc n) p h v d a b c = rw (
  get_or-set_ne d h p v 0 (omega arith),
  read_loop-set n ((p + 1) % rx_buffer_size) h v d (omega arith) b (omega arith),
)

read_loop-push :
    (n p v : ℕ) (d : List ℕ)
    → length d ≡ rx_buffer_size
    → p < rx_buffer_size
    → n < rx_buffer_size
    → read_loop (suc n) p (set d ((p + n) % rx_buffer_size) v) ≡ read_loop n p d ++ (v ∷ [])
read_loop-push n p v d size a b =
    read_loop-snoc n p (set d ((p + n) % rx_buffer_size) v) a
    ∙ ap₂ (λ l w. l ++ (w ∷ []))
        (read_loop-set n p ((p + n) % rx_buffer_size) v d a (omega arith) (omega arith))
        (get_or-set_self d ((p + n) % rx_buffer_size) v 0 (omega arith))

-- The write loop appends its bytes.
write_loop-append :
    (bs : List ℕ) (r : RingBuffer) (n : ℕ)
    → length r.bytes ≡ rx_buffer_size
    → r.tail < rx_buffer_size
    → r.head ≡ (r.tail + n) % rx_buffer_size
    → n + length bs ≤ rx_buffer_size
    → read_loop (n + length bs) r.tail (write_loop bs r).bytes ≡ read_loop n r.tail r.bytes ++ bs
unfolding write_loop
write_loop-append [] r n size tail head room =
    read_loop_count (n + 0) n r.tail r.bytes (omega arith)
    ∙ sym (append-nil (read_loop n r.tail r.bytes))
write_loop-append (b ∷ bs) r n size tail head room =
    read_loop_count (n + length (b ∷ bs)) (suc n + length bs) r.tail (write_loop (b ∷ bs) r).bytes
      (omega arith)
    ∙ (write_loop-append bs
          (record r { bytes = set r.bytes r.head b; head = (r.head + 1) % rx_buffer_size }) (suc n)
          (omega (arith, length-set r.bytes r.head b, size)) tail (omega arith) (omega arith)
        ∙ (ap (λ h. read_loop (suc n) r.tail (set r.bytes h b) ++ bs) head
            ∙ (ap (λ l. l ++ bs) (read_loop-push n r.tail b r.bytes size tail (omega arith))
                ∙ append_assoc (read_loop n r.tail r.bytes) (b ∷ []) bs)))

write_loop_fields :
    (bs : List ℕ) (r : RingBuffer)
    → (length (write_loop bs r).bytes ≡ length r.bytes)
      × ((write_loop bs r).tail ≡ r.tail)
      × ((write_loop bs r).len ≡ r.len)
      × (r.head < rx_buffer_size → (write_loop bs r).head ≡ (r.head + length bs) % rx_buffer_size)
unfolding write_loop
write_loop_fields [] r = (refl, refl, refl, λ h. omega arith)
write_loop_fields (b ∷ bs) r =
    let rest =
      write_loop_fields bs
        (record r { bytes = set r.bytes r.head b; head = (r.head + 1) % rx_buffer_size }) in
    (rest.0 ∙ length-set r.bytes r.head b, rest.1, rest.2, λ h. omega (arith, rest.3 (omega arith)))

advance_lem : (n p : ℕ) → p < rx_buffer_size → advance n p ≡ (p + n) % rx_buffer_size
unfolding advance
advance_lem zero p h = omega arith
advance_lem (suc n) p h = omega (arith, advance_lem n ((p + 1) % rx_buffer_size) (omega arith))

take-read_loop : (k n p : ℕ) (d : List ℕ) → take k (read_loop n p d) ≡ read_loop (min k n) p d
unfolding read_loop
take-read_loop zero n p d = read_loop_count 0 (min 0 n) p d (omega arith)
take-read_loop (suc k) zero p d = read_loop_count 0 (min (suc k) 0) p d (omega arith)
take-read_loop (suc k) (suc n) p d =
    ap (λ l. get_or d p 0 ∷ l) (take-read_loop k n ((p + 1) % rx_buffer_size) d)
    ∙ read_loop_count (suc (min k n)) (min (suc k) (suc n)) p d (omega arith)

drop-read_loop :
    (k n p : ℕ) (d : List ℕ)
    → p < rx_buffer_size
    → k ≤ n
    → drop k (read_loop n p d) ≡ read_loop (n - k) ((p + k) % rx_buffer_size) d
unfolding read_loop
drop-read_loop zero n p d h le = ap₂ (λ j q. read_loop j q d) (omega arith) (omega arith)
drop-read_loop (suc k) zero p d h le = absurd (omega arith)
drop-read_loop (suc k) (suc n) p d h le =
    drop-read_loop k n ((p + 1) % rx_buffer_size) d (omega arith) (omega arith)
    ∙ ap₂ (λ j q. read_loop j q d) (omega arith) (omega arith)

-- On a sound ring, write appends as much of the input as there is room for, says how much, and
-- keeps the invariant.
pub write_lem :
    (input : List ℕ) (r : RingBuffer)
    → IsRing r
    → ((write input r).0 ≡ min (length input) (rx_buffer_size - r.len))
      × (contents (write input r).1 ≡ contents r ++ take (rx_buffer_size - r.len) input)
      × IsRing (write input r).1
unfolding write
write_lem input r v =
    let space = rx_buffer_size - r.len in
    let bs = take space input in
    let cut : take (min (length input) space) input ≡ bs = take-min space input in
    let count : min (length input) space ≡ length bs = omega (arith, length-take space input) in
    let f = write_loop_fields bs r in
    (
      refl,
      unfold contents in
          rw (cut, count, f.1, f.2)
            (write_loop-append bs r r.len v.size v.tail_in v.head_at
              (omega (arith, length-take space input, v.len_in))),
      rw (cut, count)
          (record {
            size = f.0 ∙ v.size;
            tail_in = omega (arith, f.1, v.tail_in);
            len_in = omega (arith, f.2, length-take space input, v.len_in);
            head_at = omega (arith, f.1, f.2, f.3 (omega arith), v.head_at);
          }),
    )

-- What is left behind the oldest `n` bytes.
behind :
    (n : ℕ) (r : RingBuffer) {t : ℕ}
    → IsRing r
    → t ≡ (r.tail + min n r.len) % rx_buffer_size
    → read_loop (r.len - min n r.len) t r.bytes ≡ drop n (read_loop r.len r.tail r.bytes)
behind n r v e = rw e (
    sym (drop-read_loop (min n r.len) r.len r.tail r.bytes v.tail_in (omega arith))
    ∙ (drop_count (min n r.len) (min n (length (read_loop r.len r.tail r.bytes)))
          (read_loop r.len r.tail r.bytes) (omega (arith, length-read_loop r.len r.tail r.bytes))
        ∙ drop-min n (read_loop r.len r.tail r.bytes)))

-- On a sound ring, read takes the oldest bytes, as many as there are and the caller has room for,
-- and keeps the invariant.
pub read_lem :
    (n : ℕ) (r : RingBuffer)
    → IsRing r
    → ((read n r).0 ≡ take n (contents r))
      × (contents (read n r).1 ≡ drop n (contents r))
      × IsRing (read n r).1
unfolding read contents
read_lem n r v = (
  sym (take-read_loop n r.len r.tail r.bytes),
  behind n r v (advance_lem (min n r.len) r.tail v.tail_in),
  record {
    size = v.size;
    tail_in = omega (arith, advance_lem (min n r.len) r.tail v.tail_in);
    len_in = omega arith;
    head_at = omega (arith, advance_lem (min n r.len) r.tail v.tail_in, v.head_at);
  },
)

-- On a sound ring, peek_offset gives the bytes behind the first offset ones, as many as there are
-- and the caller has room for.
pub peek_offset_lem :
    (offset n : ℕ) (r : RingBuffer)
    → IsRing r
    → peek_offset offset n r ≡ take n (drop offset (contents r))
unfolding peek_offset contents
peek_offset_lem offset n r v = elim (Bool-cases (leb r.len offset)) [
  | inl past ↦
      rw
        (
          past,
          drop-length_le offset (read_loop r.len r.tail r.bytes)
              (omega (arith, length-read_loop r.len r.tail r.bytes, leb→le r.len offset past)),
        )
        (sym (take-length_le n [] (omega arith)))
  | inr inside ↦
      rw (inside, drop-read_loop offset r.len r.tail r.bytes v.tail_in (ground arith))
        (sym (take-read_loop n (r.len - offset) ((r.tail + offset) % rx_buffer_size) r.bytes))
]

-- On a sound ring, consume drops the oldest bytes and keeps the invariant.
pub consume_lem :
    (n : ℕ) (r : RingBuffer)
    → IsRing r
    → (contents (consume n r) ≡ drop n (contents r)) × IsRing (consume n r)
unfolding consume contents
consume_lem n r v = (
  behind n r v refl,
  record {
    size = v.size;
    tail_in = omega arith;
    len_in = omega arith;
    head_at = omega (arith, v.head_at);
  },
)
