-- ===== src/Net/Tcp/Segment/Stream.antt =====
-- The receiver delivers the sender's byte stream: nothing altered, reordered or repeated.
use mathlib.Core.Path.{subst}
use mathlib.Core.List.{append-nil, append_assoc}
use ralph_os.Base.{
  ℕ, zero, suc, ◌+◌, ◌-◌, ◌^◌, ◌<◌, min, ◌≡◌, refl, ap, sym, ◌∙◌, Bool, true, false, ◌&&◌, some,
  List, [], ◌∷◌, ◌++◌, arith, ◌==◌, inl, inr, Bool-cases, ==_iff, Option-cases, length, take, All,
  length-take,
}
use ralph_os.Net.Bytes.{wrapping_add32}
use ralph_os.Net.Env.{Env, Sent}
use ralph_os.Net.Tcp.Header.{TcpHeader, payload}
use ralph_os.Net.Tcp.Ring
use ralph_os.Net.Tcp.Ring.{rx_buffer_size}
use ralph_os.Net.Tcp.Ring.Queue.{IsRing, contents, write_lem}
use ralph_os.Net.Tcp.Tcb.{Tcb, OooSegment, ooo_data_size, update_rcv_wnd, seq_after}
use ralph_os.Net.Tcp.Segment.{
  put_ooo, buffer_ooo_segment, take_ready, deliver_one, deliver_loop, deliver_ooo_segments,
  store_data, accept_data, process_data,
}

-- The `n` bytes from sequence number `s` on, of the stream that has the byte `f q` at `q`.
unfoldable pub run : (ℕ → ℕ) → ℕ → ℕ → List ℕ
run f s zero = []
run f s (suc n) = f s ∷ run f (wrapping_add32 s 1) n

pub run_at : (f : ℕ → ℕ) (s s' n n' : ℕ) → s ≡ s' → n ≡ n' → run f s n ≡ run f s' n'
run_at f s s' n n' p q = rw (p, q)

pub length-run : (f : ℕ → ℕ) (s n : ℕ) → length (run f s n) ≡ n
unfolding run
length-run f s zero = refl
length-run f s (suc n) = ap suc (length-run f (wrapping_add32 s 1) n)

pub run-add :
    (f : ℕ → ℕ) (s j k : ℕ)
    → s < 2 ^ 32
    → run f s (j + k) ≡ run f s j ++ run f (wrapping_add32 s j) k
unfolding run
run-add f s zero k h = run_at f s (wrapping_add32 s 0) (0 + k) k (omega arith) (omega arith)
run-add f s (suc j) k h =
    run_at f s s (suc j + k) (suc (j + k)) refl (omega arith)
    ∙ ap (λ l. f s ∷ l)
        (run-add f (wrapping_add32 s 1) j k (omega arith)
          ∙ ap (λ l. run f (wrapping_add32 s 1) j ++ l)
              (run_at f (wrapping_add32 (wrapping_add32 s 1) j) (wrapping_add32 s (suc j)) k k
                (omega arith) refl))

pub take-run : (f : ℕ → ℕ) (s k n : ℕ) → take k (run f s n) ≡ run f s (min k n)
unfolding run
take-run f s zero n = run_at f s s 0 (min 0 n) refl (omega arith)
take-run f s (suc k) zero = run_at f s s 0 (min (suc k) 0) refl (omega arith)
take-run f s (suc k) (suc n) =
    ap (λ l. f s ∷ l) (take-run f (wrapping_add32 s 1) k n)
    ∙ run_at f s s (suc (min k n)) (min (suc k) (suc n)) refl (omega arith)

-- The bytes are those of the stream from `seq` on.
abbrev pub IsPiece : (ℕ → ℕ) → ℕ → List ℕ → Type 0
IsPiece f seq bytes = bytes ≡ run f seq (length bytes)

-- A slot that is in use holds a piece of the stream.
abbrev pub Holds : (ℕ → ℕ) → Bool → ℕ → List ℕ → Type 0
Holds f true seq bytes = IsPiece f seq bytes
Holds f false seq bytes = Unit {0}

abbrev pub AreHeld : (ℕ → ℕ) → List OooSegment → Type 0
AreHeld f l = All (λ s. Holds f s.valid s.seq s.bytes) l

-- Between two states of a connection, `count` bytes of the stream from `rcv_nxt` on went to the
-- end of the receive queue.
pub record Received (f : ℕ → ℕ) (c d : Tcb) : Type 0 where
  pub count : ℕ
  pub queue : contents d.rx_buffer ≡ contents c.rx_buffer ++ run f c.rcv_nxt count
  pub next : d.rcv_nxt ≡ wrapping_add32 c.rcv_nxt count
  pub ring : IsRing d.rx_buffer
  pub held : AreHeld f d.ooo_segments

-- How a slot comes to be ready.
data Ready (q : ℕ) (s : OooSegment) (segs : List OooSegment) (body : List ℕ)
    (rest : List OooSegment) : Type 0 where
  first :
      s.valid ≡ true
      → s.seq ≡ q
      → body ≡ s.bytes
      → rest ≡ record s { valid = false } ∷ segs
      → Ready q s segs body rest
  later :
      (rest' : List OooSegment)
      → take_ready q segs ≡ some (body, rest')
      → rest ≡ s ∷ rest'
      → Ready q s segs body rest

ready :
    (q : ℕ) (s : OooSegment) (segs : List OooSegment) (body : List ℕ) (rest : List OooSegment)
    → take_ready q (s ∷ segs) ≡ some (body, rest)
    → Ready q s segs body rest
unfolding take_ready
ready q s segs body rest e = elim (Bool-cases (s.valid && (s.seq == q))) [
  | inl here ↦ first (ground arith) (ground arith) (ground arith) (ground arith)
  | inr past ↦ elim (Option-cases (take_ready q segs)) [
    | inl failed ↦ absurd (ground arith)
    | inr (r, found) ↦ later r.1 (ground arith) (ground arith)
  ]
]

module _ (f : ℕ → ℕ) where
  pub Received-trans :
      (c d e : Tcb) → c.rcv_nxt < 2 ^ 32 → Received f c d → Received f d e → Received f c e
  Received-trans c d e h r s = record {
    count = r.count + s.count;
    queue =
        s.queue
        ∙ (ap (λ l. l ++ run f d.rcv_nxt s.count) r.queue
            ∙ (append_assoc (contents c.rx_buffer) (run f c.rcv_nxt r.count)
                  (run f d.rcv_nxt s.count)
                ∙ ap (λ l. contents c.rx_buffer ++ l)
                    (ap (λ q. run f c.rcv_nxt r.count ++ run f q s.count) r.next
                      ∙ sym (run-add f c.rcv_nxt r.count s.count h))));
    next = omega (arith, r.next, s.next);
    ring = s.ring;
    held = s.held;
  }

  pub Received-refl :
      (c d : Tcb)
      → c.rcv_nxt < 2 ^ 32
      → IsRing c.rx_buffer
      → d.rx_buffer ≡ c.rx_buffer
      → d.rcv_nxt ≡ c.rcv_nxt
      → AreHeld f d.ooo_segments
      → Received f c d
  Received-refl c d h v same next held = record {
    count = 0;
    queue = ap contents same ∙ (sym (append-nil (contents c.rx_buffer)) ∙ unfold run in refl);
    next = next ∙ omega arith;
    ring = rw same v;
    held = held;
  }

  -- What a write of a piece to the queue does.
  written :
      (c : Tcb) (body : List ℕ)
      → IsRing c.rx_buffer
      → IsPiece f c.rcv_nxt body
      → contents (Ring.write body c.rx_buffer).1
        ≡ contents c.rx_buffer ++ run f c.rcv_nxt (Ring.write body c.rx_buffer).0
  written c body v p =
      let w = write_lem body c.rx_buffer v in
      let space = rx_buffer_size - c.rx_buffer.len in
      w.1
      ∙ ap (λ l. contents c.rx_buffer ++ l)
          (ap (λ l. take space l) p
            ∙ (take-run f c.rcv_nxt space (length body)
                ∙ run_at f c.rcv_nxt c.rcv_nxt (min space (length body))
                    (Ring.write body c.rx_buffer).0 refl (omega (arith, w.0))))

  Received-deliver_one :
      (c : Tcb) (body : List ℕ) (segs : List OooSegment)
      → IsRing c.rx_buffer
      → IsPiece f c.rcv_nxt body
      → AreHeld f segs
      → Received f c (deliver_one body segs c)
  unfolding deliver_one
  Received-deliver_one c body segs v p held = record {
    count = (Ring.write body c.rx_buffer).0;
    queue = written c body v p;
    next = refl;
    ring = (write_lem body c.rx_buffer v).2;
    held = held;
  }

  Received-store_data :
      (c : Tcb) (body : List ℕ)
      → IsRing c.rx_buffer
      → IsPiece f c.rcv_nxt body
      → AreHeld f c.ooo_segments
      → Received f c (store_data c body)
  unfolding store_data update_rcv_wnd
  Received-store_data c body v p held = record {
    count = (Ring.write body c.rx_buffer).0;
    queue = written c body v p;
    next = refl;
    ring = (write_lem body c.rx_buffer v).2;
    held = held;
  }

  -- What is ready is a piece that comes next, and the other slots hold what they held.
  take_ready-AreHeld :
      (q : ℕ) (segs : List OooSegment) (body : List ℕ) (rest : List OooSegment)
      → AreHeld f segs
      → take_ready q segs ≡ some (body, rest)
      → IsPiece f q body × AreHeld f rest
  take_ready-AreHeld q [] body rest held e = unfold take_ready in cc
  take_ready-AreHeld q (s ∷ segs) body rest held e = elim (ready q s segs body rest e) [
    | first used at same left ↦
        rw (same, left, ← at) (subst (λ b. Holds f b s.seq s.bytes) used held.0, (tt, held.1))
    | later rest' found left ↦
        let r = take_ready-AreHeld q segs body rest' held.1 found in rw left (r.0, (held.0, r.1))
  ]

  Received-deliver_loop :
      (fuel : ℕ) (c : Tcb)
      → c.rcv_nxt < 2 ^ 32
      → IsRing c.rx_buffer
      → AreHeld f c.ooo_segments
      → Received f c (deliver_loop fuel c)
  unfolding deliver_loop
  Received-deliver_loop zero c h v held = Received-refl c c h v refl refl held
  Received-deliver_loop (suc fuel) c h v held =
      elim (Option-cases (take_ready c.rcv_nxt c.ooo_segments)) [
        | inl done ↦ rw (done, deliver_loop) (Received-refl c c h v refl refl held)
        | inr (r, more) ↦
            let piece = take_ready-AreHeld c.rcv_nxt c.ooo_segments r.0 r.1 held more in
            let one = Received-deliver_one c r.0 r.1 v piece.0 piece.1 in
            let d = deliver_one r.0 r.1 c in
            rw (more, deliver_loop)
              (Received-trans c d (deliver_loop fuel d) h one
                (Received-deliver_loop fuel d (omega (arith, one.next)) one.ring one.held))
      ]

  Received-accept_data :
      (c : Tcb) (body : List ℕ)
      → c.rcv_nxt < 2 ^ 32
      → IsRing c.rx_buffer
      → IsPiece f c.rcv_nxt body
      → AreHeld f c.ooo_segments
      → Received f c (accept_data c body)
  unfolding accept_data deliver_ooo_segments
  Received-accept_data c body h v p held =
      let one = Received-store_data c body v p held in
      let d = store_data c body in
      Received-trans c d (deliver_loop (length d.ooo_segments) d) h one (
        Received-deliver_loop (length d.ooo_segments) d (omega (arith, one.next)) one.ring one.held)

  -- A segment that is put aside is cut to the size of a slot.
  put_ooo-AreHeld :
      (seq : ℕ) (body : List ℕ) (segs : List OooSegment)
      → IsPiece f seq body
      → AreHeld f segs
      → AreHeld f (put_ooo seq body segs)
  unfolding put_ooo
  put_ooo-AreHeld seq body [] p held = tt
  put_ooo-AreHeld seq body (s ∷ segs) p held = elim (Bool-cases s.valid) [
    | inl used ↦
        simp used
          (subst (λ b. Holds f b s.seq s.bytes) used held.0, put_ooo-AreHeld seq body segs p held.1)
    | inr empty ↦ simp empty (cut, held.1)
  ]
    where
      k : ℕ
      k = min (length body) ooo_data_size

      cut : IsPiece f seq (take k body)
      cut =
          ap (λ l. take k l) p
          ∙ (take-run f seq k (length body)
              ∙ run_at f seq seq (min k (length body)) (length (take k body)) refl
                  (omega (arith, length-take k body)))

-- When the payload and every segment that was put aside are pieces of the sender's stream at their
-- sequence numbers, process_data, in a connection with a sound receive queue and a 32-bit rcv_nxt,
-- appends to the receive queue exactly the next bytes of the stream, advances rcv_nxt by their
-- number modulo 2^32, and leaves only pieces of the stream put aside.
pub process_data-Received :
    (f : ℕ → ℕ) (env : Env) (c : Tcb) (h : TcpHeader) (input : List ℕ) (sent : Sent)
    → c.rcv_nxt < 2 ^ 32
    → IsRing c.rx_buffer
    → AreHeld f c.ooo_segments
    → IsPiece f h.seq_num (payload h input)
    → Received f c (process_data env c h input sent).0
unfolding process_data
process_data-Received f env c h input sent small v held p =
    elim (Bool-cases (length (payload h input) == 0)) [
      | inl none_left ↦ rw none_left (Received-refl f c c small v refl refl held)
      | inr some_left ↦ elim (Bool-cases (h.seq_num == c.rcv_nxt)) [
        | inl in_order ↦
            rw (some_left, in_order)
              (Received-accept_data f c (payload h input) small v
                (subst (λ q. IsPiece f q (payload h input)) ((==_iff _ _).0 in_order) p) held)
        | inr not_next ↦ elim (Bool-cases (seq_after h.seq_num c.rcv_nxt)) [
          | inl early ↦
              rw (some_left, not_next, early)
                (Received-refl f c (buffer_ooo_segment c h.seq_num (payload h input)) small v
                  (unfold buffer_ooo_segment in refl) (unfold buffer_ooo_segment in refl)
                  (unfold buffer_ooo_segment in
                    put_ooo-AreHeld f h.seq_num (payload h input) c.ooo_segments p held))
          | inr old ↦ rw (some_left, not_next, old) (Received-refl f c c small v refl refl held)
        ]
      ]
    ]
