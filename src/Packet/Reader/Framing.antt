-- ===== src/Packet/Reader/Framing.antt =====
-- What `MQTTRead` keeps: the bytes it holds, and a packet of the length that its header says.
use mymq.Base.{
  ℕ, suc, take-append-drop, ◌+◌, ◌-◌, ◌≤◌, ◌<◌, Bool, true, false, List, [], ◌∷◌, ◌++◌, length,
  take, drop, replicate, ltb, leb, if◌then◌else◌, ◌≡◌, refl, sym, ◌∙◌, arith, Bool-cases, inl, inr,
  append_assoc, length-append, take-append, length-take, length-replicate,
}
use mymq.Error.{Result, ok, err, panic, ◌>>=◌}
use mymq.Types.VarU32
use mymq.Types.VarU32.Prefix.{decode_prefix, decode_cut, decode_returns}
use mymq.V5.Header.{FixedHeader}
use mymq.Packet.Socket.{
  Arrival, bytes, closed, interrupted, failed, Answer, got, sock_read, pending,
}
use mymq.Packet.Reader.{MqttRead, init, header, remain, fin, none_read, check_packet_limit, framed}

-- The bytes begin with the header, and `total` is the length of the packet by that header.
pub record Begins (fh : FixedHeader) (front : List ℕ) (total : ℕ) : Type 0 where
  pub tail : List ℕ
  pub taken : ℕ
  pub starts : front ≡ fh.byte1 ∷ tail
  pub reads : VarU32.decode tail ≡ ok (fh.remaining_len, taken)
  pub size : total ≡ 1 + taken + fh.remaining_len

-- The states that `read` reaches.
unfoldable pub IsRead : MqttRead → Type 0
IsRead (init buf max_size) = Unit
IsRead (header byte1 buf max_size) = (tail : List ℕ) × (buf ≡ byte1 ∷ tail)
IsRead (remain buf start fh max_size) =
    (start < length buf) × (length buf ≤ max_size) × Begins fh (take start buf) (length buf)
IsRead (fin buf rem fh max_size) = (length buf ≤ max_size) × Begins fh buf (length buf)
IsRead none_read = ⊥

-- The bytes that have been read and not been handed on.
unfoldable pub held : MqttRead → List ℕ
held (init buf max_size) = buf
held (header byte1 buf max_size) = buf
held (remain buf start fh max_size) = take start buf
held (fin buf rem fh max_size) = buf ++ rem
held none_read = []

-- An outcome that keeps `whole`, the bytes held and those still to come. Errors end the connection.
unfoldable pub Keeps : List ℕ → Result (MqttRead × Bool) → List Arrival → Type 0
unfolding IsRead held
Keeps whole (ok (val, would)) rest = IsRead val × (held val ++ pending rest ≡ whole)
Keeps whole (err e) rest = Unit
Keeps whole panic rest = ⊥

pub Begins-append :
    (fh : FixedHeader) (front more : List ℕ) (total : ℕ)
    → Begins fh front total
    → Begins fh (front ++ more) total
Begins-append fh front more total b = record {
  tail = b.tail ++ more;
  taken = b.taken;
  starts = rw b.starts;
  reads = (decode_prefix b.tail more fh.remaining_len b.taken b.reads).2;
  size = b.size;
}

-- What the socket answers, and what stays.
abbrev pub answer_bytes : Answer → List ℕ
answer_bytes (got bs) = bs
answer_bytes _ = []

pub sock_read_lem :
    (size : ℕ) (sock : List Arrival)
    → let (answer, rest) = sock_read size sock in
      (answer_bytes answer ++ pending rest ≡ pending sock) × (length (answer_bytes answer) ≤ size)
unfolding sock_read pending
sock_read_lem size [] = (refl, omega arith)
sock_read_lem size (bytes bs ∷ rest) = elim (Bool-cases (leb (length bs) size)) [
  | inl e ↦ rw e (refl, ground arith)
  | inr e ↦ rw e (
    sym (append_assoc (take size bs) (drop size bs) (pending rest)) ∙ rw (take-append-drop size bs),
    omega (arith, length-take size bs),
  )
]
sock_read_lem size (closed ∷ rest) = (refl, omega arith)
sock_read_lem size (interrupted ∷ rest) = (refl, omega arith)
sock_read_lem size (failed ∷ rest) = (refl, omega arith)

-- What `framed` returns of a buffer that begins with `byte1`.
Cut : List ℕ → Result MqttRead → Type 0
unfolding IsRead held
Cut buf (ok next) = IsRead next × (held next ≡ buf)
Cut buf (err e) = Unit
Cut buf panic = ⊥

pub Begins-take :
    (byte1 : ℕ) (tail : List ℕ) (rl n : ℕ)
    → VarU32.decode tail ≡ ok (rl, n)
    → 1 + n + rl ≤ length (byte1 ∷ tail)
    → let front = take (1 + n + rl) (byte1 ∷ tail) in
      Begins (record { byte1 = byte1; remaining_len = rl }) front (length front)
Begins-take byte1 tail rl n e h =
    let step : 1 + n + rl ≡ suc (n + rl) = omega arith in
    record {
      tail = take (n + rl) tail;
      taken = n;
      starts = rw step;
      reads = decode_cut tail (n + rl) rl n e (omega arith);
      size = omega (arith, length-take (1 + n + rl) (byte1 ∷ tail));
    }

framed-Cut :
    (byte1 : ℕ) (tail : List ℕ) (max_size : ℕ)
    → Cut (byte1 ∷ tail) (framed byte1 (byte1 ∷ tail) max_size)
unfolding Cut framed check_packet_limit IsRead held
framed-Cut byte1 tail max_size = go (VarU32.decode tail) refl
  where
    buf : List ℕ
    buf = byte1 ∷ tail

    go :
        (r : Result (ℕ × ℕ))
        → VarU32.decode tail ≡ r
        → Cut (byte1 ∷ tail) (framed byte1 (byte1 ∷ tail) max_size)
    go panic e = absurd (decode_returns tail e)
    go (err f) e = rw e tt
    go (ok (rl, n)) e = elim (Bool-cases (ltb max_size (1 + n + rl))) [
      | inl big ↦ rw (e, big) tt
      | inr fits ↦ elim (Bool-cases (leb (1 + n + rl) (length (byte1 ∷ tail)))) [
        | inl whole ↦
            let bound : 1 + n + rl ≤ max_size = ground arith in
            let inside : 1 + n + rl ≤ length (byte1 ∷ tail) = ground arith in
            rw (e, fits, whole)
              (
                (
                  omega (arith, length-take (1 + n + rl) (byte1 ∷ tail)),
                  Begins-take byte1 tail rl n e inside,
                ),
                take-append-drop (1 + n + rl) (byte1 ∷ tail),
              )
        | inr part ↦
            let bound : 1 + n + rl ≤ max_size = ground arith in
            let beyond : length (byte1 ∷ tail) < 1 + n + rl = ground arith in
            let zeros : List ℕ = replicate (1 + n + rl - suc (length tail)) 0 in
            let total : suc (length (tail ++ zeros)) ≡ 1 + n + rl = omega (
              arith,
              length-append tail zeros,
              length-replicate {A = ℕ} (1 + n + rl - suc (length tail)) 0,
            ) in
            rw (e, fits, part)
              (
                (
                  omega (arith),
                  omega (arith),
                  record {
                    tail = tail;
                    taken = n;
                    starts = rw (take-append tail zeros);
                    reads = e;
                    size = total;
                  },
                ),
                rw (take-append tail zeros),
              )
      ]
    ]

Cut-Keeps :
    (buf whole : List ℕ) (rest : List Arrival) (r : Result MqttRead)
    → Cut buf r
    → buf ++ pending rest ≡ whole
    → Keeps whole (r >>= λ next. ok (next, false)) rest
unfolding Cut Keeps
Cut-Keeps buf whole rest (ok next) h e = (h.0, rw h.1 e)
Cut-Keeps buf whole rest (err f) h e = tt
Cut-Keeps buf whole rest panic h e = absurd h

-- Whether the length is there or not.
pub either-Keeps :
    (b : Bool) (byte1 : ℕ) (tail : List ℕ) (max_size : ℕ) (whole : List ℕ) (rest : List Arrival)
    → (byte1 ∷ tail) ++ pending rest ≡ whole
    → Keeps whole
        (if b
          then (framed byte1 (byte1 ∷ tail) max_size >>= λ next. ok (next, false))
          else ok (header byte1 (byte1 ∷ tail) max_size, false))
        rest
either-Keeps true byte1 tail max_size whole rest e =
    Cut-Keeps (byte1 ∷ tail) whole rest (framed byte1 (byte1 ∷ tail) max_size)
      (framed-Cut byte1 tail max_size) e
either-Keeps false byte1 tail max_size whole rest e = unfold Keeps IsRead held in ((tail, refl), e)
