-- ===== src/Packet/Reader/Arms.antt =====
-- The arms of `MQTTRead::read` lose no byte, and hand on whole packets.
use mymq.Base.{
  ℕ, take-append-drop, eqb→eq, ltb→lt, ◌+◌, ◌-◌, ◌≤◌, Bool, true, false, List, [], ◌∷◌, ◌++◌,
  length, take, drop, ltb, leb, ◌==◌, ◌≡◌, refl, sym, ◌∙◌, arith, Bool-cases, inl, inr,
  append_assoc, append-nil, length-append, take-append, length-take, length-drop,
}
use mymq.Error.{Result, ok, err, panic}
use mymq.Types.VarU32
use mymq.Types.VarU32.Prefix.{decode_returns}
use mymq.V5.Header.{FixedHeader}
use mymq.Packet.Socket.{
  Arrival, Answer, got, was_interrupted, would_block, was_failed, sock_read, pending,
}
use mymq.Packet.Reader.{
  MqttRead, init, header, remain, fin, none_read, check_packet_limit, has_last, first_byte,
  pre_read, init_arm, header_arm, store, remain_arm, arms, after_pre_read, read,
}
use mymq.Packet.Reader.Framing.{
  IsRead, held, Keeps, Begins-append, answer_bytes, sock_read_lem, Begins-take, either-Keeps,
}

-- An arm keeps the bytes it held, those of the answer, and those that stay in the socket.
init_arm-Keeps :
    (buf : List ℕ) (max_size : ℕ) (answer : Answer) (rest : List Arrival)
    → Keeps (buf ++ (answer_bytes answer ++ pending rest)) (init_arm buf max_size answer) rest
unfolding Keeps init_arm IsRead held
init_arm-Keeps buf max_size (got []) rest = tt
init_arm-Keeps [] max_size (got (b ∷ bs)) rest =
    either-Keeps (has_last bs) b bs max_size ((b ∷ bs) ++ pending rest) rest refl
init_arm-Keeps (c ∷ buf) max_size (got (b ∷ bs)) rest =
    either-Keeps (has_last (buf ++ (b ∷ bs))) c (buf ++ (b ∷ bs)) max_size
      ((c ∷ buf) ++ ((b ∷ bs) ++ pending rest)) rest
      (append_assoc (c ∷ buf) (b ∷ bs) (pending rest))
init_arm-Keeps buf max_size was_interrupted rest = (tt, refl)
init_arm-Keeps buf max_size would_block rest = (tt, refl)
init_arm-Keeps buf max_size was_failed rest = tt

header_arm-Keeps :
    (byte1 : ℕ) (tail : List ℕ) (max_size : ℕ) (answer : Answer) (rest : List Arrival)
    → Keeps
        ((byte1 ∷ tail) ++ (answer_bytes answer ++ pending rest))
        (header_arm byte1 (byte1 ∷ tail) max_size answer)
        rest
unfolding Keeps header_arm IsRead held
header_arm-Keeps byte1 tail max_size (got []) rest = tt
header_arm-Keeps byte1 tail max_size (got (b ∷ bs)) rest =
    either-Keeps (has_last (tail ++ (b ∷ bs))) byte1 (tail ++ (b ∷ bs)) max_size
      ((byte1 ∷ tail) ++ ((b ∷ bs) ++ pending rest)) rest
      (append_assoc (byte1 ∷ tail) (b ∷ bs) (pending rest))
header_arm-Keeps byte1 tail max_size was_interrupted rest = ((tail, refl), refl)
header_arm-Keeps byte1 tail max_size would_block rest = ((tail, refl), refl)
header_arm-Keeps byte1 tail max_size was_failed rest = tt

take_front : (n : ℕ) (xs ys : List ℕ) → length xs ≡ n → take n (xs ++ ys) ≡ xs
take_front n xs ys e = rw (← e) (take-append xs ys)

-- What `store` leaves: the front with the new bytes behind it, and a buffer as long as before.
take-store :
    (buf : List ℕ) (start : ℕ) (bs : List ℕ)
    → start + length bs ≤ length buf
    → (take (start + length bs) (store buf start bs) ≡ take start buf ++ bs)
      × (length (store buf start bs) ≡ length buf)
unfolding store
take-store buf start bs h =
    let front = take start buf ++ bs in
    let back = drop (start + length bs) buf in
    let size : length front ≡ start + length bs =
      omega (arith, length-append (take start buf) bs, length-take start buf) in
    let whole : take start buf ++ (bs ++ back) ≡ front ++ back =
      sym (append_assoc (take start buf) bs back) in
    (
      rw whole (take_front (start + length bs) front back size),
      rw whole (omega (arith, length-append front back, length-drop (start + length bs) buf)),
    )

store_full :
    (buf : List ℕ) (start : ℕ) (bs : List ℕ)
    → start + length bs ≡ length buf
    → store buf start bs ≡ take start buf ++ bs
store_full buf start bs e =
    let (front, size) = take-store buf start bs (omega arith) in
    let all : take (length (store buf start bs)) (store buf start bs) ≡ store buf start bs =
      rw append-nil at (take-append (store buf start bs) []) in
    sym all ∙ rw (size, ← e) front

remain_arm-Keeps :
    (buf : List ℕ) (start : ℕ) (fh : FixedHeader) (max_size : ℕ) (answer : Answer)
    (rest : List Arrival)
    → IsRead (remain buf start fh max_size)
    → length (answer_bytes answer) ≤ length buf - start
    → Keeps
        (take start buf ++ (answer_bytes answer ++ pending rest))
        (remain_arm buf start fh max_size answer)
        rest
unfolding Keeps remain_arm IsRead held
remain_arm-Keeps buf start fh max_size (got []) rest h fit = tt
remain_arm-Keeps buf start fh max_size (got (b ∷ bs)) rest h fit =
    elim (Bool-cases (start + length (b ∷ bs) == length buf)) [
      | inl e ↦
          let full = store_full buf start (b ∷ bs) (eqb→eq _ _ e) in
          let same : length (take start buf ++ (b ∷ bs)) ≡ length buf =
            omega (
              arith,
              length-append (take start buf) (b ∷ bs),
              length-take start buf,
              eqb→eq _ _ e,
            ) in
          rw (e, full, append-nil, same)
            (
              (h.1, Begins-append fh (take start buf) (b ∷ bs) (length buf) h.2),
              append_assoc (take start buf) (b ∷ bs) (pending rest),
            )
      | inr ne ↦
          let less : ltb (start + length (b ∷ bs)) (length buf) ≡ true = ground arith in
          let (front, size) = take-store buf start (b ∷ bs) (ground arith) in
          rw (ne, less)
            (
              (
                rw size (ltb→lt _ _ less),
                rw size h.1,
                rw (front, size) (Begins-append fh (take start buf) (b ∷ bs) (length buf) h.2),
              ),
              rw front (append_assoc (take start buf) (b ∷ bs) (pending rest)),
            )
    ]
remain_arm-Keeps buf start fh max_size was_interrupted rest h fit = (h, refl)
remain_arm-Keeps buf start fh max_size would_block rest h fit = (h, refl)
remain_arm-Keeps buf start fh max_size was_failed rest h fit = tt

-- `pre_read` keeps what is held.
Pre : MqttRead → Result (MqttRead × Bool) → Type 0
unfolding IsRead held
Pre self (ok (val, done)) = IsRead val × (held val ≡ held self)
Pre self (err e) = Unit
Pre self panic = ⊥

pre_read-Pre : (self : MqttRead) → IsRead self → Pre self (pre_read self)
unfolding Pre pre_read check_packet_limit IsRead held first_byte
pre_read-Pre (init [] max_size) h = (tt, refl)
pre_read-Pre (init (c ∷ tail) max_size) h = elim (Bool-cases (ltb 1 (length (c ∷ tail)))) [
  | inl long ↦ go long (VarU32.decode tail) refl
  | inr short ↦ rw short (tt, refl)
]
  where
    go :
        ltb 1 (length (c ∷ tail)) ≡ true
        → (r : Result (ℕ × ℕ)) → VarU32.decode tail ≡ r
        → Pre (init (c ∷ tail) max_size) (pre_read (init (c ∷ tail) max_size))
    go long panic e = absurd (decode_returns tail e)
    go long (err f) e = rw (long, e) (tt, refl)
    go long (ok (rl, n)) e = elim (Bool-cases (ltb max_size (1 + n + rl))) [
      | inl big ↦ rw (long, e, big) tt
      | inr fits ↦ elim (Bool-cases (leb (1 + n + rl) (length (c ∷ tail)))) [
        | inl whole ↦
            let bound : 1 + n + rl ≤ max_size = ground arith in
            let inside : 1 + n + rl ≤ length (c ∷ tail) = ground arith in
            rw (long, e, fits, whole)
              (
                (
                  omega (arith, length-take (1 + n + rl) (c ∷ tail)),
                  Begins-take c tail rl n e inside,
                ),
                take-append-drop (1 + n + rl) (c ∷ tail),
              )
        | inr part ↦ rw (long, e, fits, part) (tt, refl)
      ]
    ]
pre_read-Pre (header byte1 buf max_size) h = (h, refl)
pre_read-Pre (remain buf start fh max_size) h = (h, refl)
pre_read-Pre (fin buf rem fh max_size) h = (h, refl)
pre_read-Pre none_read h = absurd h

arms-Keeps :
    (self : MqttRead) (sock : List Arrival)
    → IsRead self
    → Keeps (held self ++ pending sock) (arms self sock).0 (arms self sock).1
unfolding arms IsRead held
arms-Keeps (init buf max_size) sock h =
    rw (← (sock_read_lem 5 sock).0)
      (init_arm-Keeps buf max_size (sock_read 5 sock).0 (sock_read 5 sock).1)
arms-Keeps (header byte1 buf max_size) sock (tail, e) =
    rw (e, ← (sock_read_lem 5 sock).0)
      (header_arm-Keeps byte1 tail max_size (sock_read 5 sock).0 (sock_read 5 sock).1)
arms-Keeps (remain buf start fh max_size) sock h =
    let space = length buf - start in
    rw (← (sock_read_lem space sock).0) (
      remain_arm-Keeps buf start fh max_size (sock_read space sock).0 (sock_read space sock).1 h
        (sock_read_lem space sock).1)
arms-Keeps (fin buf rem fh max_size) sock h = unfold Keeps in (h, refl)
arms-Keeps none_read sock h = absurd h

after_pre_read-Keeps :
    (self : MqttRead) (sock : List Arrival) (r : Result (MqttRead × Bool))
    → Pre self r
    → Keeps (held self ++ pending sock) (after_pre_read sock r).0 (after_pre_read sock r).1
unfolding after_pre_read Pre
after_pre_read-Keeps self sock panic p = absurd p
after_pre_read-Keeps self sock (err f) p = unfold Keeps in tt
after_pre_read-Keeps self sock (ok (val, true)) p = unfold Keeps in (p.0, rw p.1)
after_pre_read-Keeps self sock (ok (val, false)) p = rw (← p.1) (arms-Keeps val sock p.0)

-- From a state of the machine, `read` does not panic. It ends in an error, or in a state whose
-- packet, if it has one whole, is as long as its header says and within the limit; the bytes held
-- and those still in the socket are, in their order, those from before.
pub read-Keeps :
    (self : MqttRead) (sock : List Arrival)
    → IsRead self
    → Keeps (held self ++ pending sock) (read self sock).0 (read self sock).1
unfolding read
read-Keeps self sock h = after_pre_read-Keeps self sock (pre_read self) (pre_read-Pre self h)
