-- ===== src/Packet/Reader/Rounds.antt =====
-- A connection reads again and again; each packet that is whole is taken off, and `reset` goes on
-- with the bytes behind it.
use mymq.Base.{
  ℕ, zero, suc, Bool, List, [], ◌∷◌, ◌++◌, length, ◌≡◌, refl, sym, ◌∙◌, append_assoc, All,
  All-append,
}
use mymq.Error.{Result, ok, err, panic, ◌>>=◌}
use mymq.V5.Header.{FixedHeader}
use mymq.Packet.Socket.{Arrival, pending}
use mymq.Packet.Reader.{MqttRead, init, header, remain, fin, none_read, read, reset}
use mymq.Packet.Reader.Framing.{Begins, IsRead, held, Keeps}
use mymq.Packet.Reader.Arms.{read-Keeps}

abbrev pub Packets : Type 0
Packets = List (FixedHeader × List ℕ)

-- The bytes of the packets, one behind the other.
unfoldable pub joined : Packets → List ℕ
joined [] = []
joined ((fh, buf) ∷ packets) = buf ++ joined packets

-- What one round hands on: the packet if there is one, and the state to go on with.
unfoldable pub take_off : MqttRead → Result (Packets × MqttRead)
unfolding reset
take_off (fin buf rem fh max_size) = do
  next ← reset (fin buf rem fh max_size)
  ok ((fh, buf) ∷ [], next)
take_off val = ok ([], val)

unfoldable pub rounds : ℕ → MqttRead → List Arrival → Result (Packets × MqttRead × List Arrival)
unfolding take_off read
rounds zero self sock = ok ([], self, sock)
rounds (suc n) self sock = do
  (val, would) ← (read self sock).0
  (now, next) ← take_off val
  (later, end, rest) ← rounds n next (read self sock).1
  ok (now ++ later, end, rest)

abbrev pub IsPacket : FixedHeader × List ℕ → Type 0
IsPacket (fh, buf) = Begins fh buf (length buf)

pub joined-append : (ps qs : Packets) → joined (ps ++ qs) ≡ joined ps ++ joined qs
unfolding joined
joined-append [] qs = refl
joined-append ((fh, buf) ∷ ps) qs =
    rw (joined-append ps qs) (sym (append_assoc buf (joined ps) (joined qs)))

TakesOff : MqttRead → Result (Packets × MqttRead) → Type 0
TakesOff val (ok (now, next)) =
    All IsPacket now × IsRead next × (joined now ++ held next ≡ held val)
TakesOff val (err e) = ⊥
TakesOff val panic = ⊥

take_off-TakesOff : (val : MqttRead) → IsRead val → TakesOff val (take_off val)
unfolding TakesOff take_off reset IsRead held joined
take_off-TakesOff (init buf max_size) h = (tt, h, refl)
take_off-TakesOff (header byte1 buf max_size) h = (tt, h, refl)
take_off-TakesOff (remain buf start fh max_size) h = (tt, h, refl)
take_off-TakesOff (fin buf rem fh max_size) h = ((h.1, tt), tt, append_assoc buf [] rem)
take_off-TakesOff none_read h = absurd h

-- The packets, the bytes held and those still in the socket make up `whole`, in this order.
unfoldable pub Kept : List ℕ → Result (Packets × MqttRead × List Arrival) → Type 0
Kept whole (ok (packets, end, rest)) =
    All IsPacket packets × IsRead end × (joined packets ++ (held end ++ pending rest) ≡ whole)
Kept whole (err e) = Unit
Kept whole panic = ⊥

-- The rounds that follow, put behind the first.
Kept-append :
    (now : Packets) (before whole : List ℕ) (r : Result (Packets × MqttRead × List Arrival))
    → All IsPacket now
    → joined now ++ before ≡ whole
    → Kept before r
    → Kept whole (r >>= λ (later, end, rest). ok (now ++ later, end, rest))
unfolding Kept
Kept-append now before whole (ok (later, end, rest)) al e h = (
  All-append IsPacket now later al h.0,
  h.1,
  rw (joined-append now later)
      (append_assoc (joined now) (joined later) (held end ++ pending rest) ∙ rw h.2 e),
)
Kept-append now before whole (err f) al e h = tt
Kept-append now before whole panic al e h = absurd h

taken_step :
    (n : ℕ) (whole : List ℕ) (rest : List Arrival) (val : MqttRead)
    (r : Result (Packets × MqttRead))
    → TakesOff val r
    → held val ++ pending rest ≡ whole
    → ((self : MqttRead) → IsRead self → Kept (held self ++ pending rest) (rounds n self rest))
    → Kept whole (
        r >>= λ (now, next).
        rounds n next rest >>= λ (later, end, left). ok (now ++ later, end, left))
unfolding TakesOff
taken_step n whole rest val (ok (now, next)) h e go_on =
    Kept-append now (held next ++ pending rest) whole (rounds n next rest) h.0
      (sym (append_assoc (joined now) (held next) (pending rest)) ∙ rw h.2 e) (go_on next h.1)
taken_step n whole rest val (err f) h e go_on = absurd h
taken_step n whole rest val panic h e go_on = absurd h

-- One round and what follows it.
round_step :
    (n : ℕ) (whole : List ℕ) (rest : List Arrival) (r : Result (MqttRead × Bool))
    → Keeps whole r rest
    → ((self : MqttRead) → IsRead self → Kept (held self ++ pending rest) (rounds n self rest))
    → Kept whole (
        r >>= λ (val, would). take_off val >>= λ (now, next).
        rounds n next rest >>= λ (later, end, left). ok (now ++ later, end, left))
round_step n whole rest (ok (val, would)) h go_on =
    let kept : IsRead val × (held val ++ pending rest ≡ whole) = unfold Keeps in h in
    taken_step n whole rest val (take_off val) (take_off-TakesOff val kept.0) kept.1 go_on
round_step n whole rest (err e) h go_on = unfold Kept in tt
round_step n whole rest panic h go_on = unfold Keeps in absurd h

-- However often a connection reads, it does not panic, and until an error ends it the packets that
-- it took off, each as long as its header says, the bytes held and those still in the socket are,
-- one behind the other, the bytes that were held and in the socket at first.
pub rounds-Kept :
    (n : ℕ) (self : MqttRead) (sock : List Arrival)
    → IsRead self
    → Kept (held self ++ pending sock) (rounds n self sock)
unfolding rounds
rounds-Kept zero self sock h = unfold Kept joined in (tt, h, refl)
rounds-Kept (suc n) self sock h =
    round_step n (held self ++ pending sock) (read self sock).1 (read self sock).0
      (read-Keeps self sock h) (λ next h'. rounds-Kept n next (read self sock).1 h')
