-- ===== src/Packet/Writer/Delivery.antt =====
-- `MQTTWrite` puts the bytes of its packet on the socket, each once and in their order.
use mymq.Base.{
  ℕ, zero, suc, ◌+◌, ◌≤◌, min, Bool, true, List, [], ◌∷◌, ◌++◌, length, take, drop, ltb, ◌==◌,
  if◌then◌else◌, ◌≡◌, refl, sym, arith, Bool-cases, inl, inr, eqb→eq, take-append-drop, length-drop,
  append-nil,
}
use mymq.Error.{Result, ok, err, panic}
use mymq.Packet.Socket.{Room, accepts, write_interrupted, write_failed, wrote, sock_write}
use mymq.Packet.Writer.{MqttWrite, init, remain, fin, none_write, init_sent, remain_sent, write}

-- The bytes that are still to go; a packet above the limit is left out.
unfoldable pub unsent : MqttWrite → List ℕ
unsent (init buf max_size) = if ltb max_size (length buf) then [] else buf
unsent (remain buf start max_size) = drop start buf
unsent (fin buf max_size) = []
unsent none_write = []

unfoldable pub IsWrite : MqttWrite → Type 0
IsWrite (init buf max_size) = Unit
IsWrite (remain buf start max_size) = start ≤ length buf
IsWrite (fin buf max_size) = Unit
IsWrite none_write = ⊥

-- An outcome under which `out` and what is still to go are `whole`.
unfoldable pub Puts : List ℕ → Result (MqttWrite × Bool) → List ℕ → Type 0
unfolding unsent IsWrite
Puts whole (ok (val, would)) out = IsWrite val × (out ++ unsent val ≡ whole)
Puts whole (err e) out = Unit
Puts whole panic out = ⊥

drop_more : (m n : ℕ) (xs : List ℕ) → drop (m + n) xs ≡ drop n (drop m xs)
drop_more zero n xs = let e : 0 + n ≡ n = omega arith in rw e
drop_more (suc m) n [] = let e : suc m + n ≡ suc (m + n) = omega arith in rw e (sym (drop_nil n))
  where
    drop_nil : (n : ℕ) → drop {A = ℕ} n [] ≡ []
    drop_nil zero = refl
    drop_nil (suc n) = refl
drop_more (suc m) n (x ∷ xs) =
    let e : suc m + n ≡ suc (m + n) = omega arith in rw e (drop_more m n xs)

take_all : (k : ℕ) (xs : List ℕ) → k ≡ length xs → take k xs ++ [] ≡ xs
take_all k xs e = rw (append-nil, e) (go xs)
  where
    go : (xs : List ℕ) → take (length xs) xs ≡ xs
    go [] = refl
    go (x ∷ xs) = rw (go xs)

remain_sent-Puts :
    (buf : List ℕ) (start max_size k : ℕ)
    → start ≤ length buf
    → k ≤ length (drop start buf)
    → Puts (drop start buf) (remain_sent buf start max_size (wrote k)) (take k (drop start buf))
unfolding Puts remain_sent
remain_sent-Puts buf start max_size k h fit = elim (Bool-cases (k == 0)) [
  | inl z ↦ rw z tt
  | inr nz ↦ elim (Bool-cases (start + k == length buf)) [
    | inl full ↦
        let size : k ≡ length (drop start buf) =
          omega (arith, length-drop start buf, eqb→eq _ _ full) in
        rw (nz, full) (tt, take_all k (drop start buf) size)
    | inr part ↦
        let inside : start + k ≤ length buf = omega (arith, length-drop start buf) in
        let less : ltb (start + k) (length buf) ≡ true = ground arith in
        rw (nz, part, less)
          (inside, rw (drop_more start k buf) (take-append-drop k (drop start buf)))
  ]
]

init_sent-Puts :
    (buf : List ℕ) (max_size k : ℕ)
    → k ≤ length buf
    → Puts buf (init_sent buf max_size (wrote k)) (take k buf)
unfolding Puts init_sent
init_sent-Puts buf max_size k fit = elim (Bool-cases (k == 0)) [
  | inl z ↦ rw z tt
  | inr nz ↦ elim (Bool-cases (k == length buf)) [
    | inl full ↦ rw (nz, full) (tt, take_all k buf (eqb→eq _ _ full))
    | inr part ↦
        let less : ltb k (length buf) ≡ true = ground arith in
        rw (nz, part, less) (fit, take-append-drop k buf)
  ]
]

init_arm-Puts :
    (buf : List ℕ) (max_size : ℕ) (sock : List Room)
    → let (sent, out, rest) = sock_write buf sock in Puts buf (init_sent buf max_size sent) out
unfolding sock_write
init_arm-Puts buf max_size [] = unfold Puts init_sent in (omega arith, refl)
init_arm-Puts buf max_size (accepts n ∷ rest) =
    init_sent-Puts buf max_size (min n (length buf)) (omega arith)
init_arm-Puts buf max_size (write_interrupted ∷ rest) = unfold Puts init_sent in (omega arith, refl)
init_arm-Puts buf max_size (write_failed ∷ rest) = unfold Puts init_sent in tt

remain_arm-Puts :
    (buf : List ℕ) (start max_size : ℕ) (sock : List Room)
    → start ≤ length buf
    → let (sent, out, rest) = sock_write (drop start buf) sock in
      Puts (drop start buf) (remain_sent buf start max_size sent) out
unfolding sock_write
remain_arm-Puts buf start max_size [] h = unfold Puts remain_sent in (h, refl)
remain_arm-Puts buf start max_size (accepts n ∷ rest) h =
    remain_sent-Puts buf start max_size (min n (length (drop start buf))) h (omega arith)
remain_arm-Puts buf start max_size (write_interrupted ∷ rest) h =
    unfold Puts remain_sent in (h, refl)
remain_arm-Puts buf start max_size (write_failed ∷ rest) h = unfold Puts remain_sent in tt

nil_of_length : (xs : List ℕ) → (length xs == 0) ≡ true → xs ≡ []
nil_of_length [] e = refl
nil_of_length (x ∷ xs) e = absurd (ground arith)

-- From a state of the machine, `write` does not panic. It ends in an error, or what it put on the
-- socket and what is still to go are together what was to go before. A packet above the limit is
-- left out whole.
pub write-Puts :
    (self : MqttWrite) (sock : List Room)
    → IsWrite self
    → Puts (unsent self) (write self sock).0 (write self sock).1
unfolding write unsent IsWrite
write-Puts (init buf max_size) sock h = elim (Bool-cases (ltb max_size (length buf))) [
  | inl big ↦ rw big (unfold Puts in (tt, refl))
  | inr fits ↦ elim (Bool-cases (length buf == 0)) [
    | inl z ↦ rw (fits, z) (unfold Puts in (tt, sym (nil_of_length buf z)))
    | inr nz ↦ rw (fits, nz) (init_arm-Puts buf max_size sock)
  ]
]
write-Puts (remain buf start max_size) sock h = elim (Bool-cases (length (drop start buf) == 0)) [
  | inl z ↦ rw z (unfold Puts in (tt, sym (nil_of_length (drop start buf) z)))
  | inr nz ↦ rw nz (remain_arm-Puts buf start max_size sock h)
]
write-Puts (fin buf max_size) sock h = unfold Puts in (tt, refl)
write-Puts none_write sock h = absurd h
