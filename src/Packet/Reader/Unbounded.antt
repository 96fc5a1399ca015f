-- ===== src/Packet/Reader/Unbounded.antt =====
-- `MQTTRead` while the length of the packet has not ended.
use mymq.Base.{ℕ, ◌≤◌, true, false, List, [], ◌∷◌, ◌++◌, length, leb, ◌≡◌, refl, arith, All}
use mymq.Error.{ok}
use mymq.Packet.Socket.{Arrival, bytes, sock_read}
use mymq.Packet.Reader.{header, has_last, header_arm, pre_read, after_pre_read, arms, read}

-- A byte that says that the length goes on.
abbrev pub IsOpen : ℕ → Type 0
IsOpen b = 0x80 ≤ b

has_last-IsOpen : (bs : List ℕ) → All IsOpen bs → has_last bs ≡ false
unfolding has_last
has_last-IsOpen [] h = refl
has_last-IsOpen (b ∷ bs) h = ground (arith, has_last-IsOpen bs h.1)

-- As long as the bytes say that the length goes on, every read stores them all and asks for more,
-- whatever the limit on the packet and however many there are.
pub header_unbounded :
    (byte1 b max_size : ℕ) (tail bs : List ℕ) (rest : List Arrival)
    → All IsOpen (tail ++ (b ∷ bs))
    → length (b ∷ bs) ≤ 5
    → read (header byte1 (byte1 ∷ tail) max_size) (bytes (b ∷ bs) ∷ rest)
      ≡ (ok (header byte1 (byte1 ∷ (tail ++ (b ∷ bs))) max_size, false), rest)
unfolding read pre_read after_pre_read arms header_arm sock_read
header_unbounded byte1 b max_size tail bs rest h short =
    let fits : leb (length (b ∷ bs)) 5 ≡ true = ground arith in
    rw (fits, has_last-IsOpen (tail ++ (b ∷ bs)) h)
