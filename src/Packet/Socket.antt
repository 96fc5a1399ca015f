-- ===== src/Packet/Socket.antt =====
-- What packet.rs sees of `io::Read` and `io::Write`: a socket without blocking.
use mymq.Base.{ℕ, List, [], ◌∷◌, ◌++◌, length, take, drop, leb, if◌then◌else◌, min}
use mymq.Error.{Error, ErrorKind}
use mathlib.Core.Option.{none}

-- What happens at the far end, in order. Bytes come in pieces of any length; `closed` is the end of
-- the stream.
pub data Arrival : Type 0 where
  bytes : List ℕ → Arrival
  closed interrupted failed : Arrival

-- The answer of `read`; `got []` is `Ok(0)`.
pub data Answer : Type 0 where
  got : List ℕ → Answer
  was_interrupted would_block was_failed : Answer

-- `read` with a buffer of `size` bytes: what does not fit stays. Without an arrival it would block.
unfoldable pub sock_read : ℕ → List Arrival → Answer × List Arrival
sock_read size [] = (would_block, [])
sock_read size (bytes bs ∷ rest) =
    if leb (length bs) size
    then (got bs, rest)
    else (got (take size bs), bytes (drop size bs) ∷ rest)
sock_read size (closed ∷ rest) = (got [], closed ∷ rest)
sock_read size (interrupted ∷ rest) = (was_interrupted, rest)
sock_read size (failed ∷ rest) = (was_failed, rest)

-- The bytes that are still to be read.
unfoldable pub pending : List Arrival → List ℕ
pending [] = []
pending (bytes bs ∷ rest) = bs ++ pending rest
pending (closed ∷ rest) = []
pending (interrupted ∷ rest) = pending rest
pending (failed ∷ rest) = pending rest

abbrev pub disconnected : Error
disconnected = record { kind = ErrorKind.disconnected; code = none }

-- How the far end takes bytes, in order: so many at most, or not now.
pub data Room : Type 0 where
  accepts : ℕ → Room
  write_interrupted write_failed : Room

-- The answer of `write`: how many bytes went.
pub data Sent : Type 0 where
  wrote : ℕ → Sent
  write_was_interrupted write_would_block write_was_failed : Sent

-- The answer, the bytes that went, and what follows. Without room it would block.
unfoldable pub sock_write : List ℕ → List Room → Sent × List ℕ × List Room
sock_write buf [] = (write_would_block, [], [])
sock_write buf (accepts n ∷ rest) =
    (wrote (min n (length buf)), take (min n (length buf)) buf, rest)
sock_write buf (write_interrupted ∷ rest) = (write_was_interrupted, [], rest)
sock_write buf (write_failed ∷ rest) = (write_was_failed, [], rest)
