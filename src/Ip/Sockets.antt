-- ===== src/Ip/Sockets.antt =====
-- The calls of lwIP's socket interface that src/lib/ip.c makes. They are no part of the program: a
-- value of `Sockets` stands for them, and `IsStream` states what the manual says of a TCP stream.
use vedruino.Base.{ℕ, ◌≤◌, ◌≡◌, Bool, Option, none, some, List, [], ◌++◌, length, take}
use vedruino.Ip.Addr.{SockAddr}

-- What `write` and `sendto` return: the number of bytes, or -1 with `errno` ENOMEM or another one.
pub data Written : Type 0 where
  wrote : ℕ → Written
  enomem : Written
  failed : Written

pub data SockType : Type 0 where
  stream dgram : SockType

-- `none` is the return value -1. A read gives the bytes that it has put into the buffer.
pub record Sockets : Type 1 where
  pub World : Type 0
  pub socket : SockType → World → Option ℕ × World
  pub bind : ℕ → SockAddr → World → Bool × World
  pub listen : ℕ → ℕ → World → Bool × World
  pub connect : ℕ → SockAddr → World → Bool × World
  pub accept : ℕ → World → Option (ℕ × SockAddr) × World
  pub write : ℕ → List ℕ → World → Written × World
  pub sendto : ℕ → List ℕ → SockAddr → World → Written × World
  pub read : ℕ → ℕ → World → Option (List ℕ) × World
  pub recvfrom : ℕ → ℕ → World → Option (List ℕ) × World
  pub close : ℕ → World → Bool × World

-- `outbox` is what has gone into a stream so far, and `inbox` what is still to be read from it.
-- A write takes a part of the buffer from its beginning, or fails and sends nothing; a read takes
-- bytes from the front, at most as many as the buffer holds, or fails and takes none.
pub record IsStream (s : Sockets) : Type 0 where
  pub outbox : s.World → ℕ → List ℕ
  pub inbox : s.World → ℕ → List ℕ
  pub write_wrote :
      (fd k : ℕ) (bs : List ℕ) (w : s.World)
      → (s.write fd bs w).0 ≡ Written.wrote k
      → (k ≤ length bs) × (outbox (s.write fd bs w).1 fd ≡ outbox w fd ++ take k bs)
  pub write_enomem :
      (fd : ℕ) (bs : List ℕ) (w : s.World)
      → (s.write fd bs w).0 ≡ Written.enomem
      → outbox (s.write fd bs w).1 fd ≡ outbox w fd
  pub write_failed :
      (fd : ℕ) (bs : List ℕ) (w : s.World)
      → (s.write fd bs w).0 ≡ Written.failed
      → outbox (s.write fd bs w).1 fd ≡ outbox w fd
  pub read_some :
      (fd n : ℕ) (bs : List ℕ) (w : s.World)
      → (s.read fd n w).0 ≡ some bs
      → (length bs ≤ n) × (inbox w fd ≡ bs ++ inbox (s.read fd n w).1 fd)
  pub read_none :
      (fd n : ℕ) (w : s.World) → (s.read fd n w).0 ≡ none → inbox (s.read fd n w).1 fd ≡ inbox w fd

-- A blocking stream takes at least one byte of a buffer that is not empty, or reports an error.
abbrev pub Progresses : Sockets → Type 0
Progresses s =
    (fd : ℕ) (bs : List ℕ) (w : s.World) → (s.write fd bs w).0 ≡ Written.wrote 0 → bs ≡ []
