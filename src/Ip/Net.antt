-- ===== src/Ip/Net.antt =====
-- A small network for the tests: it shows that the laws assumed of the sockets can hold together.
use mathlib.Core.List.{append_assoc}
use vedruino.Base.{
  ℕ, suc, ◌≤◌, ◌≡◌, refl, true, Option, none, some, List, [], ◌∷◌, ◌++◌, arith, length, length-take,
  take, drop, take-append-drop, min, leb, leb→le, if◌then◌else◌, Bool-cases, inl, inr,
}
use vedruino.Ip.Sockets.{Sockets, IsStream, Progresses, Written}
use vedruino.Ip.Stream.Recv.{joined}

-- One peer. A read delivers what is left of the first piece, a write takes at most three bytes, and a
-- write to the handle 9 fails.
pub record Net : Type 0 where
  pub incoming : List (List ℕ)
  pub sent : List ℕ
  pub next_handle : ℕ

abbrev read_pieces : ℕ → List (List ℕ) → List ℕ × List (List ℕ)
read_pieces n [] = ([], [])
read_pieces n (c ∷ cs) = if leb (length c) n then (c, cs) else (take n c, drop n c ∷ cs)

abbrev read_net : ℕ → ℕ → Net → Option (List ℕ) × Net
read_net fd n w =
    let (bs, left) = read_pieces n w.incoming in (some bs, record w { incoming = left })

abbrev write_net : ℕ → List ℕ → Net → Written × Net
write_net fd bs w =
    let k = min 3 (length bs) in (Written.wrote k, record w { sent = w.sent ++ take k bs })

abbrev pub net : Sockets
net = record {
  World = Net;
  socket = λ type w. (some w.next_handle, record w { next_handle = suc w.next_handle });
  bind = λ fd a w. (true, w);
  listen = λ fd n w. (true, w);
  connect = λ fd a w. (true, w);
  accept = λ fd w. (none, w);
  write = write_net;
  sendto = λ fd bs a w. write_net fd bs w;
  read = read_net;
  recvfrom = read_net;
  close = λ fd w. (true, w);
}

read_pieces-joined :
    (n : ℕ) (cs : List (List ℕ))
    → (length (read_pieces n cs).0 ≤ n)
      × (joined cs ≡ (read_pieces n cs).0 ++ joined (read_pieces n cs).1)
unfolding joined
read_pieces-joined n [] = (omega arith, refl)
read_pieces-joined n (c ∷ cs) = elim (Bool-cases (leb (length c) n)) [
  | inl whole ↦ rw whole (leb→le _ _ whole, refl)
  | inr part ↦ rw part (
    omega (arith, length-take n c),
    rw (← append_assoc (take n c) (drop n c) (joined cs)) (rw (take-append-drop n c)),
  )
]

read_net_some :
    (n : ℕ) (bs : List ℕ) (cs : List (List ℕ))
    → some (read_pieces n cs).0 ≡ some bs
    → (length bs ≤ n) × (joined cs ≡ bs ++ joined (read_pieces n cs).1)
read_net_some n bs cs e =
    let same : bs ≡ (read_pieces n cs).0 = cc in rw same (read_pieces-joined n cs)

write_net-wrote :
    (fd k : ℕ) (bs : List ℕ) (w : Net)
    → (write_net fd bs w).0 ≡ Written.wrote k
    → (k ≤ length bs) × ((write_net fd bs w).1.sent ≡ w.sent ++ take k bs)
write_net-wrote fd k bs w e = let same : k ≡ min 3 (length bs) = cc in rw same (omega arith, refl)

pub net-IsStream : IsStream net
net-IsStream = record {
  outbox = λ w fd. w.sent;
  inbox = λ w fd. joined w.incoming;
  write_wrote = write_net-wrote;
  write_enomem = λ fd bs w e. cc;
  write_failed = λ fd bs w e. cc;
  read_some = λ fd n bs w e. read_net_some n bs w.incoming e;
  read_none = λ fd n w e. cc;
}

zero_write : (n : ℕ) → Written.wrote (min 3 (suc n)) ≡ Written.wrote 0 → ⊥
zero_write n e = let same : min 3 (suc n) ≡ 0 = cc in omega arith

pub net-Progresses : Progresses net
net-Progresses fd [] w e = refl
net-Progresses fd (b ∷ bs) w e = absurd (zero_write (length bs) e)
