-- ===== src/Ota/Board.antt =====
-- A small board for the tests: it shows that the laws assumed of the flash and of the sockets can hold
-- together.
use vedruino.Base.{
  ℕ, zero, suc, ◌+◌, ◌-◌, ◌≤◌, ◌<◌, ◌≡◌, refl, ap, ◌⊎◌, inl, inr, true, Option, none, some, List,
  [], ◌∷◌, arith, ltb, lt→ltb, if◌then◌else◌, length, get_elem?, Bool-cases, ltb→lt,
}
use vedruino.Ip.Sockets.{Sockets, IsStream, Progresses}
use vedruino.Ip.Net.{Net, net, net-IsStream, net-Progresses}
use vedruino.Ota.Platform.{Platform, boot_ok}
use vedruino.Ota.Flash.{erased, IsFlash, IsQuiet}

-- The network, the cells of the update partition and its size.
pub record Board : Type 0 where
  pub network : Net
  pub cell : ℕ → ℕ
  pub part_size : ℕ

abbrev on_net {ℓ} : {A : Type ℓ} → (Net → A × Net) → Board → A × Board
on_net f b = let (a, w) = f b.network in (a, record b { network = w })

abbrev sockets : Sockets
sockets = record {
  World = Board;
  socket = λ type. on_net (net.socket type);
  bind = λ fd a. on_net (net.bind fd a);
  listen = λ fd n. on_net (net.listen fd n);
  connect = λ fd a. on_net (net.connect fd a);
  accept = λ fd. on_net (net.accept fd);
  write = λ fd bs. on_net (net.write fd bs);
  sendto = λ fd bs a. on_net (net.sendto fd bs a);
  read = λ fd n. on_net (net.read fd n);
  recvfrom = λ fd n. on_net (net.recvfrom fd n);
  close = λ fd. on_net (net.close fd);
}

abbrev or_else {ℓ} : {A : Type ℓ} → A → Option A → A
or_else a none = a
or_else a (some b) = b

abbrev write_cells : ℕ → List ℕ → (ℕ → ℕ) → ℕ → ℕ
write_cells offs bs f i = if ltb i offs then f i else or_else (f i) (get_elem? bs (i - offs))

abbrev erase_cells : ℕ → ℕ → (ℕ → ℕ) → ℕ → ℕ
erase_cells offs n f i = if ltb i offs then f i else (if ltb i (offs + n) then erased else f i)

abbrev read_cells : ℕ → ℕ → (ℕ → ℕ) → List ℕ
read_cells offs zero f = []
read_cells offs (suc n) f = f offs ∷ read_cells (suc offs) n f

-- The MD5 of this board is the last piece that it was given.
abbrev pub board : Platform
board = record {
  sockets = sockets;
  next_partition = λ b. (some b.part_size, b);
  partition_read = λ offs n b. (some (read_cells offs n b.cell), b);
  partition_write_raw = λ offs bs b. (true, record b { cell = write_cells offs bs b.cell });
  partition_erase_range = λ offs n b. (true, record b { cell = erase_cells offs n b.cell });
  set_boot_partition = λ b. (boot_ok, b);
  malloc = λ n b. (some 1, b);
  free = λ buf b. (tt, b);
  task_priority_set = λ n b. (tt, b);
  Md5 = List ℕ;
  md5_init = [];
  md5_update = λ ctx bs. bs;
  md5_finish = λ ctx. ctx;
}

get_elem?-none : (bs : List ℕ) (i : ℕ) → length bs ≤ i → get_elem? bs i ≡ none
get_elem?-none [] i h = refl
get_elem?-none (b ∷ bs) zero h = absurd (omega arith)
get_elem?-none (b ∷ bs) (suc i) h = get_elem?-none bs i (omega arith)

write_cells-frame :
    (offs i : ℕ) (bs : List ℕ) (f : ℕ → ℕ)
    → (i < offs) ⊎ (offs + length bs ≤ i)
    → write_cells offs bs f i ≡ f i
write_cells-frame offs i bs f (inl before) = rw (lt→ltb i offs before) refl
write_cells-frame offs i bs f (inr behind) = elim (Bool-cases (ltb i offs)) [
  | inl e ↦ rw e refl
  | inr e ↦ rw (e, get_elem?-none bs (i - offs) (omega arith)) refl
]

write_cells-stored :
    (offs i b : ℕ) (bs : List ℕ) (f : ℕ → ℕ)
    → get_elem? bs i ≡ some b
    → write_cells offs bs f (offs + i) ≡ b
write_cells-stored offs i b bs f e = elim (Bool-cases (ltb (offs + i) offs)) [
  | inl lt ↦ let less : offs + i < offs = ltb→lt _ _ lt in absurd (omega arith)
  | inr ge ↦ let back : offs + i - offs ≡ i = omega arith in rw (ge, back, e) refl
]

erase_cells-frame :
    (offs n i : ℕ) (f : ℕ → ℕ) → (i < offs) ⊎ (offs + n ≤ i) → erase_cells offs n f i ≡ f i
erase_cells-frame offs n i f h = ground (arith, h)

erase_cells-erased :
    (offs n i : ℕ) (f : ℕ → ℕ) → offs ≤ i → i < offs + n → erase_cells offs n f i ≡ erased
erase_cells-erased offs n i f ge lt = ground arith

length-read_cells : (offs n : ℕ) (f : ℕ → ℕ) → length (read_cells offs n f) ≡ n
length-read_cells offs zero f = refl
length-read_cells offs (suc n) f = ap suc (length-read_cells (suc offs) n f)

get_elem?-read_cells :
    (offs n : ℕ) (f : ℕ → ℕ) (i : ℕ)
    → i < n
    → get_elem? (read_cells offs n f) i ≡ some (f (offs + i))
get_elem?-read_cells offs zero f i lt = absurd (omega arith)
get_elem?-read_cells offs (suc n) f zero lt = let e : offs + 0 ≡ offs = omega arith in rw e refl
get_elem?-read_cells offs (suc n) f (suc i) lt =
    let e : offs + suc i ≡ suc offs + i = omega arith in
    rw e (get_elem?-read_cells (suc offs) n f i (omega arith))

pub board-IsFlash : IsFlash board
board-IsFlash = record {
  cell = λ b. b.cell;
  write_frame = λ offs i bs w h. write_cells-frame offs i bs w.cell h;
  write_stored = λ offs i b bs w ok e h. write_cells-stored offs i b bs w.cell e;
  erase_frame = λ offs n i w h. erase_cells-frame offs n i w.cell h;
  erase_erased = λ offs n i w ok ge lt. erase_cells-erased offs n i w.cell ge lt;
  read_cells = λ offs n bs w e.
      let same : bs ≡ read_cells offs n w.cell = cc in
      rw same (length-read_cells offs n w.cell, get_elem?-read_cells offs n w.cell);
  partition_read_same = λ offs n w i. refl;
  set_boot_same = λ w i. refl;
  malloc_same = λ n w i. refl;
  free_same = λ buf w i. refl;
  priority_same = λ n w i. refl;
  socket_same = λ t w i. refl;
  bind_same = λ fd a w i. refl;
  listen_same = λ fd n w i. refl;
  accept_same = λ fd w i. refl;
  close_same = λ fd w i. refl;
  read_same = λ fd n w i. refl;
  write_same = λ fd bs w i. refl;
}

pub board-Progresses : Progresses sockets
board-Progresses fd bs w e = net-Progresses fd bs w.network e

pub board-IsStream : IsStream sockets
board-IsStream = record {
  outbox = λ b. net-IsStream.outbox b.network;
  inbox = λ b. net-IsStream.inbox b.network;
  write_wrote = λ fd k bs b. net-IsStream.write_wrote fd k bs b.network;
  write_enomem = λ fd bs b. net-IsStream.write_enomem fd bs b.network;
  write_failed = λ fd bs b. net-IsStream.write_failed fd bs b.network;
  read_some = λ fd n bs b. net-IsStream.read_some fd n bs b.network;
  read_none = λ fd n b. net-IsStream.read_none fd n b.network;
}

pub board-IsQuiet : IsQuiet board board-IsStream
unfolding board-IsStream
board-IsQuiet = record {
  write_raw_inbox = λ offs fd bs w. refl;
  set_boot_inbox = λ fd w. refl;
  malloc_inbox = λ n fd w. refl;
  free_inbox = λ buf fd w. refl;
}

pub cell-board : (b : Board) (i : ℕ) → board-IsFlash.cell b i ≡ b.cell i
unfolding board-IsFlash
cell-board b i = refl
