-- ===== src/Netlog/Recorder.antt =====
-- Sockets for the tests, which take all that they are given and record it.
use vedruino.Base.{ℕ, refl, true, none, List, [], ◌∷◌, ◌++◌, length}
use vedruino.Ip.Sockets.{Sockets, Written}
use vedruino.Netlog.Platform.{Platform}
use vedruino.Netlog.Flush.Served.{Sending, IsCarrier}

pub record Record : Type 0 where
  pub log : List Sending
  pub uart : List ℕ

abbrev take_all : Sending → (n : ℕ) → Record → Written × Record
take_all call n w = (Written.wrote n, record w { log = w.log ++ call ∷ [] })

abbrev sockets : Sockets
sockets = record {
  World = Record;
  socket = λ type w. (none, w);
  bind = λ fd a w. (true, w);
  listen = λ fd n w. (true, w);
  connect = λ fd a w. (true, w);
  accept = λ fd w. (none, w);
  write = λ fd bs. take_all (Sending.by_write fd bs) (length bs);
  sendto = λ fd bs a. take_all (Sending.by_sendto fd a bs) (length bs);
  read = λ fd n w. (none, w);
  recvfrom = λ fd n w. (none, w);
  close = λ fd w. (true, w);
}

abbrev pub recorder : Platform
recorder = record { sockets = sockets; uart_write = λ bs w. (tt, record w { uart = w.uart ++ bs }) }

pub recorder-IsCarrier : IsCarrier recorder
recorder-IsCarrier = record {
  log = λ w. w.log;
  uart = λ w. w.uart;
  write_whole = λ fd bs w. refl;
  write_log = λ fd bs w. (refl, refl);
  sendto_whole = λ hd bs a w. refl;
  sendto_log = λ hd bs a w. (refl, refl);
  uart_write_log = λ bs w. (refl, refl);
}
