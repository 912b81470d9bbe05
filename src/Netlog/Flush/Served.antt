-- ===== src/Netlog/Flush/Served.antt =====
-- One block in `flush_with_shstack` of src/lib/netlog.c, where no send fails: what each client is sent.
use vedruino.Base.{
  ℕ, zero, suc, ◌+◌, ◌%◌, ◌≡◌, ◌≢◌, refl, ap, ◌∙◌, inl, inr, true, false, Option, none, some, List,
  [], ◌∷◌, ◌++◌, map, arith, Bool-cases, if◌then◌else◌, length, take, set, get_elem?, length-set,
  Returns, bind-Returns,
}
use vedruino.Ip.Addr.{SockAddr, get_sockaddr}
use vedruino.Ip.Sockets.{Written}
use vedruino.Ip.Stream.Send.{pk_tcp_send-wrote, pk_udp_send-wrote}
use vedruino.Netlog.Table.{Client, Table, count_packet}
use vedruino.Netlog.Table.Remove.{active}
use vedruino.Netlog.Table.Clients.{take-set}
use vedruino.Netlog.Platform.{Platform, State}
use vedruino.Netlog.Flush.{send_udp, send_block, after_send, serve_slot}

-- A call that hands bytes to a socket: `write`, or `sendto` with the address that it is given.
pub data Sending : Type 0 where
  by_write : (fd : ℕ) → (bs : List ℕ) → Sending
  by_sendto : (hd : ℕ) → (to : SockAddr) → (bs : List ℕ) → Sending

-- No send fails, and each one takes all that it is given. `log` are the calls that handed bytes to the
-- sockets, and `uart` is what was written to the UART.
pub record IsCarrier (p : Platform) : Type 0 where
  pub log : p.World → List Sending
  pub uart : p.World → List ℕ
  pub write_whole :
      (fd : ℕ) (bs : List ℕ) (w : p.World) → (p.write fd bs w).0 ≡ Written.wrote (length bs)
  pub write_log :
      (fd : ℕ) (bs : List ℕ) (w : p.World)
      → (log (p.write fd bs w).1 ≡ log w ++ Sending.by_write fd bs ∷ [])
        × (uart (p.write fd bs w).1 ≡ uart w)
  pub sendto_whole :
      (hd : ℕ) (bs : List ℕ) (a : SockAddr) (w : p.World)
      → (p.sendto hd bs a w).0 ≡ Written.wrote (length bs)
  pub sendto_log :
      (hd : ℕ) (bs : List ℕ) (a : SockAddr) (w : p.World)
      → (log (p.sendto hd bs a w).1 ≡ log w ++ Sending.by_sendto hd a bs ∷ [])
        × (uart (p.sendto hd bs a w).1 ≡ uart w)
  pub uart_write_log :
      (bs : List ℕ) (w : p.World)
      → (log (p.uart_write bs w).1 ≡ log w) × (uart (p.uart_write bs w).1 ≡ uart w ++ bs)

-- What one client is sent for a block: a TCP client the block; a UDP client a packet to its address, with
-- its counter in front.
abbrev pub packet : List ℕ → Client → Sending
packet blk c =
    if c.udp_flag
    then Sending.by_sendto c.hd (get_sockaddr c.addr_port) (c.pack_cnt ∷ blk)
    else Sending.by_write c.hd blk

-- The client behind it.
abbrev pub counted : Client → Client
counted c = if c.udp_flag then record c { pack_cnt = (c.pack_cnt + 1) % 128 } else c

packet_udp :
    (blk : List ℕ) (c : Client)
    → c.udp_flag ≡ true
    → Sending.by_sendto c.hd (get_sockaddr c.addr_port) (c.pack_cnt ∷ blk) ≡ packet blk c
packet_udp blk c e = rw e refl

packet_tcp :
    (blk : List ℕ) (c : Client) → c.udp_flag ≡ false → Sending.by_write c.hd blk ≡ packet blk c
packet_tcp blk c e = rw e refl

counted_udp :
    (c : Client) → c.udp_flag ≡ true → record c { pack_cnt = (c.pack_cnt + 1) % 128 } ≡ counted c
counted_udp c e = rw e refl

counted_tcp : (c : Client) → c.udp_flag ≡ false → c ≡ counted c
counted_tcp c e = rw e refl

module _ {A : Type 0} where
  get_elem?-middle : (xs ys : List A) (x : A) → get_elem? (xs ++ x ∷ ys) (length xs) ≡ some x
  get_elem?-middle [] ys x = refl
  get_elem?-middle (y ∷ xs) ys x = get_elem?-middle xs ys x

  set-middle : (xs ys : List A) (x y : A) → set (xs ++ x ∷ ys) (length xs) y ≡ xs ++ y ∷ ys
  set-middle [] ys x y = refl
  set-middle (z ∷ xs) ys x y = ap (◌∷◌ z) (set-middle xs ys x y)

  get_elem?-of_take :
      (n i : ℕ) (xs : List A) (x : A) → get_elem? (take n xs) i ≡ some x → get_elem? xs i ≡ some x
  get_elem?-of_take zero i xs x e = cc
  get_elem?-of_take (suc n) i [] x e = e
  get_elem?-of_take (suc n) zero (y ∷ xs) x e = e
  get_elem?-of_take (suc n) (suc i) (y ∷ xs) x e = get_elem?-of_take n i xs x e

  take-front : (xs ys : List A) → take (length xs) (xs ++ ys) ≡ xs
  take-front [] ys = refl
  take-front (x ∷ xs) ys = ap (◌∷◌ x) (take-front xs ys)

module _ (p : Platform) (car : IsCarrier p) where
  -- The block stands in the packet buffer behind its first byte.
  abbrev pub Filled : List ℕ → List ℕ → Type 0
  Filled blk udpbuf = (h : ℕ) × (tail : List ℕ) × (udpbuf ≡ h ∷ (blk ++ tail))

  -- The clients `cs` were sent the block, and now `now` are in use.
  pub record Served (blk : List ℕ) (cs now : List Client) (st st' : State p) : Type 0 where
    pub sent : car.log st'.world ≡ car.log st.world ++ map (packet blk) cs
    pub uart : car.uart st'.world ≡ car.uart st.world
    pub in_use : active st'.table ≡ now
    pub num : st'.table.clients_num ≡ st.table.clients_num
    pub udp_num : st'.table.udp_clients_num ≡ st.table.udp_clients_num
    pub slots : length st'.table.clients ≡ length st.table.clients
    pub udpbuf : length st'.udpbuf ≡ length st.udpbuf
    pub filled : Filled blk st.udpbuf → Filled blk st'.udpbuf

  take-packet :
      (blk udpbuf : List ℕ) (k : ℕ)
      → Filled blk udpbuf
      → take (length blk + 1) (set udpbuf 0 k) ≡ k ∷ blk
  take-packet blk udpbuf k (h, tail, e) =
      let n : length blk + 1 ≡ suc (length blk) = omega arith in
      rw (n, e) (ap (◌∷◌ k) (take-front blk tail))

  Filled-set : (blk udpbuf : List ℕ) (k : ℕ) → Filled blk udpbuf → Filled blk (set udpbuf 0 k)
  Filled-set blk udpbuf k (h, tail, e) = (k, tail, ap (λ u. set u 0 k) e)

  count_packet-middle :
      (pre post : List Client) (c : Client) (t : Table)
      → c.udp_flag ≡ true
      → active t ≡ pre ++ c ∷ post
      → active (count_packet (length pre) c t) ≡ pre ++ counted c ∷ post
  unfolding count_packet
  count_packet-middle pre post c t udp e =
      take-set t.clients_num (length pre) t.clients v
      ∙ ap (λ cs. set cs (length pre) v) e
      ∙ set-middle pre post c v
      ∙ ap (λ d. pre ++ d ∷ post) (counted_udp c udp)
    where
      v : Client
      v = record c { pack_cnt = (c.pack_cnt + 1) % 128 }

  send_block-Served :
      (blk : List ℕ) (pre post : List Client) (c : Client) (st : State p)
      → active st.table ≡ pre ++ c ∷ post
      → (c.udp_flag ≡ true → Filled blk st.udpbuf)
      → Returns
          (λ r st'. (r ≢ none) × Served blk (c ∷ []) (pre ++ counted c ∷ post) st st')
          (send_block p (length pre) blk c st)
  unfolding send_block send_udp count_packet
  send_block-Served blk pre post c st e full = elim (Bool-cases c.udp_flag) [
    | inl udp ↦
        rw
          (
            udp,
            pk_udp_send-wrote p.sockets c.hd c.addr_port pkt _ st.world
                (car.sendto_whole c.hd pkt to st.world),
            Returns,
          )
          (
            (λ z. cc),
            record {
              sent =
                  (car.sendto_log c.hd pkt to st.world).0
                  ∙ ap (λ bs. car.log st.world ++ Sending.by_sendto c.hd to bs ∷ [])
                      (take-packet blk st.udpbuf c.pack_cnt (full udp))
                  ∙ ap (λ x. car.log st.world ++ x ∷ []) (packet_udp blk c udp);
              uart = (car.sendto_log c.hd pkt to st.world).1;
              in_use = count_packet-middle pre post c st.table udp e;
              num = refl;
              udp_num = refl;
              slots = length-set st.table.clients (length pre) _;
              udpbuf = length-set st.udpbuf 0 c.pack_cnt;
              filled = Filled-set blk st.udpbuf c.pack_cnt;
            },
          )
    | inr tcp ↦
        rw
          (
            tcp,
            pk_tcp_send-wrote p.sockets c.hd blk (length blk) st.world
                (car.write_whole c.hd blk st.world),
            Returns,
          )
          (
            (λ z. cc),
            record {
              sent =
                  (car.write_log c.hd blk st.world).0
                  ∙ ap (λ x. car.log st.world ++ x ∷ []) (packet_tcp blk c tcp);
              uart = (car.write_log c.hd blk st.world).1;
              in_use = e ∙ ap (λ d. pre ++ d ∷ post) (counted_tcp c tcp);
              num = refl;
              udp_num = refl;
              slots = refl;
              udpbuf = refl;
              filled = λ f. f;
            },
          )
  ]
    where
      pkt : List ℕ
      pkt = take (length blk + 1) (set st.udpbuf 0 c.pack_cnt)

      to : SockAddr
      to = get_sockaddr c.addr_port

  after_send-Served :
      (blk : List ℕ) (cs now : List Client) (i : ℕ) (r : Option ℕ) (st st' : State p)
      → (r ≢ none) × Served blk cs now st st'
      → Returns (λ _ v. Served blk cs now st v) (after_send p i r st')
  unfolding after_send
  after_send-Served blk cs now i none st st' (sent, h) = absurd (sent refl)
  after_send-Served blk cs now i (some n) st st' (sent, h) = h

  pub serve_slot-Served :
      (blk : List ℕ) (pre post : List Client) (c : Client) (st : State p)
      → active st.table ≡ pre ++ c ∷ post
      → (c.udp_flag ≡ true → Filled blk st.udpbuf)
      → Returns
          (λ _ st'. Served blk (c ∷ []) (pre ++ counted c ∷ post) st st')
          (serve_slot p (length pre) blk st)
  unfolding serve_slot
  serve_slot-Served blk pre post c st e full =
      rw (slot, Returns)
        (bind-Returns (λ r st'. (r ≢ none) × Served blk (c ∷ []) (pre ++ counted c ∷ post) st st')
          (λ _ st'. Served blk (c ∷ []) (pre ++ counted c ∷ post) st st')
          (send_block p (length pre) blk c st) (after_send p (length pre))
          (send_block-Served blk pre post c st e full)
          (λ r st' h. after_send-Served blk _ _ (length pre) r st st' h))
    where
      slot : get_elem? st.table.clients (length pre) ≡ some c
      slot =
          get_elem?-of_take st.table.clients_num (length pre) st.table.clients c
            (ap (λ cs. get_elem? cs (length pre)) e ∙ get_elem?-middle pre post c)
