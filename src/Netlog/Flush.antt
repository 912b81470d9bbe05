-- ===== src/Netlog/Flush.antt =====
-- `del_client`, `stdout_flush` and `flush_with_shstack` of src/lib/netlog.c. Each runs under
-- `clients_mutex`, so that its steps are one step for the other tasks. Messages to the UART are left out.
pub mod Slot
pub mod Keeps
pub mod Served
pub mod Blocks
pub mod Delivered
use vedruino.Base.{
  ℕ, zero, suc, ◌+◌, ◌-◌, Bool, true, false, Option, none, some, List, [], ◌∷◌, ◌++◌, ltb, ◌==◌,
  if◌then◌else◌, length, take, drop, set, get_elem?, min, M, pure, stop, ◌>>=◌, ◌>>◌, call, modify,
  Halt,
}
use vedruino.Ip.Handles.{pk_sock_close}
use vedruino.Ip.Stream.{pk_tcp_send, pk_udp_send}
use vedruino.Netlog.Table.{Client, Table, remove_client, count_packet}
use vedruino.Netlog.Platform.{Platform, State, io}

-- The size of the next block, of what is left.
abbrev pub block_size : (buf_size left : ℕ) → Table → ℕ
block_size buf_size left t = if t.udp_clients_num == 0 then left else min left buf_size

module _ (p : Platform) where
  abbrev pub set_table : (Table → Table) → M (State p) (Unit {0})
  set_table f = modify (λ st. record st { table = f st.table })

  -- What is done with the client in a slot. A slot outside the array has no value.
  abbrev pub with_client : {A : Type 0} → (i : ℕ) → (Client → M (State p) A) → M (State p) A
  with_client i f st = elim (get_elem? st.table.clients i) [
    | none ↦ stop Halt.undefined_read st
    | some c ↦ f c st
  ]

  drop_client : (i : ℕ) → Client → M (State p) (Unit {0})
  unfolding pk_sock_close remove_client
  drop_client i c = io p (pk_sock_close p.sockets c.hd) >> set_table (remove_client i c)

  unfoldable pub del_client : (i : ℕ) → M (State p) (Unit {0})
  unfolding drop_client
  del_client i = with_client i (drop_client i)

  -- The counter is the first byte of the packet, and is then counted up. The rest of the packet has
  -- been put into the buffer.
  send_udp : (i cur_blk_size : ℕ) → Client → M (State p) (Option ℕ)
  unfolding count_packet pk_udp_send
  send_udp i cur_blk_size c st =
      (modify (λ st'. record st' { udpbuf = set st'.udpbuf 0 c.pack_cnt })
          >> set_table (count_packet i c)
          >> io p (
              pk_udp_send p.sockets c.hd c.addr_port
                (take (cur_blk_size + 1) (set st.udpbuf 0 c.pack_cnt))))
        st

  send_block : (i : ℕ) → List ℕ → Client → M (State p) (Option ℕ)
  unfolding send_udp pk_tcp_send
  send_block i blk c = elim c.udp_flag [
    | true ↦ send_udp i (length blk) c
    | false ↦ io p (pk_tcp_send p.sockets c.hd blk)
  ]

  after_send : (i : ℕ) → Option ℕ → M (State p) (Unit {0})
  unfolding del_client
  after_send i none = del_client i
  after_send i (some sent) = pure tt

  -- One round of the loop over the clients.
  unfoldable pub serve_slot : (i : ℕ) → List ℕ → M (State p) (Unit {0})
  unfolding send_block after_send
  serve_slot i blk = with_client i (send_block i blk) >>= after_send i

  -- `for (int i = 0; i < clients_num; ++i)`, where `clients_num` may fall on the way.
  unfoldable pub client_loop : List ℕ → (fuel i : ℕ) → M (State p) (Unit {0})
  unfolding serve_slot
  client_loop blk zero i st = stop Halt.out_of_fuel st
  client_loop blk (suc f) i st = elim (ltb i st.table.clients_num) [
    | false ↦ pure tt st
    | true ↦ (serve_slot i blk >> client_loop blk f (suc i)) st
  ]

  -- Where there are UDP clients, the block is copied behind the first byte of the packet buffer.
  fill_udpbuf : List ℕ → M (State p) (Unit {0})
  fill_udpbuf blk = modify (λ st. record st {
    udpbuf =
        if st.table.udp_clients_num == 0
        then st.udpbuf
        else take 1 st.udpbuf ++ (blk ++ drop (1 + length blk) st.udpbuf);
  })

  to_uart : List ℕ → M (State p) (Unit {0})
  to_uart blk st = elim (st.table.clients_num == 0) [
    | true ↦ io p (call (p.uart_write blk)) st
    | false ↦ pure tt st
  ]

  -- One round of the loop over the blocks.
  unfoldable pub flush_block : List ℕ → M (State p) (Unit {0})
  unfolding fill_udpbuf client_loop to_uart
  flush_block blk st =
      (fill_udpbuf blk >> client_loop blk (suc st.table.clients_num) 0 >> to_uart blk) st

  -- `while (sent < n)`, where `left` is what of the buffer has not been sent.
  unfoldable pub flush_loop : (buf_size fuel : ℕ) → List ℕ → M (State p) (Unit {0})
  unfolding flush_block
  flush_loop buf_size fuel [] st = pure tt st
  flush_loop buf_size zero (b ∷ left) st = stop Halt.out_of_fuel st
  flush_loop buf_size (suc f) (b ∷ left) st =
      let n = block_size buf_size (length (b ∷ left)) st.table in
      (flush_block (take n (b ∷ left)) >> flush_loop buf_size f (drop n (b ∷ left))) st

  unfoldable pub flush_with_shstack : (buf_size : ℕ) → List ℕ → M (State p) (Unit {0})
  unfolding flush_loop
  flush_with_shstack buf_size buf =
      modify (λ st. record st { to_netlog = false })
      >> flush_loop buf_size (length buf) buf
      >> modify (λ st. record st { to_netlog = true })

  unfoldable pub stdout_flush : (buf_size : ℕ) → List ℕ → M (State p) ℕ
  unfolding flush_with_shstack
  stdout_flush buf_size buf = flush_with_shstack buf_size buf >> pure (length buf)

  -- What other tasks print, one call of `stdout_flush` after the other.
  unfoldable pub print_all : (buf_size : ℕ) → List (List ℕ) → M (State p) (Unit {0})
  unfolding stdout_flush
  print_all buf_size [] = pure tt
  print_all buf_size (buf ∷ bufs) = stdout_flush buf_size buf >> print_all buf_size bufs
