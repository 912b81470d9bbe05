-- ===== src/Netlog/Flush/Slot.antt =====
-- One slot of the table of src/lib/netlog.c: the sends return, and what they and `del_client` keep.
use vedruino.Base.{
  ℕ, ◌+◌, ◌<◌, ◌≡◌, refl, inl, inr, Option, none, some, List, arith, Bool-cases, length, take, set,
  get_elem?, length-set, Returns, Returns-mono,
}
use vedruino.Ip.Handles.{pk_sock_close}
use vedruino.Ip.Stream.{pk_tcp_send, pk_udp_send}
use vedruino.Netlog.Table.{Client, remove_client, count_packet}
use vedruino.Netlog.Table.Shrunk.{
  Shrunk-refl, remove_client-Shrunk, count_packet-Shrunk, count_packet_num, get_elem?-some,
}
use vedruino.Netlog.Follows.{IsServer, Follows, Follows-refl, bind-Follows_with}
use vedruino.Netlog.Platform.{Platform, State}
use vedruino.Netlog.Rules.{io-Returns, Any, pk_tcp_send-Returns, pk_udp_send-Returns}
use vedruino.Netlog.Flush.{drop_client, del_client, send_udp, send_block, after_send, serve_slot}

module _ (p : Platform) (max buf_size : ℕ) where
  abbrev From : {A : Type 0} → State p → A → State p → Type 0
  From st _ st' = Follows p max buf_size st st'

  slot-some :
      (i : ℕ) (st : State p)
      → IsServer p max buf_size st
      → i < st.table.clients_num
      → (c : Client) × (get_elem? st.table.clients i ≡ some c)
  slot-some i st v lt =
      get_elem?-some st.table.clients i (omega (arith, v.table.slots, v.table.in_use))

  pub del_client-removes :
      (i : ℕ) (c : Client) (st : State p)
      → IsServer p max buf_size st
      → i < st.table.clients_num
      → get_elem? st.table.clients i ≡ some c
      → Returns
          (λ _ st'. (st'.table ≡ remove_client i c st.table) × Follows p max buf_size st st')
          (del_client p i st)
  unfolding del_client drop_client pk_sock_close
  del_client-removes i c st v lt e =
      rw (e, Returns)
        (
          refl,
          record {
            shrunk = remove_client-Shrunk max i c st.table v.table lt e;
            udpbuf = refl;
            mac_addr = refl;
            session_id = refl;
          },
        )

  del_client-Follows :
      (i : ℕ) (st : State p)
      → IsServer p max buf_size st
      → i < st.table.clients_num
      → Returns (From st) (del_client p i st)
  del_client-Follows i st v lt =
      let (c, e) = slot-some i st v lt in
      Returns-mono
        (λ _ st'. (st'.table ≡ remove_client i c st.table) × Follows p max buf_size st st')
        (From st) (del_client p i st) (del_client-removes i c st v lt e) (λ _ st' f. f.1)

  -- A send keeps the number of clients.
  abbrev Sent : {A : Type 0} → State p → A → State p → Type 0
  Sent st a st' = Follows p max buf_size st st' × (st'.table.clients_num ≡ st.table.clients_num)

  send_block-Sent :
      (i : ℕ) (blk : List ℕ) (c : Client) (st : State p)
      → IsServer p max buf_size st
      → i < st.table.clients_num
      → get_elem? st.table.clients i ≡ some c
      → Returns (Sent st) (send_block p i blk c st)
  unfolding send_block send_udp
  send_block-Sent i blk c st v lt e = elim (Bool-cases c.udp_flag) [
    | inl udp ↦
        rw (udp, Returns)
          (io-Returns p (Any p.sockets) (Sent st)
            (pk_udp_send p.sockets c.hd c.addr_port
              (take (length blk + 1) (set st.udpbuf 0 c.pack_cnt)))
            (record st { udpbuf = set st.udpbuf 0 c.pack_cnt; table = count_packet i c st.table })
            (pk_udp_send-Returns p.sockets c.hd c.addr_port
              (take (length blk + 1) (set st.udpbuf 0 c.pack_cnt)) st.world)
            (λ r w _. (
              record {
                shrunk = count_packet-Shrunk max i c st.table v.table lt e;
                udpbuf = length-set st.udpbuf 0 c.pack_cnt;
                mac_addr = refl;
                session_id = refl;
              },
              count_packet_num i c st.table,
            )))
    | inr tcp ↦
        rw (tcp, Returns)
          (io-Returns p (Any p.sockets) (Sent st) (pk_tcp_send p.sockets c.hd blk) st
            (pk_tcp_send-Returns p.sockets c.hd blk st.world)
            (λ r w _. (
              record {
                shrunk = Shrunk-refl max st.table v.table;
                udpbuf = refl;
                mac_addr = refl;
                session_id = refl;
              },
              refl,
            )))
  ]

  after_send-Follows :
      (i : ℕ) (r : Option ℕ) (st : State p)
      → IsServer p max buf_size st
      → i < st.table.clients_num
      → Returns (From st) (after_send p i r st)
  unfolding after_send
  after_send-Follows i none st v lt = del_client-Follows i st v lt
  after_send-Follows i (some n) st v lt = Follows-refl p max buf_size st v

  pub serve_slot-Follows :
      (i : ℕ) (blk : List ℕ) (st : State p)
      → IsServer p max buf_size st
      → i < st.table.clients_num
      → Returns (From st) (serve_slot p i blk st)
  unfolding serve_slot
  serve_slot-Follows i blk st v lt =
      let (c, e) = slot-some i st v lt in
      rw (e, Returns)
        (bind-Follows_with p max buf_size (λ _ st'. st'.table.clients_num ≡ st.table.clients_num) st
          (send_block p i blk c st) (after_send p i) v (send_block-Sent i blk c st v lt e)
          (λ r st' v' _ same. after_send-Follows i r st' v' (omega (arith, same))))
