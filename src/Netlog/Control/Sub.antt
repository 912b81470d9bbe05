-- ===== src/Netlog/Control/Sub.antt =====
-- `ctl_sub` of src/lib/netlog.c: what it does to the table, with other tasks printing meanwhile.
use vedruino.Base.{
  ℕ, ◌<◌, ◌≡◌, refl, Bool, true, false, Option, none, some, List, [], ◌∷◌, ◌++◌, arith, text_eq, M,
  ◌>>=◌, Returns, bind-Returns, Returns-mono,
}
use vedruino.Ip.Addr.{IpAddr}
use vedruino.Ip.Handles.{pk_tcp_client, pk_udp_client, pk_tcp_connect}
use vedruino.Ip.Handles.Keeps.{pk_udp_client-Returns, pk_tcp_client-Returns, pk_tcp_connect-Returns}
use vedruino.Netlog.Table.{Client, get_client_idx_by_addr_str, get_free_idx_in_clients}
use vedruino.Netlog.Table.Remove.{active}
use vedruino.Netlog.Table.Invariant.{
  new_client, new_client_addr, active-store_client, store_client-IsTable,
}
use vedruino.Netlog.Table.Shrunk.{Absent, get_elem?-some}
use vedruino.Netlog.Table.Lookup.{get_client_idx-none, get_free_idx-some, get_free_idx-below}
use vedruino.Netlog.Platform.{Platform, State, io}
use vedruino.Netlog.Rules.{io_bind-Returns}
use vedruino.Netlog.Follows.{
  IsServer, Follows, Follows-refl, Follows-trans, IsServer-Follows, IsServer-world, Follows-world,
}
use vedruino.Netlog.Flush.{print_all}
use vedruino.Netlog.Flush.Keeps.{print_all-Follows}
use vedruino.Netlog.Control.{
  NetlogResp, netlog_ok, ok_ignored, err_internal, err_malformed_req, err_clients_limit,
  err_tcp_connect, proto_udp, proto_tcp, add_client, subscribe, open_udp, connected, open_tcp,
  open_client, with_free, if_new, ctl_sub,
}

module _ (p : Platform) (max buf_size : ℕ) (s : List ℕ) where
  -- What `ctl_sub` answers, and how the state has changed. With PK_NETLOG_OK one client with the address
  -- has come behind those that have stayed, and the invariant holds; else clients have left at most.
  pub Added : State p → NetlogResp → State p → Type 0
  Added st netlog_ok st' =
      (u : State p) × (c : Client) × Follows p max buf_size st u
      × (active st'.table ≡ active u.table ++ c ∷ [])
      × (c.addr_str ≡ s)
      × IsServer p max buf_size st'
  Added st ok_ignored st' = Follows p max buf_size st st'
  Added st err_internal st' = Follows p max buf_size st st'
  Added st err_malformed_req st' = Follows p max buf_size st st'
  Added st err_clients_limit st' = Follows p max buf_size st st'
  Added st err_tcp_connect st' = Follows p max buf_size st st'

  Added-trans :
      (st u st' : State p) (r : NetlogResp)
      → Follows p max buf_size st u
      → Added u r st'
      → Added st r st'
  unfolding Added
  Added-trans st u st' netlog_ok f (v, c, g, last, addr, server) =
      (v, c, Follows-trans p max buf_size st u v f g, last, addr, server)
  Added-trans st u st' ok_ignored f g = Follows-trans p max buf_size st u st' f g
  Added-trans st u st' err_internal f g = Follows-trans p max buf_size st u st' f g
  Added-trans st u st' err_malformed_req f g = Follows-trans p max buf_size st u st' f g
  Added-trans st u st' err_clients_limit f g = Follows-trans p max buf_size st u st' f g
  Added-trans st u st' err_tcp_connect f g = Follows-trans p max buf_size st u st' f g

  pub IsServer-Added :
      (st st' : State p) (r : NetlogResp)
      → IsServer p max buf_size st
      → Added st r st'
      → IsServer p max buf_size st'
  unfolding Added
  IsServer-Added st st' netlog_ok v (u, c, f, last, addr, server) = server
  IsServer-Added st st' ok_ignored v f = IsServer-Follows p max buf_size st st' v f
  IsServer-Added st st' err_internal v f = IsServer-Follows p max buf_size st st' v f
  IsServer-Added st st' err_malformed_req v f = IsServer-Follows p max buf_size st st' v f
  IsServer-Added st st' err_clients_limit v f = IsServer-Follows p max buf_size st st' v f
  IsServer-Added st st' err_tcp_connect v f = IsServer-Follows p max buf_size st st' v f

  Follows-of_world :
      (st : State p) (w : p.World)
      → IsServer p max buf_size st
      → Follows p max buf_size st (record st { world = w })
  Follows-of_world st w v =
      Follows-world p max buf_size st (record st { world = w }) w
        (Follows-refl p max buf_size _ (IsServer-world p max buf_size st w v))

  -- Behind a call that changes the world alone.
  world-Added :
      {A : Type 0} (m : M p.World A) (k : A → M (State p) NetlogResp) (st : State p)
      → IsServer p max buf_size st
      → Returns (λ _ w. Unit {0}) (m st.world)
      → ((a : A) (w : p.World)
          → Returns (Added (record st { world = w })) (k a (record st { world = w })))
      → Returns (Added st) ((io p m >>= k) st)
  world-Added m k st v h next = io_bind-Returns p (Added st) m k st h (λ a w.
      Returns-mono (Added (record st { world = w })) (Added st) (k a (record st { world = w }))
        (next a w) (λ r st' g. Added-trans st _ st' r (Follows-of_world st w v) g))

  module _ (printed : ℕ → List (List ℕ)) (log_addr : IpAddr) (pos : 0 < buf_size) where
    -- Before the socket is made: a slot is free, and the address is not in use.
    record IsReady (st : State p) : Type 0 where
      server : IsServer p max buf_size st
      free : st.table.clients_num < max
      absent : Absent s st.table

    IsReady-world : (st : State p) (w : p.World) → IsReady st → IsReady (record st { world = w })
    IsReady-world st w r = record {
      server = IsServer-world p max buf_size st w r.server;
      free = r.free;
      absent = r.absent;
    }

    IsReady-Follows : (st u : State p) → IsReady st → Follows p max buf_size st u → IsReady u
    IsReady-Follows st u r f = record {
      server = IsServer-Follows p max buf_size st u r.server f;
      free = omega (arith, r.free, f.shrunk.no_more);
      absent = f.shrunk.no_new s r.absent;
    }

    add_client-Added :
        (is_udp : Bool) (hd : ℕ) (st : State p)
        → IsReady st
        → Returns (Added st) (
            add_client p max buf_size printed log_addr s is_udp hd
              (get_free_idx_in_clients max st.table)
              st)
    unfolding add_client Added
    add_client-Added is_udp hd st r =
        let (old, at) =
          get_elem?-some st.table.clients st.table.clients_num
            (omega (arith, r.free, r.server.table.slots)) in
        rw (get_free_idx-below max st.table r.free, add_client, at, Returns)
          (
            st,
            new_client hd is_udp log_addr s old,
            Follows-refl p max buf_size st r.server,
            active-store_client hd is_udp log_addr s old st.table
                (omega (arith, r.free, r.server.table.slots)),
            new_client_addr hd is_udp log_addr s old,
            record {
              table =
                  store_client-IsTable max hd is_udp log_addr s old st.table r.server.table r.free
                    at r.absent;
              udpbuf = r.server.udpbuf;
            },
          )

    subscribe-Added :
        (is_udp : Bool) (hd : ℕ) (st : State p)
        → IsReady st
        → Returns (Added st) (subscribe p max buf_size printed log_addr s is_udp hd st)
    unfolding subscribe
    subscribe-Added is_udp hd st r =
        bind-Returns (λ _ u. Follows p max buf_size st u) (Added st)
          (print_all p buf_size (printed 1) st) _
          (print_all-Follows p max buf_size (printed 1) st pos r.server)
          (λ _ u f.
            Returns-mono (Added u) (Added st) _
              (add_client-Added is_udp hd u (IsReady-Follows st u r f))
              (λ a st' g. Added-trans st u st' a f g))

    open_udp-Added :
        (r : Option ℕ) (st : State p)
        → IsReady st
        → Returns (Added st) (open_udp p max buf_size printed log_addr s r st)
    unfolding open_udp Added
    open_udp-Added none st r = Follows-refl p max buf_size st r.server
    open_udp-Added (some hd) st r = subscribe-Added true hd st r

    connected-Added :
        (hd : ℕ) (ok : Bool) (st : State p)
        → IsReady st
        → Returns (Added st) (connected p max buf_size printed log_addr s hd ok st)
    unfolding connected Added
    connected-Added hd true st r = subscribe-Added false hd st r
    connected-Added hd false st r = Follows-refl p max buf_size st r.server

    open_tcp-Added :
        (r : Option ℕ) (st : State p)
        → IsReady st
        → Returns (Added st) (open_tcp p max buf_size printed log_addr s r st)
    unfolding open_tcp Added
    open_tcp-Added none st r = Follows-refl p max buf_size st r.server
    open_tcp-Added (some hd) st r =
        world-Added (pk_tcp_connect p.sockets hd log_addr)
          (connected p max buf_size printed log_addr s hd) st r.server
          (pk_tcp_connect-Returns p.sockets hd log_addr st.world)
          (λ ok w. connected-Added hd ok (record st { world = w }) (IsReady-world st w r))

    open_client-Added :
        (is_udp is_tcp : Bool) (st : State p)
        → IsReady st
        → Returns (Added st) (open_client p max buf_size printed log_addr s is_udp is_tcp st)
    unfolding open_client Added
    open_client-Added true is_tcp st r =
        world-Added (pk_udp_client p.sockets) (open_udp p max buf_size printed log_addr s) st
          r.server (pk_udp_client-Returns p.sockets st.world)
          (λ hd w. open_udp-Added hd (record st { world = w }) (IsReady-world st w r))
    open_client-Added false true st r =
        world-Added (pk_tcp_client p.sockets) (open_tcp p max buf_size printed log_addr s) st
          r.server (pk_tcp_client-Returns p.sockets st.world)
          (λ hd w. open_tcp-Added hd (record st { world = w }) (IsReady-world st w r))
    open_client-Added false false st r = Follows-refl p max buf_size st r.server

    with_free-Added :
        (proto : List ℕ) (free : Option ℕ) (st : State p)
        → IsServer p max buf_size st
        → Absent s st.table
        → get_free_idx_in_clients max st.table ≡ free
        → Returns (Added st) (with_free p max buf_size printed proto log_addr s free st)
    unfolding with_free Added
    with_free-Added proto none st v absent e = Follows-refl p max buf_size st v
    with_free-Added proto (some i) st v absent e =
        open_client-Added (text_eq proto proto_udp) (text_eq proto proto_tcp) st (record {
          server = v;
          free = (get_free_idx-some max i st.table e v.table.in_use).1;
          absent = absent;
        })

    if_new-Added :
        (proto : List ℕ) (known : Option ℕ) (st : State p)
        → IsServer p max buf_size st
        → get_client_idx_by_addr_str s st.table ≡ known
        → Returns (Added st) (if_new p max buf_size printed proto log_addr s known st)
    unfolding if_new Added
    if_new-Added proto (some i) st v e = Follows-refl p max buf_size st v
    if_new-Added proto none st v e =
        bind-Returns (λ _ u. Follows p max buf_size st u) (Added st)
          (print_all p buf_size (printed 0) st) _
          (print_all-Follows p max buf_size (printed 0) st pos v)
          (λ _ u f.
            Returns-mono (Added u) (Added st)
              (with_free p max buf_size printed proto log_addr s
                (get_free_idx_in_clients max u.table) u)
              (with_free-Added proto (get_free_idx_in_clients max u.table) u
                (IsServer-Follows p max buf_size st u v f)
                (f.shrunk.no_new s (get_client_idx-none s st.table e)) refl)
              (λ a st' g. Added-trans st u st' a f g))

    -- Begun with the invariant of the server, and where a packet holds a byte besides its first,
    -- `ctl_sub` returns, whatever other tasks print meanwhile: its assertion does not fail. If it
    -- answers PK_NETLOG_OK, one client with the given address stands behind the others, no other
    -- client has a new address, and the invariant holds; if it answers anything else, there are no
    -- more clients than before, none has a new address, and the invariant holds.
    pub ctl_sub-Added :
        (proto : List ℕ) (st : State p)
        → IsServer p max buf_size st
        → Returns (Added st) (ctl_sub p max buf_size printed proto log_addr s st)
    unfolding ctl_sub
    ctl_sub-Added proto st v = if_new-Added proto (get_client_idx_by_addr_str s st.table) st v refl
