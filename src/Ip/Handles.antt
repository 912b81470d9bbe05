-- ===== src/Ip/Handles.antt =====
-- src/lib/ip.c: the calls that make, connect, accept and close a socket. `none` stands for
-- PK_SOCKERR, and log messages are left out.
pub mod Keeps
use vedruino.Base.{ℕ, Bool, true, false, Option, none, some, M, pure, ◌>>=◌, call}
use vedruino.Ip.Addr.{IpAddr, htons, get_sockaddr, of_sockaddr}
use vedruino.Ip.Sockets.{Sockets, SockType, stream, dgram}

module _ (s : Sockets) where
  if_bound : (hd : ℕ) → Bool → M s.World (Option ℕ)
  if_bound hd true = pure (some hd)
  if_bound hd false = pure none

  bind_to : (port : ℕ) → Option ℕ → M s.World (Option ℕ)
  unfolding if_bound
  bind_to port none = pure none
  bind_to port (some hd) =
      call (s.bind hd (record { sin_port = htons port; s_addr = 0 })) >>= if_bound hd

  -- Bound to the port, on every address of the board (INADDR_ANY).
  create_srv_sock : (port : ℕ) → SockType → M s.World (Option ℕ)
  unfolding bind_to
  create_srv_sock port type = call (s.socket type) >>= bind_to port

  listen_on : (backlog : ℕ) → Option ℕ → M s.World (Option ℕ)
  unfolding if_bound
  listen_on backlog none = pure none
  listen_on backlog (some hd) = call (s.listen hd backlog) >>= if_bound hd

  unfoldable pub pk_tcp_server : (port backlog : ℕ) → M s.World (Option ℕ)
  unfolding create_srv_sock listen_on
  pk_tcp_server port backlog = create_srv_sock port stream >>= listen_on backlog

  unfoldable pub pk_udp_server : (port : ℕ) → M s.World (Option ℕ)
  unfolding create_srv_sock
  pk_udp_server port = create_srv_sock port dgram

  -- `handle_client`
  handle_client : SockType → M s.World (Option ℕ)
  handle_client type = call (s.socket type)

  unfoldable pub pk_tcp_client : M s.World (Option ℕ)
  unfolding handle_client
  pk_tcp_client = handle_client stream

  unfoldable pub pk_udp_client : M s.World (Option ℕ)
  unfolding handle_client
  pk_udp_client = handle_client dgram

  unfoldable pub pk_tcp_connect : (chd : ℕ) → IpAddr → M s.World Bool
  pk_tcp_connect chd srv_addr = call (s.connect chd (get_sockaddr srv_addr))

  -- The handle of the connection, and the address of the client.
  unfoldable pub pk_tcp_accept : (shd : ℕ) → M s.World (Option (ℕ × IpAddr))
  pk_tcp_accept shd = call (s.accept shd) >>= λ r. elim r [
    | none ↦ pure none
    | some (chd, saddr) ↦ pure (some (chd, of_sockaddr saddr))
  ]

  unfoldable pub pk_sock_close : (hd : ℕ) → M s.World Bool
  pk_sock_close hd = call (s.close hd)
