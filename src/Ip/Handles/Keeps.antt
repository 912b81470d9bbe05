-- ===== src/Ip/Handles/Keeps.antt =====
-- What the socket calls keep, `pk_tcp_server` of src/lib/ip.c keeps.
use vedruino.Base.{
  ◌≡◌, inl, inr, Option-cases, ℕ, Bool, true, false, Option, none, some, Returns, bind-Returns,
}
use vedruino.Ip.Addr.{SockAddr}
use vedruino.Ip.Sockets.{Sockets, SockType}
use vedruino.Ip.Addr.{IpAddr}
use vedruino.Ip.Handles.{
  pk_tcp_accept, pk_udp_client, handle_client, pk_tcp_client, pk_tcp_connect, pk_sock_close,
  if_bound, bind_to, create_srv_sock, listen_on, pk_tcp_server,
}

module _ (s : Sockets) (I : s.World → Type 0)
    (socket_keeps : (t : SockType) (w : s.World) → I w → I (s.socket t w).1)
    (bind_keeps : (fd : ℕ) (a : SockAddr) (w : s.World) → I w → I (s.bind fd a w).1)
    (listen_keeps : (fd n : ℕ) (w : s.World) → I w → I (s.listen fd n w).1) where
  if_bound-keeps :
      (hd : ℕ) (ok : Bool) (w : s.World) → I w → Returns (λ _ v. I v) (if_bound s hd ok w)
  unfolding if_bound
  if_bound-keeps hd true w i = i
  if_bound-keeps hd false w i = i

  bind_to-keeps :
      (port : ℕ) (r : Option ℕ) (w : s.World) → I w → Returns (λ _ v. I v) (bind_to s port r w)
  unfolding bind_to
  bind_to-keeps port none w i = i
  bind_to-keeps port (some hd) w i = if_bound-keeps hd _ _ (bind_keeps hd _ w i)

  listen_on-keeps :
      (backlog : ℕ) (r : Option ℕ) (w : s.World)
      → I w
      → Returns (λ _ v. I v) (listen_on s backlog r w)
  unfolding listen_on
  listen_on-keeps backlog none w i = i
  listen_on-keeps backlog (some hd) w i = if_bound-keeps hd _ _ (listen_keeps hd backlog w i)

  pub pk_tcp_server-keeps :
      (port backlog : ℕ) (w : s.World) → I w → Returns (λ _ v. I v) (pk_tcp_server s port backlog w)
  unfolding pk_tcp_server
  pk_tcp_server-keeps port backlog w i =
      bind-Returns (λ _ v. I v) (λ _ v. I v) (create_srv_sock s port SockType.stream w) _
        (bind_to-keeps port (s.socket SockType.stream w).0 (s.socket SockType.stream w).1
          (socket_keeps SockType.stream w i))
        (λ r v j. listen_on-keeps backlog r v j)

-- The calls that make and connect a socket return.
module _ (s : Sockets) where
  pub pk_udp_client-Returns : (w : s.World) → Returns (λ _ v. Unit {0}) (pk_udp_client s w)
  unfolding pk_udp_client handle_client
  pk_udp_client-Returns w = tt

  pub pk_tcp_client-Returns : (w : s.World) → Returns (λ _ v. Unit {0}) (pk_tcp_client s w)
  unfolding pk_tcp_client handle_client
  pk_tcp_client-Returns w = tt

  pub pk_tcp_connect-Returns :
      (fd : ℕ) (a : IpAddr) (w : s.World) → Returns (λ _ v. Unit {0}) (pk_tcp_connect s fd a w)
  unfolding pk_tcp_connect
  pk_tcp_connect-Returns fd a w = tt

  pub pk_sock_close-Returns :
      (fd : ℕ) (w : s.World) → Returns (λ _ v. Unit {0}) (pk_sock_close s fd w)
  unfolding pk_sock_close
  pk_sock_close-Returns fd w = tt

  -- `pk_tcp_accept` fails just where `accept` does.
  pub pk_tcp_accept-Returns :
      (fd : ℕ) (w : s.World)
      → Returns (λ r _. r ≡ none → (s.accept fd w).0 ≡ none) (pk_tcp_accept s fd w)
  unfolding pk_tcp_accept
  pk_tcp_accept-Returns fd w = elim (Option-cases (s.accept fd w).0) [
    | inl e ↦ rw (e, Returns) (λ _. e)
    | inr (c, e) ↦ rw (e, Returns) (λ z. cc)
  ]
