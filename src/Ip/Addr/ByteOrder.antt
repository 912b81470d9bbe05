-- ===== src/Ip/Addr/ByteOrder.antt =====
-- The byte order of `sockaddr_in` (src/lib/ip.c).
use vedruino.Base.{◌≡◌, arith}
use vedruino.Ip.Addr.{IpAddr, IsAddr, get_sockaddr, of_sockaddr}

-- Read back as `pk_tcp_accept` does it, the socket address that `get_sockaddr` makes of an address
-- and port in range is that address and port.
pub of_sockaddr-get_sockaddr : (a : IpAddr) → IsAddr a → of_sockaddr (get_sockaddr a) ≡ a
unfolding of_sockaddr get_sockaddr
of_sockaddr-get_sockaddr a h = ground arith
