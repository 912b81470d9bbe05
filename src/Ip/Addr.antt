-- ===== src/Ip/Addr.antt =====
-- src/lib/ip.c and src/lib/ip.h: addresses, their text form, and the byte order of `sockaddr_in`.
pub mod Text
pub mod ByteOrder
use vedruino.Base.{
  ℕ, zero, suc, ◌+◌, ◌-◌, ◌*◌, ◌/◌, ◌%◌, ◌^◌, ◌<◌, List, [], ◌∷◌, ◌++◌, ltb, if◌then◌else◌, take,
}

-- `pkIpAddr_t`: both numbers in the byte order of the machine.
pub record IpAddr : Type 0 where
  pub addr : ℕ
  pub port : ℕ

-- The address fits `uint32_t` and the port `uint16_t`.
pub record IsAddr (a : IpAddr) : Type 0 where
  pub addr_range : a.addr < 2 ^ 32
  pub port_range : a.port < 2 ^ 16

-- `PK_IP_ADDR_STR_LEN`
abbrev pub ip_addr_str_len : ℕ
ip_addr_str_len = 16 + 1 + 6 + 1

-- `PK_IP_BCAST_ADDR`
abbrev pub ip_bcast_addr : ℕ
ip_bcast_addr = 0xffff_ffff

-- What `%d` prints for a number that is not negative: its digits, the last one first found.
decimal_loop : ℕ → ℕ → List ℕ → List ℕ
decimal_loop zero n out = out
decimal_loop (suc f) n out =
    let rest = decimal_loop f (n / 10) ((b'0' + n % 10) ∷ out) in
    if ltb n 10 then (b'0' + n) ∷ out else rest

decimal : ℕ → List ℕ
unfolding decimal_loop
decimal n = decimal_loop (suc n) n []

-- The bytes of the address, the highest first: `(addr.addr & 0xff000000) >> 24` and so on.
abbrev pub addr_byte : ℕ → ℕ → ℕ
addr_byte addr shift = addr / 2 ^ shift % 256

-- The text that the format `"%d.%d.%d.%d:%d"` gives, before `snprintf` cuts it.
format_addr : IpAddr → List ℕ
unfolding decimal
format_addr a =
    decimal (addr_byte a.addr 24)
    ++ b'.'
      ∷ (decimal (addr_byte a.addr 16)
          ++ b'.'
            ∷ (decimal (addr_byte a.addr 8)
                ++ b'.' ∷ (decimal (addr_byte a.addr 0) ++ b':' ∷ decimal a.port)))

-- `snprintf` writes at most one character less than the size of the buffer, and the closing NUL.
unfoldable pub pk_ip_addr2str : IpAddr → List ℕ
unfolding format_addr
pk_ip_addr2str a = take (ip_addr_str_len - 1) (format_addr a)

-- `htons` and `ntohs`, which the network stack has as documented: on a little-endian board, as this one
-- is, the two bytes change places.
abbrev pub htons : ℕ → ℕ
htons x = x % 256 * 256 + x / 256 % 256

-- `htonl` and `ntohl`: the four bytes in the opposite order.
abbrev pub htonl : ℕ → ℕ
htonl x = x % 256 * 2 ^ 24 + x / 2 ^ 8 % 256 * 2 ^ 16 + x / 2 ^ 16 % 256 * 2 ^ 8 + x / 2 ^ 24 % 256

-- `struct sockaddr_in`, whose port and address stand in network order. The family is AF_INET.
pub record SockAddr : Type 0 where
  pub sin_port : ℕ
  pub s_addr : ℕ

unfoldable pub get_sockaddr : IpAddr → SockAddr
get_sockaddr a = record { sin_port = htons a.port; s_addr = htonl a.addr }

-- What `pk_tcp_accept` stores at `out_cl_addr`.
unfoldable pub of_sockaddr : SockAddr → IpAddr
of_sockaddr s = record { addr = htonl s.s_addr; port = htons s.sin_port }
