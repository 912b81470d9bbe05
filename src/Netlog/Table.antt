-- ===== src/Netlog/Table.antt =====
-- src/lib/netlog.c: the table of clients, which `clients_mutex` protects. The array keeps its size;
-- the first `clients_num` slots are in use.
pub mod Remove
pub mod Clients
pub mod Invariant
pub mod Shrunk
pub mod Lookup
use vedruino.Base.{
  ℕ, zero, suc, ◌+◌, ◌-◌, ◌%◌, Bool, true, false, Option, none, some, List, [], ◌∷◌, ◌++◌, ◌==◌,
  text_eq, if◌then◌else◌, length, take, drop, set, get_elem?,
}
use vedruino.Ip.Addr.{IpAddr}

-- `pkNetlogClient_t`: `udp.flag` has one bit and `udp.pack_cnt` seven.
pub record Client : Type 0 where
  pub hd : ℕ
  pub addr_str : List ℕ
  pub udp_flag : Bool
  pub pack_cnt : ℕ
  pub addr_port : IpAddr

pub record Table : Type 0 where
  pub clients : List Client
  pub clients_num : ℕ
  pub udp_clients_num : ℕ

-- The loop over `clients` from slot `i` on, with `n` slots in use left.
find_from : List ℕ → List Client → (n i : ℕ) → Option ℕ
find_from addr_str cs zero i = none
find_from addr_str [] (suc n) i = none
find_from addr_str (c ∷ cs) (suc n) i =
    if text_eq addr_str c.addr_str then some i else find_from addr_str cs n (suc i)

-- `none` stands for -1.
unfoldable pub get_client_idx_by_addr_str : List ℕ → Table → Option ℕ
unfolding find_from
get_client_idx_by_addr_str addr_str t = find_from addr_str t.clients t.clients_num 0

unfoldable pub get_free_idx_in_clients : (max_clients : ℕ) → Table → Option ℕ
get_free_idx_in_clients max_clients t =
    if t.clients_num == max_clients then none else some t.clients_num

-- `memmove(xs + dst, xs + src, n * sizeof(*xs))`
abbrev pub memmove {ℓ} : {A : Type ℓ} → List A → (dst src n : ℕ) → List A
memmove xs dst src n = take dst xs ++ (take n (drop src xs) ++ drop (dst + n) xs)

-- What `del_client` does to the table, where slot `i` holds `c`. It also closes the socket of `c`.
unfoldable pub remove_client : (i : ℕ) → Client → Table → Table
remove_client i c t = record {
  clients =
      if i == t.clients_num - 1
      then t.clients
      else memmove t.clients i (i + 1) (t.clients_num - i - 1);
  clients_num = t.clients_num - 1;
  udp_clients_num = if c.udp_flag then t.udp_clients_num - 1 else t.udp_clients_num;
}

-- What `ctl_sub` stores in slot `i`, whose old content is `old`: for a TCP client the packet counter
-- and the address stay as they were.
unfoldable pub store_client : (i hd : ℕ) → Bool → IpAddr → List ℕ → (old : Client) → Table → Table
store_client i hd is_udp log_addr log_addr_str old t = record {
  clients = set t.clients i (
      if is_udp
      then record {
        hd = hd;
        addr_str = log_addr_str;
        udp_flag = true;
        pack_cnt = 0;
        addr_port = log_addr;
      }
      else record old { hd = hd; addr_str = log_addr_str; udp_flag = false });
  clients_num = t.clients_num + 1;
  udp_clients_num = if is_udp then t.udp_clients_num + 1 else t.udp_clients_num;
}

-- `clients[i].udp.pack_cnt++`, in seven bits.
unfoldable pub count_packet : (i : ℕ) → Client → Table → Table
count_packet i c t = record t {
  clients = set t.clients i (record c { pack_cnt = (c.pack_cnt + 1) % 128 });
}
