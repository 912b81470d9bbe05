-- ===== src/Netlog/Flush/Delivered.antt =====
-- The whole of a flush in src/lib/netlog.c, where no send fails: what each client is sent.
use vedruino.Base.{ℕ, ◌≤◌, ◌≡◌, ◌≢◌, List, [], ◌∷◌, ◌++◌, map, if◌then◌else◌, length, ◌==◌, All}
use vedruino.Ip.Stream.Recv.{joined}
use vedruino.Netlog.Table.{Client, Table}
use vedruino.Netlog.Table.Remove.{active}
use vedruino.Netlog.Platform.{Platform, State}
use vedruino.Netlog.Flush.Served.{Sending, IsCarrier, packet, counted}

-- What the clients are sent for some blocks: each block to all of them in turn.
abbrev pub traffic : List Client → List (List ℕ) → List Sending
traffic cs [] = []
traffic cs (b ∷ bs) = map (packet b) cs ++ traffic (map counted cs) bs

-- The clients behind these blocks.
abbrev pub all_counted : List Client → List (List ℕ) → List Client
all_counted cs [] = cs
all_counted cs (b ∷ bs) = all_counted (map counted cs) bs

module _ (p : Platform) (car : IsCarrier p) (buf_size : ℕ) where
  -- The buffer was cut into blocks, which for UDP fit into a packet, and they were sent. Where there is
  -- no client, they went to the UART.
  abbrev pub Delivered : List ℕ → State p → State p → Type 0
  Delivered buf st st' =
      (blocks : List (List ℕ)) × (joined blocks ≡ buf)
      × (st.table.udp_clients_num ≢ 0 → All (λ blk. length blk ≤ buf_size) blocks)
      × (car.log st'.world ≡ car.log st.world ++ traffic (active st.table) blocks)
      × (active st'.table ≡ all_counted (active st.table) blocks)
      × (car.uart st'.world ≡ car.uart st.world ++ (if st.table.clients_num == 0 then buf else []))
