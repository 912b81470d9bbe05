-- ===== src/Netlog/Flush/Keeps.antt =====
-- `stdout_flush` of src/lib/netlog.c returns, and keeps the invariant of the server.
use vedruino.Base.{
  ℕ, zero, suc, ◌+◌, ◌≤◌, ◌<◌, ◌≡◌, refl, ◌⊎◌, inl, inr, true, false, List, [], ◌∷◌, ◌++◌, arith,
  ltb, ltb→lt, ◌==◌, ==_iff, Bool-cases, if◌then◌else◌, length, take, drop, min, ◌>>◌,
  length-append, length-take, length-drop, pure, modify, Returns, bind-Returns, Returns-mono,
}
use vedruino.Netlog.Table.{Table}
use vedruino.Netlog.Table.Shrunk.{Shrunk-refl}
use vedruino.Netlog.Follows.{IsServer, Follows, Follows-refl, bind-Follows, bind-Follows_with}
use vedruino.Netlog.Platform.{Platform, State}
use vedruino.Netlog.Flush.Slot.{serve_slot-Follows}
use vedruino.Netlog.Flush.{
  serve_slot, client_loop, block_size, fill_udpbuf, to_uart, flush_block, flush_loop,
  flush_with_shstack, stdout_flush, print_all,
}

module _ (p : Platform) (max buf_size : ℕ) where
  abbrev From : {A : Type 0} → State p → A → State p → Type 0
  From st _ st' = Follows p max buf_size st st'

  client_loop-Follows :
      (blk : List ℕ) (f i : ℕ) (st : State p)
      → IsServer p max buf_size st
      → 0 < f
      → st.table.clients_num < f + i
      → Returns (From st) (client_loop p blk f i st)
  unfolding client_loop
  client_loop-Follows blk zero i st v pos fuel = absurd (omega arith)
  client_loop-Follows blk (suc f) i st v pos fuel = elim (Bool-cases (ltb i st.table.clients_num)) [
    | inr over ↦ rw (over, Returns) (Follows-refl p max buf_size st v)
    | inl more ↦
        rw (more, Returns)
          (bind-Follows p max buf_size st (serve_slot p i blk st) (λ _. client_loop p blk f (suc i))
            v (serve_slot-Follows p max buf_size i blk st v (ltb→lt _ _ more))
            (λ _ st' v' s.
              client_loop-Follows blk f (suc i) st' v'
                (let lt : i < st.table.clients_num = ltb→lt _ _ more in omega arith)
                (omega (arith, s.shrunk.no_more))))
  ]

  to_uart-Follows :
      (blk : List ℕ) (st : State p)
      → IsServer p max buf_size st
      → Returns (From st) (to_uart p blk st)
  unfolding to_uart
  to_uart-Follows blk st v = elim (Bool-cases (st.table.clients_num == 0)) [
    | inr some_left ↦ rw (some_left, Returns) (Follows-refl p max buf_size st v)
    | inl empty ↦
        rw (empty, Returns)
          (record {
            shrunk = Shrunk-refl max st.table v.table;
            udpbuf = refl;
            mac_addr = refl;
            session_id = refl;
          })
  ]

  -- The block fits into the packet buffer behind its first byte.
  pub length-filled :
      (blk udpbuf : List ℕ)
      → length udpbuf ≡ 1 + buf_size
      → length blk ≤ buf_size
      → length (take 1 udpbuf ++ (blk ++ drop (1 + length blk) udpbuf)) ≡ length udpbuf
  length-filled blk udpbuf e le = omega (
    arith,
    length-append (take 1 udpbuf) (blk ++ drop (1 + length blk) udpbuf),
    length-append blk (drop (1 + length blk) udpbuf),
    length-take 1 udpbuf,
    length-drop (1 + length blk) udpbuf,
  )

  abbrev Fits : List ℕ → State p → Type 0
  Fits blk st = (st.table.udp_clients_num ≡ 0) ⊎ (length blk ≤ buf_size)

  fill_udpbuf-Follows :
      (blk : List ℕ) (st : State p)
      → IsServer p max buf_size st
      → Fits blk st
      → Returns
          (λ _ st'. Follows p max buf_size st st' × (st'.table ≡ st.table))
          (fill_udpbuf p blk st)
  unfolding fill_udpbuf
  fill_udpbuf-Follows blk st v fits = (
    record {
      shrunk = Shrunk-refl max st.table v.table;
      udpbuf = kept fits (Bool-cases (st.table.udp_clients_num == 0));
      mac_addr = refl;
      session_id = refl;
    },
    refl,
  )
    where
      kept :
          Fits blk st
          → ((st.table.udp_clients_num == 0) ≡ true) ⊎ ((st.table.udp_clients_num == 0) ≡ false)
          → length (
              if st.table.udp_clients_num == 0
              then st.udpbuf
              else take 1 st.udpbuf ++ (blk ++ drop (1 + length blk) st.udpbuf))
            ≡ length st.udpbuf
      kept fit (inl e) = rw e refl
      kept (inl none_udp) (inr e) = absurd (ground (arith, none_udp, e))
      kept (inr le) (inr e) = rw e (length-filled blk st.udpbuf v.udpbuf le)

  flush_block-Follows :
      (blk : List ℕ) (st : State p)
      → IsServer p max buf_size st
      → Fits blk st
      → Returns (From st) (flush_block p blk st)
  unfolding flush_block
  flush_block-Follows blk st v fits =
      bind-Follows p max buf_size st
        ((fill_udpbuf p blk >> client_loop p blk (suc st.table.clients_num) 0) st)
        (λ _. to_uart p blk) v
        (bind-Follows_with p max buf_size (λ _ st'. st'.table ≡ st.table) st (fill_udpbuf p blk st)
          (λ _. client_loop p blk (suc st.table.clients_num) 0) v
          (fill_udpbuf-Follows blk st v fits)
          (λ _ st' v' _ same.
            client_loop-Follows blk (suc st.table.clients_num) 0 st' v' (omega arith)
              (rw same (omega arith))))
        (λ _ st' v' _. to_uart-Follows blk st' v')

  block_size-Fits :
      (left : List ℕ) (st : State p)
      → Fits (take (block_size buf_size (length left) st.table) left) st
  block_size-Fits left st = elim (Bool-cases (st.table.udp_clients_num == 0)) [
    | inl none_udp ↦ inl ((==_iff _ _).0 none_udp)
    | inr e ↦ inr (rw e (omega (arith, length-take (min (length left) buf_size) left)))
  ]

  pub block_size_pos : (n : ℕ) (t : Table) → 0 < buf_size → 0 < block_size buf_size (suc n) t
  block_size_pos n t pos = ground (arith, pos)

  flush_loop-Follows :
      (f : ℕ) (left : List ℕ) (st : State p)
      → 0 < buf_size
      → IsServer p max buf_size st
      → length left ≤ f
      → Returns (From st) (flush_loop p buf_size f left st)
  unfolding flush_loop
  flush_loop-Follows f [] st pos v le = Follows-refl p max buf_size st v
  flush_loop-Follows zero (b ∷ left) st pos v le = absurd (omega arith)
  flush_loop-Follows (suc f) (b ∷ left) st pos v le =
      bind-Follows p max buf_size st (flush_block p (take n (b ∷ left)) st)
        (λ _. flush_loop p buf_size f (drop n (b ∷ left))) v
        (flush_block-Follows (take n (b ∷ left)) st v (block_size-Fits (b ∷ left) st))
        (λ _ st' v' _. flush_loop-Follows f (drop n (b ∷ left)) st' pos v' shorter)
    where
      n : ℕ
      n = block_size buf_size (length (b ∷ left)) st.table

      shorter : length (drop n (b ∷ left)) ≤ f
      shorter =
          let some_sent : 0 < n = block_size_pos (length left) st.table pos in
          omega (arith, length-drop n (b ∷ left))

  -- Behind a call, `stdout` is `netlogout`.
  abbrev pub Flushed : {A : Type 0} → State p → A → State p → Type 0
  Flushed st a st' = Follows p max buf_size st st' × (st'.to_netlog ≡ true)

  flush_with_shstack-Flushed :
      (buf : List ℕ) (st : State p)
      → 0 < buf_size
      → IsServer p max buf_size st
      → Returns (Flushed st) (flush_with_shstack p buf_size buf st)
  unfolding flush_with_shstack
  flush_with_shstack-Flushed buf st pos v =
      bind-Returns (From uart) (Flushed st) (flush_loop p buf_size (length buf) buf uart)
        (λ _. modify (λ st'. record st' { to_netlog = true }))
        (flush_loop-Follows (length buf) buf uart pos
          (record { table = v.table; udpbuf = v.udpbuf }) (omega arith))
        (λ _ st' f. (
          record {
            shrunk = f.shrunk;
            udpbuf = f.udpbuf;
            mac_addr = f.mac_addr;
            session_id = f.session_id;
          },
          refl,
        ))
    where
      uart : State p
      uart = record st { to_netlog = false }

  -- Begun with the invariant of the server, and where a packet holds a byte besides its first,
  -- `stdout_flush` returns the number of bytes that it was given. Then the invariant of the table
  -- holds, there are no more clients than before and none has a new address, the packet buffer has
  -- kept its size, and `stdout` is `netlogout`.
  pub stdout_flush-Flushed :
      (buf : List ℕ) (st : State p)
      → 0 < buf_size
      → IsServer p max buf_size st
      → Returns (λ n st'. (n ≡ length buf) × Flushed st n st') (stdout_flush p buf_size buf st)
  unfolding stdout_flush
  stdout_flush-Flushed buf st pos v =
      bind-Returns (Flushed st) (λ n st'. (n ≡ length buf) × Flushed st n st')
        (flush_with_shstack p buf_size buf st) (λ _. pure (length buf))
        (flush_with_shstack-Flushed buf st pos v) (λ _ st' f. (refl, f))

  -- So behind all that other tasks print.
  pub print_all-Follows :
      (bufs : List (List ℕ)) (st : State p)
      → 0 < buf_size
      → IsServer p max buf_size st
      → Returns (From st) (print_all p buf_size bufs st)
  unfolding print_all
  print_all-Follows [] st pos v = Follows-refl p max buf_size st v
  print_all-Follows (buf ∷ bufs) st pos v =
      bind-Follows p max buf_size st (stdout_flush p buf_size buf st)
        (λ _. print_all p buf_size bufs) v
        (Returns-mono (λ n st'. (n ≡ length buf) × Flushed st n st') (From st)
          (stdout_flush p buf_size buf st) (stdout_flush-Flushed buf st pos v) (λ _ st' f. f.1.0))
        (λ _ st' v' _. print_all-Follows bufs st' pos v')
