-- ===== src/Netlog/Flush/Blocks.antt =====
-- All clients are served with one block in `flush_with_shstack` of src/lib/netlog.c, where no send fails.
use mathlib.Core.List.{append_assoc, append-nil, map-append}
use mathlib.Core.Path.{subst}
use vedruino.Base.{
  ℕ, zero, suc, ◌+◌, ◌≤◌, ◌<◌, ◌≡◌, refl, sym, ap, ◌∙◌, ◌⊎◌, inl, inr, true, false, List, [], ◌∷◌,
  ◌++◌, map, arith, ltb, Bool-cases, if◌then◌else◌, length, take, drop, length-append, length-take,
  ◌==◌, ==_iff, ◌>>◌, Returns, bind-Returns, Returns-mono,
}
use vedruino.Netlog.Table.{Client, Table}
use vedruino.Netlog.Table.Remove.{active}
use vedruino.Netlog.Table.Clients.{udp_count}
use vedruino.Netlog.Platform.{Platform, State}
use vedruino.Netlog.Flush.Served.{IsCarrier, packet, counted, Filled, Served, serve_slot-Served}
use vedruino.Netlog.Flush.Keeps.{length-filled}
use vedruino.Netlog.Flush.{serve_slot, client_loop, fill_udpbuf, to_uart, flush_block}

module _ (p : Platform) (car : IsCarrier p) where
  Served-trans :
      (blk : List ℕ) (cs ds mid now : List Client) (a b c : State p)
      → Served p car blk cs mid a b
      → Served p car blk ds now b c
      → Served p car blk (cs ++ ds) now a c
  Served-trans blk cs ds mid now a b c f g = record {
    sent =
        g.sent
        ∙ ap (λ l. l ++ map (packet blk) ds) f.sent
        ∙ append_assoc (car.log a.world) (map (packet blk) cs) (map (packet blk) ds)
        ∙ ap (◌++◌ (car.log a.world)) (sym (map-append (packet blk) cs ds));
    uart = g.uart ∙ f.uart;
    in_use = g.in_use;
    num = g.num ∙ f.num;
    udp_num = g.udp_num ∙ f.udp_num;
    slots = g.slots ∙ f.slots;
    udpbuf = g.udpbuf ∙ f.udpbuf;
    filled = λ z. g.filled (f.filled z);
  }

  -- The packet buffer holds the block, unless no UDP client is left to serve.
  abbrev Prepared : List ℕ → List Client → State p → Type 0
  Prepared blk rest st = (udp_count rest ≡ 0) ⊎ Filled p car blk st.udpbuf

  -- What is needed to serve the next client, and the ones behind it.
  first_udp :
      (blk : List ℕ) (c : Client) (post : List Client) (st : State p)
      → Prepared blk (c ∷ post) st
      → c.udp_flag ≡ true
      → Filled p car blk st.udpbuf
  unfolding udp_count
  first_udp blk c post st (inl z) udp = absurd (ground (arith, z, udp))
  first_udp blk c post st (inr f) udp = f

  rest_Prepared :
      (blk : List ℕ) (c : Client) (post now cs : List Client) (st st' : State p)
      → Prepared blk (c ∷ post) st
      → Served p car blk cs now st st'
      → Prepared blk post st'
  unfolding udp_count
  rest_Prepared blk c post now cs st st' (inl z) s = inl (omega (arith, z))
  rest_Prepared blk c post now cs st st' (inr f) s = inr (s.filled f)

  client_loop-Served :
      (blk : List ℕ) (rest pre : List Client) (f i : ℕ) (st : State p)
      → active st.table ≡ pre ++ rest
      → i ≡ length pre
      → st.table.clients_num ≡ length pre + length rest
      → length rest < f
      → Prepared blk rest st
      → Returns
          (λ _ st'. Served p car blk rest (pre ++ map counted rest) st st')
          (client_loop p blk f i st)
  unfolding client_loop
  client_loop-Served blk rest pre zero i st e at n fuel h = absurd (omega arith)
  client_loop-Served blk [] pre (suc f) i st e at n fuel h =
      let over : ltb i st.table.clients_num ≡ false = ground (arith, at, n) in
      rw (over, Returns)
        record {
          sent = sym (append-nil (car.log st.world));
          uart = refl;
          in_use = e;
          num = refl;
          udp_num = refl;
          slots = refl;
          udpbuf = refl;
          filled = λ z. z;
        }
  client_loop-Served blk (c ∷ post) pre (suc f) i st e at n fuel h =
      let more : ltb i st.table.clients_num ≡ true = ground (arith, at, n) in
      rw (more, Returns)
        (bind-Returns (λ _ st'. Served p car blk (c ∷ []) (pre ++ counted c ∷ post) st st')
          (λ _ st'. Served p car blk (c ∷ post) (pre ++ map counted (c ∷ post)) st st')
          (serve_slot p i blk st) (λ _. client_loop p blk f (suc i))
          (subst
            (λ k.
              Returns (λ _ st'. Served p car blk (c ∷ []) (pre ++ counted c ∷ post) st st')
                (serve_slot p k blk st))
            (sym at) (serve_slot-Served p car blk pre post c st e (first_udp blk c post st h)))
          (λ u st' s.
            Returns-mono
              (λ _ v. Served p car blk post ((pre ++ counted c ∷ []) ++ map counted post) st' v)
              (λ _ v. Served p car blk (c ∷ post) (pre ++ map counted (c ∷ post)) st v)
              (client_loop p blk f (suc i) st')
              (client_loop-Served blk post (pre ++ counted c ∷ []) f (suc i) st'
                (s.in_use ∙ sym (append_assoc pre (counted c ∷ []) post))
                (omega (arith, at, length-append pre (counted c ∷ [])))
                (omega (arith, s.num, n, length-append pre (counted c ∷ []))) (omega arith)
                (rest_Prepared blk c post _ _ st st' h s))
              (λ _ v t.
                subst (λ now. Served p car blk (c ∷ post) now st v)
                  (append_assoc pre (counted c ∷ []) (map counted post))
                  (Served-trans blk (c ∷ []) post _ _ st st' v s t))))

  -- The table and the packet buffer fit to each other, as between two blocks.
  pub record Ready (buf_size : ℕ) (st : State p) : Type 0 where
    pub udp : st.table.udp_clients_num ≡ udp_count (active st.table)
    pub udpbuf : length st.udpbuf ≡ 1 + buf_size
    pub slots : st.table.clients_num ≤ length st.table.clients

  udp_count-counted : (cs : List Client) → udp_count (map counted cs) ≡ udp_count cs
  unfolding udp_count
  udp_count-counted [] = refl
  udp_count-counted (c ∷ cs) = ground (arith, udp_count-counted cs)

  abbrev pub FitsIn : ℕ → Table → List ℕ → Type 0
  FitsIn buf_size t blk = (t.udp_clients_num ≡ 0) ⊎ (length blk ≤ buf_size)

  fill_udpbuf-Prepared :
      (buf_size : ℕ) (blk : List ℕ) (st : State p)
      → Ready buf_size st
      → FitsIn buf_size st.table blk
      → Returns
          (λ _ st'.
            Served p car blk [] (active st.table) st st' × Prepared blk (active st.table) st')
          (fill_udpbuf p blk st)
  unfolding fill_udpbuf
  fill_udpbuf-Prepared buf_size blk st r fits = elim (Bool-cases (st.table.udp_clients_num == 0)) [
    | inl none_udp ↦
        let z : st.table.udp_clients_num ≡ 0 = (==_iff _ _).0 none_udp in
        rw (none_udp, Returns) (kept st.udpbuf refl (λ f. f), inl (omega (arith, z, r.udp)))
    | inr some_udp ↦
        let f : Filled p car blk (packed st.udpbuf) = filled st.udpbuf r.udpbuf in
        rw (some_udp, Returns)
          (kept (packed st.udpbuf) (length-packed fits some_udp) (λ g. f), inr f)
  ]
    where
      packed : List ℕ → List ℕ
      packed u = take 1 u ++ (blk ++ drop (1 + length blk) u)

      filled : (u : List ℕ) → length u ≡ 1 + buf_size → Filled p car blk (packed u)
      filled [] e = absurd (omega (arith, e))
      filled (h ∷ u) e = (h, drop (1 + length blk) (h ∷ u), refl)

      length-packed :
          FitsIn buf_size st.table blk
          → (st.table.udp_clients_num == 0) ≡ false
          → length (packed st.udpbuf) ≡ length st.udpbuf
      length-packed (inl z) e = absurd (ground (arith, z, e))
      length-packed (inr le) e = length-filled p 0 buf_size blk st.udpbuf r.udpbuf le

      kept :
          (u : List ℕ)
          → length u ≡ length st.udpbuf
          → (Filled p car blk st.udpbuf → Filled p car blk u)
          → Served p car blk [] (active st.table) st (record st { udpbuf = u })
      kept u n f = record {
        sent = sym (append-nil (car.log st.world));
        uart = refl;
        in_use = refl;
        num = refl;
        udp_num = refl;
        slots = refl;
        udpbuf = n;
        filled = f;
      }

  -- One block is done: `now` are the clients in use, in their order.
  pub record Done (blk : List ℕ) (st st' : State p) : Type 0 where
    pub sent : car.log st'.world ≡ car.log st.world ++ map (packet blk) (active st.table)
    pub uart :
        car.uart st'.world ≡ car.uart st.world ++ (if st.table.clients_num == 0 then blk else [])
    pub in_use : active st'.table ≡ map counted (active st.table)
    pub num : st'.table.clients_num ≡ st.table.clients_num
    pub udp_num : st'.table.udp_clients_num ≡ st.table.udp_clients_num
    pub slots : length st'.table.clients ≡ length st.table.clients
    pub udpbuf : length st'.udpbuf ≡ length st.udpbuf

  pub Ready-Done :
      (buf_size : ℕ) (blk : List ℕ) (st st' : State p)
      → Ready buf_size st
      → Done blk st st'
      → Ready buf_size st'
  Ready-Done buf_size blk st st' r d = record {
    udp =
        d.udp_num ∙ r.udp ∙ sym (udp_count-counted (active st.table)) ∙ ap udp_count (sym d.in_use);
    udpbuf = d.udpbuf ∙ r.udpbuf;
    slots = omega (arith, d.num, d.slots, r.slots);
  }

  to_uart-Done :
      (blk : List ℕ) (st st' : State p)
      → Served p car blk (active st.table) (map counted (active st.table)) st st'
      → Returns (λ _ v. Done blk st v) (to_uart p blk st')
  unfolding to_uart
  to_uart-Done blk st st' s = elim (Bool-cases (st.table.clients_num == 0)) [
    | inl empty ↦
        rw (s.num, empty, Returns)
          (finish (p.uart_write blk st'.world).1 ((car.uart_write_log blk st'.world).0 ∙ s.sent)
            ((car.uart_write_log blk st'.world).1 ∙ ap (λ u. u ++ blk) s.uart ∙ rw empty refl))
    | inr some_left ↦
        rw (s.num, some_left, Returns)
          (finish st'.world s.sent (s.uart ∙ rw some_left (sym (append-nil (car.uart st.world)))))
  ]
    where
      finish :
          (w : p.World)
          → car.log w ≡ car.log st.world ++ map (packet blk) (active st.table)
          → car.uart w ≡ car.uart st.world ++ (if st.table.clients_num == 0 then blk else [])
          → Done blk st (record st' { world = w })
      finish w sent uart = record {
        sent = sent;
        uart = uart;
        in_use = s.in_use;
        num = s.num;
        udp_num = s.udp_num;
        slots = s.slots;
        udpbuf = s.udpbuf;
      }

  length-active :
      (buf_size : ℕ) (st : State p)
      → Ready buf_size st
      → length (active st.table) ≡ st.table.clients_num
  length-active buf_size st r =
      omega (arith, length-take st.table.clients_num st.table.clients, r.slots)

  pub flush_block-Done :
      (buf_size : ℕ) (blk : List ℕ) (st : State p)
      → Ready buf_size st
      → FitsIn buf_size st.table blk
      → Returns (λ _ st'. Done blk st st') (flush_block p blk st)
  unfolding flush_block
  flush_block-Done buf_size blk st r fits =
      bind-Returns (λ _ v. Served p car blk (active st.table) (map counted (active st.table)) st v)
        (λ _ v. Done blk st v)
        ((fill_udpbuf p blk >> client_loop p blk (suc st.table.clients_num) 0) st)
        (λ _. to_uart p blk)
        (bind-Returns
          (λ _ v. Served p car blk [] (active st.table) st v × Prepared blk (active st.table) v)
          (λ _ v. Served p car blk (active st.table) (map counted (active st.table)) st v)
          (fill_udpbuf p blk st) (λ _. client_loop p blk (suc st.table.clients_num) 0)
          (fill_udpbuf-Prepared buf_size blk st r fits)
          (λ _ st' (s, prep).
            Returns-mono
              (λ _ v. Served p car blk (active st.table) (map counted (active st.table)) st' v)
              (λ _ v. Served p car blk (active st.table) (map counted (active st.table)) st v)
              (client_loop p blk (suc st.table.clients_num) 0 st')
              (client_loop-Served blk (active st.table) [] (suc st.table.clients_num) 0 st' s.in_use
                refl (omega (arith, s.num, length-active buf_size st r))
                (omega (arith, length-active buf_size st r)) prep)
              (λ _ v t. Served-trans blk [] (active st.table) _ _ st st' v s t)))
        (λ _ st' s. to_uart-Done blk st st' s)
