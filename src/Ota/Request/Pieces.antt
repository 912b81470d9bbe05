-- ===== src/Ota/Request/Pieces.antt =====
-- The loop over the firmware in `handle_req` of src/lib/ota.c: which pieces it has read, and where it has
-- stored them.
use mathlib.Core.List.{append_assoc}
use mathlib.Core.Path.{subst}
use vedruino.Base.{
  ℕ, zero, suc, ◌+◌, ◌-◌, ◌≤◌, ◌<◌, ◌≡◌, ◌≢◌, refl, sym, ap, ◌∙◌, inl, inr, Bool, true, false,
  Option, none, some, List, [], ◌∷◌, ◌++◌, arith, ltb, ltb→lt, ltb_false→le, Bool-cases,
  if◌then◌else◌, length, length-append, get_elem?, M, Ends,
}
use vedruino.Ip.Sockets.{IsStream}
use vedruino.Ip.Stream.{pk_tcp_recv}
use vedruino.Ip.Stream.Recv.{joined}
use vedruino.Ota.Platform.{Platform, State}
use vedruino.Ota.Flash.{IsFlash, IsQuiet}
use vedruino.Ota.Request.{
  resp_ok, firmware_buf_size, Received, all_received, broken_off, after_write, write_block,
  firmware_next, firmware_loop,
}
use vedruino.Ota.Request.Dirty.{IsDirty, Same, IsDirty-Same}
use vedruino.Ota.Request.Complete.{Then, Then-mono}

-- The MD5 context after some pieces of the firmware.
abbrev pub digest : (p : Platform) → p.Md5 → List (List ℕ) → p.Md5
digest p ctx [] = ctx
digest p ctx (c ∷ cs) = digest p (p.md5_update ctx c) cs

get_elem?-before :
    (xs ys : List ℕ) (i b : ℕ)
    → get_elem? (xs ++ ys) i ≡ some b
    → i < length xs
    → get_elem? xs i ≡ some b
get_elem?-before [] ys i b e lt = absurd (omega arith)
get_elem?-before (x ∷ xs) ys zero b e lt = e
get_elem?-before (x ∷ xs) ys (suc i) b e lt = get_elem?-before xs ys i b e (omega arith)

get_elem?-behind :
    (xs ys : List ℕ) (i j b : ℕ)
    → get_elem? (xs ++ ys) i ≡ some b
    → i ≡ length xs + j
    → get_elem? ys j ≡ some b
get_elem?-behind [] ys i j b e at = let same : j ≡ i = omega (arith, at) in rw same e
get_elem?-behind (x ∷ xs) ys zero j b e at = absurd (omega (arith, at))
get_elem?-behind (x ∷ xs) ys (suc i) j b e at = get_elem?-behind xs ys i j b e (omega (arith, at))

module _ (p : Platform) (fl : IsFlash p) (str : IsStream p.sockets) (quiet : IsQuiet p str)
    (conf : Bool) (chd size : ℕ) where
  abbrev pub inbox : State p → List ℕ
  inbox st = str.inbox st.world chd

  -- The partition holds the bytes from the offset `offs` on.
  abbrev Holds : ℕ → List ℕ → State p → Type 0
  Holds offs bs st =
      (i b : ℕ) → offs + i < size → get_elem? bs i ≡ some b → fl.cell st.world (offs + i) ≡ b

  -- From the state `st` on, the pieces `cs` were read, counted, and stored behind one another.
  abbrev pub Took : State p → List (List ℕ) → State p → Type 0
  Took st cs st' =
      (inbox st ≡ joined cs ++ inbox st')
      × (st'.part_bytes_written ≡ st.part_bytes_written + length (joined cs))
      × Holds st.part_bytes_written (joined cs) st'
      × ((i : ℕ) → i < st.part_bytes_written → fl.cell st'.world i ≡ fl.cell st.world i)

  abbrev pub TookAll : State p → p.Md5 → Received p.Md5 → State p → Type 0
  TookAll st ctx (all_received ctx') st' =
      (cs : List (List ℕ)) × Took st cs st' × (conf ≡ true → ctx' ≡ digest p ctx cs)
  TookAll st ctx (broken_off resp) st' = resp ≢ resp_ok

  abbrev Cells : State p → p.World → Type 0
  Cells st w = (i : ℕ) → i < st.part_bytes_written → fl.cell w i ≡ fl.cell st.world i

  -- A piece that was stored, and those that follow it.
  Took-∷ :
      (st st' st'' : State p) (c : List ℕ) (cs : List (List ℕ))
      → inbox st ≡ c ++ inbox st'
      → st'.part_bytes_written ≡ st.part_bytes_written + length c
      → Holds st.part_bytes_written c st'
      → ((i : ℕ) → i < st.part_bytes_written → fl.cell st'.world i ≡ fl.cell st.world i)
      → Took st' cs st''
      → Took st (c ∷ cs) st''
  unfolding joined
  Took-∷ st st' st'' c cs read count held same (read', count', held', same') = (
    read ∙ ap (◌++◌ c) read' ∙ sym (append_assoc c (joined cs) _),
    omega (arith, count, count', length-append c (joined cs)),
    holds,
    λ i lt. same' i (omega (arith, lt, count)) ∙ same i lt,
  )
    where
      holds : Holds st.part_bytes_written (c ++ joined cs) st''
      holds i b lt e = elim (Bool-cases (ltb i (length c))) [
        | inl inside ↦
            same' (st.part_bytes_written + i) (omega (arith, count, ltb→lt i (length c) inside))
            ∙ held i b lt (get_elem?-before c (joined cs) i b e (ltb→lt i (length c) inside))
        | inr behind ↦
            let le : length c ≤ i = ltb_false→le i (length c) behind in
            let at : st.part_bytes_written + i ≡ st'.part_bytes_written + (i - length c) =
              omega (arith, le, count) in
            subst (λ k. fl.cell st''.world k ≡ b) (sym at)
              (held' (i - length c) b (subst (λ k. k < size) at lt)
                (get_elem?-behind c (joined cs) i (i - length c) b e (omega (arith, le))))
      ]

  -- The state after the piece was written.
  abbrev written : State p → p.World → List ℕ → State p
  written st w c = record st {
    world = (p.partition_write_raw st.part_bytes_written c w).1;
    part_bytes_written = st.part_bytes_written + length c;
  }

  abbrev next_ctx : p.Md5 → List ℕ → p.Md5
  next_ctx ctx c = if conf then p.md5_update ctx c else ctx

  -- The piece `c` was read in the state `st`, which left the world `w`.
  after_write-Took :
      (rest : M (State p) (Received p.Md5)) (ctx : p.Md5) (ok : Bool) (st : State p) (w : p.World)
      (c : List ℕ)
      → inbox st ≡ c ++ str.inbox w chd
      → Same p fl size st.world w
      → IsDirty p fl size (record st { world = w })
      → (p.partition_write_raw st.part_bytes_written c w).0 ≡ ok
      → Then p conf (TookAll (written st w c) (next_ctx ctx c)) (rest (written st w c))
      → Then p conf (TookAll st ctx) (after_write p conf rest ok (written st w c))
  unfolding after_write
  after_write-Took rest ctx false st w c read same d e next = λ z. cc
  after_write-Took rest ctx true st w c read same d e next =
      Then-mono p conf (TookAll (written st w c) (next_ctx ctx c)) (TookAll st ctx)
        (rest (written st w c)) next more
    where
      more :
          (r : Received p.Md5) (v : State p)
          → TookAll (written st w c) (next_ctx ctx c) r v
          → TookAll st ctx r v
      more (all_received ctx') v (cs, took, dig) = (
        c ∷ cs,
        Took-∷ st (written st w c) v c cs
            (read ∙ ap (◌++◌ c) (sym (quiet.write_raw_inbox st.part_bytes_written chd c w))) refl
            (λ i b lt at.
              fl.write_stored st.part_bytes_written i b c w e at
                (d.above (st.part_bytes_written + i) (omega arith) lt))
            (λ i lt. fl.write_frame st.part_bytes_written i c w (inl lt) ∙ same i) took,
        λ z. dig z ∙ ap (λ t. digest p (if t then p.md5_update ctx c else ctx) cs) z,
      )
      more (broken_off resp) v h = h

  written-IsDirty :
      (st : State p) (w : p.World) (c : List ℕ)
      → IsDirty p fl size (record st { world = w })
      → IsDirty p fl size (written st w c)
  written-IsDirty st w c d = record {
    part = d.part;
    above =
        λ i a lt. fl.write_frame st.part_bytes_written i c w (inr a) ∙ d.above i (omega arith) lt;
  }

  firmware_next-Took :
      (rest : p.Md5 → M (State p) (Received p.Md5)) (ctx : p.Md5) (r : Option (List ℕ))
      (st : State p)
      → (p.read chd firmware_buf_size st.world).0 ≡ r
      → IsDirty p fl size st
      → ((ctx' : p.Md5) (v : State p)
          → IsDirty p fl size v
          → Then p conf (TookAll v ctx') (rest ctx' v))
      → Then p conf (TookAll st ctx) (
          firmware_next p conf rest ctx r
            (record st { world = (p.read chd firmware_buf_size st.world).1 }))
  unfolding firmware_next write_block
  firmware_next-Took rest ctx none st e d next = λ z. cc
  firmware_next-Took rest ctx (some []) st e d next = λ z. cc
  firmware_next-Took rest ctx (some (b ∷ bs)) st e d next =
      after_write-Took (rest (next_ctx ctx (b ∷ bs))) ctx
        (p.partition_write_raw st.part_bytes_written (b ∷ bs) w).0 st w (b ∷ bs)
        (str.read_some chd firmware_buf_size (b ∷ bs) st.world e).1
        (fl.read_same chd firmware_buf_size st.world) dirty refl
        (next (next_ctx ctx (b ∷ bs)) (written st w (b ∷ bs)) (written-IsDirty st w (b ∷ bs) dirty))
    where
      w : p.World
      w = (p.read chd firmware_buf_size st.world).1

      dirty : IsDirty p fl size (record st { world = w })
      dirty = IsDirty-Same p fl size st w st.header d (fl.read_same chd firmware_buf_size st.world)

  pub firmware_loop-Took :
      (f : ℕ) (ctx : p.Md5) (st : State p)
      → IsDirty p fl size st
      → Then p conf (TookAll st ctx) (firmware_loop p conf chd f ctx st)
  unfolding firmware_loop pk_tcp_recv joined
  firmware_loop-Took zero ctx st d = tt
  firmware_loop-Took (suc f) ctx st d =
      elim (Bool-cases (ltb st.part_bytes_written st.header.size)) [
        | inr over ↦
            rw (over, Ends) ([], (refl, omega arith, (λ i b lt e. cc), λ i lt. refl), λ e. refl)
        | inl more ↦
            rw (more, Ends)
              (firmware_next-Took (firmware_loop p conf chd f) ctx
                (p.read chd firmware_buf_size st.world).0 st refl d (firmware_loop-Took f))
      ]
