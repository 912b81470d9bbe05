-- ===== src/Ota/Request/Parsed.antt =====
-- Where the header of a request that `handle_req` of src/lib/ota.c answers with success comes from.
use mathlib.Core.Path.{subst}
use vedruino.Base.{
  ℕ, ◌≡◌, ◌≢◌, refl, sym, inl, inr, Bool, true, false, List, ◌++◌, ltb, ltb_false→le, Bool-cases,
  arith, text_eq, length, M, ◌>>=◌, ◌⊎◌, Returns, Returns-mono, Returns-Ends, Ends, ◌≤◌,
}
use vedruino.Ip.Addr.{htonl}
use vedruino.Ip.Sockets.{IsStream}
use vedruino.Ip.Stream.{pk_tcp_recvn}
use vedruino.Ip.Stream.Recv.{joined, overlay, Reads, RecvN, pk_tcp_recvn-RecvN}
use vedruino.Ota.Platform.{Platform, Header, State, io}
use vedruino.Ota.Flash.{IsFlash}
use vedruino.Ota.Rules.{io_bind-Ends}
use vedruino.Ota.Hex.{md5_size, md5str}
use vedruino.Ota.Request.{
  OtaResp, resp_ok, magic, magic_size, firmware_buf_size, u32_bytes, u32_of_bytes, with_buffer,
  read_md5, check_size, read_size, after_magic, read_magic, handle_req,
}
use vedruino.Ota.Request.Dirty.{IsDirty, IsWaiting, handle_req-IsDirty}
use vedruino.Ota.Request.Complete.{Then, Then-mono, IsComplete, CompleteWith, with_buffer-Then}

module _ (p : Platform) (str : IsStream p.sockets) (conf : Bool) (chd : ℕ) where
  -- From `w` on, `pk_tcp_recvn` for `k` bytes has read exactly the pieces `cs`, and ended in `w'`.
  pub record Took (k : ℕ) (w : p.World) (cs : List (List ℕ)) (w' : p.World) : Type 0 where
    pub reads : Reads p.sockets chd k 0 w cs w'
    pub front : str.inbox w chd ≡ joined cs ++ str.inbox w' chd
    pub whole : length (joined cs) ≡ k

  -- The header `old` after the pieces of its three fields were stored in it.
  abbrev pub parsed : Header → (magics sizes md5s : List (List ℕ)) → Header
  parsed old magics sizes md5s = record {
    magic = overlay old.magic magics;
    size = htonl (u32_of_bytes (overlay (u32_bytes old.size) sizes));
    md5 = overlay old.md5 md5s;
    md5str = md5str (overlay old.md5 md5s);
  }

  -- The reads of the three fields follow one on another from the world of `st` on, and left the header of
  -- `st'`, which is accepted, and to which enough bytes are counted.
  pub record Parsed (st st' : State p) : Type 0 where
    pub magics : List (List ℕ)
    pub sizes : List (List ℕ)
    pub md5s : List (List ℕ)
    pub after_magics : p.World
    pub after_sizes : p.World
    pub after_md5s : p.World
    pub took_magic : Took magic_size st.world magics after_magics
    pub took_size : Took 4 after_magics sizes after_sizes
    pub took_md5 : Took md5_size after_sizes md5s after_md5s
    pub header : st'.header ≡ parsed st.header magics sizes md5s
    pub complete : IsComplete p conf st'

  module _ (Goal : State p → Type 0) where
    -- What holds once success is reported.
    abbrev OnOk : OtaResp → State p → Type 0
    OnOk r v = r ≡ resp_ok → Goal v

    recvn-OnOk :
        (k : ℕ) (buf : List ℕ) (m : Bool × List ℕ → M (State p) OtaResp) (st : State p)
        → ((bs : List ℕ) (w : p.World)
            → Then p conf (λ r _. r ≢ resp_ok) (m (false, bs) (record st { world = w })))
        → ((cs : List (List ℕ)) (w : p.World)
            → Took k st.world cs w
            → Then p conf OnOk (m (true, overlay buf cs) (record st { world = w })))
        → Then p conf OnOk ((io p (pk_tcp_recvn p.sockets chd buf k) >>= m) st)
    recvn-OnOk k buf m st failed got =
        io_bind-Ends p (RecvN p.sockets str chd k 0 buf st.world) OnOk (λ _ _. Unit {0})
          (pk_tcp_recvn p.sockets chd buf k) m st
          (pk_tcp_recvn-RecvN p.sockets str chd k buf st.world) next
      where
        next :
            (r : Bool × List ℕ) (w : p.World)
            → RecvN p.sockets str chd k 0 buf st.world r w
            → Then p conf OnOk (m r (record st { world = w }))
        next (false, bs) w h =
            Then-mono p conf (λ r _. r ≢ resp_ok) OnOk (m (false, bs) (record st { world = w }))
              (failed bs w) (λ r v bad e. absurd (bad e))
        next (true, bs) w (cs, front, _, filled, whole, reads) =
            subst (λ b. Then p conf OnOk (m (true, b) (record st { world = w }))) (sym filled)
              (got cs w
                (record { reads = reads; front = front; whole = omega (arith, whole.0 refl) }))

    -- The digest is read into a header that is accepted.
    read_md5-OnOk :
        (st : State p)
        → text_eq st.header.magic magic ≡ true
        → st.header.size ≤ st.upd_part_size
        → ((cs : List (List ℕ)) (w : p.World) (v : State p)
            → Took md5_size st.world cs w
            → IsComplete p conf v
            → (v.header ≡ record st.header {
              md5 = overlay st.header.md5 cs;
              md5str = md5str (overlay st.header.md5 cs);
            })
            → Goal v)
        → Then p conf OnOk
            ((io p (pk_tcp_recvn p.sockets chd st.header.md5 md5_size) >>= read_md5 p conf chd) st)
    unfolding read_md5
    read_md5-OnOk st text le goal =
        recvn-OnOk md5_size st.header.md5 (read_md5 p conf chd) st (λ bs w e. cc)
          (λ cs w took.
            let hd = record st.header {
              md5 = overlay st.header.md5 cs;
              md5str = md5str (overlay st.header.md5 cs);
            } in
            let buf = p.malloc firmware_buf_size w in
            let st' = record st { world = buf.1; header = hd } in
            Then-mono p conf (CompleteWith p conf hd) OnOk (with_buffer p conf chd buf.0 st')
              (with_buffer-Then p conf hd chd buf.0 st' (text, le, refl))
              (λ r v c e. goal cs w v took (c e).0 (c e).1))

    check_size-OnOk :
        (st : State p)
        → text_eq st.header.magic magic ≡ true
        → ((cs : List (List ℕ)) (w : p.World) (v : State p)
            → Took md5_size st.world cs w
            → IsComplete p conf v
            → (v.header ≡ record st.header {
              md5 = overlay st.header.md5 cs;
              md5str = md5str (overlay st.header.md5 cs);
            })
            → Goal v)
        → Then p conf OnOk (check_size p conf chd st)
    unfolding check_size
    check_size-OnOk st text goal = elim (Bool-cases (ltb st.upd_part_size st.header.size)) [
      | inl big ↦ rw (big, Ends) (λ e. cc)
      | inr fits ↦ rw (fits, Ends) (read_md5-OnOk st text (ltb_false→le _ _ fits) goal)
    ]

  handle_req-OnOk :
      (st : State p) → Then p conf (OnOk (λ v. Parsed st v)) (handle_req p conf chd st)
  unfolding handle_req read_magic after_magic read_size
  handle_req-OnOk st =
      recvn-OnOk (λ v. Parsed st v) magic_size st.header.magic (read_magic p conf chd) st
        (λ bs w e. cc)
        (λ ms w tm. with_magic ms w tm (Bool-cases (text_eq (overlay st.header.magic ms) magic)))
    where
      named : (ms : List (List ℕ)) → p.World → State p
      named ms w = record st {
        world = w;
        header = record st.header { magic = overlay st.header.magic ms };
      }

      with_magic :
          (ms : List (List ℕ)) (w : p.World)
          → Took magic_size st.world ms w
          → (text_eq (overlay st.header.magic ms) magic ≡ true)
            ⊎ (text_eq (overlay st.header.magic ms) magic ≡ false)
          → Then p conf
              (OnOk (λ v. Parsed st v))
              (after_magic p conf chd (text_eq (overlay st.header.magic ms) magic) (named ms w))
      with_magic ms w tm (inr wrong) = rw (wrong, Ends) (λ e. cc)
      with_magic ms w tm (inl text) = rw text (
          recvn-OnOk (λ v. Parsed st v) 4 (u32_bytes st.header.size) (read_size p conf chd)
            (named ms w) (λ bs w' e. cc)
            (λ ss w' ts.
              check_size-OnOk (λ v. Parsed st v)
                (record (named ms w) {
                  world = w';
                  header = record st.header {
                    magic = overlay st.header.magic ms;
                    size = htonl (u32_of_bytes (overlay (u32_bytes st.header.size) ss));
                  };
                })
                text
                (λ ds w'' v td c e. record {
                  magics = ms;
                  sizes = ss;
                  md5s = ds;
                  after_magics = w;
                  after_sizes = w';
                  after_md5s = w'';
                  took_magic = tm;
                  took_size = ts;
                  took_md5 = td;
                  header = e;
                  complete = c;
                })))

  -- Begun with nothing counted as written and the whole partition erased, `handle_req` returns. If it
  -- reports success, it has read 13 bytes, then 4, then 16 from the front of the stream, and written the
  -- piece of each read over the beginning of the field `magic`, `size` or `md5` of the static header as it
  -- was. The header that this leaves has the magic text in `magic` and in `size`, the bytes of which are
  -- put into the opposite order, a size that is not above that of the partition; and at least so many bytes
  -- are counted as written.
  pub handle_req-Parsed :
      (fl : IsFlash p) (size : ℕ) (st : State p)
      → IsWaiting p fl size st
      → Returns (λ r st'. r ≡ resp_ok → Parsed st st') (handle_req p conf chd st)
  handle_req-Parsed fl size st v =
      Returns-mono (λ r st'. IsDirty p fl size st' × (r ≡ resp_ok → Parsed st st'))
        (λ r st'. r ≡ resp_ok → Parsed st st') (handle_req p conf chd st)
        (Returns-Ends (λ _ st'. IsDirty p fl size st') (λ r st'. r ≡ resp_ok → Parsed st st')
          (λ _ _. Unit {0}) (handle_req p conf chd st) (handle_req-IsDirty p fl size conf chd st v)
          (handle_req-OnOk st))
        (λ r st' h. h.1)
