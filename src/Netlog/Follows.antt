-- ===== src/Netlog/Follows.antt =====
-- What holds of the state of src/lib/netlog.c between two calls, and what every call keeps.
use vedruino.Base.{
  ℕ, ◌+◌, ◌≡◌, refl, ◌∙◌, length, M, Outcome, Returns, bind-Returns, Returns-mono, done, halt,
}
use vedruino.Netlog.Table.Invariant.{IsTable}
use vedruino.Netlog.Table.Shrunk.{Shrunk, Shrunk-refl, Shrunk-trans}
use vedruino.Netlog.Platform.{Platform, State}

module _ (p : Platform) (max buf_size : ℕ) where
  -- Between two calls: the invariant of the table, and the packet buffer has its size.
  pub record IsServer (st : State p) : Type 0 where
    pub table : IsTable max st.table
    pub udpbuf : length st.udpbuf ≡ 1 + buf_size

  -- What a flush may do to the state: clients leave, and nothing that tells the board apart changes.
  pub record Follows (st st' : State p) : Type 0 where
    pub shrunk : Shrunk max st.table st'.table
    pub udpbuf : length st'.udpbuf ≡ length st.udpbuf
    pub mac_addr : st'.mac_addr ≡ st.mac_addr
    pub session_id : st'.session_id ≡ st.session_id

  pub Follows-refl : (st : State p) → IsServer st → Follows st st
  Follows-refl st v = record {
    shrunk = Shrunk-refl max st.table v.table;
    udpbuf = refl;
    mac_addr = refl;
    session_id = refl;
  }

  pub Follows-trans : (a b c : State p) → Follows a b → Follows b c → Follows a c
  Follows-trans a b c f g = record {
    shrunk = Shrunk-trans max a.table b.table c.table f.shrunk g.shrunk;
    udpbuf = g.udpbuf ∙ f.udpbuf;
    mac_addr = g.mac_addr ∙ f.mac_addr;
    session_id = g.session_id ∙ f.session_id;
  }

  pub IsServer-Follows : (st st' : State p) → IsServer st → Follows st st' → IsServer st'
  IsServer-Follows st st' v f = record { table = f.shrunk.table; udpbuf = f.udpbuf ∙ v.udpbuf }

  -- A change of the world alone.
  pub IsServer-world :
      (st : State p) (w : p.World) → IsServer st → IsServer (record st { world = w })
  IsServer-world st w v = record { table = v.table; udpbuf = v.udpbuf }

  pub Follows-world :
      (st st' : State p) (w : p.World) → Follows (record st { world = w }) st' → Follows st st'
  Follows-world st st' w f = record {
    shrunk = f.shrunk;
    udpbuf = f.udpbuf;
    mac_addr = f.mac_addr;
    session_id = f.session_id;
  }

  -- One call after the other, where R is what else the first one says.
  pub bind-Follows_with :
      {A B : Type 0} (R : A → State p → Type 0) (st : State p) (r : Outcome (State p) A)
      (k : A → M (State p) B)
      → IsServer st
      → Returns (λ a st'. Follows st st' × R a st') r
      → ((a : A) (st' : State p)
          → IsServer st'
          → Follows st st'
          → R a st'
          → Returns (λ _ st''. Follows st' st'') (k a st'))
      → Returns (λ _ st''. Follows st st'') (elim r [ done a w' ↦ k a w' | halt h w' ↦ halt h w' ])
  bind-Follows_with R st r k v h next =
      bind-Returns (λ a st'. Follows st st' × R a st') (λ _ st''. Follows st st'') r k h
        (λ a st' f.
          Returns-mono (λ _ st''. Follows st' st'') (λ _ st''. Follows st st'') (k a st')
            (next a st' (IsServer-Follows st st' v f.0) f.0 f.1)
            (λ _ st'' g. Follows-trans st st' st'' f.0 g))

  pub bind-Follows :
      {A B : Type 0} (st : State p) (r : Outcome (State p) A) (k : A → M (State p) B)
      → IsServer st
      → Returns (λ _ st'. Follows st st') r
      → ((a : A) (st' : State p)
          → IsServer st'
          → Follows st st'
          → Returns (λ _ st''. Follows st' st'') (k a st'))
      → Returns (λ _ st''. Follows st st'') (elim r [ done a w' ↦ k a w' | halt h w' ↦ halt h w' ])
  bind-Follows {A} st r k v h next =
      bind-Follows_with (λ (a : A) st'. Unit {0}) st r k v
        (Returns-mono (λ _ st'. Follows st st') (λ _ st'. Follows st st' × Unit {0}) r h
          (λ a st' f. (f, tt)))
        (λ a st' v' f _. next a st' v' f)
