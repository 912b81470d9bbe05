-- ===== src/Netlog/Control/Unsub.antt =====
-- `ctl_unsub` of src/lib/netlog.c.
use vedruino.Base.{
  ℕ, ◌<◌, ◌≡◌, refl, ◌∙◌, Option, none, some, List, arith, get_elem?, Returns, bind-Returns,
}
use vedruino.Netlog.Table.{Client, Table, get_client_idx_by_addr_str, remove_client}
use vedruino.Netlog.Table.Remove.{active, active-remove_client}
use vedruino.Netlog.Table.Clients.{get_elem?-take}
use vedruino.Netlog.Table.Invariant.{IsTable}
use vedruino.Netlog.Table.Shrunk.{Absent}
use vedruino.Netlog.Table.Lookup.{get_client_idx-none, get_client_idx-some, Absent-remove_at}
use vedruino.Netlog.Platform.{Platform, State}
use vedruino.Netlog.Follows.{IsServer, Follows, Follows-refl}
use vedruino.Netlog.Flush.{del_client}
use vedruino.Netlog.Flush.Slot.{del_client-removes}
use vedruino.Netlog.Control.{if_known, ctl_unsub}

remove_client-Absent :
    (max i : ℕ) (c : Client) (t : Table)
    → IsTable max t
    → i < t.clients_num
    → get_elem? t.clients i ≡ some c
    → Absent c.addr_str (remove_client i c t)
remove_client-Absent max i c t v lt e =
    rw (active-remove_client i c t lt (omega (arith, v.slots, v.in_use))).0
      (Absent-remove_at i c (active t) v.distinct (get_elem?-take t.clients_num i t.clients lt ∙ e))

module _ (p : Platform) (max buf_size : ℕ) (printed : ℕ → List (List ℕ)) (s : List ℕ) where
  -- No client has the address, and no other one has come.
  abbrev pub Gone : {A : Type 0} → State p → A → State p → Type 0
  Gone st a st' = Absent s st'.table × Follows p max buf_size st st'

  if_known-Gone :
      (known : Option ℕ) (st : State p)
      → IsServer p max buf_size st
      → get_client_idx_by_addr_str s st.table ≡ known
      → Returns (Gone st) (if_known p max buf_size printed known st)
  unfolding if_known
  if_known-Gone none st v e = (get_client_idx-none s st.table e, Follows-refl p max buf_size st v)
  if_known-Gone (some i) st v e =
      let (c, lt, there, same) = get_client_idx-some s st.table i e in
      bind-Returns
        (λ _ st'. (st'.table ≡ remove_client i c st.table) × Follows p max buf_size st st')
        (Gone st) (del_client p i st) _ (del_client-removes p max buf_size i c st v lt there)
        (λ _ st' (removed, f).
          (rw removed (rw (← same) (remove_client-Absent max i c st.table v.table lt there)), f))

  -- Begun with the invariant of the server, `ctl_unsub` returns, and whatever it answers, then no
  -- client in use has the given address, there are no more clients than before, none has a new
  -- address, and the invariant holds.
  pub ctl_unsub-Gone :
      (st : State p)
      → IsServer p max buf_size st
      → Returns (Gone st) (ctl_unsub p max buf_size printed s st)
  unfolding ctl_unsub
  ctl_unsub-Gone st v = if_known-Gone (get_client_idx_by_addr_str s st.table) st v refl
