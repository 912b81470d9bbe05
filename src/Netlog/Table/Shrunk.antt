-- ===== src/Netlog/Table/Shrunk.antt =====
-- The table of src/lib/netlog.c between two calls of `ctl_sub`: clients only leave it.
use vedruino.Base.{
  ℕ, zero, suc, ◌+◌, ◌%◌, ◌≤◌, ◌<◌, ◌≡◌, refl, ◌∙◌, ◌≢◌, some, List, [], ◌∷◌, arith, length,
  get_elem?, All,
}
use vedruino.Netlog.Table.{Client, Table, remove_client, count_packet}
use vedruino.Netlog.Table.Remove.{active, active-remove_client}
use vedruino.Netlog.Table.Clients.{All-set, All-get_elem?, All-remove_at, get_elem?-take, take-set}
use vedruino.Netlog.Table.Invariant.{
  IsTable, remove_client-IsTable, remove_client_counts, count_packet-IsTable,
}

-- No client in use has the address.
abbrev pub Absent : List ℕ → Table → Type 0
Absent addr_str t = All (λ (d : Client). d.addr_str ≢ addr_str) (active t)

-- The invariant holds, there are no more clients than before, and none with a new address.
pub record Shrunk (max : ℕ) (t t' : Table) : Type 0 where
  pub table : IsTable max t'
  pub no_more : t'.clients_num ≤ t.clients_num
  pub no_new : (addr_str : List ℕ) → Absent addr_str t → Absent addr_str t'

pub Shrunk-refl : (max : ℕ) (t : Table) → IsTable max t → Shrunk max t t
Shrunk-refl max t v = record { table = v; no_more = omega arith; no_new = λ a h. h }

pub Shrunk-trans : (max : ℕ) (t u v : Table) → Shrunk max t u → Shrunk max u v → Shrunk max t v
Shrunk-trans max t u v a b = record {
  table = b.table;
  no_more = omega (arith, a.no_more, b.no_more);
  no_new = λ s h. b.no_new s (a.no_new s h);
}

pub remove_client-Shrunk :
    (max i : ℕ) (c : Client) (t : Table)
    → IsTable max t
    → i < t.clients_num
    → get_elem? t.clients i ≡ some c
    → Shrunk max t (remove_client i c t)
remove_client-Shrunk max i c t v lt e = record {
  table = remove_client-IsTable max i c t v lt e;
  no_more = omega (arith, (remove_client_counts i c t).0);
  no_new = λ s h.
      rw (active-remove_client i c t lt (omega (arith, v.slots, v.in_use))).0
        (All-remove_at (λ (d : Client). d.addr_str ≢ s) i (active t) h);
}

pub count_packet-Shrunk :
    (max i : ℕ) (c : Client) (t : Table)
    → IsTable max t
    → i < t.clients_num
    → get_elem? t.clients i ≡ some c
    → Shrunk max t (count_packet i c t)
unfolding count_packet
count_packet-Shrunk max i c t v lt e = record {
  table = count_packet-IsTable max i c t v lt e;
  no_more = omega arith;
  no_new = λ s h.
      rw (take-set t.clients_num i t.clients (record c { pack_cnt = (c.pack_cnt + 1) % 128 })) (
        All-set (λ (d : Client). d.addr_str ≢ s) (active t) i
          (record c { pack_cnt = (c.pack_cnt + 1) % 128 }) h
          (All-get_elem? (λ (d : Client). d.addr_str ≢ s) (active t) i c h
            (get_elem?-take t.clients_num i t.clients lt ∙ e)));
}

pub count_packet_num :
    (i : ℕ) (c : Client) (t : Table) → (count_packet i c t).clients_num ≡ t.clients_num
unfolding count_packet
count_packet_num i c t = refl

-- A slot of the array has a value.
pub get_elem?-some :
    (cs : List Client) (i : ℕ) → i < length cs → (c : Client) × (get_elem? cs i ≡ some c)
get_elem?-some [] i lt = absurd (omega arith)
get_elem?-some (c ∷ cs) zero lt = (c, refl)
get_elem?-some (c ∷ cs) (suc i) lt = get_elem?-some cs i (omega arith)
