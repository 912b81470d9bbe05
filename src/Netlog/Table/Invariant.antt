-- ===== src/Netlog/Table/Invariant.antt =====
-- The invariant of the table of src/lib/netlog.c, and the operations that keep it.
use vedruino.Base.{
  ℕ, suc, ◌+◌, ◌-◌, ◌%◌, ◌≤◌, ◌<◌, ◌≡◌, refl, sym, ap, ◌∙◌, ◌≢◌, inl, inr, Bool, true, false, some,
  List, [], ◌∷◌, ◌++◌, arith, ◌==◌, Bool-cases, if◌then◌else◌, length, take, drop, set, get_elem?,
  All, All-append, length-set,
}
use vedruino.Ip.Addr.{IpAddr}
use vedruino.Netlog.Table.{Client, Table, remove_client, store_client, count_packet}
use vedruino.Netlog.Table.Remove.{active, remove_at, active-remove_client}
use vedruino.Netlog.Table.Clients.{
  All-drop, All-get_elem?, All-set, All-take, Distinct, Distinct-append, Distinct-remove_at,
  Distinct-set, InSevenBits, get_elem?-take, take-set, take-set_end, udp_count, udp_count-append,
  udp_count-remove_at, udp_count-set,
}

-- The array has `max_clients` slots, `udp_clients_num` counts the UDP clients in use, no two clients in
-- use have one address, and every counter has seven bits.
pub record IsTable (max_clients : ℕ) (t : Table) : Type 0 where
  pub slots : length t.clients ≡ max_clients
  pub in_use : t.clients_num ≤ max_clients
  pub udp : t.udp_clients_num ≡ udp_count (active t)
  pub distinct : Distinct (active t)
  pub counters : All InSevenBits t.clients

pub remove_client_counts :
    (i : ℕ) (c : Client) (t : Table)
    → ((remove_client i c t).clients_num ≡ t.clients_num - 1)
      × ((remove_client i c t).udp_clients_num
          ≡ (if c.udp_flag then t.udp_clients_num - 1 else t.udp_clients_num))
unfolding remove_client
remove_client_counts i c t = (refl, refl)

remove_client_counters :
    (i : ℕ) (c : Client) (t : Table)
    → All InSevenBits t.clients
    → All InSevenBits (remove_client i c t).clients
unfolding remove_client
remove_client_counters i c t h = elim (Bool-cases (i == t.clients_num - 1)) [
  | inl last ↦ rw last h
  | inr inner ↦ rw inner (
      All-append InSevenBits (take i t.clients) _ (All-take InSevenBits i t.clients h) (
        All-append InSevenBits (take k (drop (i + 1) t.clients)) (drop (i + k) t.clients)
          (All-take InSevenBits k _ (All-drop InSevenBits (i + 1) t.clients h))
          (All-drop InSevenBits (i + k) t.clients h)))
]
  where
    k : ℕ
    k = t.clients_num - i - 1

-- Where the invariant of the table holds and slot `i` is in use, what `del_client` does to the
-- table keeps the invariant.
pub remove_client-IsTable :
    (max i : ℕ) (c : Client) (t : Table)
    → IsTable max t
    → i < t.clients_num
    → get_elem? t.clients i ≡ some c
    → IsTable max (remove_client i c t)
remove_client-IsTable max i c t v lt e = record {
  slots = removed.1 ∙ v.slots;
  in_use = omega (arith, (remove_client_counts i c t).0, v.in_use);
  udp = rw removed.0 ((remove_client_counts i c t).1 ∙ left);
  distinct = rw removed.0 (Distinct-remove_at i (active t) v.distinct);
  counters = remove_client_counters i c t v.counters;
}
  where
    removed :
        (active (remove_client i c t) ≡ remove_at i (active t))
        × (length (remove_client i c t).clients ≡ length t.clients)
    removed = active-remove_client i c t lt (omega (arith, v.slots, v.in_use))

    left :
        (if c.udp_flag then t.udp_clients_num - 1 else t.udp_clients_num)
        ≡ udp_count (remove_at i (active t))
    left = ground (
      arith,
      v.udp,
      udp_count-remove_at i c (active t) (get_elem?-take t.clients_num i t.clients lt ∙ e),
    )

-- Where the invariant of the table holds and slot `i` is in use, counting a packet for its client,
-- in seven bits, keeps the invariant.
pub count_packet-IsTable :
    (max i : ℕ) (c : Client) (t : Table)
    → IsTable max t
    → i < t.clients_num
    → get_elem? t.clients i ≡ some c
    → IsTable max (count_packet i c t)
unfolding count_packet
count_packet-IsTable max i c t v lt e = record {
  slots = length-set t.clients i c' ∙ v.slots;
  in_use = v.in_use;
  udp = v.udp ∙ sym (ap udp_count at_i ∙ udp_count-set (active t) i c c' there refl);
  distinct = rw at_i (Distinct-set (active t) i c c' there refl v.distinct);
  counters = All-set InSevenBits t.clients i c' v.counters (omega arith);
}
  where
    c' : Client
    c' = record c { pack_cnt = (c.pack_cnt + 1) % 128 }

    at_i : take t.clients_num (set t.clients i c') ≡ set (active t) i c'
    at_i = take-set t.clients_num i t.clients c'

    there : get_elem? (active t) i ≡ some c
    there = get_elem?-take t.clients_num i t.clients lt ∙ e

-- The slot that `ctl_sub` fills.
pub new_client : (hd : ℕ) → Bool → IpAddr → List ℕ → Client → Client
new_client hd is_udp log_addr log_addr_str old =
    if is_udp
    then record {
      hd = hd;
      addr_str = log_addr_str;
      udp_flag = true;
      pack_cnt = 0;
      addr_port = log_addr;
    }
    else record old { hd = hd; addr_str = log_addr_str; udp_flag = false }

-- Where a slot is free, `ctl_sub` appends one client to the list.
pub active-store_client :
    (hd : ℕ) (is_udp : Bool) (log_addr : IpAddr) (log_addr_str : List ℕ) (old : Client) (t : Table)
    → t.clients_num < length t.clients
    → active (store_client t.clients_num hd is_udp log_addr log_addr_str old t)
      ≡ active t ++ new_client hd is_udp log_addr log_addr_str old ∷ []
unfolding store_client new_client
active-store_client hd is_udp log_addr log_addr_str old t lt =
    let next : t.clients_num + 1 ≡ suc t.clients_num = omega arith in
    rw next (take-set_end t.clients_num t.clients _ lt)

stored_counts :
    (hd : ℕ) (is_udp : Bool) (log_addr : IpAddr) (log_addr_str : List ℕ) (old : Client) (t : Table)
    → let t' = store_client t.clients_num hd is_udp log_addr log_addr_str old t in
      (length t'.clients ≡ length t.clients)
      × (t'.clients_num ≡ t.clients_num + 1)
      × (t'.udp_clients_num ≡ (if is_udp then t.udp_clients_num + 1 else t.udp_clients_num))
unfolding store_client
stored_counts hd is_udp log_addr log_addr_str old t =
    (length-set t.clients t.clients_num _, refl, refl)

-- What `ctl_sub` stores: the address it was given, and a counter of seven bits where the old one was.
new_client_facts :
    (hd : ℕ) (is_udp : Bool) (log_addr : IpAddr) (log_addr_str : List ℕ) (old : Client)
    → old.pack_cnt < 128
    → let new = new_client hd is_udp log_addr log_addr_str old in
      (new.addr_str ≡ log_addr_str)
      × InSevenBits new
      × (udp_count (new ∷ []) ≡ (if is_udp then 1 else 0))
unfolding new_client udp_count
new_client_facts hd true log_addr log_addr_str old bits = (refl, omega arith, refl)
new_client_facts hd false log_addr log_addr_str old bits = (refl, bits, refl)

stored_counters :
    (hd : ℕ) (is_udp : Bool) (log_addr : IpAddr) (log_addr_str : List ℕ) (old : Client) (t : Table)
    → All InSevenBits t.clients
    → InSevenBits (new_client hd is_udp log_addr log_addr_str old)
    → All InSevenBits (store_client t.clients_num hd is_udp log_addr log_addr_str old t).clients
unfolding store_client new_client
stored_counters hd is_udp log_addr log_addr_str old t h new =
    All-set InSevenBits t.clients t.clients_num _ h new

pub new_client_addr :
    (hd : ℕ) (is_udp : Bool) (log_addr : IpAddr) (log_addr_str : List ℕ) (old : Client)
    → (new_client hd is_udp log_addr log_addr_str old).addr_str ≡ log_addr_str
unfolding new_client
new_client_addr hd true log_addr log_addr_str old = refl
new_client_addr hd false log_addr log_addr_str old = refl

-- Where the invariant of the table holds, a slot is free and no client in use has the new address,
-- storing a client in the first free slot, as `ctl_sub` does, keeps the invariant.
pub store_client-IsTable :
    (max hd : ℕ) (is_udp : Bool) (log_addr : IpAddr) (log_addr_str : List ℕ) (old : Client)
    (t : Table)
    → IsTable max t
    → t.clients_num < max
    → get_elem? t.clients t.clients_num ≡ some old
    → All (λ (d : Client). d.addr_str ≢ log_addr_str) (active t)
    → IsTable max (store_client t.clients_num hd is_udp log_addr log_addr_str old t)
store_client-IsTable max hd is_udp log_addr log_addr_str old t v lt at fresh = record {
  slots = counts.0 ∙ v.slots;
  in_use = omega (arith, counts.1);
  udp = rw appended (counts.2 ∙ added);
  distinct = rw appended (Distinct-append (active t) new v.distinct (rw facts.0 fresh));
  counters = stored_counters hd is_udp log_addr log_addr_str old t v.counters facts.1;
}
  where
    new : Client
    new = new_client hd is_udp log_addr log_addr_str old

    facts :
        (new.addr_str ≡ log_addr_str)
        × InSevenBits new
        × (udp_count (new ∷ []) ≡ (if is_udp then 1 else 0))
    facts =
        new_client_facts hd is_udp log_addr log_addr_str old
          (All-get_elem? InSevenBits t.clients t.clients_num old v.counters at)

    counts :
        let t' = store_client t.clients_num hd is_udp log_addr log_addr_str old t in
        (length t'.clients ≡ length t.clients)
        × (t'.clients_num ≡ t.clients_num + 1)
        × (t'.udp_clients_num ≡ (if is_udp then t.udp_clients_num + 1 else t.udp_clients_num))
    counts = stored_counts hd is_udp log_addr log_addr_str old t

    appended :
        active (store_client t.clients_num hd is_udp log_addr log_addr_str old t)
        ≡ active t ++ new ∷ []
    appended = active-store_client hd is_udp log_addr log_addr_str old t (omega (arith, v.slots))

    added :
        (if is_udp then t.udp_clients_num + 1 else t.udp_clients_num)
        ≡ udp_count (active t ++ new ∷ [])
    added = ground (arith, v.udp, facts.2, udp_count-append (active t) (new ∷ []))
