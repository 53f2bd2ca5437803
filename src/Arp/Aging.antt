-- ===== src/Arp/Aging.antt =====
-- CARPLayer::updateTable over time.
use arpwith_mfc.Base.{ℕ, ◌+◌, ◌≤◌, ◌<◌, ◌≡◌, refl, ◌⊎◌, inl, inr, ◌↔◌, ◌≢◌, List, [], ◌∷◌, arith}
use arpwith_mfc.State.{ArpNode}
use arpwith_mfc.Arp.Table.{age, update_table, arp_time_out, complete}

age-age : (now later : ℕ) (n : ArpNode) → now ≤ later → age later (age now n) ≡ age later n
unfolding age
age-age now later n h = ground arith

-- An earlier tick changes nothing of what a later one gives: only the time of the last tick
-- counts, and a second tick at the same time does nothing.
pub update_table-update_table :
    (now later : ℕ) (t : List ArpNode)
    → now ≤ later
    → update_table later (update_table now t) ≡ update_table later t
unfolding update_table
update_table-update_table now later [] h = refl
update_table-update_table now later (n ∷ t) h =
    ground (arith, age-age now later n h, update_table-update_table now later t h)

-- The node is out of date at the time `now`.
abbrev pub Expired : ℕ → ArpNode → Type 0
Expired now n =
    (n.status ≡ arp_time_out)
    ⊎ ((n.status ≡ complete) × (n.span_time + 600 < now))
    ⊎ ((n.status ≢ complete) × (n.span_time + 180 < now))

age-Expired : (now : ℕ) (n : ArpNode) → (age now n).status ≡ arp_time_out → Expired now n
unfolding age
age-Expired now n = ground arith

Expired-age : (now : ℕ) (n : ArpNode) → Expired now n → (age now n).status ≡ arp_time_out
unfolding age
Expired-age now n (inl e) = ground arith
Expired-age now n (inr (inl e)) = ground arith
Expired-age now n (inr (inr e)) = ground arith

-- The node `m` is what the node `n` is after a tick at the time `now`.
abbrev pub Aged : ℕ → ArpNode → ArpNode → Type 0
Aged now n m =
    (m.protocol_addr ≡ n.protocol_addr)
    × (m.hardware_addr ≡ n.hardware_addr)
    × (m.span_time ≡ n.span_time)
    × ((m.status ≡ arp_time_out) ↔ Expired now n)
    × ((m.status ≡ arp_time_out) ⊎ (m.status ≡ n.status))

age-Aged : (now : ℕ) (n : ArpNode) → Aged now n (age now n)
age-Aged now n = (
  unfold age in ground arith,
  unfold age in ground arith,
  unfold age in ground arith,
  (age-Expired now n, Expired-age now n),
  unfold age in ground arith,
)

-- Nodes of two tables, place by place.
abbrev pub AllAged : ℕ → List ArpNode → List ArpNode → Type 0
AllAged now [] [] = Unit {0}
AllAged now [] (m ∷ u) = ⊥
AllAged now (n ∷ t) [] = ⊥
AllAged now (n ∷ t) (m ∷ u) = Aged now n m × AllAged now t u

-- A tick removes no node and brings in none, keeps their order, and leaves each node's addresses and
-- time, also where an address has several nodes. A node is timed out afterwards exactly when it was
-- before, or more than 600 seconds have passed since its time for a complete node, or more than 180
-- for another; its status is otherwise what it was.
pub update_table_lem : (now : ℕ) (t : List ArpNode) → AllAged now t (update_table now t)
unfolding update_table
update_table_lem now [] = tt
update_table_lem now (n ∷ t) = (age-Aged now n, update_table_lem now t)
