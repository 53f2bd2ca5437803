-- ===== src/Screen/Proxies.antt =====
-- The list of the proxy table: CARPDlg::AddProxyArpCache and CARPDlg::OnBnClickedButtonDelete, with the
-- row that each adds or deletes.
use arpwith_mfc.Base.{
  ℕ, zero, suc, ◌+◌, ◌<◌, ◌≤◌, ◌≡◌, refl, ap, ◌∙◌, inl, inr, List, [], ◌∷◌, ◌++◌, Option, none,
  some, Result, ok, fault, ◌>>=◌, get_elem?, length, length-append, Bool-cases, arith, ◌⊎◌, ltb,
  ltb→le, ltb→lt,
}
use mathlib.Core.Path.{subst}
use arpwith_mfc.Wire.Address.{Ip, Mac}
use arpwith_mfc.State.{outer, sel, put, ProxyNode, Stack, with_arp}
use arpwith_mfc.Arp.Proxy.{delete_proxy, create_proxy, proxy_node}
use arpwith_mfc.Ni.Adapters.{Device, Pcap, Adapters, get_mac_address, same_device}
use arpwith_mfc.Text.{ip_to_str, mac_to_str}
use arpwith_mfc.Dialog.{add_proxy_arp_cache, delete_selected}
use arpwith_mfc.Screen.{ListControl, Laws, add_proxy_row}

-- CARPDlg::AddProxyArpCache, `device` being the text of the chosen entry
unfoldable pub add_proxy :
    (L : ListControl)
    → Pcap
    → Adapters
    → Stack
    → L.Control
    → List ℕ
    → ℕ
    → Ip
    → Mac
    → Result (Stack × Adapters × L.Control)
unfolding add_proxy_row
add_proxy L pcap a s c device index ip addr = do
  (mac, a') ← get_mac_address pcap a index outer
  ok (add_proxy_arp_cache s mac ip addr, a', add_proxy_row L c device ip addr)

-- CARPDlg::OnBnClickedButtonDelete
unfoldable pub delete_clicked :
    (L : ListControl) → Stack → L.Control → Option ℕ → Result (Stack × L.Control)
delete_clicked L s c none = fault
delete_clicked L s c (some i) = do s' ← delete_selected s (some i); ok (s', L.delete_item c i)

-- The rows from `i` on show the addresses of the nodes.
abbrev Rows : (L : ListControl) → L.Control → ℕ → List ProxyNode → Type 0
Rows L c i [] = Unit
Rows L c i (p ∷ t) =
    (L.get_item_text c i 1 ≡ ip_to_str p.protocol_addr)
    × (L.get_item_text c i 2 ≡ mac_to_str p.hardware_addr)
    × Rows L c (suc i) t

-- There is one row for each node, in the order of the table, and it shows the node's addresses.
abbrev pub Mirrors : (L : ListControl) → L.Control → List ProxyNode → Type 0
Mirrors L c t = (L.get_item_count c ≡ length t) × Rows L c 0 t

module _ (L : ListControl) where
  Rows-push_back :
      (c d : L.Control) (i : ℕ) (t : List ProxyNode) (p : ProxyNode)
      → ((k l : ℕ) → k < i + length t → L.get_item_text d k l ≡ L.get_item_text c k l)
      → Rows L c i t
      → L.get_item_text d (i + length t) 1 ≡ ip_to_str p.protocol_addr
      → L.get_item_text d (i + length t) 2 ≡ mac_to_str p.hardware_addr
      → Rows L d i (t ++ p ∷ [])
  Rows-push_back c d i [] p same r ip mac = (
    subst (λ k. L.get_item_text d k 1 ≡ ip_to_str p.protocol_addr) (omega arith) ip,
    subst (λ k. L.get_item_text d k 2 ≡ mac_to_str p.hardware_addr) (omega arith) mac,
    tt,
  )
  Rows-push_back c d i (x ∷ t) p same (a, b, r) ip mac = (
    same i 1 (omega arith) ∙ a,
    same i 2 (omega arith) ∙ b,
    Rows-push_back c d (suc i) t p (λ k l h. same k l (omega arith)) r
        (subst (λ k. L.get_item_text d k 1 ≡ ip_to_str p.protocol_addr) (omega arith) ip)
        (subst (λ k. L.get_item_text d k 2 ≡ mac_to_str p.hardware_addr) (omega arith) mac),
  )

  -- rows that moved up by one
  Rows-moved :
      (c d : L.Control) (i : ℕ) (t : List ProxyNode)
      → ((k l : ℕ) → i ≤ k → L.get_item_text d k l ≡ L.get_item_text c (suc k) l)
      → Rows L c (suc i) t
      → Rows L d i t
  Rows-moved c d i [] up r = tt
  Rows-moved c d i (x ∷ t) up (a, b, r) = (
    up i 1 (omega arith) ∙ a,
    up i 2 (omega arith) ∙ b,
    Rows-moved c d (suc i) t (λ k l h. up k l (omega arith)) r,
  )

  Rows-delete :
      (c d : L.Control) (b i : ℕ) (t : List ProxyNode)
      → i < length t
      → ((k l : ℕ) → k < b + i → L.get_item_text d k l ≡ L.get_item_text c k l)
      → ((k l : ℕ) → b + i ≤ k → L.get_item_text d k l ≡ L.get_item_text c (suc k) l)
      → Rows L c b t
      → (t' : List ProxyNode) × (delete_proxy t i ≡ ok t')
        × (suc (length t') ≡ length t)
        × Rows L d b t'
  unfolding delete_proxy
  Rows-delete c d b i [] h same up r = absurd (omega arith)
  Rows-delete c d b zero (x ∷ t) h same up (ip, mac, r) =
      (t, refl, refl, Rows-moved c d b t (λ k l g. up k l (omega arith)) r)
  Rows-delete c d b (suc i) (x ∷ t) h same up (ip, mac, r) =
      let (t', e, n, q) =
        Rows-delete c d (suc b) i t (omega arith) (λ k l g. same k l (omega arith))
          (λ k l g. up k l (omega arith)) r in
      (x ∷ t', rw e refl, ap suc n, (same b 1 (omega arith) ∙ ip, same b 2 (omega arith) ∙ mac, q))

added-Mirrors :
    (L : ListControl) (law : Laws L) (c : L.Control) (device : List ℕ) (ip : Ip) (mac addr : Mac)
    (t : List ProxyNode)
    → Mirrors L c t
    → 2 < L.get_column_count c
    → Mirrors L (add_proxy_row L c device ip addr) (create_proxy t (some mac) (some ip) (some addr))
unfolding add_proxy_row create_proxy proxy_node
added-Mirrors L law c device ip mac addr t (n, r) h =
    let i = L.get_item_count c in
    let p = proxy_node (some mac) (some ip) (some addr) in
    let d = L.insert_item c i device in
    let e = L.set_item_text d i 1 (ip_to_str ip) in
    let f = L.set_item_text e i 2 (mac_to_str addr) in
    (
      omega (
        arith,
        n,
        law.text_count e i 2 (mac_to_str addr),
        law.text_count d i 1 (ip_to_str ip),
        law.inserted_count c device,
        length-append t (p ∷ []),
      ),
      Rows-push_back L c f 0 t p
          (λ k l b.
            law.text_other e i 2 (mac_to_str addr) k l (inl (λ z. omega arith))
            ∙ law.text_other d i 1 (ip_to_str ip) k l (inl (λ z. omega arith))
            ∙ law.inserted_other c device k l (omega arith))
          r
          (subst (λ k. L.get_item_text f k 1 ≡ ip_to_str ip) (omega arith)
            (law.text_other e i 2 (mac_to_str addr) i 1 (inr (λ z. omega arith))
              ∙ law.text_set d i 1 (ip_to_str ip) (omega (arith, law.inserted_count c device))
                  (omega (arith, law.inserted_columns c i device))))
          (subst (λ k. L.get_item_text f k 2 ≡ mac_to_str addr) (omega arith)
            (law.text_set e i 2 (mac_to_str addr)
              (omega (arith, law.text_count d i 1 (ip_to_str ip), law.inserted_count c device))
              (omega
                (arith, law.text_columns d i 1 (ip_to_str ip), law.inserted_columns c i device)))),
    )

-- GetMacAddress returns for a device of the list.
get_mac_address-returns :
    (pcap : Pcap) (a : Adapters) (index : ℕ) (d : Device)
    → get_elem? a.all_devices index ≡ some d
    → (mac : Mac) × (a' : Adapters) × (get_mac_address pcap a index outer ≡ ok (mac, a'))
unfolding get_mac_address
get_mac_address-returns pcap a index d e =
    elim (Bool-cases (same_device (some index) (sel a.device outer))) [
      | inl y ↦ (sel a.oid_data outer, a, rw (get_mac_address, e, y) refl)
      | inr n ↦ (
        pcap.request d.name (sel a.oid_data outer),
        record a { oid_data = put a.oid_data outer (pcap.request d.name (sel a.oid_data outer)) },
        rw (get_mac_address, e, n) refl,
      )
    ]

delete_proxy_past : (t : List ProxyNode) (i : ℕ) → length t ≤ i → delete_proxy t i ≡ fault
unfolding delete_proxy
delete_proxy_past [] i h = refl
delete_proxy_past (p ∷ t) zero h = absurd (omega arith)
delete_proxy_past (p ∷ t) (suc i) h = rw (delete_proxy_past t i (omega arith))

-- The list on the screen shows the proxy table, row by row, and goes on doing so when a proxy of a listed
-- device is added, to the empty table too, and when a row that is there is deleted; both handlers return.
-- For a row that is not there the iterator is erased at or past the end. The list has at least three
-- columns.
pub proxies-Mirrors :
    (L : ListControl) (law : Laws L) (pcap : Pcap) (a : Adapters) (s : Stack) (c : L.Control)
    (device : List ℕ) (index : ℕ) (d : Device) (ip : Ip) (addr : Mac) (i : ℕ)
    → Mirrors L c s.arp.proxy_table
    → 2 < L.get_column_count c
    → get_elem? a.all_devices index ≡ some d
    → ((s' : Stack) × (a' : Adapters) × (c' : L.Control) × (add_proxy L pcap a s c device index ip
            addr
          ≡ ok (s', a', c'))
        × Mirrors L c' s'.arp.proxy_table)
      × (((length s.arp.proxy_table ≤ i) × (delete_clicked L s c (some i) ≡ fault))
          ⊎ ((s' : Stack) × (c' : L.Control) × (i < length s.arp.proxy_table)
              × (delete_clicked L s c (some i) ≡ ok (s', c'))
              × Mirrors L c' s'.arp.proxy_table))
unfolding add_proxy delete_clicked delete_selected add_proxy_arp_cache
proxies-Mirrors L law pcap a s c device index d ip addr i (n, r) h e =
    let (mac, a', found) = get_mac_address-returns pcap a index d e in
    (
      (
        add_proxy_arp_cache s mac ip addr,
        a',
        add_proxy_row L c device ip addr,
        rw (add_proxy, found) refl,
        added-Mirrors L law c device ip mac addr s.arp.proxy_table (n, r) h,
      ),
      elim (Bool-cases (ltb i (length s.arp.proxy_table))) [
        | inr past ↦
            let p = ltb→le i (length s.arp.proxy_table) past in
            inl (p, rw (delete_proxy_past s.arp.proxy_table i p) refl)
        | inl y ↦
            let k = ltb→lt i (length s.arp.proxy_table) y in
            let there : i < L.get_item_count c = omega arith in
            let (t', gone, m, q) =
              Rows-delete L c (L.delete_item c i) 0 i s.arp.proxy_table k
                (λ x l b. law.deleted_before c i x l there (omega arith))
                (λ x l b. law.deleted_behind c i x l there (omega arith)) r in
            inr (
              with_arp s (record (s.arp) { proxy_table = t' }),
              L.delete_item c i,
              k,
              rw gone refl,
              (omega (arith, law.deleted_count c i there), q),
            )
      ],
    )
