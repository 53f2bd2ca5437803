-- ===== src/Dialog.antt =====
-- The handlers of CARPDlg (ARP/ARPDlg.cpp) and CRoutingTableEntry (ARP/CRoutingTableEntry.cpp) that
-- act on the layers. What the user has put into the controls is `Controls`; message boxes and the
-- lists on the screen are left out. The layer below the dialog is the IP layer.
pub mod Requests
pub mod Buttons
pub mod Select
use arpwith_mfc.Base.{
  ℕ, zero, suc, ◌+◌, ◌*◌, Bool, true, false, not, ◌&&◌, ◌||◌, List, [], ◌∷◌, Option, none, some,
  Result, ok, fault, ◌>>=◌, if◌then◌else◌, ◌==◌, bit_or,
}
use arpwith_mfc.Wire.Address.{Ip, Mac, fill_mac}
use arpwith_mfc.State.{Port, inner, outer, Both, Route, Stack, Env, with_arp, with_table}
use arpwith_mfc.Arp
use arpwith_mfc.Arp.Table.{clear_table, update_table}
use arpwith_mfc.Arp.Proxy.{create_proxy, delete_proxy}
use arpwith_mfc.IpLayer
use arpwith_mfc.IpLayer.Routes.{add_route}
use arpwith_mfc.Text.{str_to_mac}

-- The address controls of the two adapters and of the destination, and which windows are enabled.
pub record Controls : Type 0 where
  pub src_address : Both Ip
  pub dst_address : Ip
  pub adapter_enabled : Bool
  pub dst_enabled : Bool

-- `"dummy"` and `"dummy Data"`, with the byte 0 behind them
abbrev pub dummy : List ℕ
dummy = b'd' ∷ b'u' ∷ b'm' ∷ b'm' ∷ b'y' ∷ 0 ∷ []

abbrev pub dummy_data : List ℕ
dummy_data = b'd' ∷ b'u' ∷ b'm' ∷ b'm' ∷ b'y' ∷ b' ' ∷ b'D' ∷ b'a' ∷ b't' ∷ b'a' ∷ 0 ∷ []

-- CARPDlg::SetADDR
unfoldable pub set_addr : Stack → List ℕ → List ℕ → Ip → Port → Stack
set_addr s mac ip srcip port =
    let s1 = with_arp s (Arp.set_my_addr s.arp mac ip port) in
    IpLayer.set_destin_address (IpLayer.set_source_address s1 srcip port) srcip port

-- SetDestinAddress and SetSourceAddress with the adapter's own address
unfoldable pub address_self : Stack → Ip → Port → Stack
address_self s a port = IpLayer.set_source_address (IpLayer.set_destin_address s a port) a port

-- CARPDlg::OnBnClickedButtonGArpSend
unfoldable pub garp_send : Env → Stack → Controls → Result Stack
garp_send env s c = do
  let s1 = with_arp s (Arp.set_garp s.arp true)
  (_, s2) ← IpLayer.send env (address_self s1 c.src_address.at_outer outer) dummy 6 outer
  (_, s3) ← IpLayer.send env (address_self s2 c.src_address.at_inner inner) dummy 6 inner
  ok (with_arp s3 (Arp.set_garp s3.arp false))

-- The addresses that CARPDlg::OnBnClickedButtonSendArp puts into the two IP headers.
unfoldable pub address_request : Stack → Controls → Stack
address_request s c =
    let s1 = IpLayer.set_source_address s c.src_address.at_inner inner in
    let s2 = IpLayer.set_source_address s1 c.src_address.at_outer outer in
    IpLayer.set_destin_address (IpLayer.set_destin_address s2 c.dst_address inner) c.dst_address
      outer

-- the sum of the octets, by which the handler knows 0.0.0.0 and 255.255.255.255
abbrev pub octet_sum : Ip → ℕ
octet_sum a = a.o0 + a.o1 + a.o2 + a.o3

-- CARPDlg::OnBnClickedButtonSendArp
unfoldable pub send_arp : Env → Stack → Controls → Result Stack
send_arp env s c =
    if c.dst_enabled && not c.adapter_enabled
    then (if octet_sum c.dst_address == 0 || octet_sum c.dst_address == 255 * 4
        then ok (address_request s c)
        else (IpLayer.send env (address_request s c) dummy_data 11 inner >>= λ r.
            IpLayer.send env r.1 dummy_data 11 outer >>= λ q. ok q.1))
    else ok s

-- CARPDlg::OnBnClickedButtonItemDel, on the text of the selected row
unfoldable pub item_del : Stack → Option (List ℕ) → Result Stack
item_del s none = ok s
item_del s (some ip) = Arp.delete_item_text s.arp.arp_table ip >>= λ t. ok (with_table s t)

-- CARPDlg::OnBnClickedButtonAllDel
unfoldable pub all_del : Stack → Stack
all_del s = with_table s (clear_table s.arp.arp_table)

-- CARPDlg::OnTimer for the timer 1, without the list on the screen
unfoldable pub on_timer : Env → Stack → Stack
on_timer env s = with_table s (update_table env.now s.arp.arp_table)

-- CARPDlg::AddProxyArpCache, `mac` being what GetMacAddress finds of the chosen adapter
unfoldable pub add_proxy_arp_cache : Stack → Mac → Ip → Mac → Stack
add_proxy_arp_cache s mac ip addr = with_arp s (record (s.arp) {
  proxy_table = create_proxy s.arp.proxy_table (some mac) (some ip) (some addr);
})

-- CDeviceAdd::OnBnClickedOk: the Ethernet address is read from a text.
unfoldable pub device_ok : Stack → Mac → Ip → List ℕ → Stack
device_ok s adapter_mac ip text =
    add_proxy_arp_cache s adapter_mac ip (str_to_mac (fill_mac 0) text)

-- CARPDlg::OnBnClickedButtonDelete; where no row is selected, the index is -1.
unfoldable pub delete_selected : Stack → Option ℕ → Result Stack
delete_selected s none = fault
delete_selected s (some i) =
    delete_proxy s.arp.proxy_table i >>= λ t. ok (with_arp s (record (s.arp) { proxy_table = t }))

-- the flags that the three check boxes of CRoutingTableEntry stand for
unfoldable pub checked_flags : Bool → Bool → Bool → ℕ
checked_flags up gateway host =
    let f1 = if up then IpLayer.ip_route_up else 0 in
    let f2 = if gateway then bit_or f1 IpLayer.ip_route_gateway else f1 in
    if host then bit_or f2 IpLayer.ip_route_host else f2

-- CRoutingTableEntry::OnBnClickedOk
unfoldable pub routing_entry_ok : Stack → Ip → Ip → Ip → Bool → Bool → Bool → ℕ → Stack
routing_entry_ok s dstip maskip gateway up via host interface = record s {
  route_table = add_route s.route_table dstip maskip gateway (checked_flags up via host) interface;
}

-- CARPDlg::bgetMACaddrInARP
unfoldable pub mac_addr_in_arp : Stack → Ip → Mac → Result (Bool × Mac)
mac_addr_in_arp s ip mac = Arp.get_mac_in_arp s.arp ip mac
