-- ===== src/Typed/Handlers.antt =====
-- The handlers of the dialogs keep the types.
use arpwith_mfc.Base.{
  ◌<◌, true, false, ℕ, ◌*◌, inl, inr, Bool, true, false, not, ◌&&◌, ◌||◌, List, [], Option, none,
  some, arith, All, Leaves, Leaves-bind, Bool-cases, ◌==◌,
}
use arpwith_mfc.Wire.Address.{Ip, Mac, fill_ip, fill_mac}
use arpwith_mfc.Wire.Formats.{IpHeader}
use arpwith_mfc.State.{
  Port, inner, outer, sel, ArpNode, ProxyNode, Stack, Env, with_arp, with_table,
}
use arpwith_mfc.Arp
use arpwith_mfc.Arp.Table.{clear_table}
use arpwith_mfc.Arp.Proxy.{create_proxy, proxy_node}
use arpwith_mfc.IpLayer
use arpwith_mfc.IpLayer.Routes.{add_route}
use arpwith_mfc.Text.{str_to_ip}
use arpwith_mfc.Dialog.{
  Controls, garp_send, send_arp, address_self, address_request, dummy, dummy_data, octet_sum,
  item_del, all_del, on_timer, device_ok, checked_flags, add_proxy_arp_cache, delete_selected,
  routing_entry_ok,
}
use arpwith_mfc.Sound.Buttons.{insert_route-All}
use arpwith_mfc.Typed.{
  IsIp, IsMac, NodeTyped, ProxyTyped, RouteTyped, IsTyped, KeptTyped, with_arp-IsTyped,
  nodes-LayerTyped, proxies-LayerTyped,
}
use arpwith_mfc.Typed.Bytes.{Octets, All-append, memcpy-Octets}
use arpwith_mfc.Typed.Tables.{
  update_table-NodeTyped, delete_item-NodeTyped, delete_proxy-ProxyTyped,
}
use arpwith_mfc.Typed.Sends.{arp_send-KeptTyped}
use arpwith_mfc.Typed.Packets.{
  set_ip_header-IsTyped, set_source_address-IsTyped, set_destin_address-IsTyped,
}
use arpwith_mfc.Typed.Texts.{str_to_mac-IsMac}

garp-IsTyped : (s : Stack) (b : Bool) → IsTyped s → IsTyped (with_arp s (Arp.set_garp s.arp b))
unfolding Arp.set_garp
garp-IsTyped s b v =
    with_arp-IsTyped s _
      (record {
        myip_typed = v.arp_typed.myip_typed;
        mymac_typed = v.arp_typed.mymac_typed;
        headers_typed = v.arp_typed.headers_typed;
        nodes_typed = v.arp_typed.nodes_typed;
        proxies_typed = v.arp_typed.proxies_typed;
      })
      v

ip_send-KeptTyped :
    (env : Env) (s : Stack) (payload : List ℕ) (n : ℕ) (port : Port)
    → Octets payload
    → IsTyped s
    → Leaves KeptTyped (IpLayer.send env s payload n port)
unfolding IpLayer.send
ip_send-KeptTyped env s payload n port b v =
    let t = v.ip_typed port in
    Leaves-bind Octets KeptTyped _ _
      (memcpy-Octets (sel s.ip port).ip_data payload n t.ip_data_typed b)
      (λ content c.
        let h : IpHeader = record (sel s.ip port) { ip_data = content } in
        arp_send-KeptTyped env (IpLayer.set_header s port h) h port t.ip_src_typed t.ip_dst_typed (
          set_ip_header-IsTyped s port h
            (record {
              numbers_fit = t.numbers_fit;
              ip_src_typed = t.ip_src_typed;
              ip_dst_typed = t.ip_dst_typed;
              ip_data_typed = c;
            })
            v))

-- the addresses in the controls
pub record ControlsTyped (c : Controls) : Type 0 where
  pub inner_typed : IsIp c.src_address.at_inner
  pub outer_typed : IsIp c.src_address.at_outer
  pub asked_typed : IsIp c.dst_address

address_self-IsTyped :
    (s : Stack) (a : Ip) (port : Port) → IsIp a → IsTyped s → IsTyped (address_self s a port)
unfolding address_self
address_self-IsTyped s a port i v =
    set_source_address-IsTyped _ a port i (set_destin_address-IsTyped s a port i v)

dummy-Octets : Octets dummy
dummy-Octets = omega arith

dummy_data-Octets : Octets dummy_data
dummy_data-Octets = omega arith

pub garp_send-IsTyped :
    (env : Env) (s : Stack) (c : Controls)
    → ControlsTyped c
    → IsTyped s
    → Leaves IsTyped (garp_send env s c)
unfolding garp_send
garp_send-IsTyped env s c t v =
    Leaves-bind KeptTyped IsTyped _ _
      (ip_send-KeptTyped env _ dummy 6 outer dummy-Octets
        (address_self-IsTyped _ _ outer t.outer_typed (garp-IsTyped s true v)))
      (λ x u.
        Leaves-bind KeptTyped IsTyped _ _
          (ip_send-KeptTyped env _ dummy 6 inner dummy-Octets
            (address_self-IsTyped x.1 _ inner t.inner_typed u))
          (λ y w. garp-IsTyped y.1 false w))

address_request-IsTyped :
    (s : Stack) (c : Controls) → ControlsTyped c → IsTyped s → IsTyped (address_request s c)
unfolding address_request
address_request-IsTyped s c t v = set_destin_address-IsTyped _ c.dst_address outer t.asked_typed (
    set_destin_address-IsTyped _ c.dst_address inner t.asked_typed (
      set_source_address-IsTyped _ c.src_address.at_outer outer t.outer_typed
        (set_source_address-IsTyped s c.src_address.at_inner inner t.inner_typed v)))

pub send_arp-IsTyped :
    (env : Env) (s : Stack) (c : Controls)
    → ControlsTyped c
    → IsTyped s
    → Leaves IsTyped (send_arp env s c)
unfolding send_arp
send_arp-IsTyped env s c t v =
    let a = address_request-IsTyped s c t v in
    elim (Bool-cases (c.dst_enabled && not c.adapter_enabled)) [
      | inl on ↦
          elim (Bool-cases (octet_sum c.dst_address == 0 || octet_sum c.dst_address == 255 * 4)) [
            | inl bad ↦ rw (on, bad) a
            | inr good ↦
                rw (on, good)
                  (Leaves-bind KeptTyped IsTyped _ _
                    (ip_send-KeptTyped env (address_request s c) dummy_data 11 inner
                      dummy_data-Octets a)
                    (λ x u.
                      Leaves-bind KeptTyped IsTyped _ _
                        (ip_send-KeptTyped env x.1 dummy_data 11 outer dummy_data-Octets u)
                        (λ y w. w)))
          ]
      | inr off ↦ rw off v
    ]

nodes-IsTyped :
    (s : Stack) (t : List ArpNode) → All NodeTyped t → IsTyped s → IsTyped (with_table s t)
nodes-IsTyped s t n v = with_arp-IsTyped s _ (nodes-LayerTyped s.arp t n v.arp_typed) v

pub on_timer-IsTyped : (env : Env) (s : Stack) → IsTyped s → IsTyped (on_timer env s)
unfolding on_timer
on_timer-IsTyped env s v =
    nodes-IsTyped s _ (update_table-NodeTyped env.now s.arp.arp_table v.arp_typed.nodes_typed) v

pub all_del-IsTyped : (s : Stack) → IsTyped s → IsTyped (all_del s)
unfolding all_del clear_table
all_del-IsTyped s v = nodes-IsTyped s [] tt v

pub item_del-IsTyped :
    (s : Stack) (text : Option (List ℕ)) → IsTyped s → Leaves IsTyped (item_del s text)
unfolding item_del Arp.delete_item_text
item_del-IsTyped s none v = v
item_del-IsTyped s (some text) v =
    Leaves-bind (All NodeTyped) IsTyped _ _
      (delete_item-NodeTyped s.arp.arp_table (str_to_ip (fill_ip 0) text) v.arp_typed.nodes_typed)
      (λ t n. nodes-IsTyped s t n v)

proxies-IsTyped :
    (s : Stack) (t : List ProxyNode)
    → All ProxyTyped t
    → IsTyped s
    → IsTyped (with_arp s (record (s.arp) { proxy_table = t }))
proxies-IsTyped s t p v = with_arp-IsTyped s _ (proxies-LayerTyped s.arp t p v.arp_typed) v

pub device_ok-IsTyped :
    (s : Stack) (mac : Mac) (ip : Ip) (text : List ℕ)
    → IsMac mac
    → IsIp ip
    → IsTyped s
    → IsTyped (device_ok s mac ip text)
unfolding device_ok add_proxy_arp_cache create_proxy proxy_node
device_ok-IsTyped s mac ip text m i v =
    proxies-IsTyped s _
      (All-append ProxyTyped s.arp.proxy_table _ v.arp_typed.proxies_typed (
        record {
          given_typed = m;
          address_typed = i;
          target_typed = str_to_mac-IsMac (fill_mac 0) text (omega arith);
        },
        tt,
      ))
      v

pub delete_selected-IsTyped :
    (s : Stack) (row : Option ℕ) → IsTyped s → Leaves IsTyped (delete_selected s row)
unfolding delete_selected
delete_selected-IsTyped s none v = tt
delete_selected-IsTyped s (some i) v =
    Leaves-bind (All ProxyTyped) IsTyped _ _
      (delete_proxy-ProxyTyped s.arp.proxy_table i v.arp_typed.proxies_typed)
      (λ t p. proxies-IsTyped s t p v)

checked_flags-fits : (up via host : Bool) → checked_flags up via host < 256
unfolding checked_flags
checked_flags-fits true true true = omega arith
checked_flags-fits true true false = omega arith
checked_flags-fits true false true = omega arith
checked_flags-fits true false false = omega arith
checked_flags-fits false true true = omega arith
checked_flags-fits false true false = omega arith
checked_flags-fits false false true = omega arith
checked_flags-fits false false false = omega arith

pub routing_entry_ok-IsTyped :
    (s : Stack) (dstip maskip gateway : Ip) (up via host : Bool) (interface : ℕ)
    → IsIp dstip
    → IsIp maskip
    → IsIp gateway
    → interface < 256
    → IsTyped s
    → IsTyped (routing_entry_ok s dstip maskip gateway up via host interface)
unfolding routing_entry_ok add_route
routing_entry_ok-IsTyped s dstip maskip gateway up via host interface d m g i v = record {
  ethernet_typed = v.ethernet_typed;
  arp_typed = v.arp_typed;
  ip_typed = v.ip_typed;
  routes_typed =
      insert_route-All RouteTyped _ s.route_table
        (record {
          destination_typed = d;
          netmask_typed = m;
          gateway_typed = g;
          flag_fits = checked_flags-fits up via host;
          interface_fits = i;
        })
        v.routes_typed;
  sent_typed = v.sent_typed;
}
