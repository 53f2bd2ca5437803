-- ===== src/State.antt =====
-- The members of the layer objects (ARP/EthernetLayer.h, ARP/ARPLayer.h, ARP/IPLayer.h,
-- ARP/NILayer.h) as one state, and what the layers take from outside the repository.
use arpwith_mfc.Base.{ℕ, Bool, List, ◌≡◌, refl, ◌≢◌}
use arpwith_mfc.Wire.Address.{Ip, Mac}
use arpwith_mfc.Wire.Formats.{EthernetHeader, ArpHeader, IpHeader}

-- `INNER` and `OUTER`: which of the two adapters a call is about.
pub data Port : Type 0 where
  inner outer : Port

-- An array of two, indexed by the port.
pub record Both (A : Type 0) : Type 0 where
  pub at_inner : A
  pub at_outer : A

abbrev pub sel : {A : Type 0} → Both A → Port → A
sel b inner = b.at_inner
sel b outer = b.at_outer

abbrev pub put : {A : Type 0} → Both A → Port → A → Both A
put b inner a = record b { at_inner = a }
put b outer a = record b { at_outer = a }

pub sel-put_self : {A : Type 0} (b : Both A) (port : Port) (a : A) → sel (put b port a) port ≡ a
sel-put_self b inner a = refl
sel-put_self b outer a = refl

pub sel-put_ne :
    {A : Type 0} (b : Both A) (p q : Port) (a : A) → p ≢ q → sel (put b p a) q ≡ sel b q
sel-put_ne b inner inner a h = absurd (h refl)
sel-put_ne b inner outer a h = refl
sel-put_ne b outer inner a h = refl
sel-put_ne b outer outer a h = absurd (h refl)

-- What holds of every element holds of both elements.
pub put-ind :
    {A : Type 0} (P : A → Type 0) (b : Both A) (p : Port) (a : A)
    → ((q : Port) → P (sel b q))
    → P a
    → (q : Port) → P (sel (put b p a) q)
put-ind P b inner a h k inner = k
put-ind P b inner a h k outer = h outer
put-ind P b outer a h k inner = h inner
put-ind P b outer a h k outer = k

-- `ARP_NODE`: the status is FALSE (0), TRUE (1) or ARP_TIME_OUT (2); times are in seconds.
pub record ArpNode : Type 0 where
  pub protocol_addr : Ip
  pub hardware_addr : Mac
  pub status : ℕ
  pub span_time : ℕ

-- `PROXY_ARP_NODE`
pub record ProxyNode : Type 0 where
  pub srchardware_addr : Mac
  pub protocol_addr : Ip
  pub hardware_addr : Mac

-- `ROUTING_TABLE_NODE`
pub record Route : Type 0 where
  pub destination_ip : Ip
  pub netmask : Ip
  pub gateway : Ip
  pub flag : ℕ
  pub interface : ℕ

-- the members of CARPLayer
pub record ArpLayer : Type 0 where
  pub myip : Both Ip
  pub mymac : Both Mac
  pub is_garp : Bool
  pub headers : Both ArpHeader
  pub arp_table : List ArpNode
  pub proxy_table : List ProxyNode

-- A call of pcap_sendpacket: the adapter and the bytes handed over.
pub record Sent : Type 0 where
  pub port : Port
  pub bytes : List ℕ

-- The layers of one process, and the calls of pcap_sendpacket that were made so far.
pub record Stack : Type 0 where
  pub ethernet : Both EthernetHeader
  pub arp : ArpLayer
  pub ip : Both IpHeader
  pub route_table : List Route
  pub sent : List Sent

-- What the code takes from outside: the time of CTime::GetCurrentTime, whether pcap_sendpacket
-- succeeds, what an uninitialised IP_HEADER holds, and what the message loop of CARPLayer::Wait
-- and the other receiving thread do to the layers during three seconds.
pub record Env : Type 0 where
  pub now : ℕ
  pub transmit : Sent → Bool
  pub uninit : IpHeader
  pub wait : Stack → Stack

abbrev pub with_arp : Stack → ArpLayer → Stack
with_arp s a = record s { arp = a }

abbrev pub with_table : Stack → List ArpNode → Stack
with_table s t = record s { arp = record (s.arp) { arp_table = t } }
