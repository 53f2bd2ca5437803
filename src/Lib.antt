-- ===== src/Lib.antt =====
-- ARPWithMFC: a router for two network adapters with ARP, gratuitous ARP and proxy ARP
-- (directory ARP). Layer objects are stacked: CNILayer (pcap) below, CEthernetLayer on it, and on
-- that CIPLayer and CARPLayer. A frame comes in by CNILayer::Receive, goes up by the type of the
-- Ethernet header, and ends in the ARP table or, by the routing table, in CARPLayer::RSend, which
-- finds the Ethernet address of the next hop and sends the packet by the other adapter.
--
-- The files, and the code that each is about:
-- - `Base.antt` and its children: the outcome of code that may throw or access memory out of bounds
--   (`Result`), memcpy, lists and the Boolean tests.
-- - `Wire/Address.antt`, `Wire/Formats.antt`: IP and Ethernet addresses, the constants of
--   ARP/stdafx.h and the packed structs of ARP/EthernetLayer.h, ARP/ARPLayer.h and ARP/IPLayer.h, with
--   the bytes that they lie over. The code never calls ntohs or htons, so a short is read with its low
--   byte first; `Wire/RoundTrip.antt` is about these bytes.
-- - `State.antt`: the members of the layers as the record `Stack`, and `Env`, what is taken from outside.
-- - `Ni/Lifetime.antt`: the constructor and the destructor of CNILayer in ARP/NILayer.cpp.
-- - `Ni/Adapters.antt`: the adapters in ARP/NILayer.cpp, with pcap and Packet32 as the parameter `Pcap`;
--   `Ni/Adapters/Queries.antt` is about the Ethernet addresses that it gives.
-- - `Ni.antt`, `Ether.antt`, `Ether/Receive.antt`: ARP/NILayer.cpp (Send, Receive and the two
--   receive threads), ARP/EthernetLayer.cpp.
--   `Ether/Laws.antt` and `Ether/Demux.antt` are about the two directions.
-- - `Arp.antt`, `Arp/Table.antt`, `Arp/Proxy.antt`, `Arp/Nodes.antt`, `Arp/Wait.antt`: CARPLayer in
--   ARP/ARPLayer.cpp. The table as a finite map is in `Arp/Cache.antt`, what Receive leaves in it in
--   `Arp/Notes.antt`; the other children are about the operations.
-- - `IpLayer.antt`, `IpLayer/Routes.antt`: CIPLayer in ARP/IPLayer.cpp, with
--   `IpLayer/Selection.antt` on the choice of a row, `IpLayer/Gateway.antt` on SetDefaultGateway and
--   `IpLayer/Forwarding.antt` on packets.
-- - `Layers.antt`, `Layers/Tokens.antt`, `Layers/Manager.antt`: ARP/BaseLayer.cpp and
--   ARP/LayerManager.cpp. `Layers/Tree.antt` is the notation that ConnectLayers reads, as trees,
--   and `Layers/Release.antt` is about DeAllocLayer.
-- - `Text.antt`: addrToStr and StrToaddr of ARP/ARPLayer.cpp, with `Text/Numbers.antt`,
--   `Text/RoundTrip.antt` and `Text/Same.antt` on the octets, on whole addresses and on texts compared.
-- - `Dialog.antt`: handlers of ARP/ARPDlg.cpp, and the OK buttons of ARP/CDeviceAdd.cpp and
--   ARP/CRoutingTableEntry.cpp. `Dialog/Requests.antt` and `Dialog/Buttons.antt` are about the two
--   buttons that send requests.
-- - `Dialog/Select.antt`: the choice of the adapters in ARP/ARPDlg.cpp (OnCbnSelchangeComboAdapter,
--   OnBnClickedButtonSelect), with CIPAddressCtrl as a parameter. `Dialog/Select/Chosen.antt` and
--   `Dialog/Select/Started.antt` are about its two handlers.
-- - `Screen.antt`, `Screen/Devices.antt`: what the dialogs put into their lists and boxes, with CListCtrl
--   and CComboBox as parameters. `Screen/Shown.antt`, `Screen/Exact.antt`, `Screen/Updated.antt`,
--   `Screen/Entries.antt`, `Screen/Proxies.antt` and `Screen/Cleared.antt` are about the rows.
-- - `Start.antt`: the constructor of CARPDlg, which makes the layers and links them.
-- - `Sound.antt` and its children: the invariant of the layers, and of the dialog with its layers, over all
--   that the two go through. `Sound/Reach.antt` and `Sound/Windows.antt` have the step relations.
-- - `Typed.antt` and its children: the widths of the C++ types, over all that the layers go through.
-- - `Sized.antt`, `Delivers.antt`: the sizes of the buffers, and what a call of Send hands on.
-- - `Exchange.antt`, `Unheard.antt`: two hosts on one wire, and frames and answers that do not arrive. `Relay.antt` and
--   `Relay/Neighbour.antt`: a packet on its way through a router to the next hop.
-- - `Threads.antt`, `Threads/Apart.antt`, `Threads/Race.antt`: the two receiving threads at the same time,
--   call by call, by different adapters and by the same one.
-- - `Tests.antt`: concrete hosts, tables and frames.
--
-- Conventions. `INNER` and `OUTER` are `Port`, an array of two is `Both`. A pointer to a layer is an index
-- into the list of the layer objects. Time is in seconds. A BOOL result comes with the new state; C++
-- `throw` is `thrown`, and an access outside an array or at `end()` is `fault`. A buffer that comes in is
-- the list of the bytes that are there from the pointer on; the header that the pointer is cast to must be
-- there whole, 14 bytes for CEthernetLayer::Receive and 28 for CARPLayer::Receive, also in the branches
-- that read fewer of them, and else the call is `fault`. Every loop of the code
-- runs over a list; the loop of CARPLayer::Wait runs over its turns, and `none` stands for one that goes
-- on behind them. `print_number` has fuel, one step for each digit, and is called with more of it than the
-- number itself; `delete_devices` has fuel, one step for each device of the list. `Env` stands for what is
-- not in the repository: CTime::GetCurrentTime, pcap_sendpacket, the memory that RSend does not
-- initialise, and what the message loop in CARPLayer::Wait and the other receiving thread do to the layers
-- in three seconds.
--
-- Not modelled: widths, positions, painting and menus of the dialogs; UctoS of ARP/CDeviceAdd.cpp, which
-- nothing calls; the MFC application object (ARP/ARP.cpp); and WinPcap (ARP/WpdPack), which is third-party
-- code. SetAdapter and GetMacAddress are those of a CNILayer whose constructor showed no message. Threads
-- that run at the same time as a handler are interleaved with it in their calls of CEthernetLayer
-- (`Threads.antt`) and nowhere else: otherwise their effect stands in `Env` where the code waits, and
-- between two handlers it is a step.
pub mod Base
pub mod Wire
pub mod State
pub mod Ni
pub mod Ether
pub mod Sized
pub mod Delivers
pub mod Arp
pub mod IpLayer
pub mod Layers
pub mod Exchange
pub mod Unheard
pub mod Text
pub mod Dialog
pub mod Start
pub mod Sound
pub mod Typed
pub mod Relay
pub mod Threads
pub mod Screen
mod Tests
