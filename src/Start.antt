-- ===== src/Start.antt =====
-- The constructor of CARPDlg (ARP/ARPDlg.cpp): the layers are made, and linked.
use arpwith_mfc.Base.{codes, ℕ, true, false, none, List, [], ◌∷◌, Result, ok, ◌>>=◌}
use arpwith_mfc.Wire.Address.{Ip, Mac}
use arpwith_mfc.Wire.Formats.{IpHeader}
use arpwith_mfc.State.{Both, Stack}
use arpwith_mfc.Ether
use arpwith_mfc.Arp
use arpwith_mfc.IpLayer
use arpwith_mfc.Ni.Adapters
use arpwith_mfc.Ni.Adapters.{Device}
use arpwith_mfc.Dialog.Select.{Window}
use arpwith_mfc.Layers.{Objects, base_layer}
use arpwith_mfc.Layers.Manager
use arpwith_mfc.Layers.Manager.{Manager}

-- What the memory of the new objects held where the constructors leave it alone.
pub record Found : Type 0 where
  pub ip : Ip
  pub mac : Mac
  pub headers : Both IpHeader

-- The four layers, made by their constructors.
unfoldable pub new_layers : Found → Result Stack
unfolding Arp.init IpLayer.init Ether.init
new_layers found = do
  arp ← Arp.init found.ip found.mac
  ok (record {
    ethernet = Ether.init;
    arp = arp;
    ip = IpLayer.init found.headers;
    route_table = [];
    sent = [];
  })

-- the layer objects, the dialog last
abbrev pub layer_objects : Objects
layer_objects =
    base_layer (codes "ARP")
    ∷ base_layer (codes "Network")
    ∷ base_layer (codes "Ethernet")
    ∷ base_layer (codes "NI")
    ∷ base_layer (codes "Dlg")
    ∷ []

abbrev pub layer_text : List ℕ
layer_text = codes "NI ( *Ethernet ( *Network ( *Dlg  -ARP ) *ARP ) )"

-- AddLayer of the five, and ConnectLayers
unfoldable pub link_layers : Result Manager
link_layers = do
  m0 ← Manager.add_layer (Manager.init layer_objects) 0
  m1 ← Manager.add_layer m0 1
  m2 ← Manager.add_layer m1 2
  m3 ← Manager.add_layer m2 3
  m4 ← Manager.add_layer m3 4
  Manager.connect_layers m4 layer_text

-- The window when it is shown: nothing is chosen, and by the resource file of the dialog all controls but
-- the one for the destination are enabled.
unfoldable pub new_window : Stack → List Device → Both Mac → Both Ip → Ip → Window
unfolding Adapters.init
new_window s devices found src dst = record {
  stack = s;
  adapters = Adapters.init devices found;
  controls = record {
    src_address = src;
    dst_address = dst;
    adapter_enabled = true;
    dst_enabled = false;
  };
  hw_text = record { at_inner = []; at_outer = [] };
  cur_sel = record { at_inner = none; at_outer = none };
  address_enabled = record { at_inner = true; at_outer = true };
  inner_adapter_enabled = true;
  caption = codes "Select";
  timer = false;
  threads = 0;
}
