-- ===== src/Ni.antt =====
-- CNILayer::Send of ARP/NILayer.cpp. pcap_sendpacket is the environment's; a call of it is
-- recorded in the state.
pub mod Adapters
pub mod Lifetime
use arpwith_mfc.Base.{ℕ, Bool, List, [], ◌∷◌, ◌++◌}
use arpwith_mfc.State.{Port, Sent, Stack, Env}

-- CNILayer::Send
unfoldable pub send : Env → Stack → List ℕ → Port → Bool × Stack
send env s payload port =
    let p : Sent = record { port = port; bytes = payload } in
    (env.transmit p, record s { sent = s.sent ++ p ∷ [] })
