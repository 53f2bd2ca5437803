-- ===== src/Wire.antt =====
-- The bytes of the three packet formats (ARP/EthernetLayer.h, ARP/ARPLayer.h, ARP/IPLayer.h).
pub mod Address
pub mod Formats
pub mod RoundTrip
