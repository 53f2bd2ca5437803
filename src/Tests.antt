-- ===== src/Tests.antt =====
-- The theorems at concrete inputs, and runs of the code.
mod Hosts
mod ArpTests
mod TableTests
mod IpTests
mod RelayTests
mod ThreadsTests
mod LayersTests
mod DialogTests
mod AdapterTests
mod LifetimeTests
mod SelectTests
mod Grid
mod ScreenTests
mod SoundTests
mod TypedTests
