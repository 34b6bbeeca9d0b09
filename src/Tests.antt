-- ===== src/Tests.antt =====
-- Tests of the definitions, and the theorems at concrete inputs.
mod Datapath
mod Devices
mod Configuration
mod Switch
mod Dpdk
mod Readiness
mod Restart
mod Defaults
mod Networking
mod Nics
