-- ===== src/Bridge.antt =====
-- openstack_hypervisor/bridge_datapath.py: the bridge mappings, apart from the client of
-- ovs-vsctl, which `Ovs` models.
pub mod Mapping
pub mod Unique
pub mod RoundTrip
pub mod Changes
pub mod Detect
pub mod StableMac
