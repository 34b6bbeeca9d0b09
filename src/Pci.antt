-- ===== src/Pci.antt =====
-- openstack_hypervisor/pci.py and openstack_hypervisor/devspec.py: PCI devices and the
-- specifications that whitelist them.
pub mod DevSpec
pub mod Sysfs
pub mod Exclusion
pub mod Overrides
