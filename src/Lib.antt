-- ===== src/Lib.antt =====
-- The openstack-hypervisor snap: what its hooks derive from the configuration and from the state of
-- the machine, and how they talk to Open vSwitch.
--
-- Parts, and the files that model them:
--
-- - Bridge/Mapping: `BridgeMapping` and `resolve_bridge_mappings` of
--   openstack_hypervisor/bridge_datapath.py, which turn the snap's options into mappings of a
--   physnet to a bridge and its interface. The three pieces of the loop's body are `add_entry`,
--   `parse_entry` and `add_mapping`; its four lists are the record `Seen`.
-- - Bridge/Changes: `resolve_ovs_changes` and `update_mappings_from_rename` of the same file. The
--   hook compares the mappings of the previous and of the new configuration; each loop is a
--   function on what it accumulates.
-- - Bridge/Detect: `detect_current_mappings`, the mappings that the running switch has.
-- - Bridge/StableMac: `generate_stable_laa_mac` and `physnet_mac_pair`.
-- - Ovs: the class `OVSCli`. Ovs.antt has its fields, the running and the collecting of commands
--   (`vsctl`, `commit`, `transaction`, `with_timeout`, `appctl`); Ovs/Queries the read-only
--   methods, Ovs/Json the encoding of the database (`_parse_ovsdb_data`), Ovs/Tables and
--   Ovs/SetCheck `list_table` and `set_check`, Ovs/Commands the methods that change the switch,
--   Ovs/Ports the managed ports of a bridge in openstack_hypervisor/hooks.py. A method is a function of the client and of the world that
--   gives a result or an exception beside the new state.
-- - Netplan: openstack_hypervisor/netplan.py, and Host the processes that it and
--   openstack_hypervisor/pci.py run.
-- - Dpdk: the DPDK part of openstack_hypervisor/hooks.py. Dpdk.antt has the mappings of ports and
--   bonds and `_process_dpdk_netplan_config`, whose round for one interface is `process_iface`: what
--   the loops over bonds and bridges find is a `Plan`, which `carry_out` enters into the mappings.
--   Dpdk/Takeover is `_process_dpdk_ports`, Dpdk/Creation the DPDK ports and bonds that it defines in
--   the switch, Dpdk/Readiness `_dpdk_config_is_ready`, and Dpdk/Settings `_configure_ovs`.
-- - Networking: the interfaces of the host and the rules of iptables in
--   openstack_hypervisor/hooks.py; Networking/Ovn `_configure_ovn_base` and its variant for an
--   external switch, and Networking/External `_configure_ovn_external_networking`, which puts the
--   changes of Bridge/Changes into effect by the commands of Ovs.
-- - Pci/DevSpec: openstack_hypervisor/devspec.py, the entries of Nova's PCI whitelist.
-- - Pci/Sysfs, Pci/Exclusion and Pci/Overrides: openstack_hypervisor/pci.py, the devices of the
--   machine, `apply_exclusion_list`, and the drivers that devices are bound to.
-- - Nics: openstack_hypervisor/cli/pci_devices.py, the candidate interfaces and, in Nics/Listing, the
--   lists of interfaces (`to_output_schema`) and of graphics cards, with the SR-IOV counters and
--   lspci of openstack_hypervisor/pci.py.
-- - Sriov: the part of openstack_hypervisor/hooks.py that derives the SR-IOV settings from the
--   network interfaces and replaces physical functions by their virtual functions, before the
--   exclusions of Pci/Exclusion are applied.
-- - Services: the part of openstack_hypervisor/hooks.py that decides which services stay stopped:
--   `_services_not_ready`, `_services_not_enabled_by_config`, `_get_exclude_services` and
--   `_ensure_internal_ovs_services`; and the context manager `RestartOnChange`, which restarts the
--   services of the configuration files that its block wrote; `_update_default_config`;
--   and `_add_compute_flavor`.
-- - Base: what the parts share: Python's texts (lists of code points), dicts in insertion order,
--   sets as lists without repetitions, `sorted`, numbers in texts, exceptions as values and
--   statements that change a state and may raise.
-- - Tests: the definitions at concrete inputs.
--
-- Code from outside is a parameter. `run` is the operating system, which takes a command line and
-- the state of the world and says how the process ended. `enum` is the order in which Python visits
-- the members of a set. `compile` is the module `re`. `Sysfs` is the file system under
-- /sys, `Files` and `exists` the tests of a path, `sha256` the digests, `loads` the reading of JSON,
-- `safe_load` that of YAML, `uuid_of` the module uuid, and `store` the writing of the snap's
-- configuration. `content` is what the files under the snap's directory hold, and `listed`, `stop`
-- and `start` are calls of snapd; `has` and `set_options` are its options. `links` is pyroute2 and the clock, and `lspci` how that command ends.
--
-- All loops are structural, but for the digits of a number in Base/Decimal and Base/Hex, which
-- count down from the number itself: each step divides it by the base, so that many steps are
-- enough; and for the loop that waits for an interface in Networking, which is given 32 rounds: each
-- sleeps for a second, and after 30 seconds the loop gives up.
--
-- Not modelled: logging; a binary that may not be executed, and output that is not UTF-8; the
-- set-up of the snap, its services, templates, TLS and libvirt in openstack_hypervisor/hooks.py;
-- openstack_hypervisor/services.py, openstack_hypervisor/manage_guests.py and the rest of
-- openstack_hypervisor/cli, which call snapd, libvirt and a socket.
pub mod Base
pub mod Bridge
pub mod Dpdk
pub mod Host
pub mod Netplan
pub mod Networking
pub mod Nics
pub mod Ovs
pub mod Pci
pub mod Services
pub mod Sriov
mod Tests
