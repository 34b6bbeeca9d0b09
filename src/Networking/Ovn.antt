-- ===== src/Networking/Ovn.antt =====
-- openstack_hypervisor/hooks.py: the options of the network, and the base configuration of OVN.
use snap_openstack_hyperviso.Base.{
  Option, none, some, Bool, not, ◌&&◌, List, [], ◌∷◌, if◌then◌else◌, ◌==◌, text_eq,
}
use snap_openstack_hyperviso.Base.Dict.{Dict}
use snap_openstack_hyperviso.Base.Text.{Text, str, truthy, given}
use snap_openstack_hyperviso.Base.Effects.{Exec, pure, ◌>>=◌, ◌>>◌}
use snap_openstack_hyperviso.Ovs.{Outcome, Session}
use snap_openstack_hyperviso.Ovs.Commands.{set, remove}

abbrev pub get_datapath_type : Bool → Text
get_datapath_type ovs_dpdk_enabled = if ovs_dpdk_enabled then str "netdev" else str "system"

abbrev pub ipvanynetwork_unset : Text
ipvanynetwork_unset = str "0.0.0.0/0"

-- The options that this reads. The first three may be `None`; of the others, one that is missing is
-- the empty text.
pub record NetworkOptions : Type 0 where
  pub ip_address : Option Text
  pub node_ip_address : Option Text
  pub node_fqdn : Option Text
  pub ovn_sb_connection : Text
  pub external_bridge : Text
  pub physnet_name : Text
  pub external_nic : Text
  pub bridge_mapping : Text
  pub external_bridge_address : Text
  pub ovs_dpdk_enabled : Bool

abbrev pub ovn_encap_ip : NetworkOptions → Option Text
ovn_encap_ip o = if given o.ip_address then o.ip_address else o.node_ip_address

-- `external_bridge_address != IPVANYNETWORK_UNSET`
abbrev pub has_address : NetworkOptions → Bool
has_address o = not (o.external_bridge_address == ipvanynetwork_unset)

-- How an f-string prints an option.
abbrev printed : Option Text → Text
printed none = str "None"
printed (some value) = value

module _ {W : Type 0} (run : List Text → W → Outcome × W) where
  abbrev pub set_external_ids : Dict Text Text → Exec (Session W) (Unit {0})
  set_external_ids settings = set run (str "open") (str ".") (str "external_ids") settings

  unfoldable pub configure_ovn_base_external_ovs : NetworkOptions → Exec (Session W) (Unit {0})
  unfolding set
  configure_ovn_base_external_ovs o =
      if given (ovn_encap_ip o)
      then set_external_ids (
          (str "ovn-encap-type", str "geneve")
          ∷ (str "ovn-encap-ip", printed (ovn_encap_ip o))
          ∷ (str "ovn-bridge-datapath-type", get_datapath_type o.ovs_dpdk_enabled)
          ∷ [])
      else pure tt

  -- The guard lets a missing system id pass when the address is missing too.
  unfoldable pub configure_ovn_base : NetworkOptions → Exec (Session W) (Unit {0})
  unfolding set remove
  configure_ovn_base o = if not (given (ovn_encap_ip o)) && given o.node_fqdn then pure tt else (do
    set_external_ids (
        (str "ovn-encap-type", str "geneve")
        ∷ (str "ovn-encap-ip", printed (ovn_encap_ip o))
        ∷ (str "system-id", printed o.node_fqdn)
        ∷ (str "hostname", printed o.node_fqdn)
        ∷ (str "ovn-bridge-datapath-type", get_datapath_type o.ovs_dpdk_enabled)
        ∷ [])
    removed ←
        remove run (str "open") (str ".") (str "external_ids") (str "ovn-match-northd-version")
    (if truthy o.ovn_sb_connection
        then set_external_ids ((str "ovn-remote", o.ovn_sb_connection) ∷ [])
        else pure tt))
