-- ===== src/Tests/Switch.antt =====
-- openstack_hypervisor/hooks.py: the managed ports of a bridge and the services of Open vSwitch at
-- concrete inputs.
use snap_openstack_hyperviso.Base.{
  ◌≡◌, ◌≢◌, refl, Bool, true, false, ◌&&◌, none, List, [], ◌∷◌, contains, text_eq, Result, ok,
  arith,
}
use mathlib.Core.Logic.{dite}
use snap_openstack_hyperviso.Base.Text.{Text, str}
use snap_openstack_hyperviso.Ovs.{Outcome, completed, Session, ovs_cli, vsctl_command}
use snap_openstack_hyperviso.Ovs.Tables.{Table}
use snap_openstack_hyperviso.Ovs.Json.{string}
use snap_openstack_hyperviso.Ovs.Ports.{ensure_single_nic_on_bridge}
use snap_openstack_hyperviso.Ovs.Ports.Managed.{detach, ensure_single_nic_on_bridge-Held}
use snap_openstack_hyperviso.Services.{external_ovs_services, ensure_internal_ovs_services}
use snap_openstack_hyperviso.Services.Started.{startable, contains-ensure_internal_ovs_services}

args_dec : Discrete (List Text)
args_dec = hlevel (text_eq.dec)

-- A switch of which only this is known: eth0 is attached to br-a until it is detached. Each command
-- prints eth1.
abbrev switch : List Text → Bool → Outcome × Bool
switch (binary ∷ retry ∷ args) attached = (
  completed (str "eth1"),
  dite (args_dec args (detach (str "br-a") (str "eth0"))) (λ yes. false) (λ no. attached),
)
switch _ attached = (completed [], attached)

abbrev printed : Text → Result Table
printed output = ok (record { headings = str "name" ∷ []; rows = (string (str "eth1") ∷ []) ∷ [] })

abbrev attached : Session Bool
attached = record { cli = ovs_cli none none none; world = true }

switch_keeps :
    (args : List Text) (w : Bool)
    → args ≢ detach (str "br-a") (str "eth0")
    → w ≡ true
    → (switch (vsctl_command attached.cli args true none) w).1 ≡ true
unfolding vsctl_command
switch_keeps args w d h = ground (arith, d, h)

ensure_single_nic_on_bridge-Held_example :
    ((ensure_single_nic_on_bridge switch printed (str "br-a") (str "eth0") attached).1.cli
      ≡ attached.cli)
    × ((ensure_single_nic_on_bridge switch printed (str "br-a") (str "eth0") attached).1.world
        ≡ true)
ensure_single_nic_on_bridge-Held_example =
    ensure_single_nic_on_bridge-Held switch printed (str "br-a") (str "eth0") (λ w. w ≡ true)
      attached refl switch_keeps refl

contains-ensure_internal_ovs_services_example :
    contains (ensure_internal_ovs_services false (str "ovn-controller" ∷ [])) (str "ovs-vswitchd")
    ≡ (contains external_ovs_services (str "ovs-vswitchd")
        && startable false (str "ovn-controller" ∷ []) (str "ovs-vswitchd"))
contains-ensure_internal_ovs_services_example =
    contains-ensure_internal_ovs_services false (str "ovn-controller" ∷ []) (str "ovs-vswitchd")

started_test :
    ensure_internal_ovs_services false (str "ovn-controller" ∷ [])
    ≡ str "ovsdb-server" ∷ str "ovs-vswitchd" ∷ []
unfolding ensure_internal_ovs_services text_eq
started_test = refl
