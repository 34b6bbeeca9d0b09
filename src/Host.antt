-- ===== src/Host.antt =====
-- `subprocess.check_output` and `subprocess.check_call`, as openstack_hypervisor/netplan.py and
-- openstack_hypervisor/pci.py call them: a process that fails raises.
use snap_openstack_hyperviso.Base.{
  ◌++◌, Result, ok, err, called_process_error, file_not_found_error, List,
}
use snap_openstack_hyperviso.Base.Text.{Text, str}
use snap_openstack_hyperviso.Base.Effects.{Exec, pure, ◌>>=◌}
use snap_openstack_hyperviso.Ovs.{Outcome, completed, binary_not_found, exited, Session}

abbrev pub host_outcome : Outcome → Result Text
host_outcome (completed stdout) = ok stdout
host_outcome binary_not_found = err (file_not_found_error (str "No such file or directory"))
host_outcome (exited code stdout stderr) =
    err (called_process_error (str "returned non-zero exit status " ++ code))

module _ {W : Type 0} (run : List Text → W → Outcome × W) where
  unfoldable pub check_output : List Text → Exec (Session W) Text
  check_output args s =
      let (outcome, world) = run args s.world in (host_outcome outcome, record s { world = world })

  unfoldable pub check_call : List Text → Exec (Session W) (Unit {0})
  unfolding check_output
  check_call args = do output ← check_output args; pure tt
