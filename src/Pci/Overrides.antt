-- ===== src/Pci/Overrides.antt =====
-- openstack_hypervisor/pci.py: the drivers that devices are bound to, by driverctl.
use snap_openstack_hyperviso.Base.{
  Bool, false, Option, none, some, List, [], ◌∷◌, if◌then◌else◌, ◌==◌, text_eq, Exc,
  called_process_error,
}
use snap_openstack_hyperviso.Base.Dict.{Dict, lookup, insert}
use snap_openstack_hyperviso.Base.Text.{Text, str, split, split_once}
use snap_openstack_hyperviso.Base.Effects.{Exec, pure, raise, catch, ◌>>=◌}
use snap_openstack_hyperviso.Ovs.{Outcome, Session}
use snap_openstack_hyperviso.Host.{check_output, check_call}

abbrev pub add_override : Dict Text Text → Option (Text × Text) → Dict Text Text
add_override overrides none = overrides
add_override overrides (some (address, driver)) =
    if driver == str "(none)" then overrides else insert address driver overrides

-- The loop over the lines; a line with no space says nothing.
unfoldable pub parse_overrides : Dict Text Text → List Text → Dict Text Text
unfolding split_once insert
parse_overrides overrides [] = overrides
parse_overrides overrides (line ∷ rest) =
    parse_overrides (add_override overrides (split_once b' ' line)) rest

abbrev pub is_override : Text → Option Text → Bool
is_override driver_name none = false
is_override driver_name (some current) = current == driver_name

module _ {W : Type 0} (run : List Text → W → Outcome × W) where
  unfoldable pub set_driver_override : Text → Text → Exec (Session W) (Unit {0})
  unfolding check_call
  set_driver_override pci_address driver_name =
      check_call run (str "driverctl" ∷ str "set-override" ∷ pci_address ∷ driver_name ∷ [])

  -- driverctl fails if there are no overrides.
  abbrev pub no_overrides : Exc → Exec (Session W) (Dict Text Text)
  no_overrides (called_process_error m) = pure []
  no_overrides c = raise c

  unfoldable pub get_driver_overrides : Exec (Session W) (Dict Text Text)
  unfolding check_output parse_overrides split
  get_driver_overrides =
      catch
        (do
          out ← check_output run (str "driverctl" ∷ str "list-overrides" ∷ [])
          pure (parse_overrides [] (split b'\n' out)))
        no_overrides

  unfoldable pub ensure_driver_override : Text → Text → Exec (Session W) (Unit {0})
  unfolding get_driver_overrides set_driver_override lookup
  ensure_driver_override pci_address driver_name = do
    overrides ← get_driver_overrides
    (if is_override driver_name (lookup pci_address overrides)
        then pure tt
        else set_driver_override pci_address driver_name)
