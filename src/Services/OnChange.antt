-- ===== src/Services/OnChange.antt =====
-- `RestartOnChange` of openstack_hypervisor/hooks.py as a context manager around a block.
--
-- Beside the files (Restart.antt) the parameters are the services of the snap and the calls of snapd
-- that stop and start one.
use snap_openstack_hyperviso.Base.{
  List, [], ◌∷◌, if◌then◌else◌, contains, text_eq, Result, key_error,
}
use snap_openstack_hyperviso.Base.Dict.{Dict}
use snap_openstack_hyperviso.Base.Text.{Text}
use snap_openstack_hyperviso.Base.Effects.{Exec, pure, raise, lift, ◌>>=◌, ◌>>◌}
use snap_openstack_hyperviso.Services.Restart.{
  Templates, Files, record_hashes, changed_services, services_to_restart,
}

module _ {W : Type 0} (stop start : Text → Exec W (Unit {0})) where
  -- The loop over the services, `services` those of the snap.
  unfoldable pub restart_each : List Text → List Text → Exec W (Unit {0})
  restart_each services [] = pure tt
  restart_each services (service ∷ rest) =
      let following = restart_each services rest in
      if contains services service
      then (do stop service; start service; following)
      else raise (key_error service)

module _ {W : Type 0} (sha256 : Text → Text) (content : W → Files) (listed : W → Result (List Text))
    (stop start : Text → Exec W (Unit {0})) (enum : List Text → List Text) (templates : Templates)
    (exclude_services : List Text) where
  -- `__exit__`
  unfoldable pub restart_changed : Dict Text Text → Exec W (Unit {0})
  restart_changed file_hash w =
      (do
        restart_services ← lift (changed_services sha256 templates (content w) file_hash [])
        services ← lift (listed w)
        restart_each stop start services
            (services_to_restart enum exclude_services restart_services))
        w

  -- `__exit__` runs also after a block that raises, and what it raises takes the place of that.
  unfoldable pub leave : {A : Type 0} → Dict Text Text → Result A → Exec W A
  leave file_hash outcome = do restart_changed file_hash; lift outcome

  -- `with RestartOnChange(snap, files, exclude_services): body`
  unfoldable pub restart_on_change : {A : Type 0} → Exec W A → Exec W A
  restart_on_change body w =
      (lift (record_hashes sha256 templates (content w) []) >>= λ file_hash before.
      let (outcome, after) = body before in leave file_hash outcome after)
        w
