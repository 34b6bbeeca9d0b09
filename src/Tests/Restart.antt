-- ===== src/Tests/Restart.antt =====
-- openstack_hypervisor/hooks.py: the restart of services at concrete inputs.
use snap_openstack_hyperviso.Base.{
  ℕ, suc, ◌≡◌, refl, not, ◌&&◌, none, some, List, [], ◌∷◌, contains, text_eq, dedup, keep_if, ok,
  if◌then◌else◌, ◌==◌,
}
use snap_openstack_hyperviso.Base.Dict.{lookup, insert}
use snap_openstack_hyperviso.Base.Text.{Text, str, leb}
use snap_openstack_hyperviso.Base.Effects.{Exec}
use snap_openstack_hyperviso.Services.Restart.{
  Templates, Files, record_hash, record_hashes, services_of_file, changed_services,
  services_to_restart,
}
use snap_openstack_hyperviso.Services.OnChange.{
  restart_each, restart_changed, leave, restart_on_change,
}
use snap_openstack_hyperviso.Services.Changed.{named_by_changed, contains-services_to_restart}
use snap_openstack_hyperviso.Services.Unchanged.{restart_on_change-unchanged}

-- As if the contents were their own hash.
abbrev sha256 : Text → Text
sha256 bytes = bytes

abbrev same_order : List Text → List Text
same_order xs = xs

abbrev templates : Templates
templates =
    (str "nova.conf", some (str "nova-compute" ∷ []))
    ∷ (str "libvirtd.conf", some (str "libvirtd" ∷ str "virtlogd" ∷ []))
    ∷ (str "ovn.conf", none)
    ∷ []

-- nova.conf holds what is given, and libvirtd.conf is missing.
abbrev before : Files
before file = if file == str "nova.conf" then some (ok (str "debug")) else none

-- libvirtd.conf was written.
abbrev after : Files
after file =
    if file == str "nova.conf"
    then some (ok (str "debug"))
    else if file == str "libvirtd.conf"
    then some (ok (str "new"))
    else none

record_hashes_test :
    record_hashes sha256 templates before [] ≡ ok ((str "nova.conf", str "debug") ∷ [])
unfolding record_hashes record_hash insert text_eq
record_hashes_test = refl

changed_services_test :
    changed_services sha256 templates after ((str "nova.conf", str "debug") ∷ []) []
    ≡ ok (str "libvirtd" ∷ str "virtlogd" ∷ [])
unfolding changed_services services_of_file lookup text_eq
changed_services_test = refl

contains-services_to_restart_example :
    contains
      (services_to_restart same_order (str "virtlogd" ∷ []) (str "libvirtd" ∷ str "virtlogd" ∷ []))
      (str "libvirtd")
    ≡ (named_by_changed sha256 before after templates (str "libvirtd")
        && not (contains (str "virtlogd" ∷ []) (str "libvirtd")))
contains-services_to_restart_example =
    contains-services_to_restart sha256 same_order (λ xs a. refl) templates (str "virtlogd" ∷ [])
      before after record_hashes_test changed_services_test (str "libvirtd")

-- The world counts the calls of snapd, and the block leaves the files alone.
abbrev count : Text → Exec ℕ (Unit {0})
count service calls = (ok tt, suc calls)

abbrev read_only : Exec ℕ Text
read_only calls = (ok (str "rendered"), calls)

-- Here libvirtd.conf is written by the block, and its services are stopped and started.
restart_on_change_test :
    restart_on_change sha256
      (λ calls. if leb 1 calls then after else before)
      (λ calls. ok (str "libvirtd" ∷ str "virtlogd" ∷ []))
      count
      count
      same_order
      templates
      (str "virtlogd" ∷ [])
      (λ calls. (ok (str "rendered"), 1))
      0
    ≡ (ok (str "rendered"), 3)
unfolding restart_on_change leave restart_changed restart_each services_to_restart record_hashes
    record_hash changed_services services_of_file insert lookup text_eq dedup keep_if
restart_on_change_test = refl

restart_on_change-unchanged_example :
    restart_on_change sha256
      (λ calls. before)
      (λ calls. ok [])
      count
      count
      same_order
      templates
      []
      read_only
      0
    ≡ (ok (str "rendered"), 0)
unfolding text_eq
restart_on_change-unchanged_example =
    restart_on_change-unchanged sha256 (λ calls. before) (λ calls. ok []) count count same_order
      refl templates [] [] read_only 0 (tt, (tt, (tt, tt))) (refl, (refl, (refl, tt))) refl
