-- ===== src/Services/Started.antt =====
-- The members of what `_ensure_internal_ovs_services` starts (openstack_hypervisor/hooks.py).
use snap_openstack_hyperviso.Base.{
  ◌≡◌, refl, Bool, true, false, not, ◌&&◌, ◌||◌, List, [], ◌∷◌, ◌==◌, if◌then◌else◌, contains,
  text_eq, arith, Bool-cases, inl, inr, eq_of_==, ==_of_eq, ap, ◌∙◌,
}
use snap_openstack_hyperviso.Base.Text.{Text}
use snap_openstack_hyperviso.Services.{
  external_ovs_services, monitoring_services, started_services, ensure_internal_ovs_services,
}

-- The service may be started.
abbrev pub startable : Bool → List Text → Text → Bool
startable enable_monitoring exclude_services svc =
    not (contains exclude_services svc)
    && (not (contains monitoring_services svc) || enable_monitoring)

or_later : (x y : Bool) → (x || (y && x)) ≡ x
or_later x y = ground arith

guards :
    (p q mon : Bool) (rest : List Text) (s a : Text)
    → contains (if p then rest else if q && not mon then rest else s ∷ rest) a
      ≡ (((a == s) && (not p && (not q || mon))) || contains rest a)
guards true q mon rest s a = ground arith
guards false true true rest s a = ground arith
guards false true false rest s a = ground arith
guards false false mon rest s a = ground arith

same_service :
    (mon : Bool) (excl : List Text) (later : Bool) (s a : Text)
    → (((a == s) && startable mon excl s) || (later && startable mon excl a))
      ≡ ((a == s || later) && startable mon excl a)
same_service mon excl later s a = elim (Bool-cases (a == s)) [
  | inl t ↦ rw (eq_of_== a s t, ==_of_eq s s refl) (or_later (startable mon excl s) later)
  | inr f ↦ rw f refl
]

contains-started_services :
    (enable_monitoring : Bool) (exclude_services svcs : List Text) (a : Text)
    → contains (started_services enable_monitoring exclude_services svcs) a
      ≡ (contains svcs a && startable enable_monitoring exclude_services a)
unfolding started_services
contains-started_services mon excl [] a = refl
contains-started_services mon excl (s ∷ svcs) a =
    guards (contains excl s) (contains monitoring_services s) mon (started_services mon excl svcs) s
      a
    ∙ ap (λ r. ((a == s) && startable mon excl s) || r) (contains-started_services mon excl svcs a)
    ∙ same_service mon excl (contains svcs a) s a

-- A service is started exactly if it is one of Open vSwitch, is not excluded, and either is no
-- monitoring service or monitoring is enabled.
pub contains-ensure_internal_ovs_services :
    (enable_monitoring : Bool) (exclude_services : List Text) (svc : Text)
    → contains (ensure_internal_ovs_services enable_monitoring exclude_services) svc
      ≡ (contains external_ovs_services svc && startable enable_monitoring exclude_services svc)
unfolding ensure_internal_ovs_services
contains-ensure_internal_ovs_services mon excl =
    contains-started_services mon excl external_ovs_services
