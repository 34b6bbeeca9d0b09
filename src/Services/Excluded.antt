-- ===== src/Services/Excluded.antt =====
-- The members of the list that `_get_exclude_services` returns (openstack_hypervisor/hooks.py).
use snap_openstack_hyperviso.Base.{
  ◌≡◌, refl, sym, ap, ◌∙◌, Bool, true, false, not, ◌&&◌, ◌||◌, List, [], ◌∷◌, ◌++◌, if◌then◌else◌,
  ◌==◌, eq_of_==, ==_of_eq, All, contains, contains-append, contains-dedup, text_eq, dedup, all,
  arith, Result, ok, err, >>=-eq-ok, ok-injective, Bool-cases, inl, inr,
}
use snap_openstack_hyperviso.Base.Dict.{Dict, lookup, or_default}
use snap_openstack_hyperviso.Base.Text.{Text, str}
use snap_openstack_hyperviso.Base.Order.{sorted, contains-sorted}
use snap_openstack_hyperviso.Services.{
  Context, services, required_config, check_config_present, missing_keys, unready,
  services_not_ready, enabled, services_not_enabled_by_config, external_ovs_services,
  get_exclude_services,
}

abbrev holds : Result Bool → Bool
holds (ok b) = b
holds (err c) = false

-- The key or section is in the context and set.
abbrev pub present : Context → Text → Bool
present context key = holds (check_config_present key context)

-- All that the service needs is in the context.
abbrev pub ready : Context → Text → Bool
ready context svc = all (present context) (or_default [] (lookup svc required_config))

missing_step :
    (present rest : Bool) (svc a : Text) (before : List Text)
    → (contains (if present then before else before ++ (svc ∷ [])) a || ((svc == a) && not rest))
      ≡ (contains before a || ((svc == a) && not (present && rest)))
missing_step true rest svc a before = refl
missing_step false rest svc a before = ground (arith, contains-append before (svc ∷ []) a)

contains-missing_keys :
    (context : Context) (svc : Text) (keys before : List Text) (a : Text) {out : List Text}
    → missing_keys context svc keys before ≡ ok out
    → contains out a ≡ (contains before a || ((svc == a) && not (all (present context) keys)))
unfolding missing_keys
contains-missing_keys context svc [] before a h =
    ap (λ o. contains o a) (sym (ok-injective h)) ∙ ground arith
contains-missing_keys context svc (k ∷ ks) before a h =
    let (p, e, h') = >>=-eq-ok (check_config_present k context) _ h in
    contains-missing_keys context svc ks (if p then before else before ++ (svc ∷ [])) a h'
    ∙ missing_step p (all (present context) ks) svc a before
    ∙ rw e refl

unready_step :
    (context : Context) (svc a : Text) (rest : List Text) (before : Bool)
    → ((before || ((svc == a) && not (ready context svc)))
        || (contains rest a && not (ready context a)))
      ≡ (before || (contains (svc ∷ rest) a && not (ready context a)))
unready_step context svc a rest before = elim (Bool-cases (svc == a)) [
  | inl t ↦ rw (eq_of_== svc a t, ==_of_eq a a refl) (ground arith)
  | inr f ↦ rw f (ground arith)
]

contains-unready :
    (context : Context) (svcs before : List Text) (a : Text) {out : List Text}
    → unready context svcs before ≡ ok out
    → contains out a ≡ (contains before a || (contains svcs a && not (ready context a)))
unfolding unready
contains-unready context [] before a h =
    ap (λ o. contains o a) (sym (ok-injective h)) ∙ ground arith
contains-unready context (svc ∷ svcs) before a h =
    let (more, e, h') = >>=-eq-ok (missing_keys context svc _ before) _ h in
    contains-unready context svcs more a h'
    ∙ ap (λ b. b || (contains svcs a && not (ready context a)))
        (contains-missing_keys context svc _ before a e)
    ∙ unready_step context svc a svcs (contains before a)

-- Each key can be looked up in any context.
abbrev Answers : Text → Type 0
Answers key = (context : Context) → (b : Bool) × (check_config_present key context ≡ ok b)

missing_keys-total :
    (context : Context) (svc : Text) (keys before : List Text)
    → All Answers keys
    → (out : List Text) × (missing_keys context svc keys before ≡ ok out)
unfolding missing_keys
missing_keys-total context svc [] before h = (before, refl)
missing_keys-total context svc (k ∷ ks) before (h, hs) =
    let (b, e) = h context in
    let (out, e') =
      missing_keys-total context svc ks (if b then before else before ++ (svc ∷ [])) hs in
    (out, rw e e')

lookup-Answers :
    (svc : Text) (d : Dict Text (List Text))
    → All (λ (name, keys). All Answers keys) d
    → All Answers (or_default [] (lookup svc d))
unfolding lookup
lookup-Answers svc [] h = tt
lookup-Answers svc ((name, keys) ∷ d) (h, hs) = elim (Bool-cases (name == svc)) [
  | inl t ↦ rw t h
  | inr f ↦ rw f (lookup-Answers svc d hs)
]

required_config-Answers : All (λ (name, keys). All Answers keys) required_config
unfolding check_config_present
required_config-Answers = (
  (λ c. (_, refl), (λ c. (_, refl), (λ c. (_, refl), (λ c. (_, refl), tt)))),
  (
    (λ c. (_, refl), (λ c. (_, refl), (λ c. (_, refl), (λ c. (_, refl), (λ c. (_, refl), tt))))),
    (
      (λ c. (_, refl), (λ c. (_, refl), (λ c. (_, refl), (λ c. (_, refl), tt)))),
      (
        (λ c. (_, refl), (λ c. (_, refl), (λ c. (_, refl), (λ c. (_, refl), tt)))),
        ((λ c. (_, refl), (λ c. (_, refl), (λ c. (_, refl), (λ c. (_, refl), tt)))), tt),
      ),
    ),
  ),
)

required_keys : (svc : Text) → All Answers (or_default [] (lookup svc required_config))
required_keys svc = lookup-Answers svc required_config required_config-Answers

unready-total :
    (context : Context) (svcs before : List Text)
    → (out : List Text) × (unready context svcs before ≡ ok out)
unfolding unready
unready-total context [] before = (before, refl)
unready-total context (svc ∷ svcs) before =
    let (more, e) = missing_keys-total context svc _ before (required_keys svc) in
    let (out, e') = unready-total context svcs more in (out, rw e e')

bools : (p q : Bool) → false ≡ ((p && false) || (q && false))
bools p q = ground arith

bools_y : (p q : Bool) → (q || false) ≡ ((p && false) || (q && true))
bools_y p q = ground arith

bools_x : (p q : Bool) → (p || false) ≡ ((p && true) || (q && false))
bools_x p q = ground arith

two_flags :
    (t m : Bool) (x y svc : Text)
    → contains ((if t then [] else x ∷ []) ++ (if m then [] else y ∷ [])) svc
      ≡ ((svc == x && not t) || (svc == y && not m))
two_flags true true x y svc = bools (svc == x) (svc == y)
two_flags true false x y svc = bools_y (svc == x) (svc == y)
two_flags false true x y svc = bools_x (svc == x) (svc == y)
two_flags false false x y svc = ground arith

contains-not-enabled :
    (context : Context) (svc : Text)
    → contains (services_not_enabled_by_config context) svc ≡ (
        (svc == str "ceilometer-compute-agent" && not (enabled (str "telemetry") context))
        || (svc == str "masakari-instancemonitor" && not (enabled (str "masakari") context)))
unfolding services_not_enabled_by_config
contains-not-enabled context svc =
    two_flags (enabled (str "telemetry") context) (enabled (str "masakari") context)
      (str "ceilometer-compute-agent") (str "masakari-instancemonitor") svc

excluded_step :
    (ovs_external : Bool) (svc : Text) (a b c : Bool)
    → ((a || (b || c)) || contains (if ovs_external then external_ovs_services else []) svc)
      ≡ (a || (b || (c || (contains external_ovs_services svc && ovs_external))))
excluded_step true svc a b c = ground arith
excluded_step false svc a b c = ground arith

-- What the service's exclusion rests on.
abbrev pub is_excluded : Bool → Context → Text → Bool
is_excluded ovs_external context svc =
    (contains services svc && not (ready context svc))
    || ((svc == str "ceilometer-compute-agent" && not (enabled (str "telemetry") context))
        || ((svc == str "masakari-instancemonitor" && not (enabled (str "masakari") context))
            || (contains external_ovs_services svc && ovs_external)))

-- The list of excluded services is always found. A service is in it exactly if it is one that has
-- templates and a key or section that it requires is missing or unset, or if it is the telemetry
-- or the Masakari agent and that is not enabled, or if it belongs to Open vSwitch, which is external.
pub get_exclude_services-total :
    (ovs_external : Bool) (context : Context)
    → (out : List Text) × (get_exclude_services ovs_external context ≡ ok out)
      × ((svc : Text) → contains out svc ≡ is_excluded ovs_external context svc)
unfolding get_exclude_services services_not_ready
get_exclude_services-total ovs_external context =
    let (found, e) = unready-total context services [] in
    (
      (sorted (dedup found) ++ services_not_enabled_by_config context)
          ++ (if ovs_external then external_ovs_services else []),
      rw e refl,
      λ svc.
          rw (contains-append, contains-append, contains-sorted, contains-dedup)
            (rw (contains-unready context services [] svc e, contains-not-enabled context svc)
              (excluded_step ovs_external svc (contains services svc && not (ready context svc))
                (svc == str "ceilometer-compute-agent" && not (enabled (str "telemetry") context))
                (svc == str "masakari-instancemonitor" && not (enabled (str "masakari") context)))),
    )
