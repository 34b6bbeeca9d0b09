-- ===== src/Bridge/Changes/Renames.antt =====
-- The renames of `resolve_ovs_changes` and their undoing by `update_mappings_from_rename`
-- (openstack_hypervisor/bridge_datapath.py).
use snap_openstack_hyperviso.Base.{
  if◌then◌else◌, ◌≡◌, ◌≢◌, refl, sym, ap, subst, ◌∙◌, true, false, not, ◌&&◌, inl, inr, Option,
  none, some, List, [], ◌∷◌, ◌++◌, arith, contains, contains-append, contains-dedup, text_eq, ◌==◌,
  All, map, Bool-cases, some-injective,
}
use snap_openstack_hyperviso.Base.Dict.{
  Dict, lookup, insert, lookup-insert, or_default, contains-keys,
}
use snap_openstack_hyperviso.Base.Text.{Text, truthy, given}
use snap_openstack_hyperviso.Bridge.Mapping.{BridgeMapping}
use snap_openstack_hyperviso.Bridge.Unique.{IsUnique}
use snap_openstack_hyperviso.Bridge.Changes.{
  physnet_map, rename_of, renames, new_names, rename_dict_onto, rename_mapping,
  update_mappings_from_rename, resolve_ovs_changes, all_physnets,
}
use snap_openstack_hyperviso.Bridge.Changes.Maps.{Names-unique, physnet_map-Names, physnet_map-All}

-- Every rename to `k` is from `b`.
abbrev OnlyFrom : Text → Text → List (Text × Text) → Type 0
OnlyFrom k b [] = Unit
OnlyFrom k b ((old, new) ∷ r) = (new ≡ k → old ≡ b) × OnlyFrom k b r

OnlyFrom-append :
    (k b : Text) (r s : List (Text × Text))
    → OnlyFrom k b r
    → OnlyFrom k b s
    → OnlyFrom k b (r ++ s)
OnlyFrom-append k b [] s h t = t
OnlyFrom-append k b (x ∷ r) s h t = (h.0, OnlyFrom-append k b r s h.1 t)

pub new_names-append : (r s : List (Text × Text)) → new_names (r ++ s) ≡ new_names r ++ new_names s
unfolding new_names
new_names-append [] s = refl
new_names-append (x ∷ r) s = rw (new_names-append r s)

rename_dict-absent :
    (d : Dict Text Text) (r : List (Text × Text)) (k : Text)
    → contains (new_names r) k ≡ false
    → lookup k (rename_dict_onto d r) ≡ lookup k d
unfolding rename_dict_onto new_names
rename_dict-absent d [] k h = refl
rename_dict-absent d ((old, new) ∷ r) k h =
    ground (arith, rename_dict-absent (insert new old d) r k, lookup-insert k new old d)

rename_dict-present :
    (d : Dict Text Text) (r : List (Text × Text)) (k b : Text)
    → OnlyFrom k b r
    → contains (new_names r) k ≡ true
    → lookup k (rename_dict_onto d r) ≡ some b
unfolding rename_dict_onto new_names
rename_dict-present d [] k b o h = cc
rename_dict-present d ((old, new) ∷ r) k b o h = elim (Bool-cases (contains (new_names r) k)) [
  | inl more ↦ rename_dict-present (insert new old d) r k b o.1 more
  | inr last ↦
      ground (arith, rename_dict-absent (insert new old d) r k last, lookup-insert k new old d, o.0)
]

rename_of-OnlyFrom :
    (p n : Option Text) (k b : Text) → (n ≡ some k → p ≡ some b) → OnlyFrom k b (rename_of p n)
unfolding rename_of
rename_of-OnlyFrom none n k b h = tt
rename_of-OnlyFrom (some p) none k b h = tt
rename_of-OnlyFrom (some p) (some n) k b h =
    elim (Bool-cases (truthy p && truthy n && not (p == n))) [
      | inl t ↦ rw t ((λ e. some-injective p b (h (ap some e))), tt)
      | inr f ↦ rw f tt
    ]

rename_of-absent :
    (p n : Option Text) (k : Text)
    → (n ≡ some k → p ≡ some k)
    → contains (new_names (rename_of p n)) k ≡ false
unfolding rename_of new_names
rename_of-absent none n k h = refl
rename_of-absent (some p) none k h = refl
rename_of-absent (some p) (some n) k h = ground arith

rename_of-present :
    (b k : Text)
    → truthy b ≡ true
    → truthy k ≡ true
    → b ≢ k
    → contains (new_names (rename_of (some b) (some k))) k ≡ true
unfolding rename_of new_names
rename_of-present b k tb tk h = ground arith

rename_of-not_new :
    (p n : Option Text) (b : Text)
    → (n ≡ some b → given p ≡ false)
    → contains (new_names (rename_of p n)) b ≡ false
unfolding rename_of new_names
rename_of-not_new none n b h = refl
rename_of-not_new (some p) none b h = refl
rename_of-not_new (some p) (some n) b h = ground arith

module _ (prev new : Dict Text Text) where
  renames-OnlyFrom :
      (xs : List Text) (k b : Text)
      → ((q : Text) → lookup q new ≡ some k → lookup q prev ≡ some b)
      → OnlyFrom k b (renames prev new xs)
  unfolding renames
  renames-OnlyFrom [] k b h = tt
  renames-OnlyFrom (x ∷ xs) k b h =
      OnlyFrom-append k b (rename_of (lookup x prev) (lookup x new)) (renames prev new xs)
        (rename_of-OnlyFrom (lookup x prev) (lookup x new) k b (h x)) (renames-OnlyFrom xs k b h)

  renames-absent :
      (xs : List Text) (k : Text)
      → ((q : Text) → lookup q new ≡ some k → lookup q prev ≡ some k)
      → contains (new_names (renames prev new xs)) k ≡ false
  unfolding renames new_names
  renames-absent [] k h = refl
  renames-absent (x ∷ xs) k h =
      rw
        (new_names-append, contains-append, rename_of-absent (lookup x prev) (lookup x new) k (h x))
        (renames-absent xs k h)

  pub renames-present :
      (xs : List Text) (p b k : Text)
      → contains xs p ≡ true
      → lookup p prev ≡ some b
      → lookup p new ≡ some k
      → truthy b ≡ true
      → truthy k ≡ true
      → b ≢ k
      → contains (new_names (renames prev new xs)) k ≡ true
  unfolding renames
  renames-present [] p b k m hp hn tb tk d = cc
  renames-present (x ∷ xs) p b k m hp hn tb tk d =
      rw (new_names-append, contains-append)
        (ground (
          arith,
          rename_of-present b k tb tk d,
          (λ (h : contains xs p ≡ true). renames-present xs p b k h hp hn tb tk d),
        ))

  pub renames-not_new :
      (xs : List Text) (b : Text)
      → ((q : Text) → lookup q new ≡ some b → given (lookup q prev) ≡ false)
      → contains (new_names (renames prev new xs)) b ≡ false
  unfolding renames new_names
  renames-not_new [] b h = refl
  renames-not_new (x ∷ xs) b h =
      rw
        (
          new_names-append,
          contains-append,
          rename_of-not_new (lookup x prev) (lookup x new) b (h x),
        )
        (renames-not_new xs b h)

  -- The name under which the physnet's bridge goes on is the old one.
  kept_name :
      (xs : List Text) (p b k : Text)
      → contains xs p ≡ true
      → lookup p prev ≡ some b
      → lookup p new ≡ some k
      → truthy b ≡ true
      → truthy k ≡ true
      → ((q : Text) → lookup q new ≡ some k → q ≡ p)
      → or_default k (lookup k (rename_dict_onto [] (renames prev new xs))) ≡ b
  kept_name xs p b k m hp hn tb tk own = elim (text_eq.dec b k) [
    | yes same ↦
        rw
          (rename_dict-absent [] (renames prev new xs) k (
            renames-absent xs k
              (λ q h. subst (λ t. lookup t prev ≡ some k) (sym (own q h)) (hp ∙ ap some same))))
          (unfold lookup in sym same)
    | no differ ↦
        rw
          (rename_dict-present [] (renames prev new xs) k b
            (renames-OnlyFrom xs k b
              (λ q h. subst (λ t. lookup t prev ≡ some b) (sym (own q h)) hp))
            (renames-present xs p b k m hp hn tb tk differ))
          refl
  ]

-- The iteration order of a set: it yields the members and nothing else.
abbrev pub IsEnumeration : (List Text → List Text) → Type 0
IsEnumeration enum = (xs : List Text) (x : Text) → contains (enum xs) x ≡ contains xs x

abbrev bridge_or : Text → Option Text → Text
bridge_or new none = new
bridge_or new (some old) = if truthy old then old else new

-- The mapping on the bridge that its physnet was on, if it was on one.
abbrev pub keep_bridge : List BridgeMapping → BridgeMapping → BridgeMapping
keep_bridge previous m = record m {
  bridge = bridge_or m.bridge (lookup m.physnet (physnet_map previous));
}

pub update_mappings-eq-map :
    (ms : List BridgeMapping) (r : List (Text × Text))
    → update_mappings_from_rename ms r ≡ map (rename_mapping (rename_dict_onto [] r)) ms
unfolding update_mappings_from_rename lookup
update_mappings-eq-map [] [] = refl
update_mappings-eq-map (m ∷ ms) [] = ap (λ r. m ∷ r) (update_mappings-eq-map ms [])
update_mappings-eq-map ms (x ∷ r) = refl

all_physnets-contains :
    (prev new : List BridgeMapping) (p k : Text)
    → lookup p (physnet_map new) ≡ some k
    → contains (all_physnets prev new) p ≡ true
all_physnets-contains prev new p k h =
    rw (contains-dedup, contains-append, contains-keys (physnet_map new) p, h) (ground arith)

module _ (enum : List Text → List Text) (visits : IsEnumeration enum)
    (previous new : List BridgeMapping) (u : IsUnique new) where
  abbrev pub renamed : List (Text × Text)
  renamed = (resolve_ovs_changes enum previous new).renamed_bridges

  own_bridge :
      (m : BridgeMapping)
      → lookup m.physnet (physnet_map new) ≡ some m.bridge
      → (q : Text) → lookup q (physnet_map new) ≡ some m.bridge
      → q ≡ m.physnet
  own_bridge m hn q h =
      Names-unique q m.physnet m.bridge new u.bridges (physnet_map-Names new q m.bridge h)
        (physnet_map-Names new m.physnet m.bridge hn)

  stays_put :
      (m : BridgeMapping)
      → lookup m.physnet (physnet_map new) ≡ some m.bridge
      → given (lookup m.physnet (physnet_map previous)) ≡ false
      → or_default m.bridge (lookup m.bridge (rename_dict_onto [] renamed)) ≡ m.bridge
  unfolding resolve_ovs_changes lookup
  stays_put m hn away =
      rw
        (rename_dict-absent [] renamed m.bridge (
          renames-not_new (physnet_map previous) (physnet_map new)
            (enum (all_physnets previous new)) m.bridge
            (λ q h.
              subst (λ t. given (lookup t (physnet_map previous)) ≡ false)
                (sym (own_bridge m hn q h)) away)))
        refl

  renamed_bridge :
      (m : BridgeMapping) (o : Option Text)
      → lookup m.physnet (physnet_map previous) ≡ o
      → lookup m.physnet (physnet_map new) ≡ some m.bridge
      → truthy m.bridge ≡ true
      → or_default m.bridge (lookup m.bridge (rename_dict_onto [] renamed)) ≡ bridge_or m.bridge o
  unfolding resolve_ovs_changes
  renamed_bridge m none hp hn tk = stays_put m hn (ap given hp)
  renamed_bridge m (some b) hp hn tk = elim (Bool-cases (truthy b)) [
    | inr f ↦ rw f (stays_put m hn (ap given hp ∙ f))
    | inl tb ↦ rw tb (
        kept_name (physnet_map previous) (physnet_map new) (enum (all_physnets previous new))
          m.physnet b m.bridge
          (visits (all_physnets previous new) m.physnet
            ∙ all_physnets-contains previous new m.physnet m.bridge hn)
          hp hn tb tk (own_bridge m hn))
  ]

  rename_mappings-eq-keep_bridges :
      (ms : List BridgeMapping)
      → All (λ m. lookup m.physnet (physnet_map new) ≡ some m.bridge) ms
      → All (λ m. truthy m.bridge ≡ true) ms
      → map (rename_mapping (rename_dict_onto [] renamed)) ms ≡ map (keep_bridge previous) ms
  unfolding rename_mapping
  rename_mappings-eq-keep_bridges [] h t = refl
  rename_mappings-eq-keep_bridges (m ∷ ms) (h, hs) (t, ts) = λ i.
      record m { bridge = renamed_bridge m (lookup m.physnet (physnet_map previous)) refl h t i }
      ∷ rename_mappings-eq-keep_bridges ms hs ts i

  -- Let `enum` visit exactly the members of a set, and let the new mappings name nothing twice
  -- and no bridge by an empty text. Undoing the renames that `resolve_ovs_changes` found puts each
  -- mapping on the bridge that its physnet was on, and leaves the mapping of a physnet that was on
  -- no bridge as it is.
  pub update_mappings_from_rename-eq-map :
      All (λ m. truthy m.bridge ≡ true) new
      → update_mappings_from_rename new renamed ≡ map (keep_bridge previous) new
  update_mappings_from_rename-eq-map t =
      update_mappings-eq-map new renamed
      ∙ rename_mappings-eq-keep_bridges new (physnet_map-All new u.physnets) t
