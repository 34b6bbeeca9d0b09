-- ===== src/Bridge/Changes/Maps.antt =====
-- The dict `{m.physnet: m.bridge}` of openstack_hypervisor/bridge_datapath.py, for mappings that
-- name nothing twice.
use snap_openstack_hyperviso.Base.{
  ◌≡◌, refl, sym, ◌∙◌, true, false, ◌⊎◌, inl, inr, some, List, [], ◌∷◌, arith, contains, text_eq,
  Distinct, All,
}
use snap_openstack_hyperviso.Base.Dict.{Dict, lookup, insert, lookup-insert}
use snap_openstack_hyperviso.Base.Text.{Text}
use snap_openstack_hyperviso.Bridge.Mapping.{BridgeMapping}
use snap_openstack_hyperviso.Bridge.Unique.{physnets, bridges}
use snap_openstack_hyperviso.Bridge.Changes.{physnet_map_onto, physnet_map}

-- Some mapping pairs the physnet with the bridge.
abbrev pub Names : Text → Text → List BridgeMapping → Type 0
Names q b [] = ⊥
Names q b (m ∷ ms) = ((m.physnet ≡ q) × (m.bridge ≡ b)) ⊎ Names q b ms

pub Names-bridges :
    (q b : Text) (ms : List BridgeMapping) → Names q b ms → contains (bridges ms) b ≡ true
unfolding bridges
Names-bridges q b [] h = absurd h
Names-bridges q b (m ∷ ms) (inl h) = ground arith
Names-bridges q b (m ∷ ms) (inr h) = ground (arith, Names-bridges q b ms h)

-- A bridge belongs to one physnet.
pub Names-unique :
    (q r b : Text) (ms : List BridgeMapping)
    → Distinct (bridges ms)
    → Names q b ms
    → Names r b ms
    → q ≡ r
unfolding bridges
Names-unique q r b [] d h k = absurd h
Names-unique q r b (m ∷ ms) d (inl h) (inl k) = sym h.0 ∙ k.0
Names-unique q r b (m ∷ ms) d (inl h) (inr k) = cc (h.1, d.0, Names-bridges r b ms k)
Names-unique q r b (m ∷ ms) d (inr h) (inl k) = cc (k.1, d.0, Names-bridges q b ms h)
Names-unique q r b (m ∷ ms) d (inr h) (inr k) = Names-unique q r b ms d.1 h k

physnet_map_onto-Names :
    (d : Dict Text Text) (ms : List BridgeMapping) (q b : Text)
    → lookup q (physnet_map_onto d ms) ≡ some b
    → (Names q b ms) ⊎ (lookup q d ≡ some b)
unfolding physnet_map_onto
physnet_map_onto-Names d [] q b h = inr h
physnet_map_onto-Names d (m ∷ ms) q b h =
    elim (physnet_map_onto-Names (insert m.physnet m.bridge d) ms q b h) [
      | inl n ↦ inl (inr n)
      | inr e ↦ ground (arith, lookup-insert q m.physnet m.bridge d)
    ]

pub physnet_map-Names :
    (ms : List BridgeMapping) (q b : Text) → lookup q (physnet_map ms) ≡ some b → Names q b ms
unfolding physnet_map lookup
physnet_map-Names ms q b h = elim (physnet_map_onto-Names [] ms q b h) [ inl n ↦ n | inr e ↦ cc ]

physnet_map_onto-absent :
    (d : Dict Text Text) (ms : List BridgeMapping) (q : Text)
    → contains (physnets ms) q ≡ false
    → lookup q (physnet_map_onto d ms) ≡ lookup q d
unfolding physnet_map_onto physnets
physnet_map_onto-absent d [] q h = refl
physnet_map_onto-absent d (m ∷ ms) q h = ground (
  arith,
  physnet_map_onto-absent (insert m.physnet m.bridge d) ms q,
  lookup-insert q m.physnet m.bridge d,
)

physnet_map_onto-All :
    (d : Dict Text Text) (ms : List BridgeMapping)
    → Distinct (physnets ms)
    → All (λ m. lookup m.physnet (physnet_map_onto d ms) ≡ some m.bridge) ms
unfolding physnet_map_onto physnets
physnet_map_onto-All d [] h = tt
physnet_map_onto-All d (m ∷ ms) (fresh, h) = (
  ground (
    arith,
    physnet_map_onto-absent (insert m.physnet m.bridge d) ms m.physnet fresh,
    lookup-insert m.physnet m.physnet m.bridge d,
  ),
  physnet_map_onto-All (insert m.physnet m.bridge d) ms h,
)

-- Each mapping is found under its physnet.
pub physnet_map-All :
    (ms : List BridgeMapping)
    → Distinct (physnets ms)
    → All (λ m. lookup m.physnet (physnet_map ms) ≡ some m.bridge) ms
unfolding physnet_map
physnet_map-All ms h = physnet_map_onto-All [] ms h
