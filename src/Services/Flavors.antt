-- ===== src/Services/Flavors.antt =====
-- `_add_compute_flavor` of openstack_hypervisor/hooks.py: the flavors of the option
-- compute.flavors, which is none where the key is not known.
use snap_openstack_hyperviso.Base.{
  ℕ, ◌≡◌, refl, sym, ap, ◌∙◌, true, false, Option, none, some, List, [], ◌∷◌, ◌++◌, All, All-append,
  contains, contains-append, text_eq, arith, if◌then◌else◌, Bool-cases, inl, inr, if_true, if_false,
}
use snap_openstack_hyperviso.Base.Text.{
  Text, str, split, join, truthy, has_char, char_eq, split-join, onto_head,
}

unfoldable pub flavors_of : Option Text → List Text
flavors_of none = []
flavors_of (some flavors_str) = if truthy flavors_str then split b',' flavors_str else []

-- What the option is set to, or none where it is left.
unfoldable pub add_compute_flavor : Text → Option Text → Option Text
add_compute_flavor flavor stored =
    let flavors = flavors_of stored in
    if contains flavors flavor then none else some (join (str ",") (flavors ++ (flavor ∷ [])))

abbrev set_to : Option Text → Option Text → Option Text
set_to stored none = stored
set_to stored (some updated_flavors) = some updated_flavors

-- The option after that.
abbrev pub flavor_added : Text → Option Text → Option Text
flavor_added flavor stored = set_to stored (add_compute_flavor flavor stored)

abbrev Pieces : ℕ → List Text → Type 0
Pieces sep ws = All (λ w. has_char sep w ≡ false) ws

onto_head-Pieces :
    (sep c : ℕ) (ws : List Text)
    → char_eq c sep ≡ false
    → Pieces sep ws
    → Pieces sep (onto_head c ws)
onto_head-Pieces sep c [] h p = (ground (arith, h), tt)
onto_head-Pieces sep c (w ∷ ws) h (p, ps) = (ground (arith, h, p), ps)

split-Pieces : (sep : ℕ) (s : Text) → Pieces sep (split sep s)
unfolding split
split-Pieces sep [] = (refl, tt)
split-Pieces sep (c ∷ s) = elim (Bool-cases (char_eq c sep)) [
  | inl t ↦ rw t (refl, split-Pieces sep s)
  | inr f ↦ rw f (onto_head-Pieces sep c (split sep s) f (split-Pieces sep s))
]

flavors_of-Pieces : (stored : Option Text) → Pieces b',' (flavors_of stored)
unfolding flavors_of
flavors_of-Pieces none = tt
flavors_of-Pieces (some s) = elim (Bool-cases (truthy s)) [
  | inl t ↦ rw t (split-Pieces b',' s)
  | inr f ↦ rw f tt
]

truthy-append_cons : (w : Text) (c : ℕ) (s : Text) → truthy (w ++ (c ∷ s)) ≡ true
truthy-append_cons [] c s = refl
truthy-append_cons (x ∷ w) c s = refl

truthy-join :
    (ws : List Text) (flavor : Text)
    → truthy flavor ≡ true
    → truthy (join (str ",") (ws ++ (flavor ∷ []))) ≡ true
unfolding join
truthy-join [] flavor h = h
truthy-join (w ∷ []) flavor h = truthy-append_cons w b',' flavor
truthy-join (w ∷ v ∷ ws) flavor h =
    truthy-append_cons w b',' (join (str ",") (v ∷ (ws ++ (flavor ∷ []))))

split-join_last :
    (ws : List Text) (flavor : Text)
    → Pieces b',' ws
    → has_char b',' flavor ≡ false
    → split b',' (join (str ",") (ws ++ (flavor ∷ []))) ≡ ws ++ (flavor ∷ [])
split-join_last [] flavor p h = split-join b',' flavor [] (h, tt)
split-join_last (w ∷ ws) flavor (p, ps) h =
    split-join b',' w (ws ++ (flavor ∷ [])) (p, All-append _ ws (flavor ∷ []) ps (h, tt))

flavors_of-join :
    (ws : List Text) (flavor : Text)
    → Pieces b',' ws
    → truthy flavor ≡ true
    → has_char b',' flavor ≡ false
    → flavors_of (some (join (str ",") (ws ++ (flavor ∷ [])))) ≡ ws ++ (flavor ∷ [])
unfolding flavors_of
flavors_of-join ws flavor p t h =
    if_true _ _ _ (truthy-join ws flavor t) ∙ split-join_last ws flavor p h

-- A flavor that is not empty and has no comma is put behind those of the option if it is not among
-- them, so that the option names it, and adding it again leaves the option.
pub flavors_of-flavor_added :
    (flavor : Text) (stored : Option Text)
    → truthy flavor ≡ true
    → has_char b',' flavor ≡ false
    → (flavors_of (flavor_added flavor stored) ≡ (
        if contains (flavors_of stored) flavor
        then flavors_of stored
        else flavors_of stored ++ (flavor ∷ [])))
      × (add_compute_flavor flavor (flavor_added flavor stored) ≡ none)
unfolding add_compute_flavor
flavors_of-flavor_added flavor stored t h =
    elim (Bool-cases (contains (flavors_of stored) flavor)) [
      | inl p ↦
          let kept = ap (set_to stored) (if_true _ _ _ p) in
          (
            ap flavors_of kept ∙ sym (if_true _ _ _ p),
            ap (add_compute_flavor flavor) kept ∙ if_true _ _ _ p,
          )
      | inr f ↦
          let set = ap (set_to stored) (if_false _ _ _ f) in
          let e =
            ap flavors_of set
            ∙ flavors_of-join (flavors_of stored) flavor (flavors_of-Pieces stored) t h in
          (
            e ∙ sym (if_false _ _ _ f),
            if_true _ _ _ (
                ap (λ l. contains l flavor) e
                ∙ contains-append (flavors_of stored) (flavor ∷ []) flavor
                ∙ rw f (ground arith)),
          )
    ]
