-- ===== src/Bridge/StableMac/Octets.antt =====
-- The octets of a generated MAC address (openstack_hypervisor/bridge_datapath.py).
use snap_openstack_hyperviso.Base.{
  ℕ, ◌≡◌, refl, sym, ap, ◌∙◌, true, false, none, some, Option, List, [], ◌∷◌, ◌++◌, arith, ok,
  >>=-eq-ok, ok-injective, Bool-cases, inl, inr,
}
use snap_openstack_hyperviso.Base.Text.{
  Text, split, split-append_text, split-append, split_free, has_char,
}
use snap_openstack_hyperviso.Base.Hex.{Signed, parse_int16, has_char-format_hex}
use snap_openstack_hyperviso.Bridge.StableMac.{
  laa_bit, octet, stable_mac, checked_octet, checked_prefix, generate_stable_laa_mac,
}

octet-no_colon : (n : ℕ) → has_char b':' (octet n) ≡ false
unfolding octet
octet-no_colon n = has_char-format_hex 2 n

module _ (sha256 : Text → ℕ → ℕ) where
  split-stable_mac :
      (prefix physnet machine_id : Text)
      → split b':' (stable_mac sha256 prefix physnet machine_id)
        ≡ split b':' prefix
          ++ (octet (sha256 physnet 0)
              ∷ octet (sha256 machine_id 0)
              ∷ octet (sha256 machine_id 1)
              ∷ octet (sha256 machine_id 2)
              ∷ [])
  unfolding stable_mac
  split-stable_mac prefix physnet machine_id =
      let m = octet (sha256 machine_id 0) in
      let n = octet (sha256 machine_id 1) in
      let o = octet (sha256 machine_id 2) in
      let p = octet (sha256 physnet 0) in
      split-append_text b':' prefix (p ++ (b':' ∷ m ++ (b':' ∷ n ++ (b':' ∷ o))))
      ∙ ap (λ r. split b':' prefix ++ r)
          (split-append b':' p (m ++ (b':' ∷ n ++ (b':' ∷ o))) (octet-no_colon (sha256 physnet 0))
            ∙ ap (λ r. p ∷ r)
                (split-append b':' m (n ++ (b':' ∷ o)) (octet-no_colon (sha256 machine_id 0))
                  ∙ ap (λ r. m ∷ r)
                      (split-append b':' n o (octet-no_colon (sha256 machine_id 1))
                        ∙ ap (λ r. n ∷ r)
                            (split_free b':' o (octet-no_colon (sha256 machine_id 2))))))

  -- The pieces are two, and the bit is set in the number that the first is.
  abbrev pub IsLocal : List Text → Type 0
  IsLocal (first ∷ second ∷ []) = (n : Signed) × (parse_int16 first ≡ some n) × (laa_bit n ≡ true)
  IsLocal _ = ⊥

  checked_octet-eq-ok :
      (prefix first : Text) (o : Option Signed) {accepted : Text}
      → checked_octet sha256 prefix first o ≡ ok accepted
      → ((n : Signed) × (o ≡ some n) × (laa_bit n ≡ true)) × (accepted ≡ prefix)
  checked_octet-eq-ok prefix first none h = cc
  checked_octet-eq-ok prefix first (some n) h = elim (Bool-cases (laa_bit n)) [
    | inl t ↦ ((n, refl, t), sym (ok-injective (rw t at h)))
    | inr f ↦ ground (arith, h, f)
  ]

  checked_prefix-eq-ok :
      (prefix : Text) (parts : List Text) {accepted : Text}
      → checked_prefix sha256 prefix parts ≡ ok accepted
      → IsLocal parts × (accepted ≡ prefix)
  checked_prefix-eq-ok prefix [] h = cc
  checked_prefix-eq-ok prefix (a ∷ []) h = cc
  checked_prefix-eq-ok prefix (a ∷ b ∷ []) h = checked_octet-eq-ok prefix a (parse_int16 a) h
  checked_prefix-eq-ok prefix (a ∷ b ∷ c ∷ d) h = cc

  -- A MAC address that is generated has, between colons, the two pieces of the prefix, of which the
  -- first is a hexadecimal number with the bit of local addresses, and then four octets: one of the
  -- physnet's digest and three of the machine's.
  pub generate_stable_laa_mac-IsLocal :
      (prefix physnet machine_id : Text) {mac : Text}
      → generate_stable_laa_mac sha256 prefix physnet machine_id ≡ ok mac
      → IsLocal (split b':' prefix)
        × (split b':' mac
            ≡ split b':' prefix
              ++ (octet (sha256 physnet 0)
                  ∷ octet (sha256 machine_id 0)
                  ∷ octet (sha256 machine_id 1)
                  ∷ octet (sha256 machine_id 2)
                  ∷ []))
  unfolding generate_stable_laa_mac
  generate_stable_laa_mac-IsLocal prefix physnet machine_id h =
      let (accepted, e, h') = >>=-eq-ok (checked_prefix sha256 prefix (split b':' prefix)) _ h in
      let (local, same) = checked_prefix-eq-ok prefix (split b':' prefix) e in
      (
        local,
        ap (split b':')
              (sym (ok-injective h') ∙ ap (λ p. stable_mac sha256 p physnet machine_id) same)
            ∙ split-stable_mac prefix physnet machine_id,
      )
