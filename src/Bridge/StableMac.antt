-- ===== src/Bridge/StableMac.antt =====
-- `generate_stable_laa_mac` and `physnet_mac_pair` of openstack_hypervisor/bridge_datapath.py.
-- The parameter `sha256` gives the byte at an index of a text's digest.
pub mod Octets
use snap_openstack_hyperviso.Base.{
  ℕ, Bool, false, not, Option, ◌-◌, ◌%◌, none, some, List, [], ◌∷◌, ◌++◌, if◌then◌else◌, Result, ok,
  err, value_error, ◌>>=◌,
}
use snap_openstack_hyperviso.Base.Text.{Text, str, split, leb}
use snap_openstack_hyperviso.Base.Hex.{Signed, parse_int16, format_hex}
use snap_openstack_hyperviso.Bridge.Mapping.{BridgeMapping}

-- `first_octet & 0x02`, as a condition, with the two's complement of a negative number.
unfoldable pub laa_bit : Signed → Bool
laa_bit n = leb 2 (if n.negative then (4 - n.magnitude % 4) % 4 else n.magnitude % 4)

-- `f"{byte:02x}"`
unfoldable pub octet : ℕ → Text
unfolding format_hex
octet byte = format_hex 2 (record { negative = false; magnitude = byte })

module _ (sha256 : Text → ℕ → ℕ) where
  -- The value that is returned once the prefix is accepted.
  unfoldable pub stable_mac : Text → Text → Text → Text
  unfolding octet
  stable_mac prefix physnet machine_id =
      prefix
      ++ (b':' ∷ octet (sha256 physnet 0)
          ++ (b':' ∷ octet (sha256 machine_id 0)
              ++ (b':' ∷ octet (sha256 machine_id 1) ++ (b':' ∷ octet (sha256 machine_id 2)))))

  -- The test of the first piece, given what `int(…, 16)` reads in it.
  abbrev pub checked_octet : Text → Text → Option Signed → Result Text
  checked_octet prefix first none =
      err (value_error (str "Invalid hex value in prefix: " ++ prefix))
  checked_octet prefix first (some n) =
      if not (laa_bit n)
      then err
          (value_error (str "Prefix first octet must have LAA bit set (bit 1), got: " ++ first))
      else ok prefix

  -- The tests of the prefix, by the pieces of `prefix.split(":")`.
  abbrev pub checked_prefix : Text → List Text → Result Text
  checked_prefix prefix (first ∷ second ∷ []) = checked_octet prefix first (parse_int16 first)
  checked_prefix prefix _ =
      err (value_error (str "Prefix must be exactly 2 octets, got: " ++ prefix))

  unfoldable pub generate_stable_laa_mac : Text → Text → Text → Result Text
  unfolding stable_mac split parse_int16 laa_bit
  generate_stable_laa_mac prefix physnet machine_id = do
    accepted ← checked_prefix prefix (split b':' prefix)
    ok (stable_mac accepted physnet machine_id)

  abbrev pub default_laa_mac_prefix : Text
  default_laa_mac_prefix = str "0a:c5"

  -- `physnet_mac_pair`
  unfoldable pub physnet_mac_pair : BridgeMapping → Text → Result Text
  unfolding generate_stable_laa_mac
  physnet_mac_pair m machine_id = do
    mac ← generate_stable_laa_mac default_laa_mac_prefix m.physnet machine_id
    ok (m.physnet ++ (b':' ∷ mac))
