-- ===== src/Tests/Addresses.antt =====
-- The port of an address as a text.
use atlas_idp.Common.{◌≡◌, refl, codes}
use atlas_idp.Seal.Config.{pos, digits, reverse_onto, itoa}

port_text : itoa (pos 6379) ≡ codes "6379"
unfolding itoa digits reverse_onto
port_text = refl
