-- ===== src/Seal/Config/Number.antt =====
-- `itoa` and `Addr` of apps/seal/seal-api/internal/config.go.
use atlas_idp.Common.{
  ℕ, zero, suc, ◌+◌, ◌-◌, ◌*◌, ◌/◌, ◌≤◌, ◌≡◌, ◌≢◌, refl, some, [], ◌∷◌, Bytes, arith, All,
}
use atlas_idp.Text.{split_2}
use atlas_idp.Text.Lines.{split_2-append}
use atlas_idp.Seal.Config.{pos, negsuc, digits, reverse_onto, itoa, addr}

-- The number that decimal digits write, behind a number that was read before them.
abbrev value_from : ℕ → Bytes → ℕ
value_from n [] = n
value_from n (c ∷ s) = value_from (n * 10 + (c - 48)) s

abbrev pub value : Bytes → ℕ
value s = value_from 0 s

-- the number that digits write whose least comes first
abbrev low_value : Bytes → ℕ
low_value [] = 0
low_value (c ∷ s) = low_value s * 10 + (c - 48)

value_from-reverse_onto :
    (s acc : Bytes) → value_from 0 (reverse_onto s acc) ≡ value_from (low_value s) acc
unfolding reverse_onto
value_from-reverse_onto [] acc = refl
value_from-reverse_onto (c ∷ s) acc = value_from-reverse_onto s (c ∷ acc)

low_value-digits : (fuel n : ℕ) → n ≤ fuel → low_value (digits fuel n) ≡ n
unfolding digits
low_value-digits zero n h = omega arith
low_value-digits (suc fuel) n h = ground (arith, low_value-digits fuel (n / 10))

-- `itoa` writes a number that is not negative as decimal digits that read as that number, and every
-- negative number as the empty text.
value-itoa : (n : ℕ) → (value (itoa (pos n)) ≡ n) × (itoa (negsuc n) ≡ [])
unfolding itoa
value-itoa n = (ground (arith, value_from-reverse_onto (digits n n) [], low_value-digits n n), refl)

-- Cut at its first colon, the address of a Redis server gives back the host, if that has no colon,
-- and a text that writes the port, if that is not negative.
split_2-addr :
    (host password : Bytes) (n : ℕ)
    → All (λ c. c ≢ 58) host
    → (p : Bytes) × (split_2 58 (addr (record { host = host; port = pos n; password = password }))
        ≡ some (host, p))
      × (value p ≡ n)
unfolding addr
split_2-addr host password n h =
    (itoa (pos n), split_2-append 58 host (itoa (pos n)) h, (value-itoa n).0)
