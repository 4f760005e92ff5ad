-- ===== src/Model/Units.antt =====
-- `formatUnits` of internal/model/deposit.go: a wei amount as a decimal with a fixed number of
-- places.
use listener_go.Prelude.{
  ℕ, zero, suc, ◌+◌, ◌-◌, ℤ, pos, Text, Option, none, some, [], ◌∷◌, ◌++◌, length, take, drop, leb,
  ◌==◌, if◌then◌else◌,
}
use listener_go.Prelude.Decimal.{show_ℤ}

abbrev replicate : ℕ → ℕ → Text
replicate zero c = []
replicate (suc n) c = c ∷ replicate n c

-- strings.Repeat("0", decimals - len(s) + 1) + s, where s is short.
pad : ℕ → Text → Text
pad decimals s =
    if leb (length s) decimals then replicate (decimals - length s + 1) b'0' ++ s else s

place_point : ℕ → Text → Text
unfolding pad
place_point decimals s =
    let padded = pad decimals s in
    if decimals == 0
    then s
    else take (length padded - decimals) padded ++ b'.' ∷ drop (length padded - decimals) padded

-- Splits the sign off before the point is placed.
signed_units : ℕ → Text → Text
unfolding place_point
signed_units decimals [] = place_point decimals []
signed_units decimals (c ∷ s) =
    if c == b'-' then b'-' ∷ place_point decimals s else place_point decimals (c ∷ s)

-- `none` is a nil pointer.
unfoldable pub format_units : Option ℤ → ℕ → Text
unfolding signed_units show_ℤ
format_units none decimals = signed_units decimals (show_ℤ (pos 0))
format_units (some wei) decimals = signed_units decimals (show_ℤ wei)
