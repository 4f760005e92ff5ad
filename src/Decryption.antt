-- ===== src/Decryption.antt =====
-- internal/decryption/decryptor.go: the keys and the decryptors of eERC, whose decryption is not
-- implemented yet.
use listener_go.Prelude.{
  ℕ, zero, suc, ◌+◌, ◌-◌, ◌*◌, leb, ℤ, pos, Text, codes, ◌&&◌, ◌==◌, Option, none, some, List, [],
  ◌∷◌, Result, ok, err, if◌then◌else◌,
}
use listener_go.Retry.{GoError, other}
use listener_go.Scanner.Node.{from_bytes}

abbrev pub not_implemented : GoError
not_implemented =
    other (codes "eERC Poseidon decryption not yet implemented (awaiting test vectors)")

-- The value of a hexadecimal digit.
unfoldable pub hex_digit : ℕ → Option ℕ
hex_digit c =
    if leb b'0' c && leb c b'9'
    then some (c - b'0')
    else if leb b'a' c && leb c b'f'
    then some (c - b'a' + 10)
    else if leb b'A' c && leb c b'F'
    then some (c - b'A' + 10)
    else none

abbrev pub cons_byte : Option ℕ → Option ℕ → Option (List ℕ) → Option (List ℕ)
cons_byte (some h) (some l) (some bs) = some ((h * 16 + l) ∷ bs)
cons_byte h l bs = none

-- hex.DecodeString; `none` is its error.
unfoldable pub decode_hex : Text → Option (List ℕ)
decode_hex [] = some []
decode_hex (c ∷ []) = none
decode_hex (c ∷ d ∷ s) = cons_byte (hex_digit c) (hex_digit d) (decode_hex s)

-- strings.TrimPrefix(s, "0x")
unfoldable pub trim_0x : Text → Text
trim_0x (c ∷ d ∷ s) = if (c == b'0') && (d == b'x') then s else c ∷ d ∷ s
trim_0x s = s

pub data KeyError : Type 0 where
  invalid_hex empty_key zero_key : KeyError

pub data Decryptor : Type 0 where
  noop : Decryptor
  env : ℕ → Decryptor

abbrev pub checked_key : ℕ → Result KeyError (Option Decryptor)
checked_key zero = err zero_key
checked_key (suc k) = ok (some (env (suc k)))

abbrev pub key_of_bytes : Option (List ℕ) → Result KeyError (Option Decryptor)
key_of_bytes none = err invalid_hex
key_of_bytes (some []) = err empty_key
key_of_bytes (some (b ∷ bs)) = checked_key (from_bytes 0 (b ∷ bs))

-- The argument is the text after TrimSpace; an empty one gives no decryptor.
unfoldable pub new_env_decryptor : Text → Result KeyError (Option Decryptor)
new_env_decryptor [] = ok none
new_env_decryptor (c ∷ s) = key_of_bytes (decode_hex (trim_0x (c ∷ s)))

-- `none` is nil; the test for a negative word is part of the integer.
unfoldable pub validate_pct : List (Option ℤ) → Option GoError
validate_pct [] = none
validate_pct (none ∷ ws) = some (other (codes "auditorPCT is nil"))
validate_pct (some (pos n) ∷ ws) = validate_pct ws
validate_pct (some n ∷ ws) = some (other (codes "auditorPCT cannot be negative"))

unfoldable pub decrypt_amount : Decryptor → List (Option ℤ) → Result GoError ℤ
decrypt_amount noop pct = err not_implemented
decrypt_amount (env key) pct = elim (validate_pct pct) [
  | some e ↦ err e
  | none ↦ err not_implemented
]
