-- ===== src/Listener.antt =====
-- cmd/listener/main.go: how the program is put together.
use listener_go.Prelude.{ℕ, ℤ, pos, Text, codes, eq_text, some, List, map, Result, if◌then◌else◌}
use listener_go.Retry.{GoError}
use listener_go.Decryption.{Decryptor, decrypt_amount}
use listener_go.Scanner.Node.{Formats}
use listener_go.Scanner.Decoder.{Registry, new_registry, register, standard_erc20, eerc}

-- The words of a log, as pointers to integers.
abbrev pub decrypt_words : Decryptor → List ℕ → Result GoError ℤ
decrypt_words d ws = decrypt_amount d (map (λ n. some (pos n)) ws)

unfoldable pub decoders_for_chain : Formats → Text → Decryptor → Registry
decoders_for_chain fmt chain_type d =
    if eq_text chain_type (codes "eerc20")
    then register (eerc fmt (decrypt_words d)) new_registry
    else register (standard_erc20 fmt) new_registry
