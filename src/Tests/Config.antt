-- ===== src/Tests/Config.antt =====
-- The configured chains at concrete inputs.
use mathlib.Core.List.{Permᴰ, Nodup-nil, Nodup-cons, not-mem-nil, eq-or-mem_of_mem-cons}
use mathlib.Core.Logic.Or
use mathlib.Core.HLevel.{⊥_prop}
use listener_go.Prelude.{pos, Text, codes, ◌≡◌, refl, none, some, List, [], ◌∷◌, arith}
use listener_go.Database.Chains.{ContractInfo}
use listener_go.Database.Config.{ChainRow, fingerprint, query_active_chains}
use listener_go.Database.Config.Fingerprint.{fingerprint-Perm}
use listener_go.Database.Config.Groups.{
  find_info, rows_of, info_of_rows, query_active_chains-info_of_rows,
}
use listener_go.Tests.Formats.{lower}

abbrev token : Text → Text × ContractInfo
token a = (a, record { symbol = codes "T"; decimals = 6 })

fingerprint-Perm_example :
    fingerprint (λ t. t) (codes "ETH") (token (codes "0xb") ∷ token (codes "0xa") ∷ [])
    ≡ fingerprint (λ t. t) (codes "ETH") (token (codes "0xa") ∷ token (codes "0xb") ∷ [])
fingerprint-Perm_example =
    fingerprint-Perm (λ t. t) (codes "ETH") (token (codes "0xb") ∷ token (codes "0xa") ∷ [])
      (token (codes "0xa") ∷ token (codes "0xb") ∷ []) ∣ Permᴰ.swap refl refl ∣₁
      (Nodup-cons.1 (
        λ m. Or.elim ⊥_prop (eq-or-mem_of_mem-cons m) (λ same. ground arith) not-mem-nil,
        Nodup-cons.1 (not-mem-nil, Nodup-nil),
      ))

abbrev rows : List ChainRow
rows =
    record {
      chain_id = pos 1;
      rpc_url = codes "u";
      native = codes "ETH";
      contract = some (codes "0xA");
      symbol = some (codes "T");
      decimals = some 6;
    }
    ∷ record {
      chain_id = pos 2;
      rpc_url = codes "v";
      native = codes "KCP";
      contract = none;
      symbol = none;
      decimals = none;
    }
    ∷ record {
      chain_id = pos 1;
      rpc_url = codes "u";
      native = codes "ETH";
      contract = some (codes "0xB");
      symbol = some (codes "S");
      decimals = some 18;
    }
    ∷ []

query_active_chains-info_of_rows_example :
    find_info (pos 1) (query_active_chains lower (λ t. t) rows)
    ≡ info_of_rows lower (λ t. t) (pos 1) (rows_of (pos 1) rows)
query_active_chains-info_of_rows_example =
    query_active_chains-info_of_rows lower (λ t. t) rows (pos 1)
