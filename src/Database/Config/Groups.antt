-- ===== src/Database/Config/Groups.antt =====
-- The infos of the active chains against the rows of each chain.
use mathlib.Core.List.{append-nil, append_assoc}
use listener_go.Prelude.{
  ℤ, eq_ℤ, eq_ℤ_iff, Text, ◌≡◌, refl, ap, sym, ◌∙◌, Bool, true, false, Option, none, some, List, [],
  ◌∷◌, ◌++◌, if◌then◌else◌, arith,
}
use listener_go.Database.Chains.{ChainInfo, ContractInfo}
use listener_go.Supervisor.{lookup_chain}
use listener_go.Database.Config.{
  ChainRow, Acc, row_token, add_token, new_acc, group_row, group_rows, info_of, infos_of,
  fingerprint, query_active_chains,
}

abbrev pub find_info : ℤ → List ChainInfo → Option ChainInfo
find_info c [] = none
find_info c (i ∷ is) = if eq_ℤ i.chain_id c then some i else find_info c is

-- The rows of one chain.
abbrev pub rows_of : ℤ → List ChainRow → List ChainRow
rows_of c [] = []
rows_of c (r ∷ rs) = if eq_ℤ r.chain_id c then r ∷ rows_of c rs else rows_of c rs

module _ (to_lower : Text → Text) where
  abbrev pub row_tokens : List ChainRow → List (Text × ContractInfo)
  row_tokens [] = []
  row_tokens (r ∷ rs) = row_token to_lower r ++ row_tokens rs

  abbrev add_rows : Acc → List ChainRow → Acc
  add_rows a rs = record a { tokens = a.tokens ++ row_tokens rs }

  -- What the rows of one chain make of its entry.
  abbrev collected : Option Acc → List ChainRow → Option Acc
  collected (some a) rs = some (add_rows a rs)
  collected none [] = none
  collected none (r ∷ rs) = some (add_rows (new_acc to_lower r) rs)

  abbrev with_row : Option Acc → ChainRow → Acc
  with_row none r = new_acc to_lower r
  with_row (some a) r = add_token to_lower r a

  lookup-group_row :
      (c : ℤ) (r : ChainRow) (m : List (ℤ × Acc))
      → lookup_chain c (group_row to_lower r m)
        ≡ (if eq_ℤ r.chain_id c then some (with_row (lookup_chain c m) r) else lookup_chain c m)
  unfolding lookup_chain group_row
  lookup-group_row c r [] = refl
  lookup-group_row c r ((d, a) ∷ m) =
      ground
        (arith, lookup-group_row c r m, eq_ℤ_iff d r.chain_id, eq_ℤ_iff r.chain_id c, eq_ℤ_iff d c)

  collected-with_row :
      (o : Option Acc) (r : ChainRow) (rs : List ChainRow)
      → collected (some (with_row o r)) rs ≡ collected o (r ∷ rs)
  collected-with_row none r rs = refl
  collected-with_row (some a) r rs =
      ap (λ ts. some (record a { tokens = ts }))
        (append_assoc a.tokens (row_token to_lower r) (row_tokens rs))

  collected-nil : (o : Option Acc) → collected o [] ≡ o
  collected-nil none = refl
  collected-nil (some a) = ap (λ ts. some (record a { tokens = ts })) (append-nil a.tokens)

  collected-if :
      (b : Bool) (o : Option Acc) (r : ChainRow) (rs : List ChainRow)
      → collected (if b then some (with_row o r) else o) rs ≡ collected o (if b then r ∷ rs else rs)
  collected-if true o r rs = collected-with_row o r rs
  collected-if false o r rs = refl

  lookup-group_rows :
      (c : ℤ) (rs : List ChainRow) (m : List (ℤ × Acc))
      → lookup_chain c (group_rows to_lower rs m) ≡ collected (lookup_chain c m) (rows_of c rs)
  unfolding group_rows
  lookup-group_rows c [] m = sym (collected-nil (lookup_chain c m))
  lookup-group_rows c (r ∷ rs) m =
      lookup-group_rows c rs (group_row to_lower r m)
      ∙ ap (λ o. collected o (rows_of c rs)) (lookup-group_row c r m)
      ∙ collected-if (eq_ℤ r.chain_id c) (lookup_chain c m) r (rows_of c rs)

  lookup-infos_of :
      (digest : Text → Text) (c : ℤ) (m : List (ℤ × Acc))
      → find_info c (infos_of to_lower digest m)
        ≡ elim (lookup_chain c m) [ none ↦ none | some a ↦ some (info_of to_lower digest c a) ]
  unfolding lookup_chain infos_of
  lookup-infos_of digest c [] = refl
  lookup-infos_of digest c ((d, a) ∷ m) = ground (arith, lookup-infos_of digest c m, eq_ℤ_iff d c)

  -- The info of a chain by its rows alone.
  abbrev pub info_of_rows : (Text → Text) → ℤ → List ChainRow → Option ChainInfo
  info_of_rows digest c [] = none
  info_of_rows digest c (r ∷ rs) = some (record {
    chain_id = c;
    rpc_url = r.rpc_url;
    token_config_hash = fingerprint digest r.native (row_tokens (r ∷ rs));
  })

  info_of-collected :
      (digest : Text → Text) (c : ℤ) (rs : List ChainRow)
      → (elim (collected none rs) [ none ↦ none | some a ↦ some (info_of to_lower digest c a) ])
        ≡ info_of_rows digest c rs
  info_of-collected digest c [] = refl
  info_of-collected digest c (r ∷ rs) = refl

  -- However the rows of the chains follow one another: the result has an info for a chain exactly
  -- if there is a row of it, with the URL of its first row and the fingerprint of the native symbol
  -- of that row and of the tokens of all its rows, rows without a complete token left out.
  pub query_active_chains-info_of_rows :
      (digest : Text → Text) (rows : List ChainRow) (c : ℤ)
      → find_info c (query_active_chains to_lower digest rows)
        ≡ info_of_rows digest c (rows_of c rows)
  unfolding query_active_chains lookup_chain
  query_active_chains-info_of_rows digest rows c =
      lookup-infos_of digest c (group_rows to_lower rows [])
      ∙ ap
          (λ (o : Option Acc). elim o [ none ↦ none | some a ↦ some (info_of to_lower digest c a) ])
          (lookup-group_rows c rows [])
      ∙ info_of-collected digest c (rows_of c rows)
