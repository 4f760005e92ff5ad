-- ===== src/Database/Accounts.antt =====
-- internal/database/account_repo.go: the lookups of watched addresses.
pub mod Agreement
use listener_go.Prelude.{
  ℤ, eq_ℤ, Text, eq_text, Bool, true, false, ◌&&◌, ◌||◌, Option, none, some, List, [], ◌∷◌, map,
  Result, ok, err, if◌then◌else◌,
}
use listener_go.Database.Buffer.{DbError, query_failed}

pub record Account : Type 0 where
  pub chain_id : ℤ
  pub address : Text

-- A set of addresses.
unfoldable pub has_text : Text → List Text → Bool
has_text t [] = false
has_text t (u ∷ us) = eq_text u t || has_text t us

-- A map from addresses; the entry in front counts.
unfoldable pub lookup_text : Text → List (Text × Bool) → Option Bool
lookup_text t [] = none
lookup_text t ((u, b) ∷ m) = if eq_text u t then some b else lookup_text t m

-- `to_lower` is strings.ToLower, `sql_lower` is lower of Postgres.
module _ (to_lower sql_lower : Text → Text) where
  -- WHERE chain_id = $1 AND lower(address) = $2
  unfoldable pub any_account : ℤ → Text → List Account → Bool
  any_account c la [] = false
  any_account c la (a ∷ more) =
      (eq_ℤ a.chain_id c && eq_text (sql_lower a.address) la) || any_account c la more

  unfoldable pub has_account : Bool → ℤ → Text → List Account → Result DbError Bool
  has_account fails c address accounts =
      if fails then err query_failed else ok (any_account c (to_lower address) accounts)

  -- The loop that lowers the addresses and leaves out those that were seen.
  unfoldable pub lowered : List Text → List Text → List Text
  lowered [] seen = []
  lowered (a ∷ rest) seen =
      let la = to_lower a in
      let again = lowered rest seen in
      let first = la ∷ lowered rest (la ∷ seen) in if has_text la seen then again else first

  -- SELECT lower(address) … WHERE chain_id = $1 AND lower(address) = ANY($2)
  unfoldable pub matching : ℤ → List Text → List Account → List Text
  matching c las [] = []
  matching c las (a ∷ accounts) =
      let rest = matching c las accounts in
      if eq_ℤ a.chain_id c && has_text (sql_lower a.address) las
      then sql_lower a.address ∷ rest
      else rest

  -- The loop over the rows.
  unfoldable pub mark_found : List Text → List (Text × Bool) → List (Text × Bool)
  mark_found [] m = m
  mark_found (t ∷ ts) m = mark_found ts ((t, true) ∷ m)

  unfoldable pub has_many :
      Bool → ℤ → List Text → List Account → Result DbError (List (Text × Bool))
  has_many fails c [] accounts = ok []
  has_many fails c (a ∷ rest) accounts =
      let las = lowered (a ∷ rest) [] in
      if fails
      then err query_failed
      else ok (mark_found (matching c las accounts) (map (λ la. (la, false)) las))
