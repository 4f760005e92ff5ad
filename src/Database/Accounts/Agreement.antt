-- ===== src/Database/Accounts/Agreement.antt =====
-- `HasMany` answers for each address what `Has` answers.
use listener_go.Prelude.{
  ℤ, Text, eq_text_iff, ◌≡◌, refl, Bool, true, false, not, ◌&&◌, none, some, List, [], ◌∷◌, map, ok,
  if◌then◌else◌, arith,
}
use listener_go.Database.Accounts.{
  Account, has_text, lookup_text, any_account, has_account, lowered, matching, mark_found, has_many,
}

lookup-false :
    (k : Text) (ts : List Text)
    → lookup_text k (map (λ la. (la, false)) ts) ≡ (if has_text k ts then some false else none)
unfolding lookup_text has_text
lookup-false k [] = refl
lookup-false k (t ∷ ts) = ground (arith, lookup-false k ts)

module _ (to_lower sql_lower : Text → Text) where
  lookup-mark_found :
      (k : Text) (ts : List Text) (m : List (Text × Bool))
      → lookup_text k (mark_found to_lower sql_lower ts m)
        ≡ (if has_text k ts then some true else lookup_text k m)
  unfolding lookup_text mark_found has_text
  lookup-mark_found k [] m = refl
  lookup-mark_found k (t ∷ ts) m = ground (arith, lookup-mark_found k ts ((t, true) ∷ m))

  has-matching :
      (c : ℤ) (k : Text) (las : List Text) (accounts : List Account)
      → has_text k (matching to_lower sql_lower c las accounts)
        ≡ (has_text k las && any_account to_lower sql_lower c k accounts)
  unfolding has_text matching any_account
  has-matching c k las [] = ground arith
  has-matching c k las (a ∷ accounts) =
      ground (arith, has-matching c k las accounts, eq_text_iff (sql_lower a.address) k)

  has-lowered :
      (k : Text) (ts seen : List Text)
      → has_text k (lowered to_lower sql_lower ts seen)
        ≡ (has_text k (map to_lower ts) && not (has_text k seen))
  unfolding has_text lowered
  has-lowered k [] seen = refl
  has-lowered k (t ∷ ts) seen = ground (
    arith,
    has-lowered k ts seen,
    has-lowered k ts (to_lower t ∷ seen),
    eq_text_iff (to_lower t) k,
  )

  has-map :
      (a : Text) (ts : List Text)
      → has_text a ts ≡ true
      → has_text (to_lower a) (map to_lower ts) ≡ true
  unfolding has_text
  has-map a [] h = h
  has-map a (t ∷ ts) h =
      ground (arith, has-map a ts, eq_text_iff t a, eq_text_iff (to_lower t) (to_lower a))

  -- Where the queries succeed: for every address of the request, the map that HasMany returns has
  -- under the lowered address what Has returns for the address.
  pub has_many-has_account :
      (c : ℤ) (a : Text) (ts : List Text) (accounts : List Account)
      → has_text a ts ≡ true
      → (m : List (Text × Bool)) × (b : Bool) × (has_many to_lower sql_lower false c ts accounts
          ≡ ok m)
        × (has_account to_lower sql_lower false c a accounts ≡ ok b)
        × (lookup_text (to_lower a) m ≡ some b)
  unfolding has_many has_account has_text
  has_many-has_account c a [] accounts h = cc
  has_many-has_account c a (t ∷ ts) accounts h =
      let las = lowered to_lower sql_lower (t ∷ ts) [] in
      let k = to_lower a in
      let inside : has_text k las ≡ true =
        ground (arith, has-lowered k (t ∷ ts) [], has-map a (t ∷ ts) h) in
      (
        mark_found to_lower sql_lower (matching to_lower sql_lower c las accounts)
            (map (λ la. (la, false)) las),
        any_account to_lower sql_lower c k accounts,
        refl,
        refl,
        ground (
          arith,
          lookup-mark_found k (matching to_lower sql_lower c las accounts)
              (map (λ la. (la, false)) las),
          has-matching c k las accounts,
          lookup-false k las,
        ),
      )
