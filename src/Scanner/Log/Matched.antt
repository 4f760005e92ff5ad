-- ===== src/Scanner/Log/Matched.antt =====
-- The account query of a scanner, over the addresses of its candidates.
use listener_go.Prelude.{
  ℤ, Text, eq_text_iff, ◌≡◌, refl, ◌∙◌, sym, ap, Bool, true, false, some, List, [], ◌∷◌, map, ok,
  All, arith,
}
use mathlib.Core.Path.{subst}
use listener_go.Database.Accounts.{
  Account, has_text, lookup_text, any_account, has_account, has_many,
}
use listener_go.Database.Accounts.Agreement.{has_many-has_account}
use listener_go.Scanner.Log.{is_marked, address_set}

has-address_set : (k : Text) (ts : List Text) → has_text k (address_set ts) ≡ has_text k ts
unfolding has_text address_set
has-address_set k [] = refl
has-address_set k (t ∷ ts) =
    ground (arith, has-address_set k ts, has-address_set t ts, eq_text_iff t k)

All-has_text :
    {A : Type 0} (f : A → Text) (xs : List A) (ts : List Text)
    → ((k : Text) → has_text k (map f xs) ≡ true → has_text k ts ≡ true)
    → All (λ x. has_text (f x) ts ≡ true) xs
unfolding has_text
All-has_text f [] ts h = tt
All-has_text f (x ∷ xs) ts h = (
  h (f x) (ground (arith, eq_text_iff (f x) (f x))),
  All-has_text f xs ts (λ k e. h k (ground arith)),
)

module _ (to_lower sql_lower : Text → Text) (c : ℤ) (accounts : List Account) where
  marked-any_account :
      (k : Text) (ts : List Text) (m : List (Text × Bool))
      → has_many to_lower sql_lower false c ts accounts ≡ ok m
      → to_lower k ≡ k
      → has_text k ts ≡ true
      → is_marked (lookup_text k m) ≡ any_account to_lower sql_lower c k accounts
  unfolding has_account
  marked-any_account k ts m e lower inside =
      let (m', b, e', h, found) = has_many-has_account to_lower sql_lower c k ts accounts inside in
      let same : m' ≡ m = cc in
      let at : lookup_text k m ≡ some b =
        rw (← same) (subst (λ (t : Text). lookup_text t m' ≡ some b) lower found) in
      let answer : any_account to_lower sql_lower c (to_lower k) accounts ≡ b = cc in
      rw (at, is_marked)
        (sym answer ∙ ap (λ (t : Text). any_account to_lower sql_lower c t accounts) lower)

  pub has_many_succeeds :
      (ts : List Text)
      → (m : List (Text × Bool)) × (has_many to_lower sql_lower false c ts accounts ≡ ok m)
  unfolding has_many
  has_many_succeeds [] = ([], refl)
  has_many_succeeds (t ∷ ts) = (_, refl)

  -- Each candidate's address is marked exactly if it is watched.
  pub All-marked :
      {A : Type 0} (f : A → Text) (xs : List A) (m : List (Text × Bool))
      → ((x : A) → to_lower (f x) ≡ f x)
      → has_many to_lower sql_lower false c (address_set (map f xs)) accounts ≡ ok m
      → All
          (λ x. is_marked (lookup_text (f x) m) ≡ any_account to_lower sql_lower c (f x) accounts)
          xs
  All-marked {A} f xs m lower e =
      All-map xs
        (All-has_text f xs (address_set (map f xs)) (λ k h. has-address_set k (map f xs) ∙ h))
    where
      All-map :
          (ys : List A)
          → All (λ x. has_text (f x) (address_set (map f xs)) ≡ true) ys
          → All
              (λ x.
                is_marked (lookup_text (f x) m) ≡ any_account to_lower sql_lower c (f x) accounts)
              ys
      All-map [] h = tt
      All-map (y ∷ ys) h =
          (marked-any_account (f y) (address_set (map f xs)) m e (lower y) h.0, All-map ys h.1)
