-- ===== src/Tests/Accounts.antt =====
-- The account lookups at concrete inputs.
use listener_go.Prelude.{
  pos, Text, codes, eq_text, true, ◌≡◌, refl, Bool, false, some, List, [], ◌∷◌, ok,
}
use listener_go.Database.Accounts.{Account, has_text, has_account, lookup_text, has_many}
use listener_go.Database.Accounts.Agreement.{has_many-has_account}

-- Any function may stand for the lower case.
abbrev lower : Text → Text
lower t = b'0' ∷ t

abbrev accounts : List Account
accounts = record { chain_id = pos 1; address = codes "ab" } ∷ []

abbrev asked : List Text
asked = codes "ab" ∷ codes "cd" ∷ codes "ab" ∷ []

has_ab : has_text (codes "ab") asked ≡ true
unfolding has_text eq_text
has_ab = refl

has_many-has_account_example :
    (m : List (Text × Bool)) × (b : Bool) × (has_many lower lower false (pos 1) asked accounts
      ≡ ok m)
    × (has_account lower lower false (pos 1) (codes "ab") accounts ≡ ok b)
    × (lookup_text (lower (codes "ab")) m ≡ some b)
has_many-has_account_example =
    has_many-has_account lower lower (pos 1) (codes "ab") asked accounts has_ab
