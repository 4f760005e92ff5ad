-- ===== src/Publisher/Outstanding.antt =====
-- The in-flight table of internal/publisher/publisher.go: `map[string]*outstandingMsg` as an
-- association list with one entry for an id.
pub mod Laws
use Prim.Native.Nat.{min}
use listener_go.Prelude.{
  ℕ, ◌-◌, Text, eq_text, Bool, false, ◌||◌, Option, none, some, List, [], ◌∷◌, if◌then◌else◌,
}
use listener_go.Database.Tables.{Key}

-- `key` holds the fields chainID, txHash and logIndex.
pub record Msg : Type 0 where
  pub key : Key
  pub sent_at : ℕ

abbrev pub Outstanding : Type 0
Outstanding = List (Text × Msg)

unfoldable pub has : Text → Outstanding → Bool
has id [] = false
has id ((j, m) ∷ out) = eq_text j id || has id out

-- delete(o.items, id)
unfoldable pub drop : Text → Outstanding → Outstanding
drop id [] = []
drop id ((j, m) ∷ out) = let rest = drop id out in if eq_text j id then rest else (j, m) ∷ rest

unfoldable pub find : Text → Outstanding → Option Msg
find id [] = none
find id ((j, m) ∷ out) = if eq_text j id then some m else find id out

-- o.items[id] = …, at the time `now`.
unfoldable pub add : Text → Key → ℕ → Outstanding → Outstanding
add id k now out = (id, record { key = k; sent_at = now }) ∷ drop id out

unfoldable pub take : Text → Outstanding → Option Msg × Outstanding
take id out = (find id out, drop id out)

-- The earliest `sentAt`; `none` is the zero time.
oldest : Outstanding → Option ℕ
oldest [] = none
oldest ((j, m) ∷ out) = elim (oldest out) [
  | none ↦ some m.sent_at
  | some t ↦ some (min m.sent_at t)
]

unfoldable pub oldest_age : ℕ → Outstanding → ℕ
unfolding oldest
oldest_age now out = elim (oldest out) [ none ↦ 0 | some t ↦ now - t ]
