-- ===== src/Database/Tables/Keys.antt =====
-- Which keys the statements on the two tables put in, take out and leave.
use listener_go.Prelude.{
  ℤ, eq_ℤ, if◌then◌else◌, eq_text, eq_ℤ_iff, Text, eq_text_iff, ◌≡◌, ◌↔◌, refl, true, ◌||◌, not,
  ◌&&◌, some, List, [], ◌∷◌, ◌++◌, arith,
}
use listener_go.Database.Tables.{
  Key, eq_key, Row, CursorRow, same_cursor, upsert, select_cursor, has_key, add_row, delete_key,
}

pub eq_key_iff : (j k : Key) → (eq_key j k ≡ true) ↔ (j ≡ k)
unfolding eq_key
eq_key_iff j k = ground (
  arith,
  eq_ℤ_iff j.chain_id k.chain_id,
  eq_text_iff j.tx_hash k.tx_hash,
  eq_ℤ_iff j.log_index k.log_index,
)

pub eq_key_refl : (k : Key) → eq_key k k ≡ true
eq_key_refl k = (eq_key_iff k k).1 refl

pub eq_key_comm : (j k : Key) → eq_key j k ≡ eq_key k j
eq_key_comm j k = ground (arith, eq_key_iff j k, eq_key_iff k j)

module _ {Raw : Type 0} where
  pub has_key-append :
      (k : Key) (rs ss : List (Row Raw)) → has_key k (rs ++ ss) ≡ (has_key k rs || has_key k ss)
  unfolding has_key
  has_key-append k [] ss = refl
  has_key-append k (r ∷ rs) ss = ground (arith, has_key-append k rs ss)

  pub has_key-add_row :
      (k : Key) (r : Row Raw) (rs : List (Row Raw))
      → has_key k (add_row r rs) ≡ (has_key k rs || eq_key r.key k)
  unfolding add_row has_key
  has_key-add_row k r rs = ground (arith, has_key-append k rs (r ∷ []), eq_key_iff r.key k)

  pub has_key-delete_key :
      (j k : Key) (rs : List (Row Raw))
      → has_key j (delete_key k rs) ≡ (has_key j rs && not (eq_key j k))
  unfolding delete_key has_key
  has_key-delete_key j k [] = refl
  has_key-delete_key j k (r ∷ rs) =
      ground
        (arith, has_key-delete_key j k rs, eq_key_iff r.key k, eq_key_iff r.key j, eq_key_iff j k)

pub select_cursor-upsert :
    (chain_id : ℤ) (scanner : Text) (block : ℤ) (cs : List CursorRow) (chain' : ℤ) (scanner' : Text)
    → select_cursor chain' scanner' (upsert chain_id scanner block cs) ≡ (
        if eq_ℤ chain_id chain' && eq_text scanner scanner'
        then some block
        else select_cursor chain' scanner' cs)
unfolding select_cursor upsert same_cursor
select_cursor-upsert chain_id scanner block [] chain' scanner' = refl
select_cursor-upsert chain_id scanner block (c ∷ cs) chain' scanner' = ground (
  arith,
  select_cursor-upsert chain_id scanner block cs chain' scanner',
  eq_ℤ_iff c.chain_id chain_id,
  eq_ℤ_iff c.chain_id chain',
  eq_ℤ_iff chain_id chain',
  eq_text_iff c.scanner scanner,
  eq_text_iff c.scanner scanner',
  eq_text_iff scanner scanner',
)
