-- ===== src/Database/Tables.antt =====
-- The tables of migrations/0001 and 0002 that the listener owns, and the SQL statements that
-- internal/database/buffer_repo.go runs on them.
pub mod Keys
pub mod Order
use listener_go.Prelude.{
  ℕ, suc, ◌+◌, ℤ, eq_ℤ, Text, eq_text, Bool, false, ◌&&◌, ◌||◌, Option, none, some, List, [], ◌∷◌,
  ◌++◌, leb, leb_ℤ, if◌then◌else◌,
}

-- UNIQUE (chain_id, tx_hash, log_index)
pub record Key : Type 0 where
  pub chain_id : ℤ
  pub tx_hash : Text
  pub log_index : ℤ

unfoldable pub eq_key : Key → Key → Bool
eq_key j k =
    eq_ℤ j.chain_id k.chain_id && eq_text j.tx_hash k.tx_hash && eq_ℤ j.log_index k.log_index

-- deposit_buffer
pub record Row (Raw : Type 0) : Type 0 where
  pub id : ℕ
  pub key : Key
  pub payload : Raw
  pub block_number : Option ℤ
  pub created_at : ℕ

-- scan_cursor, PRIMARY KEY (chain_id, scanner)
pub record CursorRow : Type 0 where
  pub chain_id : ℤ
  pub scanner : Text
  pub last_block : ℤ

-- `next_id` is the sequence behind BIGSERIAL; `notified` counts the notifications sent.
pub record Db (Raw : Type 0) : Type 0 where
  pub rows : List (Row Raw)
  pub next_id : ℕ
  pub cursors : List CursorRow
  pub notified : ℕ

-- scan_cursor
unfoldable pub same_cursor : ℤ → Text → CursorRow → Bool
same_cursor chain_id scanner c = eq_ℤ c.chain_id chain_id && eq_text c.scanner scanner

-- INSERT INTO scan_cursor … ON CONFLICT (chain_id, scanner) DO UPDATE SET last_block
unfoldable pub upsert : ℤ → Text → ℤ → List CursorRow → List CursorRow
unfolding same_cursor
upsert chain_id scanner block [] =
    record { chain_id = chain_id; scanner = scanner; last_block = block } ∷ []
upsert chain_id scanner block (c ∷ cs) =
    if same_cursor chain_id scanner c
    then record c { last_block = block } ∷ cs
    else c ∷ upsert chain_id scanner block cs

-- SELECT last_block FROM scan_cursor WHERE chain_id = $1 AND scanner = $2
unfoldable pub select_cursor : ℤ → Text → List CursorRow → Option ℤ
unfolding same_cursor
select_cursor chain_id scanner [] = none
select_cursor chain_id scanner (c ∷ cs) =
    if same_cursor chain_id scanner c then some c.last_block else select_cursor chain_id scanner cs

-- block_number BETWEEN $2 AND $3, which no NULL satisfies
abbrev pub between : ℤ → ℤ → Option ℤ → Bool
between low high none = false
between low high (some b) = leb_ℤ low b && leb_ℤ b high

module _ {Raw : Type 0} where
  unfoldable pub has_key : Key → List (Row Raw) → Bool
  has_key k [] = false
  has_key k (r ∷ rs) = eq_key r.key k || has_key k rs

  -- ON CONFLICT (chain_id, tx_hash, log_index) DO NOTHING
  unfoldable pub add_row : Row Raw → List (Row Raw) → List (Row Raw)
  add_row r rs = if has_key r.key rs then rs else rs ++ r ∷ []

  -- INSERT INTO deposit_buffer. The sequence moves on at a conflict too.
  unfoldable pub insert_ignore : Key → Raw → ℤ → ℕ → Db Raw → Db Raw
  insert_ignore k payload block now db = record db {
    rows =
        add_row
          (record {
            id = db.next_id;
            key = k;
            payload = payload;
            block_number = some block;
            created_at = now;
          })
          db.rows;
    next_id = suc db.next_id;
  }

  -- DELETE FROM deposit_buffer WHERE chain_id = $1 AND tx_hash = $2 AND log_index = $3
  unfoldable pub delete_key : Key → List (Row Raw) → List (Row Raw)
  delete_key k [] = []
  delete_key k (r ∷ rs) = let rest = delete_key k rs in if eq_key r.key k then rest else r ∷ rest

  -- ORDER BY id ASC
  unfoldable pub insert_by_id : Row Raw → List (Row Raw) → List (Row Raw)
  insert_by_id r [] = r ∷ []
  insert_by_id r (s ∷ rs) = if leb r.id s.id then r ∷ s ∷ rs else s ∷ insert_by_id r rs

  unfoldable pub order_by_id : List (Row Raw) → List (Row Raw)
  order_by_id [] = []
  order_by_id (r ∷ rs) = insert_by_id r (order_by_id rs)

  -- WHERE chain_id = $1
  unfoldable pub of_chain : ℤ → List (Row Raw) → List (Row Raw)
  of_chain chain_id [] = []
  of_chain chain_id (r ∷ rs) =
      let rest = of_chain chain_id rs in if eq_ℤ r.key.chain_id chain_id then r ∷ rest else rest

  unfoldable pub of_range : ℤ → ℤ → List (Row Raw) → List (Row Raw)
  of_range low high [] = []
  of_range low high (r ∷ rs) =
      let rest = of_range low high rs in if between low high r.block_number then r ∷ rest else rest
