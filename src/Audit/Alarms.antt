-- ===== src/Audit/Alarms.antt =====
-- Which rows the audit of one block reports.
use listener_go.Prelude.{
  negsuc, codes, ◌↔◌, ◌≤◌, ◌⊎◌, ℕ, ℤ, to_int64, eq_text, eq_text_iff, Text, ◌≡◌, refl, Bool, false,
  ◌||◌, ◌&&◌, not, List, [], ◌∷◌, ◌++◌, map, ok, if◌then◌else◌, arith,
}
use listener_go.Model.{DepositEvent, Deposit}
use listener_go.Database.Tables.{Key, eq_key, Db, of_chain, of_range}
use listener_go.Database.Tables.Keys.{eq_key_iff}
use listener_go.Database.Buffer.{Codec, key_of}
use listener_go.Database.Buffer.Invariant.{IsValid}
use listener_go.Database.Buffer.Reads.{keys, pending-ReadsAs}
use listener_go.Publisher.Protocol.{ack_id}
use listener_go.Publisher.Protocol.Ids.{ack_id-injective}
use listener_go.Audit.{
  AuditConfig, Report, owned_by, deposit_key, key_of_event, contains, missing_rows, Rescan,
  compare_rows, after_rescan, audit_block,
}

-- One of the events has this key.
abbrev pub any_event : Key → List DepositEvent → Bool
any_event k [] = false
any_event k (e ∷ es) = eq_key (key_of_event e) k || any_event k es

-- The keys that no event has and that belong to the scanner, with its name.
abbrev pub unexplained : Text → List DepositEvent → List Key → List (Text × Key)
unexplained name es [] = []
unexplained name es (k ∷ ks) =
    if not (any_event k es) && owned_by name k.log_index
    then (name, k) ∷ unexplained name es ks
    else unexplained name es ks

deposit_key-ack_id : (k : Key) → deposit_key k ≡ ack_id k
unfolding deposit_key ack_id
deposit_key-ack_id k = refl

deposit_key-injective : (j k : Key) → deposit_key j ≡ deposit_key k → j ≡ k
deposit_key-injective j k e =
    ack_id-injective j k (rw (← deposit_key-ack_id j, ← deposit_key-ack_id k) e)

contains-any_event :
    (k : Key) (es : List DepositEvent)
    → contains (deposit_key k) (map (λ e. deposit_key (key_of_event e)) es) ≡ any_event k es
unfolding contains
contains-any_event k [] = refl
contains-any_event k (e ∷ es) = ground (
  arith,
  contains-any_event k es,
  eq_text_iff (deposit_key (key_of_event e)) (deposit_key k),
  eq_key_iff (key_of_event e) k,
  deposit_key-injective (key_of_event e) k,
)

missing_rows-unexplained :
    (name : Text) (es : List DepositEvent) (ds : List Deposit)
    → missing_rows name (map (λ e. deposit_key (key_of_event e)) es) ds
      ≡ unexplained name es (map key_of ds)
unfolding missing_rows
missing_rows-unexplained name es [] = refl
missing_rows-unexplained name es (d ∷ ds) =
    ground (arith, missing_rows-unexplained name es ds, contains-any_event (key_of d) es)

-- The audit of a block whose second scan and query succeed, on well-formed tables: it reports
-- exactly the rows of this chain and block whose key no event of the second scan has and whose log
-- index belongs to the scanner, in the order of insertion, and notes the block as checked.
pub audit_block-unexplained :
    {Raw : Type 0} (codec : Codec Raw) (cfg : AuditConfig) (chain_id : ℤ) (sc : Rescan) (block : ℕ)
    (es : List DepositEvent) (db : Db Raw) (r : Report)
    → IsValid codec db
    → sc.scan block cfg.block_rescan_confs ≡ ok es
    → sc.range_fails block ≡ false
    → audit_block codec cfg chain_id sc block db r ≡ record r {
      checked = r.checked ++ (chain_id, block) ∷ [];
      alarms =
          r.alarms
          ++ unexplained sc.name es
              (keys (of_range (to_int64 block) (to_int64 block) (of_chain chain_id db.rows)));
    }
unfolding audit_block after_rescan compare_rows
audit_block-unexplained codec cfg chain_id sc block es db r v scanned works =
    let (ds, e, k) = (pending-ReadsAs codec chain_id block block db v).1 in
    rw (scanned, after_rescan, works, e, compare_rows, missing_rows-unexplained sc.name es ds, k)
      refl

-- The log index -(n + 1) of a row belongs to neither the log scanner nor the trace scanner exactly
-- if it is from -99999 to -10000; it never belongs to both.
pub owned_by-negsuc :
    (n : ℕ)
    → (((owned_by (codes "log") (negsuc n) ≡ false) × (owned_by (codes "trace") (negsuc n) ≡ false))
        ↔ ((9999 ≤ n) × (n ≤ 99998)))
      × ((owned_by (codes "log") (negsuc n) ≡ false)
          ⊎ (owned_by (codes "trace") (negsuc n) ≡ false))
unfolding owned_by eq_text
owned_by-negsuc n = (ground arith, ground arith)
