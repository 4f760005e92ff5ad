-- ===== src/Tests/Flush.antt =====
-- The fire-and-forget mode at concrete inputs.
use listener_go.Prelude.{
  ℕ, ◌==◌, if◌then◌else◌, if-cases, pos, codes, ◌≡◌, ◌≢◌, refl, ◌⊎◌, true, false, List, [], ◌∷◌,
  err, arith,
}
use listener_go.Samples.{codec, codec-IsFaithful, all_ok, deposit, clear_pass, link}
use listener_go.Database.Tables.{has_key}
use listener_go.Publisher.FireAndForget.{
  no_fuel, Save, Pass, FlushEvent, woken, ping_due, flush_until_empty, drain_fire_and_forget,
}
use listener_go.Publisher.FireAndForget.Sent.{WasSent, drain_fire_and_forget-WasSent}
use listener_go.Publisher.FireAndForget.Ends.{flush_until_empty-ends}
use listener_go.Tests.{db_IsValid, has_key_3, key_3}

abbrev cases : List FlushEvent
cases = ping_due false ∷ woken (λ n. clear_pass) ∷ []

drain_fire_and_forget-WasSent_example :
    let t = (drain_fire_and_forget codec 1 5 (λ n. clear_pass) cases link).1 in
    (has_key key_3 t.db.rows ≡ true) ⊎ WasSent codec 1 key_3 t.sent
drain_fire_and_forget-WasSent_example =
    drain_fire_and_forget-WasSent codec 1 5 (λ n. clear_pass) cases link key_3 has_key_3

-- In the first round a scanner has committed a block with a deposit.
abbrev one_save : Save
one_save = record {
  now = 0;
  outcomes = all_ok;
  chain_id = pos 1;
  scanner = codes "log";
  block = 7;
  deposits = deposit ∷ [];
}

abbrev rounds : ℕ → Pass
rounds n = if n == 0 then record clear_pass { saves = one_save ∷ [] } else clear_pass

no_ack_fails : (m j : ℕ) → (rounds m).ack_fails j ≡ false
no_ack_fails m j = if-cases (λ (p : Pass). p.ack_fails j ≡ false) (m == 0) (λ h. refl) (λ h. refl)

flush_until_empty-ends_example : (flush_until_empty codec 1 3 rounds 0 link).0 ≢ err no_fuel
flush_until_empty-ends_example =
    flush_until_empty-ends codec 1 (λ d. (d, refl)) codec-IsFaithful rounds 0 3 link no_ack_fails
      db_IsValid (omega arith)
