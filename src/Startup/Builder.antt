-- ===== src/Startup/Builder.antt =====
-- cmd/listener/main.go: newLoopBuilder and newAuditBuilder, with NewLogScanner, NewTraceScanner and
-- NewLoop: what the scanners and the loops of a chain are made of.
use listener_go.Prelude.{
  ℤ, pos, codes, ◌≡◌, ◌≢◌, refl, ap, Bool, true, false, Option, none, some, [], ◌++◌, Result, ok,
  err, arith,
}
use listener_go.Retry.{GoError, Options, wrapped}
use listener_go.Listener.{decoders_for_chain}
use listener_go.Settings.{Config}
use listener_go.Database.Chains.{ChainConfig}
use listener_go.Scanner.Node.{Formats}
use listener_go.Scanner.Decoder.{Registry}
use listener_go.Scanner.Log.{LogScanner}
use listener_go.Scanner.Trace.{TraceScanner, TraceState}
use listener_go.Scanner.Loop.{LoopConfig, LoopId}
use listener_go.Startup.{Wiring, loop_config_for}

abbrev pub kcp_chain_id : Option ℤ → ℤ
kcp_chain_id none = pos 0
kcp_chain_id (some n) = n

abbrev pub has_kcp : Option ℤ → Bool
has_kcp none = false
has_kcp (some n) = true

unfoldable pub new_log_scanner : ChainConfig → Option ℤ → Options → Registry → LogScanner
new_log_scanner chain kcp retry_options decoders = record {
  chain = chain;
  kcp_chain_id = kcp_chain_id kcp;
  has_kcp = has_kcp kcp;
  retry_options = retry_options;
  decoders = some decoders;
}

-- The scanner and its empty cache.
unfoldable pub new_trace_scanner : ChainConfig → Options → TraceScanner × TraceState
new_trace_scanner chain retry_options = (
  record { chain = chain; retry_options = retry_options },
  record { code_cache = []; trace_unsupported = false },
)

-- The two loops of a chain: under which name each keeps its cursor, and the strategies.
pub record ChainLoops : Type 0 where
  pub log_id : LoopId
  pub trace_id : LoopId
  pub log_scanner : LogScanner
  pub trace_scanner : TraceScanner × TraceState
  pub config : LoopConfig

made_loops : Formats → Config → Wiring → ChainConfig → ChainLoops
unfolding new_log_scanner new_trace_scanner
made_loops fmt cfg w chain = record {
  log_id = record { chain_id = chain.chain_id; name = codes "log" };
  trace_id = record { chain_id = chain.chain_id; name = codes "trace" };
  log_scanner =
      new_log_scanner chain w.kcp w.retry_options
        (decoders_for_chain fmt chain.chain_type w.decryptor);
  trace_scanner = new_trace_scanner chain w.retry_options;
  config = loop_config_for cfg w.retry_options chain;
}

-- `dial` is the error of rpc.DialContext.
unfoldable pub build_loops :
    Formats → Config → Wiring → Option GoError → ChainConfig → Result GoError ChainLoops
unfolding made_loops
build_loops fmt cfg w (some e) chain =
    err (wrapped (codes "dial RPC " ++ chain.rpc_url ++ codes ": ") e)
build_loops fmt cfg w none chain = ok (made_loops fmt cfg w chain)

-- The scanners of the audit, over a connection of their own.
unfoldable pub build_audit :
    Formats
    → Wiring
    → Option GoError
    → ChainConfig
    → Result GoError (LogScanner × (TraceScanner × TraceState))
build_audit fmt w (some e) chain =
    err (wrapped (codes "dial audit RPC " ++ chain.rpc_url ++ codes ": ") e)
build_audit fmt w none chain = ok (
  new_log_scanner chain w.kcp w.retry_options (decoders_for_chain fmt chain.chain_type w.decryptor),
  new_trace_scanner chain w.retry_options,
)

log-ne-trace : codes "log" ≢ codes "trace"
log-ne-trace = λ e. ground arith

-- The loops of chains with different ids, and the two loops of one chain, keep different cursors; and
-- the audit scans a chain with the scanners of its loops.
build_loops-separate :
    (fmt : Formats) (cfg : Config) (w : Wiring) (a b : ChainConfig) (x y : ChainLoops)
    → build_loops fmt cfg w none a ≡ ok x
    → build_loops fmt cfg w none b ≡ ok y
    → a.chain_id ≢ b.chain_id
    → (x.log_id ≢ x.trace_id)
      × (x.log_id ≢ y.log_id)
      × (x.log_id ≢ y.trace_id)
      × (x.trace_id ≢ y.trace_id)
      × (build_audit fmt w none a ≡ ok (x.log_scanner, x.trace_scanner))
unfolding build_loops made_loops build_audit
build_loops-separate fmt cfg w a b x y made made' other =
    let e : made_loops fmt cfg w a ≡ x = cc made in
    let e' : made_loops fmt cfg w b ≡ y = cc made' in
    rw (← e, ← e')
      (
        λ h. log-ne-trace (ap (λ (i : LoopId). i.name) h),
        λ h. other (ap (λ (i : LoopId). i.chain_id) h),
        λ h. other (ap (λ (i : LoopId). i.chain_id) h),
        λ h. other (ap (λ (i : LoopId). i.chain_id) h),
        refl,
      )
