-- ===== src/Command/Tests.antt =====
-- The command `verify-log` on a file with a record that is not one of a chain.
use nexusid_agent.Instances.{small_site}
use nexusid_agent.Common.{◌≡◌, ◌↔◌, String, [], ◌∷◌, List}
use nexusid_agent.Common.Dict.{get}
use nexusid_agent.Error.{ok}
use nexusid_agent.Audit.{genesis, AuditRecord, Externals, FileRead, read}
use nexusid_agent.Audit.Chain.{IsChain}
use nexusid_agent.Audit.Reading.{Holds}
use nexusid_agent.Json.{null}
use nexusid_agent.Setup.Finalize.{SiteWorld}
use nexusid_agent.Command.{verify_log, success, exit_of, dispatch}
use nexusid_agent.Command.Verdict.{dispatch-verify_log}

abbrev second : AuditRecord
second = record {
  seq = 2;
  ts = "t";
  event = "RUN_STOP";
  detail = null;
  prev_hash = genesis;
  hash = "h";
}

abbrev small : Externals
small = record {
  render = λ v. "null";
  encode = λ r. ok "{2}";
  decode = λ l. ok second;
  sha256_hex = λ s. "h";
}

abbrev read_log : String → small_site.file_system.State → FileRead
read_log path files = read (get path files)

abbrev before : SiteWorld small_site
before = record {
  files = ("audit.jsonl", "{2}\n") ∷ [];
  broker = 0;
  services = tt;
  printed = [];
  input = [];
}

dispatch-verify_log_example :
    let (result, after) =
      dispatch small_site small read_log
        (λ c w. (ok tt, w))
        (λ path w. (ok tt, w))
        []
        []
        []
        (verify_log "audit.jsonl")
        before in
    (((exit_of result).0 ≡ success) ↔ (
      (recs : List AuditRecord) × Holds small (read_log "audit.jsonl" before.files) recs
      × IsChain small genesis 1 recs))
    × (after ≡ record before { printed = after.printed })
dispatch-verify_log_example =
    dispatch-verify_log small_site small read_log (λ c w. (ok tt, w)) (λ path w. (ok tt, w)) [] []
      [] "audit.jsonl" before
