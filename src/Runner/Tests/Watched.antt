-- ===== src/Runner/Tests/Watched.antt =====
-- The run of the agent's tests, with its directory and its database watched.
use nexusid_agent.Common.{◌≡◌, refl, none, some, [], strip_prefix, trim, trim_end_matches}
use nexusid_agent.Error.{ok}
use nexusid_agent.Trace.{Adds}
use nexusid_agent.Crypto.{from_base64_key}
use nexusid_agent.Config.{as_str, resolve, server_cipher}
use nexusid_agent.Audit.{append_event, append, run_start, open_log, read}
use nexusid_agent.Server.{new_client}
use nexusid_agent.World.{with_log}
use nexusid_agent.Common.{show}
use nexusid_agent.Runner.{directory_id, AgentWorld, Prepared, prepare, started, run}
use nexusid_agent.Runner.Stops.{run_stops}
use nexusid_agent.Runner.Calls.{watched, directory_calls, database_calls}
use nexusid_agent.Runner.Writes.{DirectoryCall, DatabaseCall, run-Calls}
use nexusid_agent.Runner.Tests.{
  host, cfg, client, ready, fresh, small-Laws, whole, valid, running, before-IsIntact,
}

abbrev ready_watched : Prepared (watched host)
ready_watched = record { log = fresh; server = client; cipher = ready.cipher; id = ready.id }

abbrev unseen : AgentWorld (watched host)
unseen = record {
  resource = record { directory = (0, []); database = (tt, []) };
  broker = 0;
  log = fresh;
  disk = none;
  writes = 0;
}

abbrev begun : AgentWorld (watched host)
begun = record {
  resource = record { directory = (0, []); database = (tt, []) };
  broker = 0;
  log = running.log;
  disk = running.disk;
  writes = 1;
}

settings_read : prepare (watched host) cfg none ≡ ok ready_watched
unfolding prepare open_log read resolve strip_prefix from_base64_key trim new_client server_cipher
    directory_id trim_end_matches
settings_read = refl

first_log : started (watched host) cfg unseen ≡ (ok tt, begun)
unfolding started as_str run_start with_log append_event append show
first_log = refl

-- The world after two cycles.
abbrev left : AgentWorld (watched host)
left =
    (run_stops (watched host) small-Laws whole cfg 2 ready_watched [] unseen begun valid
      before-IsIntact settings_read first_log).0

both_cycles : run (watched host) cfg 2 unseen ≡ some (ok tt, left)
both_cycles =
    (run_stops (watched host) small-Laws whole cfg 2 ready_watched [] unseen begun valid
      before-IsIntact settings_read first_log).3

run-Calls_example :
    Adds (directory_calls host) (DirectoryCall host cfg client ready.cipher) unseen left
    × Adds (database_calls host) (DatabaseCall host cfg client) unseen left
run-Calls_example = run-Calls host cfg ready_watched 2 unseen left settings_read both_cycles
