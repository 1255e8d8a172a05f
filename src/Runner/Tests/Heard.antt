-- ===== src/Runner/Tests/Heard.antt =====
-- The run of the agent's tests, with its HTTP client listened to.
use nexusid_agent.Common.{◌≡◌, refl, none, [], strip_prefix, trim, trim_end_matches}
use nexusid_agent.Error.{ok}
use nexusid_agent.Crypto.{from_base64_key}
use nexusid_agent.Config.{as_str, resolve, server_cipher}
use nexusid_agent.Audit.{append_event, append, run_start, open_log, read}
use nexusid_agent.Server.{new_client}
use nexusid_agent.World.{with_log}
use nexusid_agent.Common.{show}
use nexusid_agent.Runner.{directory_id, AgentWorld, Prepared, prepare, started}
use nexusid_agent.Runner.Stops.{run_stops}
use nexusid_agent.Runner.Requests.{heard}
use nexusid_agent.Runner.Tests.{
  host, cfg, client, ready, fresh, small-Laws, whole, valid, running, before-IsIntact,
}

abbrev ready_heard : Prepared (heard host)
ready_heard = record { log = fresh; server = client; cipher = ready.cipher; id = ready.id }

abbrev unheard : AgentWorld (heard host)
unheard = record {
  resource = record { directory = 0; database = tt };
  broker = (0, []);
  log = fresh;
  disk = none;
  writes = 0;
}

abbrev begun : AgentWorld (heard host)
begun = record {
  resource = record { directory = 0; database = tt };
  broker = (0, []);
  log = running.log;
  disk = running.disk;
  writes = 1;
}

settings_heard : prepare (heard host) cfg none ≡ ok ready_heard
unfolding prepare open_log read resolve strip_prefix from_base64_key trim new_client server_cipher
    directory_id trim_end_matches
settings_heard = refl

start_heard : started (heard host) cfg unheard ≡ (ok tt, begun)
unfolding started as_str run_start with_log append_event append show
start_heard = refl

-- The world after two cycles.
abbrev left : AgentWorld (heard host)
left =
    (run_stops (heard host) small-Laws whole cfg 2 ready_heard [] unheard begun valid
      before-IsIntact settings_heard start_heard).0
