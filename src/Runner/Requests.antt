-- ===== src/Runner/Requests.antt =====
-- src/runner.rs: which requests a whole run of the agent sends.
use nexusid_agent.Common.{◌≡◌, String, Option, none, some, List}
use nexusid_agent.Error.{ok}
use nexusid_agent.Effect.{M}
use nexusid_agent.Trace.{Adds, Emits}
use nexusid_agent.Crypto.{Cipher}
use nexusid_agent.Config.{db, DbSection, Config, resolve}
use nexusid_agent.Audit.{SyncCounters}
use nexusid_agent.Server.{Request, ServerClient}
use nexusid_agent.Server.Requests.{listening, IsOwn}
use nexusid_agent.Runner.{Host, AgentWorld}

-- The host, with its HTTP client listened to.
abbrev pub heard : Host → Host
heard a = record {
  directory = a.directory;
  database = a.database;
  http = listening a.http;
  primitives = a.primitives;
  formats = a.formats;
  externals = a.externals;
  moments = a.moments;
  env = a.env;
  drain = a.drain;
  http_built = a.http_built;
  kerberos = a.kerberos;
  db_feature = a.db_feature;
  hostname = a.hostname;
  version = a.version;
}

module _ (a : Host) where
  abbrev pub requests_sent : AgentWorld (heard a) → List Request
  requests_sent w = w.broker.1

  -- The secret of the section that is configured, as it is resolved; only an agent in DB mode shows it.
  pub record SyncSecret (c : Config) (secret : String) : Type 0 where
    pub section : DbSection
    pub in_db_mode : c.agent.mode ≡ db
    pub configured : c.db_section ≡ some section
    pub resolved : resolve a.primitives a.env section.push_secret ≡ ok secret

  module _ (base : Config) (server : ServerClient) (cipher : Cipher) where
    abbrev Sends : {A : Type 0} → M (AgentWorld (heard a)) A → Type 0
    Sends = Emits requests_sent (IsOwn server (SyncSecret base))

    abbrev AllSend : Option (M (AgentWorld (heard a)) SyncCounters) → Type 0
    AllSend none = Unit
    AllSend (some m) = Sends m

    abbrev Added : AgentWorld (heard a) → AgentWorld (heard a) → Type 0
    Added = Adds requests_sent (IsOwn server (SyncSecret base))
