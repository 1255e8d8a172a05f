-- ===== src/Service.antt =====
-- src/service.rs: the agent as a Windows service.
--
-- The service manager is the record `Scm`; a service's display name, process type and error control are
-- constants of the source that no operation reads.
pub mod Lifecycle
pub mod Restart
pub mod Worker
mod Tests
use nexusid_agent.Common.{String, Bool, true, false, ◌||◌, List, [], ◌∷◌, concat, if◌then◌else◌}
use nexusid_agent.Error.{Result, ok, err, AgentError, config, map_err}
use nexusid_agent.Effect.{M, lift, and_then, ◌>>=◌, ◌>>◌}

abbrev pub service_name : String
service_name = "NexusAgent"

pub data ManagerAccess : Type 0 where
  connect create : ManagerAccess

pub data ServiceAccess : Type 0 where
  change_config start stop query_status delete : ServiceAccess

-- The service runs as LocalSystem and is started with the system.
pub record ServiceInfo : Type 0 where
  pub name : String
  pub executable_path : String
  pub launch_arguments : List String

pub record Scm : Type 1 where
  pub State : Type 0
  pub Manager : Type 0
  pub Service : Type 0
  pub local_computer : ManagerAccess → State → Result String Manager × State
  pub create_service :
      Manager → ServiceInfo → List ServiceAccess → State → Result String Service × State
  pub open_service : Manager → String → List ServiceAccess → State → Result String Service × State
  pub set_description : Service → String → State → Result String (Unit {0}) × State
  pub start_service : Service → State → Result String (Unit {0}) × State
  pub stop_service : Service → State → Result String (Unit {0}) × State
  pub delete_service : Service → State → Result String (Unit {0}) × State

-- `map_err` of a call, beside the state
described : {A S : Type 0} → String → Result String A × S → Result AgentError A × S
described what (r, s) = (map_err (λ e. config (concat (what ∷ ": " ∷ e ∷ []))) r, s)

-- `let _ = …`
ignored : {A S : Type 0} → (S → Result String A × S) → M S (Unit {0})
ignored call s = (ok tt, (call s).1)

info_of : (exe config_path : String) → ServiceInfo
info_of exe config_path = record {
  name = service_name;
  executable_path = exe;
  launch_arguments = "run-service" ∷ "--config" ∷ config_path ∷ [];
}

module _ (m : Scm) where
  open m use {State, Service, local_computer, create_service, open_service, set_description}
  open m use {start_service, stop_service, delete_service}

  start_it : Service → M State (Unit {0})
  unfolding described
  start_it service s = described "start service" (start_service service s)

  -- `exe` is the path of the running program, or the message of an error.
  pub install : (exe : Result String String) → String → M State (Unit {0})
  unfolding described ignored info_of start_it
  install exe config_path = do
    manager ← (λ s. described "open SCM (run as Administrator)" (local_computer create s))
    path ← lift (map_err (λ e. config (concat ("current exe: " ∷ e ∷ []))) exe)
    service ← (λ s.
        described "create service"
          (create_service manager (info_of path config_path) (change_config ∷ start ∷ []) s))
    ignored (set_description service "NexusID hybrid AD/DB sync agent")
    start_it service

  restart : Service → M State (Unit {0})
  unfolding ignored start_it
  restart service = do ignored (stop_service service); start_it service

  -- A service that cannot be opened is taken as not registered.
  restart_or_install :
      (exe : Result String String)
      → String
      → Result String Service × State
      → Result AgentError (Unit {0}) × State
  unfolding restart install
  restart_or_install exe config_path (ok service, s) = restart service s
  restart_or_install exe config_path (err _, s) = install exe config_path s

  pub ensure_running : (exe : Result String String) → String → M State (Unit {0})
  unfolding described restart_or_install
  ensure_running exe config_path = do
    manager ← (λ s. described "open SCM (run as Administrator)" (local_computer connect s))
    (λ s.
        restart_or_install exe config_path
          (open_service manager service_name (start ∷ stop ∷ query_status ∷ []) s))

  pub uninstall : M State (Unit {0})
  unfolding described ignored
  uninstall = do
    manager ← (λ s. described "open SCM (run as Administrator)" (local_computer connect s))
    service ← (λ s.
        described "open service"
          (open_service manager service_name (stop ∷ delete ∷ query_status ∷ []) s))
    ignored (stop_service service)
    (λ s. described "delete service" (delete_service service s))

-- The controls that the manager sends to a running service.
pub data Control : Type 0 where
  stop_control shutdown_control interrogate other_control : Control

pub data Answer : Type 0 where
  no_error not_implemented : Answer

-- `handler`, without the message that it may send
pub answer : Control → Answer
answer stop_control = no_error
answer shutdown_control = no_error
answer interrogate = no_error
answer other_control = not_implemented

pub data ServiceState : Type 0 where
  running stop_pending stopped : ServiceState

-- `accepts` is `controls_accepted`; the other fields of a status are constants.
pub record ServiceStatus : Type 0 where
  pub state : ServiceState
  pub accepts : List Control

-- How `run_service` ends; `waiting` is its block on the channel.
pub data Ending : Type 0 where
  failed : String → Ending
  waiting exited : Ending

-- The handler sends a message to the channel for these.
pub sends : Control → Bool
sends stop_control = true
sends shutdown_control = true
sends interrogate = false
sends other_control = false

-- `stop_rx.recv()`: whether a message comes while these controls are handled.
unfoldable pub received : List Control → Bool
unfolding sends
received [] = false
received (control ∷ controls) = sends control || received controls

module _ {S : Type 0} (report : ServiceStatus → S → Result String (Unit {0}) × S) where
  -- `set_status(…)?`
  after_report : (S → Ending × S) → Result String (Unit {0}) × S → Ending × S
  after_report next (ok _, s) = next s
  after_report next (err e, s) = (failed e, s)

  set_status : ServiceState → List Control → (S → Ending × S) → S → Ending × S
  unfolding after_report
  set_status state accepts next s =
      after_report next (report (record { state = state; accepts = accepts }) s)

  shut_down : S → Ending × S
  unfolding set_status
  shut_down = set_status stop_pending [] (set_status stopped [] (λ s. (exited, s)))

  serve : List Control → S → Ending × S
  unfolding received shut_down
  serve controls s = if received controls then shut_down s else (waiting, s)

  -- `registered` is the outcome of registering the handler; the agent runs in a thread of its own.
  pub run_service : (registered : Result String (Unit {0})) → List Control → S → Ending × S
  unfolding set_status serve
  run_service (err e) controls s = (failed e, s)
  run_service (ok _) controls s =
      set_status running (stop_control ∷ shutdown_control ∷ []) (serve controls) s
