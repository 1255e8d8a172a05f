-- ===== src/Service/Tests.antt =====
-- A service that is stopped, and a manager that notes its calls.
use nexusid_agent.Common.{String, List, [], ◌∷◌}
use nexusid_agent.Error.{ok, err}
use nexusid_agent.Service.{Scm, interrogate, shutdown_control, run_service}
use nexusid_agent.Service.Lifecycle.{manager, Reported, run_service-Reported}

run_service-Reported_example :
    Reported
      (interrogate ∷ shutdown_control ∷ [])
      (run_service (manager (λ n. ok tt)) (ok tt) (interrogate ∷ shutdown_control ∷ []) [])
run_service-Reported_example =
    run_service-Reported (ok tt) (λ n. ok tt) (interrogate ∷ shutdown_control ∷ [])

-- One service is registered; the state lists the calls, the last one first.
abbrev noting : Scm
noting = record {
  State = List String;
  Manager = Unit {0};
  Service = String;
  local_computer = λ access s. (ok tt, "open manager" ∷ s);
  create_service = λ m info access s. (err "exists", "create" ∷ s);
  open_service = λ m name access s. (ok name, "open" ∷ s);
  set_description = λ service text s. (ok tt, s);
  start_service = λ service s. (ok tt, "start" ∷ s);
  stop_service = λ service s. (ok tt, "stop" ∷ s);
  delete_service = λ service s. (ok tt, "delete" ∷ s);
}
