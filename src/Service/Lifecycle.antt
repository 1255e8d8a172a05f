-- ===== src/Service/Lifecycle.antt =====
-- src/service.rs: the states that a service reports to the manager.
use nexusid_agent.Common.{
  ℕ, ◌≡◌, refl, ◌⊎◌, inl, inr, String, true, false, List, [], ◌∷◌, ◌++◌, ◌<◌, length, take, Has,
  arith, Bool-cases,
}
use nexusid_agent.Error.{Result, ok, err, Result-cases}
use nexusid_agent.Service.{
  Control, stop_control, shutdown_control, interrogate, other_control, ServiceStatus, running,
  stop_pending, stopped, Ending, failed, waiting, exited, sends, received, after_report, set_status,
  shut_down, serve, run_service,
}

-- The states of a service that comes to its end.
abbrev pub life : List ServiceStatus
life =
    record { state = running; accepts = stop_control ∷ shutdown_control ∷ [] }
    ∷ record { state = stop_pending; accepts = [] }
    ∷ record { state = stopped; accepts = [] }
    ∷ []

-- The manager notes each status that it takes; `outcome` says whether it takes the next one.
abbrev pub taken :
    Result String (Unit {0})
    → ServiceStatus
    → List ServiceStatus
    → Result String (Unit {0}) × List ServiceStatus
taken (ok _) status log = (ok tt, log ++ status ∷ [])
taken (err e) status log = (err e, log)

abbrev pub manager :
    (ℕ → Result String (Unit {0}))
    → ServiceStatus
    → List ServiceStatus
    → Result String (Unit {0}) × List ServiceStatus
manager outcome status log = taken (outcome (length log)) status log

received-Has :
    (controls : List Control)
    → received controls ≡ true
    → (control : Control) × Has control controls
      × Has control (stop_control ∷ shutdown_control ∷ [])
unfolding received sends
received-Has [] e = cc e
received-Has (stop_control ∷ controls) e = (stop_control, inl refl, inl refl)
received-Has (shutdown_control ∷ controls) e = (shutdown_control, inl refl, inr (inl refl))
received-Has (interrogate ∷ controls) e = let (c, h, a) = received-Has controls e in (c, inr h, a)
received-Has (other_control ∷ controls) e = let (c, h, a) = received-Has controls e in (c, inr h, a)

-- The cases of how a service ends, with what it has reported.
abbrev pub Reported : List Control → Ending × List ServiceStatus → Type 0
Reported controls (ending, log) =
    ((ending ≡ exited)
      × (log ≡ life)
      × ((control : Control) × Has control controls
          × Has control (stop_control ∷ shutdown_control ∷ [])))
    ⊎ (((ending ≡ waiting) × (log ≡ take 1 life) × (received controls ≡ false))
        ⊎ ((e : String) × (n : ℕ) × (ending ≡ failed e) × (log ≡ take n life) × (n < 3)))

-- A service that exits has reported that it runs, that it is stopping and that it has stopped, in this
-- order, and was sent a control that it accepts while it runs. A service that waits has reported that it
-- runs, and was sent no control that ends the wait. If the handler is not registered or the manager does
-- not take a status, the service fails, and has reported a beginning of these states.
pub run_service-Reported :
    (registered : Result String (Unit {0})) (outcome : ℕ → Result String (Unit {0}))
    (controls : List Control)
    → Reported controls (run_service (manager outcome) registered controls [])
unfolding run_service after_report set_status serve shut_down
run_service-Reported (err e) outcome controls = inr (inr (e, 0, refl, refl, omega arith))
run_service-Reported (ok _) outcome controls = elim (Result-cases (outcome 0)) [
  | inl (e, q) ↦ rw q (inr (inr (e, 0, refl, refl, omega arith)))
  | inr (_, q) ↦ elim (Bool-cases (received controls)) [
    | inr f ↦ rw (q, f) (inr (inl (refl, refl, refl)))
    | inl t ↦ elim (Result-cases (outcome 1)) [
      | inl (e, q1) ↦ rw (q, t, q1) (inr (inr (e, 1, refl, refl, omega arith)))
      | inr (_, q1) ↦ elim (Result-cases (outcome 2)) [
        | inl (e, q2) ↦ rw (q, t, q1, q2) (inr (inr (e, 2, refl, refl, omega arith)))
        | inr (_, q2) ↦ rw (q, t, q1, q2) (inl (refl, refl, received-Has controls t))
      ]
    ]
  ]
]
