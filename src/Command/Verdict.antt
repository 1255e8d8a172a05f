-- ===== src/Command/Verdict.antt =====
-- src/main.rs: what the commands `verify-log` and `encrypt-secret` tell.
use nexusid_agent.Common.{◌≡◌, refl, ◌∙◌, ap, ◌↔◌, inl, inr, String, true, List, Bool-cases}
use nexusid_agent.Error.{Result, ok, err, AgentError, Result-cases, ok_inj}
use nexusid_agent.Effect.{M}
use nexusid_agent.Audit.{AuditRecord, Externals, FileRead, VerifyReport, genesis, verify}
use nexusid_agent.Audit.Chain.{IsChain}
use nexusid_agent.Audit.Reading.{Holds, verify-IsChain}
use nexusid_agent.Config.{Config}
use nexusid_agent.Crypto.{Bytes}
use nexusid_agent.Setup.Finalize.{Site, SiteWorld, print, println}
use nexusid_agent.Command.{
  verify_log, dispatch, do_verify_log, verify_file, judged, success, exit_of,
}

exit_of-success : (r : Result AgentError (Unit {0})) → ((exit_of r).0 ≡ success) ↔ (r ≡ ok tt)
unfolding exit_of
exit_of-success (ok _) = (λ h. refl, λ h. refl)
exit_of-success (err e) = (λ h. cc h, λ h. cc h)

module _ (a : Site) (x : Externals) (read_log : String → a.file_system.State → FileRead)
    (agent : Config → M (SiteWorld a) (Unit {0}))
    (dispatcher : String → M (SiteWorld a) (Unit {0})) where
  verify_log-reports :
      (path : String) (w : SiteWorld a)
      → let (result, w') = do_verify_log a x read_log path w in
        ((result ≡ ok tt) ↔ (
          (rep : VerifyReport) × (verify x (read_log path w.files) ≡ ok rep) × (rep.is_ok ≡ true)))
        × (w' ≡ record w { printed = w'.printed })
  unfolding do_verify_log verify_file judged println print
  verify_log-reports path w = elim (Result-cases (verify x (read_log path w.files))) [
    | inl (e, q) ↦ rw (q, do_verify_log, verify_file) ((λ h. cc h, λ (rep, v, t). cc v), refl)
    | inr (report, q) ↦ elim (Bool-cases report.is_ok) [
      | inl t ↦
          rw (q, t, do_verify_log, verify_file, judged)
            ((λ h. (record report { is_ok = true }, refl, refl), λ r. refl), refl)
      | inr f ↦
          rw (q, f, do_verify_log, verify_file, judged)
            (
              (λ h. cc h, λ (rep, v, t). cc (ap (λ (k : VerifyReport). k.is_ok) (ok_inj v) ∙ t)),
              refl,
            )
    ]
  ]

  -- The command `verify-log` gives the exit code of success exactly when the file is missing, or all its
  -- lines can be read, each that is not blank decodes, and their records form a chain from the genesis hash
  -- and number 1; and it changes nothing but what is printed.
  pub dispatch-verify_log :
      (iv₁ iv₂ random : Bytes) (path : String) (w : SiteWorld a)
      → let (result, w') =
          dispatch a x read_log agent dispatcher iv₁ iv₂ random (verify_log path) w in
        (((exit_of result).0 ≡ success) ↔ (
          (recs : List AuditRecord) × Holds x (read_log path w.files) recs
          × IsChain x genesis 1 recs))
        × (w' ≡ record w { printed = w'.printed })
  unfolding dispatch
  dispatch-verify_log iv₁ iv₂ random path w =
      let (reports, kept) = verify_log-reports path w in
      let chain = verify-IsChain x (read_log path w.files) in
      let code = exit_of-success (do_verify_log a x read_log path w).0 in
      ((λ h. chain.0 (reports.0 (code.0 h)), λ recs. code.1 (reports.1 (chain.1 recs))), kept)
