-- ===== src/Setup/Finalize/Tests.antt =====
-- A setup on a small site, without a vault.
use nexusid_agent.Instances.{small_site as site}
use nexusid_agent.Common.{◌≡◌, refl, inl, inr, none, [], ◌∷◌, true, false, trim, starts_with}
use nexusid_agent.Common.Dict.{insert}
use nexusid_agent.Error.{ok}
use nexusid_agent.Crypto.Toy.{toy}
use nexusid_agent.Config.{vault}
use nexusid_agent.Setup.{SetupValues, effective_config_path, harden_secret}
use nexusid_agent.Setup.Harden.{IsReference}
use nexusid_agent.Setup.Finalize.{SiteWorld, finalize_setup}
use nexusid_agent.Setup.Finalize.Traces.{
  with_secrets, finalize_setup_hides, prepared, template, finalize_setup-files,
}

abbrev values : SetupValues
values = record {
  base_url = "https://idp";
  agent_id = "a";
  agent_token = "t";
  mode = "ad";
  secret_key = "k";
  ad_url = "ldaps://dc";
  bind_dn = "CN=svc";
  bind_password = "!";
  base_dn = "DC=corp";
}

abbrev before : SiteWorld site
before = record { files = []; broker = 0; services = tt; printed = []; input = [] }

k-raw : ¬ IsReference (trim "k")
unfolding trim starts_with
k-raw (inl e) = cc e
k-raw (inr (inl e)) = cc e
k-raw (inr (inr e)) = cc e

mark-raw : ¬ IsReference (trim "!")
unfolding trim starts_with
mark-raw (inl e) = cc e
mark-raw (inr (inl e)) = cc e
mark-raw (inr (inr e)) = cc e

no_vault : vault toy (λ name. none) ≡ ok none
unfolding vault
no_vault = refl

finalize_setup_hides_example :
    finalize_setup site [] [] "config.toml" values false
    ≡ finalize_setup site (1 ∷ []) [] "config.toml" (with_secrets site values "!" "k") false
finalize_setup_hides_example =
    finalize_setup_hides site [] [] (1 ∷ []) [] "config.toml" values "!" "k" false no_vault k-raw
      mark-raw mark-raw k-raw

finalize_setup-files_example :
    IsReference "env:SECRET_ENCRYPTION_KEY"
    × IsReference "env:NEXUS_AGENT_BIND_PASSWORD"
    × ((finalize_setup site [] [] "agent.toml" values false before).1.files
        ≡ insert
            (effective_config_path true "agent.toml")
            (template "a" "ad" "https://idp" "t" "env:SECRET_ENCRYPTION_KEY" "ldaps://dc" "CN=svc"
              "env:NEXUS_AGENT_BIND_PASSWORD" "DC=corp")
            (prepared site (effective_config_path true "agent.toml") before))
unfolding harden_secret trim starts_with
finalize_setup-files_example =
    finalize_setup-files site [] [] "agent.toml" values false none before no_vault
