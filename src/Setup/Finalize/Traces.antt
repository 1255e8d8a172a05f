-- ===== src/Setup/Finalize/Traces.antt =====
-- src/main.rs, `finalize_setup`: what a setup leaves behind of what was entered.
use nexusid_agent.Common.{
  ◌≡◌, refl, sym, ◌∙◌, ap, inl, inr, String, Bool, true, false, Option, none, some, List, [], ◌∷◌,
  ◌++◌, trim, is_empty, Bool-cases, concat,
}
use nexusid_agent.Error.{Result, ok, err, AgentError, Result-cases}
use nexusid_agent.Effect.{M, pure, lift, outcome, bind-ok, bind-err}
use nexusid_agent.Effect
use nexusid_agent.Crypto.{Bytes, Primitives, Cipher}
use nexusid_agent.Config.{Config, vault, resolve, RemoteConfig}
use nexusid_agent.Server.{new_client}
use nexusid_agent.Setup.{SetupValues, effective_config_path, harden_secret, harden_raw, config_text}
use nexusid_agent.Setup.Harden.{IsReference, harden_secret-IsReference, harden_secret-raw}
use nexusid_agent.Setup.Finalize.{
  Site, SiteWorld, note, print, println, print_actions, read_line, ask, make_dirs, write_config,
  print_check, ask_broker, check_config, check_written, print_service, start_windows_service,
  wants_start, offer_service, after_write, hardened_key, hardened_password, write_setup,
  finalize_setup,
}

-- Without a vault a raw secret has no influence on what is written for it.
harden_secret-raw-none :
    (p : Primitives) (iv iv' : Bytes) (value value' env_name : String)
    → ¬ IsReference (trim value)
    → ¬ IsReference (trim value')
    → harden_secret p iv value none env_name ≡ harden_secret p iv' value' none env_name
unfolding harden_raw
harden_secret-raw-none p iv iv' value value' env_name h h' =
    harden_secret-raw p iv value none env_name h
    ∙ sym (harden_secret-raw p iv' value' none env_name h')

-- The configuration that a setup leaves.
abbrev pub template : (id mode base_url token key url bind_dn password base_dn : String) → String
template id mode base_url token key url bind_dn password base_dn = concat (
    "[agent]\nid = \"" ∷ id ∷ "\"\nmode = \"" ∷ mode
    ∷ "\"\npoll_interval_secs = 30\naudit_log = \"./nexus-agent.audit.jsonl\"\n\n[server]\nbase_url = \""
    ∷ base_url ∷ "\"\nagent_token = \"" ∷ token ∷ "\"\nsecret_key = \"" ∷ key
    ∷ "\"\nverify_tls = true\n\n[ad]\nurl = \"" ∷ url ∷ "\"\nbind_dn = \"" ∷ bind_dn
    ∷ "\"\nbind_password = \"" ∷ password ∷ "\"\nbase_dn = \"" ∷ base_dn
    ∷ "\"\nuse_kerberos = false\npassword_writeback = true\n" ∷ [])

module _ (a : Site) where
  -- The values with two other secrets.
  abbrev pub with_secrets : SetupValues → (key password : String) → SetupValues
  with_secrets v key password = record v { secret_key = key; bind_password = password }

  write_setup_hides :
      (iv₁ iv₂ iv₁' iv₂' : Bytes) (path : String) (v : SetupValues) (key password : String)
      (interactive : Bool)
      → ¬ IsReference (trim v.secret_key)
      → ¬ IsReference (trim key)
      → ¬ IsReference (trim v.bind_password)
      → ¬ IsReference (trim password)
      → write_setup a iv₁ iv₂ path v interactive none
        ≡ write_setup a iv₁' iv₂' path (with_secrets v key password) interactive none
  unfolding write_setup hardened_key hardened_password config_text
  write_setup_hides iv₁ iv₂ iv₁' iv₂' path v key password interactive k k' b b' =
      let hk =
        harden_secret-raw-none a.primitives iv₁ iv₁' v.secret_key key "SECRET_ENCRYPTION_KEY" k
          k' in
      let hb =
        harden_secret-raw-none a.primitives iv₂ iv₂' v.bind_password password
          "NEXUS_AGENT_BIND_PASSWORD" b b' in
      rw (hk, hb) refl

  -- Without a vault, two raw secrets leave no trace of a setup: with any two others, and any random bytes,
  -- the setup gives the same result and leaves the same files, console, broker and services.
  pub finalize_setup_hides :
      (iv₁ iv₂ iv₁' iv₂' : Bytes) (path : String) (v : SetupValues) (key password : String)
      (interactive : Bool)
      → vault a.primitives a.env ≡ ok none
      → ¬ IsReference (trim v.secret_key)
      → ¬ IsReference (trim key)
      → ¬ IsReference (trim v.bind_password)
      → ¬ IsReference (trim password)
      → finalize_setup a iv₁ iv₂ path v interactive
        ≡ finalize_setup a iv₁' iv₂' path (with_secrets v key password) interactive
  unfolding finalize_setup
  finalize_setup_hides iv₁ iv₂ iv₁' iv₂' path v key password interactive e k k' b b' =
      let to = effective_config_path a.windows path in
      rw e (
        ap
          (λ (m : M (SiteWorld a) (Unit {0})).
            Effect.◌>>◌ (make_dirs a (a.file_system.parent to)) m)
          (write_setup_hides iv₁ iv₂ iv₁' iv₂' to v key password interactive k k' b b'))

  abbrev Keeps : {A : Type 0} → M (SiteWorld a) A → Type 0
  Keeps m = (w : SiteWorld a) → (m w).1.files ≡ w.files

  Keeps-bind :
      {A C : Type 0} (m : M (SiteWorld a) A) (f : A → M (SiteWorld a) C)
      → Keeps m
      → ((x : A) → Keeps (f x))
      → Keeps (Effect.◌>>=◌ m f)
  Keeps-bind m f h k w = elim (outcome (m w)) [
    | inl (e, t, q) ↦
        ap (λ (u : _ × SiteWorld a). u.1.files) (bind-err m f w q)
        ∙ sym (ap (λ (u : _ × SiteWorld a). u.1.files) q)
        ∙ h w
    | inr (x, t, q) ↦
        ap (λ (u : _ × SiteWorld a). u.1.files) (bind-ok m f w q)
        ∙ k x t
        ∙ sym (ap (λ (u : _ × SiteWorld a). u.1.files) q)
        ∙ h w
  ]

  println-Keeps : (t : String) → Keeps (println a t)
  unfolding println print
  println-Keeps t w = refl

  print_actions-Keeps : (notes : List String) → Keeps (print_actions a notes)
  unfolding print_actions println print
  print_actions-Keeps [] = λ w. refl
  print_actions-Keeps (n ∷ ns) = λ w. print_actions-Keeps ns _

  ask-Keeps : (label default : String) → Keeps (ask a label default)
  unfolding ask print read_line
  ask-Keeps label default w = refl

  print_check-Keeps :
      (base_url agent_id : String) (r : Result AgentError RemoteConfig)
      → Keeps (print_check a base_url agent_id r)
  unfolding print_check println print
  print_check-Keeps base_url agent_id (ok _) w = refl
  print_check-Keeps base_url agent_id (err e) w = refl

  check_config-Keeps :
      (base_url agent_id : String) (c : Result AgentError Config)
      → Keeps (check_config a base_url agent_id c)
  unfolding check_config ask_broker println print
  check_config-Keeps base_url agent_id (err e) = λ w. refl
  check_config-Keeps base_url agent_id (ok c) =
      Keeps-bind (lift (resolve a.primitives a.env c.server.agent_token)) _ (λ w. refl)
        (λ token.
          Keeps-bind
            (lift (new_client a.http_built c.server.base_url token c.agent.id c.server.verify_tls))
            _ (λ w. refl) (λ client w. print_check-Keeps base_url agent_id _ _))

  print_service-Keeps :
      (path : String) (r : Result AgentError (Unit {0})) → Keeps (print_service a path r)
  unfolding print_service println print
  print_service-Keeps path (ok _) w = refl
  print_service-Keeps path (err e) w = refl

  start_windows_service-Keeps :
      (path : String) (start : Bool) → Keeps (start_windows_service a path start)
  unfolding start_windows_service println print
  start_windows_service-Keeps path true w = print_service-Keeps path _ _
  start_windows_service-Keeps path false w = refl

  wants_start-Keeps : (interactive : Bool) → Keeps (wants_start a interactive)
  unfolding wants_start
  wants_start-Keeps true =
      Keeps-bind _ _
        (ask-Keeps
          "Start the NexusAgent Windows Service now (runs on boot; needs an elevated prompt)? [Y/n]"
          "y")
        (λ reply w. refl)
  wants_start-Keeps false = λ w. refl

  offer_service-Keeps :
      (windows interactive : Bool) (path : String)
      → Keeps (offer_service a windows interactive path)
  unfolding offer_service println print
  offer_service-Keeps true interactive path w =
      Keeps-bind (wants_start a interactive) _ (wants_start-Keeps interactive)
        (λ start. start_windows_service-Keeps _ start) w
  offer_service-Keeps false interactive path w = refl

  after_write-Keeps :
      (path base_url agent_id : String) (interactive : Bool) (notes : List String)
      → Keeps (after_write a path base_url agent_id interactive notes)
  unfolding after_write println print check_written
  after_write-Keeps path base_url agent_id interactive notes w =
      let check = check_written a path base_url agent_id in
      let offer = offer_service a a.windows interactive path in
      Keeps-bind (print_actions a notes) (λ _. Effect.◌>>◌ check offer) (print_actions-Keeps notes)
        (λ _.
          Keeps-bind check (λ _. offer) (λ u. check_config-Keeps base_url agent_id _ u)
            (λ _. offer_service-Keeps a.windows interactive path))
        _

  make_dirs_returns :
      (dir : Option String) (w : SiteWorld a) → make_dirs a dir w ≡ (ok tt, (make_dirs a dir w).1)
  unfolding make_dirs
  make_dirs_returns none w = refl
  make_dirs_returns (some dir) w = elim (Bool-cases (is_empty dir)) [
    | inl t ↦ rw t refl
    | inr f ↦ rw f refl
  ]

  -- The files after the directory of the configuration was made.
  abbrev pub prepared : String → SiteWorld a → a.file_system.State
  prepared path w = (make_dirs a (a.file_system.parent path) w).1.files

  -- The text that a setup writes.
  abbrev hardened_text : (iv₁ iv₂ : Bytes) → SetupValues → Option Cipher → String
  hardened_text iv₁ iv₂ v found =
      config_text v (hardened_key a iv₁ v found).0 (hardened_password a iv₂ v found).0

  write_setup-files :
      (iv₁ iv₂ : Bytes) (path : String) (v : SetupValues) (interactive : Bool)
      (found : Option Cipher) (w : SiteWorld a)
      → (write_setup a iv₁ iv₂ path v interactive found w).1.files
        ≡ (a.file_system.write path (hardened_text iv₁ iv₂ v found) w.files).1
  unfolding write_setup write_config
  write_setup-files iv₁ iv₂ path v interactive found w =
      elim (Result-cases (a.file_system.write path (hardened_text iv₁ iv₂ v found) w.files).0) [
        | inl (e, q) ↦ rw q refl
        | inr (_, q) ↦ rw q (
            after_write-Keeps path v.base_url v.agent_id interactive
              (note "secret_key" (hardened_key a iv₁ v found).1
                ++ note "bind_password" (hardened_password a iv₂ v found).1)
              (record w {
                files = (a.file_system.write path (hardened_text iv₁ iv₂ v found) w.files).1;
              }))
      ]

  -- If the vault can be read, a setup writes to the file system once, to the configuration's path, whatever
  -- comes after it and whether or not it returns an error. The text gives the secret key and the bind
  -- password as they were hardened, each empty, an env: or an enc: reference; the rest of it are the
  -- template and the other values.
  pub finalize_setup-files :
      (iv₁ iv₂ : Bytes) (config_path : String) (v : SetupValues) (interactive : Bool)
      (found : Option Cipher) (w : SiteWorld a)
      → vault a.primitives a.env ≡ ok found
      → let path = effective_config_path a.windows config_path in
        let key = (harden_secret a.primitives iv₁ v.secret_key found "SECRET_ENCRYPTION_KEY").0 in
        let password =
          (harden_secret a.primitives iv₂ v.bind_password found "NEXUS_AGENT_BIND_PASSWORD").0 in
        IsReference key
        × IsReference password
        × ((finalize_setup a iv₁ iv₂ config_path v interactive w).1.files
            ≡ (a.file_system.write path
                (template v.agent_id v.mode v.base_url v.agent_token key v.ad_url v.bind_dn password
                  v.base_dn)
                (prepared path w)).1)
  unfolding finalize_setup hardened_key hardened_password config_text
  finalize_setup-files iv₁ iv₂ config_path v interactive found w e =
      let path = effective_config_path a.windows config_path in
      (
        harden_secret-IsReference a.primitives iv₁ v.secret_key found "SECRET_ENCRYPTION_KEY",
        harden_secret-IsReference a.primitives iv₂ v.bind_password found
            "NEXUS_AGENT_BIND_PASSWORD",
        ap (λ (u : _ × SiteWorld a). u.1.files)
              (bind-ok (make_dirs a (a.file_system.parent path))
                (λ _.
                  Effect.◌>>=◌ (lift (vault a.primitives a.env))
                    (write_setup a iv₁ iv₂ path v interactive))
                w (make_dirs_returns (a.file_system.parent path) w))
            ∙ rw e (write_setup-files iv₁ iv₂ path v interactive found _),
      )
