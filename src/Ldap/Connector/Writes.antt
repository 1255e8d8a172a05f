-- ===== src/Ldap/Connector/Writes.antt =====
-- src/connectors/ldap.rs: which calls of a directory each operation makes on a connection.
use nexusid_agent.Common.{
  ◌≡◌, refl, ◌∙◌, ap, sym, subst, map, ◌++◌, str_eq, is_empty, if◌then◌else◌, arith, concat, String,
  Bool, true, false, Option, none, some, List, [], ◌∷◌,
}
use nexusid_agent.Common.Dict.{Dict, get}
use nexusid_agent.Error.{ok, ldap, ok_inj}
use nexusid_agent.Effect.{M, lift, ◌>>=◌, bind-ok_inv}
use nexusid_agent.Trace.{and_then-Adds, Emits, Adds-none, Emits-lift, Emits-bind, Emits-pure}
use nexusid_agent.Crypto.{or_err}
use nexusid_agent.Ldap.{
  uac_enabled, uac_disabled, Scope, Mod, replace, replace_bytes, Directory, settle, LdapConnector,
  quoted_password, plain_attrs, new_account_attrs, update_mods, base, subtree, find_filter, Entry,
  Reply, broke, rejected, success, says_of,
}
use nexusid_agent.Ldap.Calls.{Call, added, modified, searched, recorded}
use nexusid_agent.Ldap.Connector.{
  set_password, add_entry, write_password, create_account, search_for, first_dn, find_dn, set_uac,
  enable_account, disable_account, send_mods, update_attributes, test_base, search_users,
}
use nexusid_agent.Ldap.Connector.Opening.{calls, settle-Emits, modify-Emits, or_err-eq-ok}

-- The filter that selects the accounts with a mail address.
abbrev pub account_filter : String → String
account_filter mail = concat ("(|(userPrincipalName=" ∷ mail ∷ ")(mail=" ∷ mail ∷ "))" ∷ [])

-- The attributes that have a value, but for the name of the entry.
abbrev pub own_attributes : Dict String → Dict String
own_attributes [] = []
own_attributes ((k, v) ∷ rest) =
    if str_eq k "distinguishedName"
    then own_attributes rest
    else if is_empty v
    then own_attributes rest
    else (k, v) ∷ own_attributes rest

-- A user with these attributes, one value each, whose account is disabled.
abbrev pub disabled_user : Dict String → List (String × List String)
disabled_user attributes =
    ("objectClass", "top" ∷ "person" ∷ "organizationalPerson" ∷ "user" ∷ [])
    ∷ (map (λ e. (e.0, e.1 ∷ [])) (own_attributes attributes)
        ++ ("userAccountControl", "514" ∷ []) ∷ [])

-- Each of these attributes gets its value as the only one.
abbrev pub replacements : Dict String → List Mod
replacements attributes = map (λ e. replace e.0 e.1) (own_attributes attributes)

plain_attrs-own : (a : Dict String) → plain_attrs a ≡ map (λ e. (e.0, e.1 ∷ [])) (own_attributes a)
unfolding plain_attrs
plain_attrs-own [] = refl
plain_attrs-own ((k, v) ∷ a) = ground (arith, plain_attrs-own a)

new_account_attrs-eq : (a : Dict String) → new_account_attrs a ≡ disabled_user a
unfolding new_account_attrs
new_account_attrs-eq a = rw (plain_attrs-own a) refl

update_mods-eq : (a : Dict String) → update_mods a ≡ replacements a
unfolding update_mods
update_mods-eq [] = refl
update_mods-eq ((k, v) ∷ a) = ground (arith, update_mods-eq a)

-- The directory answers a search below a base for the accounts with a mail address, and `dn` is the name of
-- the first one that it answers.
pub record Located (d : Directory) (mail dn : String) : Type 0 where
  pub session : d.Session
  pub base_dn : String
  pub before : d.State
  pub entry : Entry
  pub others : List Entry
  pub answered :
      (d.search session base_dn subtree (account_filter mail) ("distinguishedName" ∷ []) before).0
      ≡ success (entry ∷ others)
  pub named : entry.dn ≡ dn

settle-eq_ok :
    {A S : Type 0} (f g : String → String) (r : Reply A × S) {a : A} {t : S}
    → settle f g r ≡ (ok a, t)
    → r.0 ≡ success a
unfolding settle
settle-eq_ok f g (broke e, s) q = cc q
settle-eq_ok f g (rejected e, s) q = cc q
settle-eq_ok f g (success a, s) q = ap success (ok_inj (ap (λ z. z.0) q))

module _ (d : Directory) (P : Call → Type 0) where
  module _ (l : LdapConnector d.Session) where
    set_password-Emits :
        (dn password : String)
        → P (modified dn (replace_bytes "unicodePwd" (quoted_password password) ∷ []))
        → Emits (calls d P) P (set_password (recorded d) l dn password)
    unfolding set_password
    set_password-Emits dn password p = modify-Emits d P _ _ l.ldap dn _ p

    write_password-Emits :
        (on : Bool) (plaintext : Option String) (dn : String)
        → ((pw : String)
            → plaintext ≡ some pw
            → P (modified dn (replace_bytes "unicodePwd" (quoted_password pw) ∷ [])))
        → Emits (calls d P) P (write_password (recorded d) l on plaintext dn)
    unfolding write_password
    write_password-Emits true (some pw) dn h = set_password-Emits dn pw (h pw refl)
    write_password-Emits true none dn h = Emits-pure _
    write_password-Emits false (some pw) dn h = Emits-pure _
    write_password-Emits false none dn h = Emits-pure _

    pub create_account-Emits :
        (attributes : Dict String) (plaintext : Option String)
        → ((dn : String)
            → get "distinguishedName" attributes ≡ some dn
            → P (added dn (disabled_user attributes))
              × ((pw : String)
                  → plaintext ≡ some pw
                  → P (modified dn (replace_bytes "unicodePwd" (quoted_password pw) ∷ []))))
        → Emits (calls d P) P (create_account (recorded d) l attributes plaintext)
    unfolding create_account add_entry
    create_account-Emits attributes plaintext h =
        Emits-lift
          (or_err (ldap "attributes missing distinguishedName")
            (get "distinguishedName" attributes))
          _
          (λ dn e.
            let (add, set) = h dn (or_err-eq-ok _ _ e) in
            Emits-bind (add_entry (recorded d) l dn attributes) _
              (settle-Emits d P _ _ _ (added dn (new_account_attrs attributes))
                (subst (λ t. P (added dn t)) (sym (new_account_attrs-eq attributes)) add)
                (λ s. refl))
              (λ _.
                Emits-bind (write_password (recorded d) l l.password_writeback plaintext dn) _
                  (write_password-Emits l.password_writeback plaintext dn set) (λ _. Emits-pure _)))

    search_for-Emits :
        (what refused : String → String) (base_dn : String) (scope : Scope) (filter : String)
        (attrs : List String)
        → P (searched base_dn scope filter)
        → Emits (calls d P) P (search_for (recorded d) l what refused base_dn scope filter attrs)
    unfolding search_for
    search_for-Emits what refused base_dn scope filter attrs p =
        settle-Emits d P what refused _ (searched base_dn scope filter) p (λ s. refl)

    find_dn-Emits :
        (email : String)
        → P (searched l.base_dn subtree (account_filter email))
        → Emits (calls d P) P (find_dn (recorded d) l email)
    unfolding find_dn find_filter
    find_dn-Emits email p =
        Emits-bind
          (search_for (recorded d) l (says_of "search" email) (says_of "search rejected" email)
            l.base_dn subtree (find_filter email) ("distinguishedName" ∷ []))
          _ (search_for-Emits _ _ _ _ _ _ p) (λ entries. record { at = λ s. Adds-none refl })

    first_dn-eq_ok :
        (email : String) (entries : List Entry) {dn : String}
        → first_dn (recorded d) l email entries ≡ ok dn
        → (e : Entry) × (es : List Entry) × (entries ≡ e ∷ es) × (e.dn ≡ dn)
    unfolding first_dn
    first_dn-eq_ok email [] q = cc q
    first_dn-eq_ok email (e ∷ es) q = (e, es, refl, ok_inj q)

    find_dn-Located :
        (email : String) (s t : (recorded d).State) {dn : String}
        → find_dn (recorded d) l email s ≡ (ok dn, t)
        → Located d email dn
    unfolding find_dn search_for find_filter
    find_dn-Located email s t q =
        let (entries, u, a, b) =
          bind-ok_inv
            (search_for (recorded d) l (says_of "search" email) (says_of "search rejected" email)
              l.base_dn subtree (find_filter email) ("distinguishedName" ∷ []))
            (λ entries. lift (first_dn (recorded d) l email entries)) s q in
        let (e, es, same, name) = first_dn-eq_ok email entries (ap (λ z. z.0) b) in
        record {
          session = l.ldap;
          base_dn = l.base_dn;
          before = s.0;
          entry = e;
          others = es;
          answered = settle-eq_ok _ _ _ a ∙ ap success same;
          named = name;
        }

    -- What follows may use that the account was located.
    find_dn-Emits_then :
        {A : Type 0} (email : String) (f : String → M (recorded d).State A)
        → P (searched l.base_dn subtree (account_filter email))
        → ((dn : String) → Located d email dn → Emits (calls d P) P (f dn))
        → Emits (calls d P) P (find_dn (recorded d) l email >>= f)
    find_dn-Emits_then email f p h = record {
      at = λ s.
          and_then-Adds f (find_dn (recorded d) l email s) ((find_dn-Emits email p).at s)
            (λ dn t q. (h dn (find_dn-Located email s t q)).at t);
    }

    set_uac-Emits :
        (email uac : String)
        → P (searched l.base_dn subtree (account_filter email))
        → ((dn : String)
            → Located d email dn
            → P (modified dn (replace "userAccountControl" uac ∷ [])))
        → Emits (calls d P) P (set_uac (recorded d) l email uac)
    unfolding set_uac
    set_uac-Emits email uac p h = find_dn-Emits_then email _ p (λ dn found.
        Emits-bind
          (λ s.
            settle (says_of "modify uac" dn) (says_of "modify uac rejected" dn)
              ((recorded d).modify l.ldap dn (replace "userAccountControl" uac ∷ []) s))
          _ (modify-Emits d P _ _ l.ldap dn _ (h dn found)) (λ _. Emits-pure _))

    pub enable_account-Emits :
        (email : String)
        → P (searched l.base_dn subtree (account_filter email))
        → ((dn : String)
            → Located d email dn
            → P (modified dn (replace "userAccountControl" "512" ∷ [])))
        → Emits (calls d P) P (enable_account (recorded d) l email)
    unfolding enable_account
    enable_account-Emits email p h = set_uac-Emits email uac_enabled p h

    pub disable_account-Emits :
        (email : String)
        → P (searched l.base_dn subtree (account_filter email))
        → ((dn : String)
            → Located d email dn
            → P (modified dn (replace "userAccountControl" "514" ∷ [])))
        → Emits (calls d P) P (disable_account (recorded d) l email)
    unfolding disable_account
    disable_account-Emits email p h = set_uac-Emits email uac_disabled p h

    send_mods-Emits :
        (dn : String) (mods : List Mod)
        → P (modified dn mods)
        → Emits (calls d P) P (send_mods (recorded d) l dn mods)
    unfolding send_mods
    send_mods-Emits dn [] p = Emits-pure _
    send_mods-Emits dn (m ∷ ms) p = modify-Emits d P _ _ l.ldap dn (m ∷ ms) p

    pub update_attributes-Emits :
        (email : String) (attributes : Dict String)
        → P (searched l.base_dn subtree (account_filter email))
        → ((dn : String) → Located d email dn → P (modified dn (replacements attributes)))
        → Emits (calls d P) P (update_attributes (recorded d) l email attributes)
    unfolding update_attributes
    update_attributes-Emits email attributes p h = find_dn-Emits_then email _ p (λ dn found.
        Emits-bind (send_mods (recorded d) l dn (update_mods attributes)) _
          (send_mods-Emits dn _
            (subst (λ t. P (modified dn t)) (sym (update_mods-eq attributes)) (h dn found)))
          (λ _. Emits-pure _))

    pub test_base-Emits :
        P (searched l.base_dn base "(objectClass=*)")
        → Emits (calls d P) P (test_base (recorded d) l)
    unfolding test_base
    test_base-Emits p = Emits-bind _ _ (search_for-Emits _ _ _ _ _ _ p) (λ _. Emits-pure _)

    pub search_users-Emits :
        (base_dn filter : String)
        → P (searched base_dn subtree filter)
        → Emits (calls d P) P (search_users (recorded d) l base_dn filter)
    unfolding search_users
    search_users-Emits base_dn filter p =
        Emits-bind _ _ (search_for-Emits _ _ _ _ _ _ p) (λ _. Emits-pure _)
