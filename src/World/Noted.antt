-- ===== src/World/Noted.antt =====
-- The records that a part of a pass appends to the audit log when it returns.
use mathlib.Core.List.{append-nil, append_assoc, map-append}
use nexusid_agent.Common.{ℕ, ◌≡◌, refl, sym, ◌∙◌, ap, subst, String, List, [], ◌∷◌, ◌++◌, map}
use nexusid_agent.Error.{Result, ok, AgentError}
use nexusid_agent.Json.{Value}
use nexusid_agent.Audit.{AuditRecord, Externals, Write}
use nexusid_agent.Audit.Append.{Laws, IsIntact}
use nexusid_agent.World.{World, log_event}
use nexusid_agent.World.Logging.{log_event-IsIntact}

-- What a record says.
abbrev pub content : AuditRecord → String × Value
content r = (r.event, r.detail)

module _ (x : Externals) {R B : Type 0} where
  -- The intact log has grown by records that say these things, in order.
  pub record Grown (recs : List AuditRecord) (entries : List (String × Value)) (w' : World R B)
      : Type 0 where
    pub new : List AuditRecord
    pub intact : IsIntact x (recs ++ new) w'.log w'.disk
    pub told : map content new ≡ entries

  pub Grown-none :
      {recs : List AuditRecord} {w : World R B} → IsIntact x recs w.log w.disk → Grown recs [] w
  Grown-none {recs} {w} i = record {
    new = [];
    intact = subst (λ rs. IsIntact x rs w.log w.disk) (sym (append-nil recs)) i;
    told = refl;
  }

  pub Grown-trans :
      {recs : List AuditRecord} {es fs : List (String × Value)} {v w : World R B}
      (a : Grown recs es v)
      → Grown (recs ++ a.new) fs w
      → Grown recs (es ++ fs) w
  Grown-trans {recs} {es} {fs} {v} {w} a b = record {
    new = a.new ++ b.new;
    intact = subst (λ rs. IsIntact x rs w.log w.disk) (append_assoc recs a.new b.new) b.intact;
    told =
        map-append content a.new b.new
        ∙ ap (λ es. es ++ map content b.new) a.told
        ∙ ap (λ fs. es ++ fs) b.told;
  }

  -- A part that only logs: what the pass works on stays as it was.
  pub record Noted (recs : List AuditRecord) (entries : List (String × Value)) (w w' : World R B)
      : Type 0 where
    pub grown : Grown recs entries w'
    pub resource_kept : w'.resource ≡ w.resource
    pub broker_kept : w'.broker ≡ w.broker

  pub Noted-none :
      {recs : List AuditRecord} {w w' : World R B}
      → IsIntact x recs w.log w.disk
      → ◌≡◌ {A = Result AgentError (Unit {0}) × World R B} (ok tt, w) (ok tt, w')
      → Noted recs [] w w'
  Noted-none {recs} {w} i q =
      subst (Noted recs [] w) (ap (λ t. t.1) q)
        (record { grown = Grown-none i; resource_kept = refl; broker_kept = refl })

  pub log_event-Noted :
      (moments : ℕ → Write × String) (laws : Laws x) {event : String} {detail : Value}
      {recs : List AuditRecord} {w w' : World R B}
      → IsIntact x recs w.log w.disk
      → log_event moments x event detail w ≡ (ok tt, w')
      → Noted recs ((event, detail) ∷ []) w w'
  unfolding log_event
  log_event-Noted moments laws {event} {detail} {recs} {w} {w'} i q =
      let (rec, i', e, t) = log_event-IsIntact x moments laws event detail w w' recs i q in
      record {
        grown = record {
          new = rec ∷ [];
          intact = i';
          told = ap (λ c. c ∷ []) (ap (λ e. (e, rec.detail)) e ∙ ap (λ t. (event, t)) t);
        };
        resource_kept = ap (λ (t : _ × World R B). t.1.resource) (sym q);
        broker_kept = ap (λ (t : _ × World R B). t.1.broker) (sym q);
      }
