-- ===== src/Server/Bounds.antt =====
-- src/server.rs, `pull_writeback`: no more changes than were decoded.
use nexusid_agent.Common.{
  none, concat, ℕ, ◌<◌, ◌≡◌, ap, subst, ◌==◌, String, List, [], ◌∷◌, length, Bool-cases, inl, inr,
}
use nexusid_agent.Error.{Result, ok, err, map_err, ok_inj}
use nexusid_agent.Server.{
  get, Http, Response, ServerClient, WritebackChange, is_success, changes, pull_writeback,
}

map_err-eq-ok :
    {A E F : Type 0} (f : E → F) (r : Result E A) {a : A} → map_err f r ≡ ok a → r ≡ ok a
map_err-eq-ok f (ok b) q = cc q
map_err-eq-ok f (err e) q = cc q

module _ (h : Http) (bound : ℕ) (positive : 0 < bound)
    (fit : (body : String) (cs : List WritebackChange)
      → h.changes_of body ≡ ok cs
      → length cs < bound) where
  changes-bounded :
      (r : Result String Response) {cs : List WritebackChange}
      → changes h r ≡ ok cs
      → length cs < bound
  unfolding changes
  changes-bounded (err e) q = cc q
  changes-bounded (ok r) {cs} q = elim (Bool-cases (r.status == 404)) [
    | inl gone ↦
        subst (λ (cs : List WritebackChange). length cs < bound) (ok_inj (rw gone at q)) positive
    | inr there ↦ elim (Bool-cases (is_success r.status)) [
      | inl good ↦ fit r.body cs (map_err-eq-ok _ (h.changes_of r.body) (rw (there, good) at q))
      | inr bad ↦ cc (rw (there, bad) at q)
    ]
  ]

  -- If no body decodes to as many changes, fewer than the bound are pulled.
  pub pull_writeback-bounded :
      (c : ServerClient) (path secret : String) (s : h.State) {cs : List WritebackChange}
      {t : h.State}
      → pull_writeback h c path secret s ≡ (ok cs, t)
      → length cs < bound
  unfolding pull_writeback
  pull_writeback-bounded c path secret s q =
      changes-bounded
        (h.send c.accept_invalid_certs
          (record {
            method = get;
            url = concat (c.base_url ∷ path ∷ []);
            headers = ("x-sync-secret", secret) ∷ [];
            body = none;
          })
          s).0
        (ap (λ r. r.0) q)
