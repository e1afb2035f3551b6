-- ===== src/Services/Workflows/Activated.antt =====
-- The check of a workflow that is activated.
use ferris_cms.Prelude.{
  ℕ, ◌≡◌, refl, sym, ap, ◌∙◌, Bool, true, false, none, some, lit, if◌then◌else◌,
}
use ferris_cms.Workflow.Model.{OwsDocument}
use ferris_cms.Workflow.Validation.{validate}
use ferris_cms.Services.Database.{internal, WorkflowRow, Db, Result, ok, err, Service, lift, Env}
use ferris_cms.Services.Keeps.{Post, Keeps, Keeps-bind, Keeps-lift, Keeps-enforce, ok-inj}
use ferris_cms.Services.Workflows.{
  invalid, model_to_workflow, checked, enforce, workflow_row, update_workflow, workflow_set_active,
  activate_action,
}

module _ {V : Type 0} (env : Env V) where
  abbrev pub IsActivated : OwsDocument V → Type 0
  IsActivated d = ((validate env.as_str d).valid ≡ true) × (d.active ≡ true)

  abbrev Always : Db V → Type 0
  Always s = Unit

  Says : OwsDocument V → WorkflowRow V → Type 0
  Says d row = row.definition_json ≡ some d

  checked-valid :
      (d : OwsDocument V) → checked env true d ≡ ok tt → (validate env.as_str d).valid ≡ true
  checked-valid d e = go (validate env.as_str d).valid e
    where
      go :
          (b : Bool)
          → (if b then ok tt else err (invalid (validate env.as_str d).errors)) ≡ ok tt
          → b ≡ true
      go true q = refl
      go false q = absurd (cc q)

  stored :
      (row : WorkflowRow V) (d e : OwsDocument V)
      → Says d row
      → model_to_workflow row ≡ ok e
      → e ≡ d
  unfolding model_to_workflow Says
  stored row d e h q = ok-inj e d (
      sym q
      ∙ ap
          (λ o. elim o as (λ _. Result (OwsDocument V)) [
            | some document ↦ ok document
            | none ↦ err (internal (lit "corrupt OWS definition"))
          ])
          h)

  anything : {A : Type 0} (m : Service V A) → Keeps {V = V} Always (λ _. Unit) m
  anything {A = A} m s i = go (m s)
    where
      go : (r : Result A × Db V) → Post Always (λ _. Unit) r
      go (ok a, t) = (tt, tt)
      go (err e, t) = tt

  updated-Says :
      (row : WorkflowRow V) (d : OwsDocument V)
      → Says d row
      → Keeps Always (Says d) (update_workflow env row)
  unfolding update_workflow
  updated-Says row d h s i = (tt, h)

  set_active-Keeps : (id : ℕ) → Keeps Always IsActivated (workflow_set_active env id true)
  unfolding workflow_set_active Says
  set_active-Keeps id =
      Keeps-bind Always (λ _. Unit) IsActivated (enforce env activate_action) _
        (Keeps-enforce Always env activate_action)
        λ u a.
          Keeps-bind Always (λ _. Unit) IsActivated (workflow_row env id) _
            (anything (workflow_row env id))
            λ row b.
              Keeps-bind Always (λ _. Unit) IsActivated (lift (model_to_workflow row)) _
                (anything (lift (model_to_workflow row)))
                λ d c.
                  Keeps-bind Always
                    (λ _. (validate env.as_str (record d { active = true })).valid ≡ true)
                    IsActivated (lift (checked env true (record d { active = true }))) _
                    (Keeps-lift Always _ (checked env true (record d { active = true }))
                      λ t e. checked-valid (record d { active = true }) e)
                    λ t valid.
                      Keeps-bind Always (Says (record d { active = true })) IsActivated
                        (update_workflow env (record row {
                          active = true;
                          definition_json = some (record d { active = true });
                          updated_at = env.now;
                        }))
                        (λ updated. lift (model_to_workflow updated))
                        (updated-Says
                          (record row {
                            active = true;
                            definition_json = some (record d { active = true });
                            updated_at = env.now;
                          })
                          (record d { active = true }) refl)
                        λ updated says.
                          Keeps-lift Always IsActivated (model_to_workflow updated) λ e q.
                            rw (stored updated (record d { active = true }) e says q) (valid, refl)

  -- A workflow that is activated is well formed: the document that the activation answers has no
  -- issue, and is active.
  pub workflow_set_active-valid :
      (id : ℕ) (d : OwsDocument V) (s t : Db V)
      → workflow_set_active env id true s ≡ (ok d, t)
      → ((validate env.as_str d).valid ≡ true) × (d.active ≡ true)
  workflow_set_active-valid id d s t h =
      go (workflow_set_active env id true s) (set_active-Keeps id s tt) h
    where
      go :
          (r : Result (OwsDocument V) × Db V)
          → Post Always IsActivated r
          → r ≡ (ok d, t)
          → IsActivated d
      go (ok e, u) (_, p) q = rw (ok-inj d e (ap (λ r. r.0) (sym q))) p
      go (err e, u) p q = absurd (cc q)
