-- ===== src/SyncSeaweed/Retries.antt =====
-- What repeated calls leave behind when IAM creates keys but refuses the policy.
use kubefrog_kvmserver.Prelude.{
  ℕ, zero, suc, ◌+◌, String, ◌<>◌, ◌≡◌, refl, ap, Bool, false, ◌∷◌, length, arith,
}
use kubefrog_kvmserver.Python.Errors.{Error, ok, err}
use kubefrog_kvmserver.Python.Json.{Json, str, truth}
use kubefrog_kvmserver.Python.Dumps.{format, dumps}
use kubefrog_kvmserver.Controller.Sync.{is_ready, parent_name, parent_label}
use kubefrog_kvmserver.SyncSeaweed.Sync.{Iam, World, policy_document, sync}
use kubefrog_kvmserver.SyncSeaweed.Laws.{FindsSecret}
use kubefrog_kvmserver.SyncSeaweed.Cluster.{recording, keys}
use kubefrog_kvmserver.SyncSeaweed.Credentials.{sync-policy_refused}

module _ (I : Iam) (repr : Json → String) (parent attachments : Json) where
  -- The service after some calls with the same request.
  abbrev pub attempts : ℕ → World (recording I) repr → World (recording I) repr
  attempts zero w = w
  attempts (suc n) w = (sync (recording I) repr parent attachments (attempts n w)).1

  -- The call raises, and one more key is recorded.
  abbrev pub Leaks : World (recording I) repr → Type 0
  Leaks w =
      (e : Error) × ((sync (recording I) repr parent attachments w).0 ≡ err e)
      × (length (keys I repr (sync (recording I) repr parent attachments w).1)
          ≡ suc (length (keys I repr w)))

  module _ (namespace secret : Json) (ready : Bool) (named : parent_name parent ≡ ok namespace)
      (enabled : parent_label parent ≡ ok (str "true")) (read : is_ready attachments 3 ≡ ok ready)
      (finds : FindsSecret repr attachments namespace secret) (missing : truth secret ≡ false)
      (creates : (state : I.State)
        → (key : Json) × (after : I.State) × (I.create_access_key namespace state
            ≡ (ok key, after)))
      (refuses : (state : I.State)
        → (e : Error) × (after : I.State) × (I.put_user_policy namespace
              ("KubeflowProject" <> format repr namespace)
              (dumps (policy_document (format repr namespace)))
              state
            ≡ (err e, after))) where
    sync-Leaks : (w : World (recording I) repr) → Leaks w
    sync-Leaks w =
        let (key, created, hk) = creates w.iam.0 in
        let (e, refused, hp) = refuses created in
        let ended =
          sync-policy_refused (recording I) repr parent attachments namespace secret key ready e w
            (created, key ∷ w.iam.1) (refused, key ∷ w.iam.1) named enabled read finds missing
            (rw hk refl) (rw hp refl) in
        (e, ap (λ p. p.0) ended, ap (λ p. length (keys I repr p.1)) ended)

    -- For an enabled namespace whose secret is missing, while IAM creates keys and refuses policies: every
    -- call with such a request raises, however many came before it, and after n calls the service
    -- holds n more keys than before.
    pub attempts-Leaks :
        (n : ℕ) (w : World (recording I) repr)
        → Leaks (attempts n w) × (length (keys I repr (attempts n w)) ≡ n + length (keys I repr w))
    attempts-Leaks zero w = (sync-Leaks w, omega arith)
    attempts-Leaks (suc n) w =
        let ((_, _, one_more), before) = attempts-Leaks n w in
        (sync-Leaks (attempts (suc n) w), omega (arith, one_more, before))
