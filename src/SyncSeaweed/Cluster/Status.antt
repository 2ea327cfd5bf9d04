-- ===== src/SyncSeaweed/Cluster/Status.antt =====
-- The status that sync_seaweed.py reports of a namespace in a cluster.
use kubefrog_kvmserver.Prelude.{
  String, ◌≡◌, ◌≢◌, ℕ, refl, ◌∙◌, sym, inl, inr, Bool, true, false, List, [], ◌∷◌, Bool-cases, ap,
  count_by, ◌==◌, string_eq, if◌then◌else◌,
}
use kubefrog_kvmserver.Python.Errors.{ok, ◌>>=◌ as ◌|>◌}
use kubefrog_kvmserver.Python.Exec.{Exec, pure, resume-ok, ◌>>=◌}
use kubefrog_kvmserver.Python.Json.{Json, null, get, index, len, is_text, truth}
use kubefrog_kvmserver.Controller.Sync.{is_ready, status, parent_name, parent_label}
use kubefrog_kvmserver.Controller.Inventory.{child, group_of, count_group}
use kubefrog_kvmserver.Controller.Readiness.{is_ready-deployments}
use kubefrog_kvmserver.SyncSeaweed.Sync.{
  Iam, World, reply, sync, sync_enabled, use_existing, create_credentials,
}
use kubefrog_kvmserver.SyncSeaweed.Laws.{secret_path}
use kubefrog_kvmserver.SyncSeaweed.Cluster.{recording, Cluster, SyncCalls, keys, Reach}
use kubefrog_kvmserver.SyncSeaweed.Cluster.Calls.{Legit}
use kubefrog_kvmserver.SyncSeaweed.Cluster.Provenance.{attached-Legit}

count_by_other :
    (p : Json → Bool) (o : Json) (rs : List Json)
    → p o ≡ false
    → count_by p (o ∷ rs) ≡ count_by p rs
count_by_other p o rs h = rw (h, count_by) refl

abbrev deployments : List Json → ℕ
deployments rs = count_group "Deployment.apps/v1" rs

deployments-cons :
    (o : Json) (rs : List Json)
    → (group_of o == "Deployment.apps/v1") ≡ false
    → deployments rs ≡ 0
    → deployments (o ∷ rs) ≡ 0
deployments-cons o rs other h =
    count_by_other (λ r. group_of r == "Deployment.apps/v1") o rs other ∙ h

-- Nothing that is legitimate is a Deployment.
Legit-deployments :
    (namespace : Json) (ks rs : List Json) → Legit namespace ks rs → deployments rs ≡ 0
Legit-deployments namespace ks [] h = refl
Legit-deployments namespace ks (o ∷ rs) (inl e, h) =
    deployments-cons o rs (ap (λ g. g == "Deployment.apps/v1") e)
      (Legit-deployments namespace ks rs h)
Legit-deployments namespace ks (o ∷ rs) (inr (key, access, hidden, m, ca, cb, e), h) =
    deployments-cons o rs (ap (λ r. group_of r == "Deployment.apps/v1") e)
      (Legit-deployments namespace ks rs h)

status-true : (ready : Bool) → status ready ≡ status true → ready ≡ true
status-true true h = refl
status-true false h = cc

module _ (I : Iam) (repr : Json → String) where
  reply-status :
      (desired : Exec (World I repr) (List Json)) (ready : Bool) (w : World I repr) (r : Json)
      → ((desired >>= λ rs. pure (reply (status ready) rs)) w).0 ≡ ok r
      → child r "status" ≡ status ready
  reply-status desired ready w r h = let (rs, _, e) = resume-ok (desired w).0 _ _ r h in cc e

  sync_enabled-true :
      (parent attachments namespace r : Json) (w : World I repr)
      → (sync_enabled I repr parent attachments namespace w).0 ≡ ok r
      → child r "status" ≡ status true
      → is_ready attachments 3 ≡ ok true
  unfolding sync_enabled
  sync_enabled-true parent attachments namespace r w h says =
      let (ready, hr, h1) = resume-ok (is_ready attachments 3) _ w r h in
      let (secrets, hs, h2) = resume-ok (index attachments "Secret.v1") _ _ r h1 in
      let (secret, hg, h3) = resume-ok (get secrets (secret_path repr namespace) null) _ _ r h2 in
      let said =
        reply-status
          (if truth secret
            then use_existing I repr namespace secret
            else create_credentials I repr namespace)
          ready _ r h3 in
      hr ∙ ap ok (status-true ready (sym said ∙ says))

  -- A reply says "True" only for a test that gave this.
  sync-true :
      (parent attachments r : Json) (w : World I repr)
      → (sync I repr parent attachments w).0 ≡ ok r
      → child r "status" ≡ status true
      → is_ready attachments 3 ≡ ok true
  unfolding sync
  sync-true parent attachments r w h says =
      let (namespace, hn, h1) = resume-ok (parent_name parent) _ w r h in
      let (label, hl, h2) = resume-ok (parent_label parent) _ w r h1 in
      elim (Bool-cases (is_text label "true")) [
        | inl e ↦ sync_enabled-true parent attachments namespace r w (rw e at h2) says
        | inr e ↦ cc (rw e at h2, says)
      ]

module _ (I : Iam) (repr : Json → String) where
  -- In every state that is reached with sync_seaweed.py: when a report shows as many Deployments as are
  -- attached in the namespace, the reply of `sync` does not say "True".
  pub Reach-never_ready :
      (namespace report r : Json) (c : Cluster I repr)
      → Reach I repr (SyncCalls I repr) namespace c
      → (index report "Deployment.apps/v1" |> len)
        ≡ ok (count_group "Deployment.apps/v1" c.attached)
      → (sync (recording I) repr c.parent report c.world).0 ≡ ok r
      → child r "status" ≢ status true
  Reach-never_ready namespace report r c reach shown h says =
      let ready =
        is_ready-deployments report 3
          (sync-true (recording I) repr c.parent report r c.world h says) in
      let none_attached =
        Legit-deployments namespace (keys I repr c.world) c.attached
          (attached-Legit I repr namespace reach) in
      cc (ready, shown, none_attached)
