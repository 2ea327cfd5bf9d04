-- ===== src/SyncSeaweed/Plain.antt =====
-- The replies of sync_seaweed.py, as values that JSON holds exactly.
use kubefrog_kvmserver.Prelude.{
  String, ◌≡◌, refl, ap, inl, inr, true, List, [], ◌∷◌, ◌++◌, if◌then◌else◌, Bool-cases,
}
use kubefrog_kvmserver.Python.Errors.{ok}
use kubefrog_kvmserver.Python.Exec.{resume-ok}
use kubefrog_kvmserver.Python.Json.{Json, null, get, index, is_text, truth}
use kubefrog_kvmserver.Python.Json.Literal.{dict, items, list}
use kubefrog_kvmserver.Python.Loads.Plain.{is_plain, plain_items}
use kubefrog_kvmserver.Python.Dumps.{format}
use kubefrog_kvmserver.Controller.Manifest.{minio_secret}
use kubefrog_kvmserver.Controller.Sync.{is_ready, status, parent_name, parent_label}
use kubefrog_kvmserver.Controller.Plain.{get-plain, index-plain, parent_name-plain, status-plain}
use kubefrog_kvmserver.SyncSeaweed.Sync.{
  Iam, World, print, dumped, configmaps, create_credentials, use_existing, reply, sync,
  sync_enabled,
}
use kubefrog_kvmserver.SyncSeaweed.Laws.{secret_path}
use kubefrog_kvmserver.SyncSeaweed.Credentials.{created}

abbrev PlainList : List Json → Type 0
PlainList rs = plain_items (items rs) ≡ true

configmaps-plain :
    (namespace : Json) (ns : String)
    → is_plain namespace ≡ true
    → PlainList (configmaps namespace ns)
unfolding is_plain
configmaps-plain namespace ns h = rw h refl

with_secret-plain :
    (namespace secret : Json) (ns : String)
    → is_plain namespace ≡ true
    → is_plain secret ≡ true
    → PlainList (configmaps namespace ns ++ secret ∷ [])
unfolding is_plain
with_secret-plain namespace secret ns h hs = rw (h, hs) refl

minio_secret-plain :
    (access hidden : String) (namespace : Json)
    → is_plain namespace ≡ true
    → is_plain (minio_secret access hidden namespace) ≡ true
unfolding is_plain
minio_secret-plain access hidden namespace h = rw h refl

reply-plain :
    (st : Json) (rs : List Json) → is_plain st ≡ true → PlainList rs → is_plain (reply st rs) ≡ true
unfolding is_plain
reply-plain st rs p prs = rw (p, prs) refl

cons-plain : (r : Json) (rs : List Json) → is_plain r ≡ true → PlainList rs → PlainList (r ∷ rs)
unfolding is_plain
cons-plain r rs h hs = rw (h, hs) refl

module _ (I : Iam) (repr : Json → String) where
  branch-plain :
      (namespace secret : Json) (w : World I repr) (rs : List Json)
      → is_plain namespace ≡ true
      → is_plain secret ≡ true
      → ((if truth secret
            then use_existing I repr namespace secret
            else create_credentials I repr namespace)
          w).0
        ≡ ok rs
      → PlainList rs
  branch-plain namespace secret w rs pn ps h = elim (Bool-cases (truth secret)) [
    | inl ht ↦
        let same : configmaps namespace (format repr namespace) ++ secret ∷ [] ≡ rs =
          cc (rw ht at h) in
        rw (← same) (with_secret-plain namespace secret (format repr namespace) pn ps)
    | inr hf ↦
        let after = (create_credentials I repr namespace w).1 in
        let (_, access, hidden, _, _, _, e) =
          created I repr namespace w after rs (ap (λ o. (o, after)) (rw hf at h)) in
        rw e (
          cons-plain _ (configmaps namespace (format repr namespace))
            (minio_secret-plain access hidden namespace pn)
            (configmaps-plain namespace (format repr namespace) pn))
  ]

  sync_enabled-plain :
      (parent attachments namespace r : Json) (w : World I repr)
      → is_plain attachments ≡ true
      → is_plain namespace ≡ true
      → (sync_enabled I repr parent attachments namespace w).0 ≡ ok r
      → is_plain r ≡ true
  unfolding sync_enabled is_plain
  sync_enabled-plain parent attachments namespace r w pa pn h =
      let (ready, _, h1) = resume-ok (is_ready attachments 3) _ w r h in
      let (secrets, hs, h2) =
        resume-ok {S = World I repr} (index attachments "Secret.v1") _ _ r h1 in
      let (secret, hg, h3) =
        resume-ok {S = World I repr} (get secrets (secret_path repr namespace) null) _ _ r h2 in
      let w1 = (print I repr (dumped "Received request:\n" parent) w).1 in
      let w2 =
        (print I repr
          (dumped "Desired resources except secrets:\n"
            (list (configmaps namespace (format repr namespace))))
          w1).1 in
      let branch =
        if truth secret
        then use_existing I repr namespace secret
        else create_credentials I repr namespace in
      let (desired, hd, h4) = resume-ok (branch w2).0 _ _ r h3 in
      let same : reply (status ready) desired ≡ r = cc h4 in
      rw (← same) (
        reply-plain (status ready) desired (status-plain ready) (
          branch-plain namespace secret w2 desired pn
            (get-plain secrets null secret (secret_path repr namespace)
              (index-plain attachments secrets "Secret.v1" pa hs) refl hg)
            hd))

  pub sync-plain :
      (parent attachments r : Json) (w : World I repr)
      → is_plain parent ≡ true
      → is_plain attachments ≡ true
      → (sync I repr parent attachments w).0 ≡ ok r
      → is_plain r ≡ true
  unfolding sync is_plain
  sync-plain parent attachments r w pp pa h =
      let (namespace, hn, h1) = resume-ok (parent_name parent) _ w r h in
      let (label, _, h2) = resume-ok (parent_label parent) _ w r h1 in
      elim (Bool-cases (is_text label "true")) [
        | inl ht ↦
            sync_enabled-plain parent attachments namespace r w pa
              (parent_name-plain parent namespace pp hn) (rw ht at h2)
        | inr hf ↦
            let same : reply (dict []) [] ≡ r = cc (rw hf at h2) in
            rw (← same) (reply-plain (dict []) [] refl refl)
      ]
