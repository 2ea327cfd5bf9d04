-- ===== src/SyncSeaweed/Credentials.antt =====
-- The credentials that sync_seaweed.py creates, and what later calls do with them.
use kubefrog_kvmserver.Prelude.{
  false, ◌∙◌, String, ◌<>◌, ◌≡◌, refl, ap, Bool, List, [], ◌∷◌, ◌++◌, arith, nat_eq, string_eq,
}
use mathlib.Core.List.{Perm, perm_append_comm, append_assoc}
use kubefrog_kvmserver.Python.Errors.{Error, err, ok, ◌>>=◌}
use kubefrog_kvmserver.Python.Exec.{resume-ok}
use kubefrog_kvmserver.Python.Json.Literal.{list}
use kubefrog_kvmserver.Python.Json.{Json, str, index, truth}
use kubefrog_kvmserver.Python.Dumps.{dumps}
use kubefrog_kvmserver.Python.Numeral.{codes}
use kubefrog_kvmserver.Python.Base64.{utf8, b64encode}
use kubefrog_kvmserver.Python.Base64.Laws.{b64decode, b64decode-b64encode-utf8}
use kubefrog_kvmserver.Controller.Manifest.{minio_secret}
use kubefrog_kvmserver.Controller.Sync.{is_ready, status, parent_name, parent_label}
use kubefrog_kvmserver.Controller.Inventory.{child, text_of}
use kubefrog_kvmserver.Python.Dumps.{format}
use kubefrog_kvmserver.SyncSeaweed.Sync.{
  sync_enabled, dumped, note, Iam, World, configmaps, reply, sync, create_credentials, credential,
  policy_document,
}
use kubefrog_kvmserver.SyncSeaweed.Laws.{sync-enabled, first_lines, FindsSecret, sync-keeps_secret}

-- A value that `credential` returned decodes to the text that it was made from.
credential-decodes :
    (key : Json) (field text stored : String)
    → (index key "AccessKey" >>= λ k. index k field) ≡ ok (str text)
    → credential key field ≡ ok stored
    → b64decode (codes stored) ≡ utf8 text
credential-decodes key field text stored hi hc =
    let e : b64encode (utf8 text) ≡ stored = ground arith in
    rw (← e) (b64decode-b64encode-utf8 text)

module _ (I : Iam) (repr : Json → String) where
  -- Every successful creation has an access key from IAM, from which both values were taken.
  pub created :
      (namespace : Json) (w w' : World I repr) (rs : List Json)
      → create_credentials I repr namespace w ≡ (ok rs, w')
      → (key : Json) × (access : String) × (secret : String) × ((I.create_access_key namespace
            w.iam).0
          ≡ ok key)
        × (credential key "AccessKeyId" ≡ ok access)
        × (credential key "SecretAccessKey" ≡ ok secret)
        × (rs ≡ minio_secret access secret namespace ∷ configmaps namespace (format repr namespace))
  unfolding create_credentials
  created namespace w w' rs h =
      let (key, hk, h1) =
        resume-ok (I.create_access_key namespace w.iam).0 _ _ rs (ap (λ p. p.0) h) in
      let (_, _, h2) =
        resume-ok {S = World I repr}
          (I.put_user_policy namespace ("KubeflowProject" <> format repr namespace)
            (dumps (policy_document (format repr namespace)))
            (I.create_access_key namespace w.iam).1).0
          _ _ rs h1 in
      let (access, ha, h3) = resume-ok (credential key "AccessKeyId") _ _ rs h2 in
      let (secret, hs, h4) = resume-ok (credential key "SecretAccessKey") _ _ rs h3 in
      (key, access, secret, hk, ha, hs, cc h4)

  -- When credentials were created, and the access key that IAM returned has a text as its id and one
  -- as its secret, the first returned object is a Secret whose two values decode to the UTF-8 bytes
  -- of these texts, and the others are the three ConfigMaps.
  pub create_credentials-decodes :
      (namespace : Json) (w w' : World I repr) (rs : List Json) (key : Json) (id secret : String)
      → create_credentials I repr namespace w ≡ (ok rs, w')
      → (I.create_access_key namespace w.iam).0 ≡ ok key
      → (index key "AccessKey" >>= λ k. index k "AccessKeyId") ≡ ok (str id)
      → (index key "AccessKey" >>= λ k. index k "SecretAccessKey") ≡ ok (str secret)
      → (r : Json) × (rs ≡ r ∷ configmaps namespace (format repr namespace))
        × (b64decode (codes (text_of (child (child r "data") "accesskey"))) ≡ utf8 id)
        × (b64decode (codes (text_of (child (child r "data") "secretkey"))) ≡ utf8 secret)
  create_credentials-decodes namespace w w' rs key id secret h hk hi hs =
      let (key', a, b, hk', ha, hb, e) = created namespace w w' rs h in
      let same : key' ≡ key = cc in
      (
        minio_secret a b namespace,
        e,
        credential-decodes key "AccessKeyId" id a hi (rw same at ha),
        credential-decodes key "SecretAccessKey" secret b hs (rw same at hb),
      )

  -- Once a call has created credentials, and metacontroller reports the returned Secret, a later call
  -- for the namespace, enabled and with groups that can be read, makes no call to IAM and returns the
  -- same objects in another order.
  pub sync-settles :
      (namespace secret parent attachments : Json) (ready : Bool) (w w' : World I repr)
      (rest : List Json)
      → create_credentials I repr namespace w ≡ (ok (secret ∷ rest), w')
      → parent_name parent ≡ ok namespace
      → parent_label parent ≡ ok (str "true")
      → is_ready attachments 3 ≡ ok ready
      → FindsSecret repr attachments namespace secret
      → (rs : List Json) × ((sync I repr parent attachments w').0 ≡ ok (reply (status ready) rs))
        × ((sync I repr parent attachments w').1.iam ≡ w'.iam)
        × Perm rs (secret ∷ rest)
  sync-settles namespace secret parent attachments ready w w' rest h hn hl hr hs =
      let (_, a, b, _, _, _, e) = created namespace w w' _ h in
      let same : secret ≡ minio_secret a b namespace = cc in
      let others : rest ≡ configmaps namespace (format repr namespace) = cc in
      let eq =
        sync-keeps_secret I repr parent attachments namespace secret ready w' hn hl hr hs
          (rw same refl) in
      (
        configmaps namespace (format repr namespace) ++ secret ∷ [],
        ap (λ p. p.0) eq,
        ap (λ p. p.1.iam) eq,
        rw others (perm_append_comm (configmaps namespace (format repr namespace)) (secret ∷ [])),
      )

  sync_enabled-policy_refused :
      (parent attachments namespace secret key : Json) (ready : Bool) (e : Error) (w : World I repr)
      (created refused : I.State)
      → is_ready attachments 3 ≡ ok ready
      → FindsSecret repr attachments namespace secret
      → truth secret ≡ false
      → I.create_access_key namespace w.iam ≡ (ok key, created)
      → I.put_user_policy namespace
          ("KubeflowProject" <> format repr namespace)
          (dumps (policy_document (format repr namespace)))
          created
        ≡ (err e, refused)
      → sync_enabled I repr parent attachments namespace w ≡ (
        err e,
        record {
          printed =
              ((w.printed ++ dumped "Received request:\n" parent ∷ [])
                ++ dumped "Desired resources except secrets:\n"
                    (list (configmaps namespace (format repr namespace)))
                  ∷ [])
              ++ note "Creating new access key." ∷ [];
          iam = refused;
        },
      )
  unfolding sync_enabled create_credentials
  sync_enabled-policy_refused parent attachments namespace secret key ready e w created refused hr
        hs ht hk hp =
      ground arith

  -- When the secret of an enabled namespace is missing, and IAM creates a key but refuses the policy,
  -- the call raises: the service keeps what both calls did to it, and no reply holds the key.
  pub sync-policy_refused :
      (parent attachments namespace secret key : Json) (ready : Bool) (e : Error) (w : World I repr)
      (created refused : I.State)
      → parent_name parent ≡ ok namespace
      → parent_label parent ≡ ok (str "true")
      → is_ready attachments 3 ≡ ok ready
      → FindsSecret repr attachments namespace secret
      → truth secret ≡ false
      → I.create_access_key namespace w.iam ≡ (ok key, created)
      → I.put_user_policy namespace
          ("KubeflowProject" <> format repr namespace)
          (dumps (policy_document (format repr namespace)))
          created
        ≡ (err e, refused)
      → sync I repr parent attachments w ≡ (
        err e,
        record {
          printed =
              w.printed
              ++ first_lines repr parent namespace
              ++ note "Creating new access key." ∷ [];
          iam = refused;
        },
      )
  sync-policy_refused parent attachments namespace secret key ready e w created refused hn hl hr hs
        ht hk hp =
      sync-enabled I repr parent attachments namespace w hn hl
      ∙ sync_enabled-policy_refused parent attachments namespace secret key ready e w created
          refused hr hs ht hk hp
      ∙ ap
          (λ lines. (
            err e,
            record { printed = lines ++ note "Creating new access key." ∷ []; iam = refused },
          ))
          (append_assoc w.printed _ _)
