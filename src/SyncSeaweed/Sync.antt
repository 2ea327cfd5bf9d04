-- ===== src/SyncSeaweed/Sync.antt =====
-- `sync` and `do_POST` of sync_seaweed.py.
use kubefrog_kvmserver.Prelude.{ℕ, String, ◌<>◌, true, List, [], ◌∷◌, ◌++◌, if◌then◌else◌}
use kubefrog_kvmserver.Python.Errors.{Result, ok, err, attribute_error, ◌>>=◌ as ◌|>◌}
use kubefrog_kvmserver.Python.Exec.{Exec, pure, lift, ◌>>=◌, ◌>>◌}
use kubefrog_kvmserver.Python.Json.{Json, null, bool, str, get, index, is_text, truth}
use kubefrog_kvmserver.Python.Json.Literal.{dict, list}
use kubefrog_kvmserver.Python.Base64.{utf8, b64encode}
use kubefrog_kvmserver.Python.Dumps.{format, dumps}
use kubefrog_kvmserver.Controller.Manifest.{metadata_grpc_configmap, minio_secret}
use kubefrog_kvmserver.Controller.Sync.{is_ready, status, parent_name, parent_label}
use kubefrog_kvmserver.Controller.Http.{Request, Response, read_body, json_response}

-- The IAM client: what a call returns or raises, and the service afterwards.
pub record Iam : Type 1 where
  pub State : Type 0
  pub create_access_key : Json → State → Result Json × State
  pub put_user_policy : Json → String → String → State → Result Json × State

-- A `print` of a text, or of a heading and a value.
pub data Output : Type 0 where
  note : String → Output
  dumped : String → Json → Output

abbrev pub s3_bucket_name : String
s3_bucket_name = "mlpipeline"

-- The launcher's ConfigMap; `ns` is the text of the namespace.
abbrev pub launcher_configmap : Json → String → Json
launcher_configmap namespace ns = dict (
    ("apiVersion", str "v1")
    ∷ ("kind", str "ConfigMap")
    ∷ ("metadata", dict (("name", str "kfp-launcher") ∷ ("namespace", namespace) ∷ []))
    ∷ (
      "data",
      dict (
          (
            "defaultPipelineRoot",
            str ("minio://" <> s3_bucket_name <> "/private-artifacts/" <> ns <> "/v2/artifacts"),
          )
          ∷ []),
    )
    ∷ [])

abbrev pub secret_key_selector : String → Json
secret_key_selector key = dict (("name", str "mlpipeline-minio-artifact") ∷ ("key", str key) ∷ [])

-- What is dumped into the ConfigMap of the artifact repositories.
abbrev pub artifact_repository : String → Json
artifact_repository ns = dict (
    ("archiveLogs", bool true)
    ∷ (
      "s3",
      dict (
          ("endpoint", str "minio-service.kubeflow:9000")
          ∷ ("bucket", str s3_bucket_name)
          ∷ (
            "keyFormat",
            str (
                "private-artifacts/" <> ns
                <> "/{{workflow.name}}/{{workflow.creationTimestamp.Y}}/{{workflow.creationTimestamp.m}}"
                <> "/{{workflow.creationTimestamp.d}}/{{pod.name}}"),
          )
          ∷ ("insecure", bool true)
          ∷ ("accessKeySecret", secret_key_selector "accesskey")
          ∷ ("secretKeySecret", secret_key_selector "secretkey")
          ∷ []),
    )
    ∷ [])

abbrev pub artifact_repositories_configmap : Json → String → Json
artifact_repositories_configmap namespace ns = dict (
    ("apiVersion", str "v1")
    ∷ ("kind", str "ConfigMap")
    ∷ (
      "metadata",
      dict (
          ("name", str "artifact-repositories")
          ∷ ("namespace", namespace)
          ∷ (
            "annotations",
            dict (
                ("workflows.argoproj.io/default-artifact-repository", str "default-namespaced")
                ∷ []),
          )
          ∷ []),
    )
    ∷ ("data", dict (("default-namespaced", str (dumps (artifact_repository ns))) ∷ []))
    ∷ [])

-- `desired_resources` when it is printed.
abbrev pub configmaps : Json → String → List Json
configmaps namespace ns =
    launcher_configmap namespace ns
    ∷ metadata_grpc_configmap namespace
    ∷ artifact_repositories_configmap namespace ns
    ∷ []

-- The objects of the bucket that the policy allows.
abbrev pub policy_resources : String → List String
policy_resources ns =
    ("arn:aws:s3:::" <> s3_bucket_name <> "/artifacts/*")
    ∷ ("arn:aws:s3:::" <> s3_bucket_name <> "/private-artifacts/" <> ns <> "/*")
    ∷ ("arn:aws:s3:::" <> s3_bucket_name <> "/private/" <> ns <> "/*")
    ∷ ("arn:aws:s3:::" <> s3_bucket_name <> "/shared/*")
    ∷ []

abbrev pub texts : List String → List Json
texts [] = []
texts (s ∷ rest) = str s ∷ texts rest

abbrev pub policy_document : String → Json
policy_document ns = dict (
    ("Version", str "2012-10-17")
    ∷ (
      "Statement",
      list (
          dict (
            ("Effect", str "Allow")
            ∷ ("Action", list (str "s3:Put*" ∷ str "s3:Get*" ∷ str "s3:List*" ∷ []))
            ∷ ("Resource", list (texts (policy_resources ns)))
            ∷ [])
          ∷ []),
    )
    ∷ [])

abbrev pub reply : Json → List Json → Json
reply desired_status desired =
    dict (("status", desired_status) ∷ ("attachments", list desired) ∷ [])

-- `base64.b64encode(value.encode('utf-8')).decode("utf-8")`
abbrev pub encode : Json → Result String
encode (str s) = ok (b64encode (utf8 s))
encode _ = err attribute_error

-- `encode` of a field of `s3_access_key["AccessKey"]`
abbrev pub credential : Json → String → Result String
credential access_key field = index access_key "AccessKey" |> (λ k. index k field |> encode)

module _ (I : Iam) (repr : Json → String) where
  -- The printed lines and the service.
  pub record World : Type 0 where
    pub printed : List Output
    pub iam : I.State

  abbrev pub print : Output → Exec World (Unit {0})
  print line w = (ok tt, record w { printed = w.printed ++ line ∷ [] })

  -- `iam.create_access_key(UserName=user)`
  abbrev pub create_access_key : Json → Exec World Json
  create_access_key user w =
      let (r, iam') = I.create_access_key user w.iam in (r, record w { iam = iam' })

  -- `iam.put_user_policy(UserName=user, PolicyName=name, PolicyDocument=document)`
  abbrev pub put_user_policy : Json → String → String → Exec World Json
  put_user_policy user name document w =
      let (r, iam') = I.put_user_policy user name document w.iam in (r, record w { iam = iam' })

  -- The branch that creates credentials, and returns the desired resources.
  unfoldable pub create_credentials : Json → Exec World (List Json)
  create_credentials namespace =
      let ns = format repr namespace in
      do
        print (note "Creating new access key.")
        s3_access_key ← create_access_key namespace
        put_user_policy namespace ("KubeflowProject" <> ns) (dumps (policy_document ns))
        access ← lift (credential s3_access_key "AccessKeyId")
        secret ← lift (credential s3_access_key "SecretAccessKey")
        pure (minio_secret access secret namespace ∷ configmaps namespace ns)

  -- The branch for a secret that is there already.
  abbrev pub use_existing : Json → Json → Exec World (List Json)
  use_existing namespace s3_secret = do
    print (note "Using existing secret")
    pure (configmaps namespace (format repr namespace) ++ s3_secret ∷ [])

  unfoldable pub sync_enabled : Json → Json → Json → Exec World Json
  sync_enabled parent attachments namespace = do
    ready ← lift (is_ready attachments 3)
    print (dumped "Received request:\n" parent)
    print (
        dumped "Desired resources except secrets:\n"
          (list (configmaps namespace (format repr namespace))))
    secrets ← lift (index attachments "Secret.v1")
    s3_secret ← lift (get secrets (format repr namespace <> "/mlpipeline-minio-artifact") null)
    desired ←
        if truth s3_secret then use_existing namespace s3_secret else create_credentials namespace
    pure (reply (status ready) desired)

  unfoldable pub sync : Json → Json → Exec World Json
  sync parent attachments = do
    namespace ← lift (parent_name parent)
    pipeline_enabled ← lift (parent_label parent)
    if is_text pipeline_enabled "true"
        then sync_enabled parent attachments namespace
        else pure (reply (dict []) [])

  -- `do_POST`; `loads` is `json.loads`.
  unfoldable pub do_post : (List ℕ → Result Json) → Request → Exec World Response
  do_post loads r = do
    bytes ← lift (read_body r)
    observed ← lift (loads bytes)
    object ← lift (index observed "object")
    attachments ← lift (index observed "attachments")
    desired ← sync object attachments
    pure (json_response desired)
