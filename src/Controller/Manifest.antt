-- ===== src/Controller/Manifest.antt =====
-- The attachments that are the same text in each of the four files, and the common frames of the
-- two Deployments.
use kubefrog_kvmserver.Prelude.{ℕ, String, ◌<>◌, Bool, List, [], ◌∷◌, if◌then◌else◌}
use kubefrog_kvmserver.Python.Json.{Json, str, num}
use kubefrog_kvmserver.Python.Json.Literal.{dict, list}
use kubefrog_kvmserver.Controller.Settings.{Settings}

-- {"app": name}
abbrev pub app_label : String → Json
app_label name = dict (("app", str name) ∷ [])

abbrev pub metadata_grpc_configmap : Json → Json
metadata_grpc_configmap namespace = dict (
    ("apiVersion", str "v1")
    ∷ ("kind", str "ConfigMap")
    ∷ ("metadata", dict (("name", str "metadata-grpc-configmap") ∷ ("namespace", namespace) ∷ []))
    ∷ (
      "data",
      dict (
          ("METADATA_GRPC_SERVICE_HOST", str "metadata-grpc-service.kubeflow")
          ∷ ("METADATA_GRPC_SERVICE_PORT", str "8080")
          ∷ []),
    )
    ∷ [])

-- `disable_istio_sidecar and {...} or {}`
abbrev pub sidecar_annotations : Bool → Json
sidecar_annotations disabled =
    if disabled then dict (("sidecar.istio.io/inject", str "false") ∷ []) else dict []

-- A Deployment of one application around its pod specification.
abbrev pub deployment : String → Settings → Json → Json → Json
deployment name s namespace pod_spec = dict (
    ("apiVersion", str "apps/v1")
    ∷ ("kind", str "Deployment")
    ∷ (
      "metadata",
      dict (("labels", app_label name) ∷ ("name", str name) ∷ ("namespace", namespace) ∷ []),
    )
    ∷ (
      "spec",
      dict (
          ("selector", dict (("matchLabels", app_label name) ∷ []))
          ∷ (
            "template",
            dict (
                (
                  "metadata",
                  dict (
                      ("labels", app_label name)
                      ∷ ("annotations", sidecar_annotations s.disable_istio_sidecar)
                      ∷ []),
                )
                ∷ ("spec", pod_spec)
                ∷ []),
          )
          ∷ []),
    )
    ∷ [])

-- "resources" of a container
abbrev pub resources : String → String → String → String → Json
resources cpu memory max_cpu max_memory = dict (
    ("requests", dict (("cpu", str cpu) ∷ ("memory", str memory) ∷ []))
    ∷ ("limits", dict (("cpu", str max_cpu) ∷ ("memory", str max_memory) ∷ []))
    ∷ [])

-- [{"containerPort": port}]
abbrev pub container_ports : ℕ → Json
container_ports port = list (dict (("containerPort", num port) ∷ []) ∷ [])

-- f"{image}:{tag}"
abbrev pub image_tag : String → String → Json
image_tag image tag = str (image <> ":" <> tag)

-- The first fields of the visualization server's container.
abbrev pub visualization_container : Settings → List (String × Json)
visualization_container s =
    ("image", image_tag s.visualization_server_image s.visualization_server_tag)
    ∷ ("imagePullPolicy", str "IfNotPresent")
    ∷ ("name", str "ml-pipeline-visualizationserver")
    ∷ ("ports", container_ports 8888)
    ∷ []

-- The first fields of the artifact fetcher's container.
abbrev pub ui_artifact_container : Settings → List (String × Json)
ui_artifact_container s =
    ("name", str "ml-pipeline-ui-artifact")
    ∷ ("image", image_tag s.frontend_image s.frontend_tag)
    ∷ ("imagePullPolicy", str "IfNotPresent")
    ∷ ("ports", container_ports 3000)
    ∷ []

-- An environment variable of the artifact fetcher, from the MinIO secret.
abbrev pub minio_env : String → String → Json
minio_env name key = dict (
    ("name", str name)
    ∷ (
      "valueFrom",
      dict (
          ("secretKeyRef", dict (("key", str key) ∷ ("name", str "mlpipeline-minio-artifact") ∷ []))
          ∷ []),
    )
    ∷ [])

abbrev pub minio_envs : List Json
minio_envs =
    minio_env "MINIO_ACCESS_KEY" "accesskey" ∷ minio_env "MINIO_SECRET_KEY" "secretkey" ∷ []

abbrev pub visualization_destination_rule : Json → Json
visualization_destination_rule namespace = dict (
    ("apiVersion", str "networking.istio.io/v1alpha3")
    ∷ ("kind", str "DestinationRule")
    ∷ (
      "metadata",
      dict (("name", str "ml-pipeline-visualizationserver") ∷ ("namespace", namespace) ∷ []),
    )
    ∷ (
      "spec",
      dict (
          ("host", str "ml-pipeline-visualizationserver")
          ∷ ("trafficPolicy", dict (("tls", dict (("mode", str "ISTIO_MUTUAL") ∷ [])) ∷ []))
          ∷ []),
    )
    ∷ [])

abbrev pub visualization_authorization_policy : Json → Json
visualization_authorization_policy namespace = dict (
    ("apiVersion", str "security.istio.io/v1beta1")
    ∷ ("kind", str "AuthorizationPolicy")
    ∷ (
      "metadata",
      dict (("name", str "ml-pipeline-visualizationserver") ∷ ("namespace", namespace) ∷ []),
    )
    ∷ (
      "spec",
      dict (
          ("selector", dict (("matchLabels", app_label "ml-pipeline-visualizationserver") ∷ []))
          ∷ (
            "rules",
            list (
                dict (
                  (
                    "from",
                    list (
                        dict (
                          (
                            "source",
                            dict (
                                (
                                  "principals",
                                  list (str "cluster.local/ns/kubeflow/sa/ml-pipeline" ∷ []),
                                )
                                ∷ []),
                          )
                          ∷ [])
                        ∷ []),
                  )
                  ∷ [])
                ∷ []),
          )
          ∷ []),
    )
    ∷ [])

-- [{"name": "http", "port": port, "protocol": "TCP", "targetPort": target}]
abbrev pub http_port : ℕ → ℕ → Json
http_port port target = list (
    dict (
      ("name", str "http")
      ∷ ("port", num port)
      ∷ ("protocol", str "TCP")
      ∷ ("targetPort", num target)
      ∷ [])
    ∷ [])

abbrev pub visualization_service : Json → Json
visualization_service namespace = dict (
    ("apiVersion", str "v1")
    ∷ ("kind", str "Service")
    ∷ (
      "metadata",
      dict (("name", str "ml-pipeline-visualizationserver") ∷ ("namespace", namespace) ∷ []),
    )
    ∷ (
      "spec",
      dict (
          ("ports", http_port 8888 8888)
          ∷ ("selector", app_label "ml-pipeline-visualizationserver")
          ∷ []),
    )
    ∷ [])

abbrev pub ui_artifact_service : Json → Json
ui_artifact_service namespace = dict (
    ("apiVersion", str "v1")
    ∷ ("kind", str "Service")
    ∷ (
      "metadata",
      dict (
          ("name", str "ml-pipeline-ui-artifact")
          ∷ ("namespace", namespace)
          ∷ ("labels", app_label "ml-pipeline-ui-artifact")
          ∷ []),
    )
    ∷ (
      "spec",
      dict (("ports", http_port 80 3000) ∷ ("selector", app_label "ml-pipeline-ui-artifact") ∷ []),
    )
    ∷ [])

-- The MinIO secret, with its two values encoded already.
abbrev pub minio_secret : String → String → Json → Json
minio_secret access_key secret_key namespace = dict (
    ("apiVersion", str "v1")
    ∷ ("kind", str "Secret")
    ∷ ("metadata", dict (("name", str "mlpipeline-minio-artifact") ∷ ("namespace", namespace) ∷ []))
    ∷ ("data", dict (("accesskey", str access_key) ∷ ("secretkey", str secret_key) ∷ []))
    ∷ [])
