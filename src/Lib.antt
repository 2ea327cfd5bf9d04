-- ===== src/Lib.antt =====
-- The webhooks behind the Kubeflow profiles of this repository: the metacontroller sync scripts of
-- kubeflow/pipelines, which attach to every enabled namespace the objects that Kubeflow Pipelines
-- needs there.
--
-- Parts. metacontroller posts a namespace and the objects that it observes to `do_POST`; `sync`
-- answers with a status and the desired objects; the body of `sync` is written inside
-- `server_factory`, whose arguments are the settings that `main` reads from the environment with
-- `get_settings_from_env`. Four scripts have this shape and differ in field names, launcher
-- ConfigMap and deployments; a fifth one attaches other objects and creates credentials for S3.
--
--   kubeflow/pipelines/sync.py                 SyncCurrent
--   kubeflow/pipelines/sync-debug-frontend.py  SyncDebugFrontend
--   kubeflow/pipelines/sync_old.py             SyncOld
--   kubeflow/pipelines/sync_new.py             SyncNew
--   kubeflow/pipelines/sync_seaweed.py         SyncSeaweed (Settings, Sync)
--
-- What is the same text in the first four stands once, in Controller: Settings
-- (`get_settings_from_env`, `server_factory`), Manifest (the objects), Sync (`sync`, from a
-- `Variant` that holds what differs) and Http (`do_POST`). The fifth uses the parts of it that are
-- the same there too: the status, the fields read of the namespace, the secret and the reading of
-- a request.
--
-- Separate programs serve models and use them. In the KServe transformer of examples/kafka
-- (Transformer), `preprocess` fetches an uploaded image for the predictor and keeps its key, and
-- `postprocess` files the image under the predicted digit. Transformer/Order runs both calls of
-- several requests in any order; its state is the kept key and the files. `predict` of
-- examples/api_proxy_llava (LlavaProxy) answers a chat of the API of OpenAI with a completion of
-- a LLaVA model; its state is that of the model's service, LlavaProxy/Query are the classes that
-- validate a chat, and LlavaProxy/Mock is the service of its tests, at one address. The two
-- language model servers (KserveLlm, KserveFluid) load tokenizer and model in `init` and ask
-- them in `predict`; their state is what is loaded, and the host; KserveLlm/Gpu is what both log
-- of the GPUs. ModelDownload fetches a model for one of them, and KnativeApp answers a greeting.
-- Training is a pipeline that repeats itself, and Explain a script that draws the answer of an
-- explainer. Katib has the two programs of examples/pipeline_notebook that start an experiment:
-- the values that they hand to the SDKs, and the trials that Katib makes of their templates
-- (Katib/Filling, Katib/Trials).
--
--   examples/kafka/docker-image/image_transformer/image_transformer.py  Transformer
--   examples/api_proxy_llava/docker/apps.py                             LlavaProxy
--   examples/api_proxy_llava/docker/mock_api.py                         LlavaProxy/Mock
--   examples/kserve-llm/docker/models.py                                KserveLlm
--   examples/kserve-fluid/fluid/docker/models.py                        KserveFluid
--   examples/kserve-fluid/fluid/download_model.py                       ModelDownload
--   examples/pipelines/train_until_good.py                              Training
--   examples/kfserving/query_explain.py                                 Explain
--   examples/pipeline_notebook/mpi-job-horovod.py                       Katib/MpiJob
--   examples/pipeline_notebook/early-stopping.ipynb                     Katib/MedianStop
--   knative-serving/app-test/app.py                                     KnativeApp
--
-- Python is Python: values of JSON (Json; Json/Unordered where the order of their members does
-- not count), exceptions as results (Errors), calls that print and may raise (Exec), base64 and
-- UTF-8 (Base64), `int` of a text (Numeral), `json.dumps` (Dumps), `json.loads` (Loads) and
-- `str.format` (Format). The state of a call of `sync` is the list of the printed lines, and in
-- sync_seaweed.py also the state of the IAM service. A line is kept as its heading and the
-- value that is dumped with it.
--
-- Family states for the four controllers at once what all of them do; the laws of `sync` that
-- its theorems use stand in Controller (Desired, Readiness, Laws), and Inventory says how a
-- cluster reads the manifests: groups, names, selectors, ports and references. Family/Exchange
-- puts them between a caller that writes and one that reads JSON. Family/Cluster puts a
-- controller and metacontroller on a namespace: the state is the namespace's object, the
-- attached objects and what the last reply asked for. metacontroller's steps are left open, but
-- that an object appears only if it was asked for and its group and name are free; it may post
-- any report, also a stale one. How a call is made is an argument too: `sync` itself, or
-- (Family/Cluster/Wire) JSON posted to `do_POST`. SyncSeaweed/Cluster does the same for
-- sync_seaweed.py, with an IAM service whose created keys are recorded, and SyncSeaweed/Exchange
-- is its exchange of JSON; SyncSeaweed/Retries repeats a call that IAM refuses. Family/Types
-- holds the replies against the types of the API of Kubernetes, the schemas of Kubernetes.
-- Family/Reports has the reports without their order, a quotient, and `sync` as a function of
-- them. Controller/Outcome says what any call of `sync` ends in. Tests applies each theorem to
-- concrete data.
--
-- Recursion is structural but for the decimal digits of a number, which take as fuel the number
-- plus one: every round divides by ten, so the digits end before the fuel does; the decoding
-- and the scan of JSON, which take as fuel the length of the text, at least the number of its
-- characters, values, items and members; and the rounds of the training pipeline, which end
-- only if a model gets good: fuel for the rounds until then is enough.
--
-- Arguments of the definitions are, of Python, the decoding of UTF-16 and UTF-32, the `repr` of
-- a float, a dict and a list, and `json.loads` in what is stated for any; of code that is not in
-- the repository, the file system and the hub of the download, the IAM client of botocore and
-- the S3 client of boto3 (what a call returns or raises, and its state), `imread` and `resize`
-- of cv2, numpy's division, pydantic's validation, the HTTP clients, transformers and torch, the
-- components of the training pipeline and the comparison of its condition, the data set of
-- aix360, and of Katib and kfp the serialisation, the launcher's output and the replacement of
-- the placeholders of a template. A text of JSON is a sequence of Unicode scalar values: lone
-- surrogates do not occur.
--
-- Not modelled: the sockets and `serve_forever` of the HTTP servers (a server is its address,
-- port and settings), command lines, and most of what is logged; the copies of other projects
-- (the kfp client of examples/pipeline_notebook, the Hive engine of superset/, the frontend
-- server beside the controllers); and the YAML and JavaScript files.
pub mod Prelude
pub mod Python
pub mod Controller
pub mod SyncCurrent
pub mod SyncDebugFrontend
pub mod SyncOld
pub mod SyncNew
pub mod Family
pub mod Kubernetes
pub mod Katib
pub mod SyncSeaweed
pub mod Transformer
pub mod LlavaProxy
pub mod KserveLlm
pub mod KserveFluid
pub mod Training
pub mod Explain
pub mod KnativeApp
pub mod ModelDownload
pub mod Tests
