-- ===== src/Transformer.antt =====
-- examples/kafka/docker-image/image_transformer/image_transformer.py: the KServe transformer that
-- fetches an uploaded image for the predictor and files it under the predicted digit. The S3 client
-- of boto3, cv2 and numpy's division are arguments.
pub mod Order
use kubefrog_kvmserver.Prelude.{
  ℕ, ◌-◌, String, ◌<>◌, Option, none, some, List, [], ◌∷◌, ◌++◌, map, if◌then◌else◌,
}
use kubefrog_kvmserver.Python.Errors.{Result, ok, err, type_error, exception, ◌>>=◌ as ◌|>◌}
use kubefrog_kvmserver.Python.Exec.{Exec, pure, lift, ◌>>=◌, ◌>>◌}
use kubefrog_kvmserver.Python.Json.{Json, null, str, index, first_item, is_text}
use kubefrog_kvmserver.Python.Json.Literal.{dict, list}
use kubefrog_kvmserver.Python.Dumps.{format}

-- The S3 client with the local files, and `cv2.imread` of a local file as rows of grey values, or
-- `None`.
pub record Backend : Type 1 where
  pub State : Type 0
  pub download_file : Json → Json → String → State → Result (Unit {0}) × State
  pub upload_file : String → String → Json → State → Result (Unit {0}) × State
  pub imread : String → State → Option (List (List ℕ))

-- `cv2.resize(img, (28, 28))`, and the `repr` of `n / 255.0`.
pub record Pixels : Type 0 where
  pub resize : List (List ℕ) → List (List ℕ)
  pub ratio : ℕ → Json

-- `255 - img`
abbrev pub inverted : List (List ℕ) → List (List ℕ)
inverted rows = map (map (λ p. 255 - p)) rows

abbrev pub flatten : List (List ℕ) → List ℕ
flatten [] = []
flatten (row ∷ rows) = row ++ flatten rows

-- `'/tmp/' + key`: a `TypeError` if the key is no text.
abbrev pub local_path : Json → Result String
local_path (str key) = ok ("/tmp/" <> key)
local_path _ = err type_error

-- `inputs['Records'][0]['s3'][part][field]`
abbrev pub record_field : Json → String → String → Result Json
record_field inputs part field =
    index inputs "Records"
    |> first_item
    |> (λ r. index r "s3")
    |> (λ s. index s part)
    |> (λ p. index p field)

-- `response["predictions"][0]["classes"]`
abbrev pub predicted_class : Json → Result Json
predicted_class response = index response "predictions" |> first_item |> (λ p. index p "classes")

abbrev pub grey_values : Pixels → Option (List (List ℕ)) → Result Json
grey_values pixels none = err type_error
grey_values pixels (some img) =
    ok (list (map pixels.ratio (flatten (pixels.resize (inverted img)))))

module _ (backend : Backend) (pixels : Pixels) (repr : Json → String) where
  -- `self._key`, and the files.
  pub record Transformer : Type 0 where
    pub key : Json
    pub files : backend.State

  -- `__init__`
  abbrev pub initial : backend.State → Transformer
  initial files = record { key = null; files = files }

  abbrev pub set_key : Json → Exec Transformer (Unit {0})
  set_key key t = (ok tt, record t { key = key })

  abbrev pub download_file : Json → Json → String → Exec Transformer (Unit {0})
  download_file bucket key path t =
      let (r, files) = backend.download_file bucket key path t.files in
      (r, record t { files = files })

  abbrev pub upload_file : String → String → Json → Exec Transformer (Unit {0})
  upload_file path bucket key t =
      let (r, files) = backend.upload_file path bucket key t.files in
      (r, record t { files = files })

  abbrev pub image_transform : String → Exec Transformer Json
  image_transform image t = (grey_values pixels (backend.imread image t.files), t)

  -- From the assignment of `self._key` to the returned request.
  unfoldable pub fetch : Json → Json → Exec Transformer Json
  fetch bucket key = do
    set_key key
    path ← lift (local_path key)
    download_file bucket key path
    request ← image_transform path
    pure (dict (("instances", list (request ∷ [])) ∷ []))

  -- The branch of `preprocess` for an uploaded object.
  unfoldable pub preprocess_put : Json → Exec Transformer Json
  preprocess_put inputs = do
    bucket ← lift (record_field inputs "bucket" "name")
    key ← lift (record_field inputs "object" "key")
    fetch bucket key

  unfoldable pub preprocess : Json → Exec Transformer Json
  preprocess inputs = do
    name ← lift (index inputs "EventName")
    if is_text name "s3:ObjectCreated:Put"
        then preprocess_put inputs
        else lift (err (exception "unknown event"))

  abbrev pub own_key : Exec Transformer Json
  own_key t = (ok t.key, t)

  unfoldable pub postprocess : Json → Exec Transformer Json
  postprocess response = do
    digit ← lift (predicted_class response)
    key ← own_key
    path ← lift (local_path key)
    upload_file path ("digit-" <> format repr digit) key
    pure response
