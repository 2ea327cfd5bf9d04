-- ===== src/Tests/Transformer.antt =====
-- Two uploaded images whose requests overlap.
use kubefrog_kvmserver.Prelude.{String, ◌≡◌, refl, some, List, [], ◌∷◌}
use kubefrog_kvmserver.Python.Errors.{ok}
use kubefrog_kvmserver.Python.Dumps.{decimal}
use kubefrog_kvmserver.Python.Json.{Json, str, num}
use kubefrog_kvmserver.Python.Json.Literal.{dict, list}
use kubefrog_kvmserver.Transformer.{
  Backend, Pixels, Transformer, initial, preprocess, preprocess_put, fetch, postprocess,
  record_field,
}
use kubefrog_kvmserver.Transformer.Order.{
  before, announced, instances, Fetched, run, postprocess-run, preprocess-returns,
}

-- The files are the uploads: a bucket and a key each.
abbrev backend : Backend
backend = record {
  State = List (String × Json);
  download_file = λ bucket key path files. (ok tt, files);
  upload_file = λ path bucket key files. (ok tt, (bucket, key) ∷ files);
  imread = λ path files. some ((0 ∷ 255 ∷ []) ∷ []);
}

abbrev pixels : Pixels
pixels = record { resize = λ rows. rows; ratio = λ n. num n }

abbrev repr : Json → String
repr v = "[]"

abbrev uploaded : String → Json
uploaded key = dict (
    ("EventName", str "s3:ObjectCreated:Put")
    ∷ (
      "Records",
      list (
          dict (
            (
              "s3",
              dict (
                  ("bucket", dict (("name", str "images") ∷ []))
                  ∷ ("object", dict (("key", str key) ∷ []))
                  ∷ []),
            )
            ∷ [])
          ∷ []),
    )
    ∷ [])

abbrev seven : Json
seven = dict (("predictions", list (dict (("classes", num 7) ∷ []) ∷ [])) ∷ [])

abbrev fresh : Transformer backend pixels repr
fresh = initial backend pixels repr []

-- The answer for the first image, after the second was announced, files the second.
postprocess-run_example :
    (postprocess backend pixels repr seven (
      run backend pixels repr (before (uploaded "a.png") ∷ before (uploaded "b.png") ∷ []) fresh)).1
    ≡ record (run backend pixels repr
        (before (uploaded "a.png") ∷ before (uploaded "b.png") ∷ [])
        fresh) {
          files =
              ("digit-7", str "b.png")
              ∷ (run backend pixels repr
                  (before (uploaded "a.png") ∷ before (uploaded "b.png") ∷ [])
                  fresh).files;
        }
unfolding decimal
postprocess-run_example =
    postprocess-run backend pixels repr (before (uploaded "a.png") ∷ before (uploaded "b.png") ∷ [])
      fresh seven (num 7) "b.png" refl refl

abbrev inverted_image : Json
inverted_image = instances pixels ((0 ∷ 255 ∷ []) ∷ [])

fresh-preprocess : (preprocess backend pixels repr (uploaded "a.png") fresh).0 ≡ ok inverted_image
unfolding preprocess preprocess_put fetch
fresh-preprocess = refl

preprocess-returns_example :
    (key : Json) × (bucket : Json) × (announced (uploaded "a.png") ≡ ok key)
    × (record_field (uploaded "a.png") "bucket" "name" ≡ ok bucket)
    × Fetched backend pixels repr bucket key inverted_image []
preprocess-returns_example =
    preprocess-returns backend pixels repr (uploaded "a.png") inverted_image fresh fresh-preprocess
