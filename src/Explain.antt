-- ===== src/Explain.antt =====
-- examples/kfserving/query_explain.py: a script that asks a KServe explainer about an image and draws
-- its answer. `json.loads`, the files, the MNIST data set of aix360 with the conversion of an image to
-- colour, and the HTTP client are arguments; what is printed and the colours drawn are not modelled.
pub mod Laws
use kubefrog_kvmserver.Prelude.{
  ℕ, zero, suc, ◌+◌, ◌*◌, ◌/◌, String, Bool, true, false, Option, none, some, List, [], ◌∷◌, length,
  if◌then◌else◌, ◌==◌, nat_eq, string_eq,
}
use kubefrog_kvmserver.Python.Errors.{
  Result, ok, err, exception, index_error, type_error, value_error, ◌>>=◌ as ◌|>◌,
}
use kubefrog_kvmserver.Python.Exec.{Exec, pure, lift, ◌>>=◌}
use kubefrog_kvmserver.Python.Json.{
  Json, str, cons, arr, obj, Fields, end, field, Items, nil, index,
}
use kubefrog_kvmserver.Python.Json.Literal.{dict, list, elements_of}
use kubefrog_kvmserver.Python.Numeral.{ℤ, pos, int}

-- What the script reads and calls. A label is a number of which only being zero matters.
pub record Desk : Type 1 where
  pub State : Type 0
  pub Label : Type 0
  pub is_zero : Label → Bool
  pub loads : String → Result Json
  pub load_file : String → Result Json
  -- The image at a number, in colour, with its labels.
  pub test_image : ℤ → Result (Json × List Label)
  -- `requests.post`, with `raise_for_status` and `.json()`.
  pub post : String → Json → State → Result Json × State

pub record Arguments : Type 0 where
  pub endpoint : String
  -- The file's name, read only if `is_file` is set.
  pub file : String
  pub test_num : ℤ
  pub is_file : Bool
  pub parameters : Json

-- `int(sys.argv[3])`, or the flag that it raised.
abbrev pub number_or_file : Result ℤ → ℤ × Bool
number_or_file (ok n) = (n, false)
number_or_file (err e) = (pos 1002, true)

abbrev pub parameters_or_raise : Result Json → Result Json
parameters_or_raise (ok v) = ok v
parameters_or_raise (err e) = err (exception "Failed to convert to json format. ")

-- The reading of `sys.argv`.
unfoldable pub parse_args : (String → Result Json) → List String → Result Arguments
parse_args loads (script ∷ endpoint ∷ file ∷ []) = ok (record {
  endpoint = endpoint;
  file = file;
  test_num = pos 1002;
  is_file = false;
  parameters = dict [];
})
parse_args loads (script ∷ endpoint ∷ file ∷ third ∷ []) =
    let (n, is_file) = number_or_file (int third) in
    ok (record {
      endpoint = endpoint;
      file = file;
      test_num = n;
      is_file = is_file;
      parameters = dict [];
    })
parse_args loads (script ∷ endpoint ∷ file ∷ third ∷ fourth ∷ rest) =
    parameters_or_raise (loads fourth) |> λ parameters.
    let (n, is_file) = number_or_file (int third) in
    ok (record {
      endpoint = endpoint;
      file = file;
      test_num = n;
      is_file = is_file;
      parameters = parameters;
    })
parse_args loads _ = err (exception "No endpoint specified. ")

module _ {ℓ} {A : Type ℓ} (is_zero : A → Bool) where
  -- The loop over the labels from one on.
  abbrev pub last_nonzero : ℕ → ℕ → List A → ℕ
  last_nonzero x actual [] = actual
  last_nonzero x actual (l ∷ labels) = last_nonzero (suc x) (if is_zero l then actual else x) labels

  abbrev pub actual_label : List A → ℕ
  actual_label [] = 0
  actual_label (l ∷ labels) = last_nonzero 1 0 labels

-- `d[key] = value`: in place of an entry that is there, or at the end.
abbrev pub insert : String → Json → Fields → Fields
insert key value end = field key value end
insert key value (field k v fs) =
    let rest = insert key value fs in if k == key then field k value fs else field k v rest

abbrev pub update_fields : Fields → Fields → Fields
update_fields fs end = fs
update_fields fs (field k v rest) = update_fields (insert k v fs) rest

-- From a list of pairs, each with a text as its key; of other items any is taken for one that is no
-- pair, a `ValueError`.
abbrev pub update_pairs : Fields → Items → Result Json
update_pairs fs nil = ok (obj fs)
update_pairs fs (cons (arr (cons (str k) (cons v nil))) rest) = update_pairs (insert k v fs) rest
update_pairs fs (cons _ rest) = err value_error

-- `input_image.update(parameters)`
abbrev pub update : Fields → Json → Result Json
update fs (obj changes) = ok (obj (update_fields fs changes))
update fs (arr items) = update_pairs fs items
update fs (str s) = if s == "" then ok (obj fs) else err value_error
update fs _ = err type_error

-- What stands in one place of the grid.
pub data Cell : Type 0 where
  off : Cell
  shown : Json → Json → Cell

-- The loop over the axes, with the labels and the masks from the place on.
abbrev pub draw : ℕ → List Json → List Json → Result (List Cell)
draw zero labels masks = ok []
draw (suc axes) [] masks = draw axes [] masks |> λ cells. ok (off ∷ cells)
draw (suc axes) (label ∷ labels) [] = err index_error
draw (suc axes) (label ∷ labels) (mask ∷ masks) =
    draw axes labels masks |> λ cells. ok (shown mask label ∷ cells)

-- `math.ceil(n / 5)`
abbrev pub rows : ℕ → ℕ
rows n = (n + 4) / 5

-- The figure: `plt.subplots` raises a `ValueError` for no rows.
unfoldable pub plot : List Json → List Json → Result (List Cell)
plot labels masks =
    if rows (length labels) == 0
    then err value_error
    else draw (rows (length labels) * 5) labels masks

-- `np.array(value)` of a list; a value that is no list has no length.
abbrev pub array : Json → Result (List Json)
array (arr items) = ok (elements_of items)
array _ = err type_error

abbrev pub explanation : Json → String → Result Json
explanation answer part = index answer "explanations" |> λ e. index e part

module _ (desk : Desk) where
  -- The image that is explained, and its class where it is known.
  abbrev pub load_inputs : Arguments → Result (Json × Option ℕ)
  load_inputs args =
      if args.is_file
      then (desk.load_file args.file |> λ image. ok (image, none))
      else (desk.test_image args.test_num |> λ (image, labels).
          ok (image, some (actual_label desk.is_zero labels)))

  abbrev pub post : String → Json → Exec desk.State Json
  post endpoint body = desk.post endpoint body

  -- The script, up to the figure.
  unfoldable pub query_explain : List String → Exec desk.State (List Cell × Option ℕ)
  query_explain argv = do
    args ← lift (parse_args desk.loads argv)
    inputs ← lift (load_inputs args)
    body ← lift (update (field "instances" (list (inputs.0 ∷ [])) end) args.parameters)
    answer ← post args.endpoint body
    temp ← lift (explanation answer "temp")
    masks ← lift (explanation answer "masks" |> array)
    top_labels ← lift (explanation answer "top_labels" |> array)
    cells ← lift (plot top_labels masks)
    pure (cells, inputs.1)
