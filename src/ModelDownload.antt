-- ===== src/ModelDownload.antt =====
-- examples/kserve-fluid/fluid/download_model.py: downloads a model of Hugging Face, and prints where the
-- first snapshot is. The file system and the hub are arguments.
use kubefrog_kvmserver.Prelude.{String, ◌<>◌, Option, none, some, List, [], ◌∷◌}
use kubefrog_kvmserver.Python.Errors.{Result, ok, err, index_error}
use kubefrog_kvmserver.Python.Exec.{Exec, pure, lift, ◌>>=◌, ◌>>◌}

-- `mkdir(exist_ok=True)`, `snapshot_download` with the directory that it caches in, and `glob`.
pub record Host : Type 1 where
  pub State : Type 0
  pub mkdir : String → State → Result (Unit {0}) × State
  pub snapshot_download : (repo_id revision cache_dir : String) → State → Result String × State
  pub glob : (directory pattern : String) → State → Result (List String) × State

-- The options that were given.
pub record Options : Type 0 where
  pub model_name : Option String
  pub model_dir : Option String
  pub revision : Option String

abbrev pub or_default : Option String → String → String
or_default given default = elim given [ none ↦ default | some s ↦ s ]

-- `list(paths)[0]`
abbrev pub first_path : List String → Result String
first_path [] = err index_error
first_path (path ∷ paths) = ok path

module _ (host : Host) where
  -- The line that is printed.
  unfoldable pub main : Options → Exec host.State String
  main options =
      let model_dir = or_default options.model_dir "models" in
      do
        host.mkdir model_dir
        host.snapshot_download (or_default options.model_name "bigscience/bloom-560m")
            (or_default options.revision "main") model_dir
        paths ← host.glob model_dir "**/snapshots/*"
        output_dir ← lift (first_path paths)
        pure ("export output_dir=" <> output_dir)
