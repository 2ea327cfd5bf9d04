-- ===== src/KserveLlm/Laws.antt =====
-- The language model server: what is loaded, and what the model is asked.
use kubefrog_kvmserver.Prelude.{
  ℕ, String, ◌≡◌, ◌≤◌, refl, ◌∙◌, ◌⊎◌, Option, true, none, some, List, [], ◌∷◌, arith, All,
}
use kubefrog_kvmserver.Python.Errors.{Result, ok, err, ◌>>=◌}
use kubefrog_kvmserver.Python.Exec.{Exec, resume}
use kubefrog_kvmserver.Python.Json.{
  Json, bool, num, negative, float, str, Fields, lookup, with_default, first_item, index,
}
use kubefrog_kvmserver.Python.Json.Literal.{dict}
use kubefrog_kvmserver.Python.Numeral.{codes}
use kubefrog_kvmserver.Python.Format.Laws.{
  Part, IsPlain, template_of, filled, format_text-template_of,
}
use kubefrog_kvmserver.KserveLlm.{
  Host, Runtime, Server, default_template, default_system_message, field_value, format_template,
  join, Answer, answered, load, load_missing, gpu_type, is_loaded, init,
}

-- A template that is written from text and named fields is filled as its parts say.
format_template-template_of :
    (runtime : Runtime) (template system_message : String) (prompt : Json) (parts : List Part)
    → codes template ≡ template_of parts
    → All IsPlain parts
    → format_template runtime (str template) system_message prompt
      ≡ filled (field_value runtime system_message prompt) parts
format_template-template_of runtime template system_message prompt parts e plain =
    rw e (format_text-template_of (field_value runtime system_message prompt) parts plain)

-- At most 512, if a number of tokens at all.
abbrev pub Limited : Runtime → Json → Type 0
Limited runtime (num n) = n ≤ 512
Limited runtime (float r) = runtime.float_below r 512 ≡ true
Limited runtime (negative n) = Unit
Limited runtime (bool b) = Unit
Limited runtime _ = ⊥

-- The template and the system message for a request, with the template of the model's directory if there
-- is one: that of the request before that of the model, and the default one, with the default message,
-- if there is none.
pub data IsTemplate (input_data : Fields) (own : Option String) : Json → String → Type 0 where
  of_request :
      (template : Json)
      → lookup "prompt_template" input_data ≡ some template
      → IsTemplate input_data own template ""
  of_model :
      (template : String)
      → lookup "prompt_template" input_data ≡ none
      → own ≡ some template
      → IsTemplate input_data own (str template) ""
  by_default :
      lookup "prompt_template" input_data ≡ none
      → own ≡ none
      → IsTemplate input_data own (str default_template) default_system_message

resume_idle :
    {S A B : Type 0} (r : Result A) (f : A → Exec S B) (s : S)
    → ((a : A) → (f a s).1 ≡ s)
    → (resume r f s).1 ≡ s
resume_idle (ok a) f s h = h a
resume_idle (err e) f s h = refl

module _ (host : Host) (runtime : Runtime) where
  gpu_type-globals :
      (server : Server host runtime)
      → is_loaded host runtime (gpu_type host runtime server).1 ≡ is_loaded host runtime server
  unfolding gpu_type
  gpu_type-globals server = ground arith

  -- A call of `init` that returns leaves a server with both the tokenizer and the model, if it was without
  -- a model.
  init-is_loaded :
      (url : String) (server loaded : Server host runtime)
      → server.model ≡ none
      → init host runtime url server ≡ (ok tt, loaded)
      → is_loaded host runtime loaded ≡ true
  unfolding init gpu_type load
  init-is_loaded url server loaded h returns = ground arith

  -- On such a server `init` looks at the GPUs and loads nothing.
  init-once :
      (url : String) (server : Server host runtime)
      → is_loaded host runtime server ≡ true
      → (init host runtime url server).1 ≡ (gpu_type host runtime server).1
  unfolding init
  init-once url server h =
      resume_idle (gpu_type host runtime server).0 (λ _. load_missing host runtime url)
        (gpu_type host runtime server).1 (λ _. rw (gpu_type-globals server ∙ h) refl)

  -- One call of the model: with the template and the message that are meant for the request, filled, and a
  -- limit of at most 512 tokens; the text of its first result is the answer, and nothing else was done.
  abbrev pub Asked : Fields → Json → Server host runtime → Answer → Server host runtime → Type 0
  Asked input_data prompt server answer after =
      (template : Json) × (system_message : String) × (text : List ℕ) × (limit : Json)
      × (results : Json) × (joined : String) × IsTemplate input_data server.model_prompt_template
          template system_message
      × (format_template runtime template system_message prompt ≡ ok text)
      × Limited runtime limit
      × ((limit ≡ with_default (lookup "result_length" input_data) (num 100)) ⊎ (limit ≡ num 512))
      × (host.generate server.model server.tokenizer limit text server.host_state
          ≡ (ok results, after.host_state))
      × ((first_item results >>= (λ r. index r "generated_text") >>= join) ≡ ok joined)
      × (answer ≡ answered (dict (("result", str joined) ∷ [])))
      × (after ≡ record server { host_state = after.host_state })
