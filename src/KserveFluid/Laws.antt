-- ===== src/KserveFluid/Laws.antt =====
-- What the server keeps between requests.
use kubefrog_kvmserver.Prelude.{◌≡◌, refl, ◌∙◌, ap₂, some, true, Option, none, arith}
use kubefrog_kvmserver.Python.Errors.{ok}
use kubefrog_kvmserver.Python.Json.{Json, Fields, lookup}
use kubefrog_kvmserver.KserveFluid.{
  Device, Settings, Server, both_there, load, look_at_gpus, init, ask, answer_prompt, predict,
}

module _ (device : Device) where
  ask-keeps :
      (settings : Settings) (input_data : Fields) (prompt : Json) (server : Server device)
      → ((ask device settings input_data prompt server).1.model ≡ server.model)
        × ((ask device settings input_data prompt server).1.tokenizer ≡ server.tokenizer)
  unfolding ask
  ask-keeps settings input_data prompt server = ground arith

  answer_prompt-keeps :
      (settings : Settings) (prompt : Option Json) (input_data : Fields) (server : Server device)
      → ((answer_prompt device settings prompt input_data server).1.model ≡ server.model)
        × ((answer_prompt device settings prompt input_data server).1.tokenizer ≡ server.tokenizer)
  answer_prompt-keeps settings none input_data server = (refl, refl)
  answer_prompt-keeps settings (some prompt) input_data server =
      ask-keeps settings input_data prompt server

  init-both_there :
      (settings : Settings) (server loaded : Server device)
      → server.model ≡ none
      → init device settings server ≡ (ok tt, loaded)
      → both_there device loaded.model loaded.tokenizer ≡ true
  unfolding init look_at_gpus load
  init-both_there settings server loaded h returns = ground arith

  -- A server that `init` has loaded stays loaded: after any request, whether it is answered or
  -- raises, the model and the tokenizer are the same, and both are there.
  predict-keeps :
      (settings : Settings) (input_data : Fields) (server loaded : Server device)
      → server.model ≡ none
      → init device settings server ≡ (ok tt, loaded)
      → let after = (predict device settings input_data loaded).1 in
        (after.model ≡ loaded.model)
        × (after.tokenizer ≡ loaded.tokenizer)
        × (both_there device after.model after.tokenizer ≡ true)
  unfolding predict
  predict-keeps settings input_data server loaded h returns =
      let (m, t) = answer_prompt-keeps settings (lookup "prompt" input_data) input_data loaded in
      let there = init-both_there settings server loaded h returns in
      (m, t, ap₂ (both_there device) m t ∙ there)
