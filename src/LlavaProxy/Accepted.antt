-- ===== src/LlavaProxy/Accepted.antt =====
-- What `predict` does with a query that `Query.model_validate` accepts.
use kubefrog_kvmserver.Prelude.{
  String, ◌≡◌, refl, ◌⊎◌, inl, inr, true, Option, none, some, List, [], ◌∷◌, all, arith,
}
use kubefrog_kvmserver.Python.Errors.{ok, err, index_error, key_error, ◌>>=◌}
use kubefrog_kvmserver.Python.Loads.Plain.{both_true}
use kubefrog_kvmserver.Python.Json.{
  Json, Fields, Items, null, bool, num, negative, float, str, arr, obj, nil, cons, lookup, index,
  found_or_raise,
}
use kubefrog_kvmserver.Python.Json.Literal.{elements, elements_of}
use kubefrog_kvmserver.Controller.Inventory.{child}
use kubefrog_kvmserver.LlavaProxy.{Service, first_part, text_of_query, image_of_query, predict}
use kubefrog_kvmserver.LlavaProxy.Laws.{predict-raises}
use kubefrog_kvmserver.LlavaProxy.Query.{
  Annotation, Class, text, any_dict, list_of, instance_of, messages, query, fits, fits_class,
  fits_required,
}

-- The parts of the first message.
abbrev first_content : List Json → List Json
first_content [] = []
first_content (m ∷ ms) = elements (child m "content")

abbrev pub opening : Json → List Json
opening q = first_content (elements (child q "messages"))

-- A required list that fits is empty, or its first item fits.
list_cases :
    (a : Annotation) (found : Option Json)
    → fits_required (fits (list_of a)) found ≡ true
    → (found ≡ some (arr nil))
      ⊎ ((x : Json) × (xs : Items) × (found ≡ some (arr (cons x xs))) × (fits a x ≡ true))
unfolding fits
list_cases a none h = cc
list_cases a (some (arr nil)) h = inl refl
list_cases a (some (arr (cons x xs))) h =
    inr (x, xs, refl, (both_true (fits a x) (all (fits a) (elements_of xs)) h).0)
list_cases a (some null) h = cc
list_cases a (some (bool b)) h = cc
list_cases a (some (num n)) h = cc
list_cases a (some (negative n)) h = cc
list_cases a (some (float r)) h = cc
list_cases a (some (str t)) h = cc
list_cases a (some (obj fs)) h = cc

dict_cases : (x : Json) → fits any_dict x ≡ true → (fs : Fields) × (x ≡ obj fs)
unfolding fits
dict_cases (obj fs) h = (fs, refl)
dict_cases _ h = cc

instance_cases :
    (c : Class) (x : Json)
    → fits (instance_of c) x ≡ true
    → (fs : Fields) × (x ≡ obj fs) × (fits_class c fs ≡ true)
unfolding fits
instance_cases c (obj fs) h = (fs, refl, h)
instance_cases c _ h = cc

-- The first key that is needed of a part and is not there: a text, and an image address with a URL.
abbrev pub missing_url : Option Json → Option String
missing_url none = some "image_url"
missing_url (some (obj address)) = elim (lookup "url" address) [ none ↦ some "url" | some u ↦ none ]
missing_url (some _) = none

abbrev pub missing_key : Option Json → Option Json → Option String
missing_key none image = some "text"
missing_key (some t) image = missing_url image

abbrev pub first_missing : Fields → Option String
first_missing part = missing_key (lookup "text" part) (lookup "image_url" part)

missing_url-raises :
    (found : Option Json) (key : String)
    → missing_url found ≡ some key
    → (found_or_raise "image_url" found >>= λ i. index i "url") ≡ err (key_error key)
missing_url-raises none key h = ground arith
missing_url-raises (some (obj address)) key h = ground arith
missing_url-raises (some _) key h = cc

missing_key-raises :
    (text image : Option Json) (key : String)
    → missing_key text image ≡ some key
    → (found_or_raise "text" text >>= λ t. found_or_raise "image_url" image >>= λ i. index i "url")
      ≡ err (key_error key)
missing_key-raises none image key h = ground arith
missing_key-raises (some t) image key h = missing_url-raises image key h

-- The first part is missing, or it is a dict.
abbrev Opens : Json → Type 0
Opens q =
    ((opening q ≡ []) × (first_part q ≡ err index_error))
    ⊎ ((part : Fields) × (rest : List Json) × (opening q ≡ obj part ∷ rest)
        × (first_part q ≡ ok (obj part)))

message-Opens :
    (fs ms : Fields) (rest : Items)
    → lookup "messages" fs ≡ some (arr (cons (obj ms) rest))
    → fits_class messages ms ≡ true
    → Opens (obj fs)
unfolding fits
message-Opens fs ms rest e h =
    let (_, h1) = both_true (fits_required (fits text) (lookup "role" ms)) _ h in
    let (h2, _) = both_true (fits_required (fits (list_of any_dict)) (lookup "content" ms)) _ h1 in
    elim (list_cases any_dict (lookup "content" ms) h2) [
      | inl none_there ↦ inl (rw (e, none_there) refl, rw (e, none_there) refl)
      | inr (p, ps, there, hp) ↦
          let (part, is_part) = dict_cases p hp in
          inr (part, elements_of ps, rw (e, there, is_part) refl, rw (e, there, is_part) refl)
    ]

query-Opens : (q : Json) → fits (instance_of query) q ≡ true → Opens q
unfolding fits
query-Opens q h =
    let (fs, eq, h1) = instance_cases query q h in
    let (_, h2) = both_true (fits_required (fits text) (lookup "model" fs)) _ h1 in
    let (h3, _) =
      both_true (fits_required (fits (list_of (instance_of messages))) (lookup "messages" fs)) _
        h2 in
    rw eq (elim (list_cases (instance_of messages) (lookup "messages" fs) h3) [
      | inl none_there ↦ inl (rw none_there refl, rw none_there refl)
      | inr (m, rest, there, hm) ↦
          let (ms, is_dict, fits_ms) = instance_cases messages m hm in
          message-Opens fs ms rest (rw (← is_dict) there) fits_ms
    ])

module _ (service : Service) (repr : Json → String)
    (model_validate : Class → Json → Option String) where
  -- If pydantic accepts only what fits the class, a query that `Query.model_validate` accepts has no
  -- first part, and `predict` raises an IndexError without a call of the model; or its first part is a
  -- dict, from which `predict` takes the text and the address of the image.
  pub predict-accepted :
      (url : String) (q : Json) (state : service.State)
      → ((c : Class) (v : Json) → model_validate c v ≡ none → fits (instance_of c) v ≡ true)
      → model_validate query q ≡ none
      → ((opening q ≡ [])
          × (predict service repr (model_validate query) url q state ≡ (err index_error, state)))
        ⊎ ((part : Fields) × (rest : List Json) × (opening q ≡ obj part ∷ rest)
            × (text_of_query q ≡ index (obj part) "text")
            × (image_of_query q ≡ (index (obj part) "image_url" >>= λ i. index i "url")))
  predict-accepted url q state documented accepted =
      elim (query-Opens q (documented query q accepted)) [
        | inl (empty, e) ↦ inl (
          empty,
          predict-raises service repr (model_validate query) url q state index_error accepted
              (rw e refl),
        )
        | inr (part, rest, there, e) ↦ inr (part, rest, there, rw e refl, rw e refl)
      ]

  -- If pydantic accepts only what fits the class: an accepted query whose first part lacks a key that is
  -- needed, as one with the text and the image in parts of their own does, ends in a KeyError with this
  -- key, and the model is not called.
  pub predict-incomplete :
      (url : String) (q : Json) (part : Fields) (rest : List Json) (key : String)
      (state : service.State)
      → ((c : Class) (v : Json) → model_validate c v ≡ none → fits (instance_of c) v ≡ true)
      → model_validate query q ≡ none
      → opening q ≡ obj part ∷ rest
      → first_missing part ≡ some key
      → predict service repr (model_validate query) url q state ≡ (err (key_error key), state)
  predict-incomplete url q part rest key state documented accepted opens lacks =
      elim (query-Opens q (documented query q accepted)) [
        | inl (empty, e) ↦ cc (empty, opens)
        | inr (part', rest', there, e) ↦
            let same : part' ≡ part = cc (there, opens) in
            predict-raises service repr (model_validate query) url q state (key_error key) accepted
              (rw (e, same)
                (missing_key-raises (lookup "text" part) (lookup "image_url" part) key lacks))
      ]
