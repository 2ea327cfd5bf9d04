-- ===== src/LlavaProxy/Query.antt =====
-- The classes `Messages` and `Query` of examples/api_proxy_llava/docker/apps.py. What pydantic does with
-- a class is an argument; `fits` is a part of what it documents of the values that it accepts.
use kubefrog_kvmserver.Prelude.{String, Bool, true, false, ◌&&◌, Option, none, some, all}
use kubefrog_kvmserver.Python.Json.{Json, Fields, null, str, arr, obj, lookup}
use kubefrog_kvmserver.Python.Json.Literal.{elements_of}

-- The annotation of a field: str, float, int, bool, dict, List[...] and a class.
mutual
  pub data Annotation : Type 0 where
    text floating whole truth any_dict : Annotation
    list_of : Annotation → Annotation
    instance_of : Class → Annotation

  -- The fields of a class, in order; an optional one has `None` as its default.
  pub data Class : Type 0 where
    no_more : Class
    required optional : String → Annotation → Class → Class

abbrev pub messages : Class
messages = required "role" text (required "content" (list_of any_dict) no_more)

abbrev pub query : Class
query = required "model" text (
    required "messages" (list_of (instance_of messages)) (
      optional "temperature" floating (
        optional "top_p" floating (
          optional "n" whole (
            optional "stream" truth (
              optional "stop" (list_of text) (
                optional "max_tokens" whole (
                  optional "presence_penalty" floating (
                    optional "frequency_penalty" floating
                      (optional "logit_bias" any_dict (optional "user" text no_more)))))))))))

abbrev pub fits_required : (Json → Bool) → Option Json → Bool
fits_required valid none = false
fits_required valid (some v) = valid v

abbrev pub fits_optional : (Json → Bool) → Option Json → Bool
fits_optional valid none = true
fits_optional valid (some null) = true
fits_optional valid (some v) = valid v

-- What is accepted has every required field, and texts, lists and dicts where they are annotated;
-- numbers and Booleans may be converted, so any value may stand for them.
unfoldable mutual
  pub fits : Annotation → Json → Bool
  fits text (str s) = true
  fits text _ = false
  fits any_dict (obj fs) = true
  fits any_dict _ = false
  fits (list_of a) (arr xs) = all (fits a) (elements_of xs)
  fits (list_of a) _ = false
  fits (instance_of c) (obj fs) = fits_class c fs
  fits (instance_of c) _ = false
  fits _ v = true

  pub fits_class : Class → Fields → Bool
  fits_class no_more fs = true
  fits_class (required k a c) fs = fits_required (fits a) (lookup k fs) && fits_class c fs
  fits_class (optional k a c) fs = fits_optional (fits a) (lookup k fs) && fits_class c fs
