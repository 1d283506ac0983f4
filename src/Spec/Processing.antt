-- ===== src/Spec/Processing.antt =====
-- ProcessingConfig, its fingerprint, and processing_config_from_profile.
use cogindex.Base.{
  ℕ, List, [], ◌∷◌, ◌++◌, Bool, true, false, ◌&&◌, ◌||◌, not, Option, none, some, map, length, any,
  contains, nat_eq, list_eq, ◌==◌, Text, codes, text_leb, if◌then◌else◌, is_some,
}
use cogindex.Base.{Result, ok, err, value_error, compatibility_error, ◌>>=◌, ◌>>◌, refuse}
use cogindex.Base.Sets
use cogindex.Identity.{Primitives, text_content, fingerprint_json, fingerprint_content}
use cogindex.Identity.Decimal.{decimal}
use cogindex.Identity.Value.{
  Json, null, flag, num, text, arr, obj, Items, nil, cons, Fields, end, field, text_key,
}
use cogindex.Spec.Profile.{
  PyClass, SchemaMethod, absent, raising, returning, CognifyProfile, bad_chunk_size, has_text,
  is_blank,
}

pub record ProcessingConfig : Type 0 where
  pub graph_model_id : Option Text
  pub graph_model_schema_fingerprint : Option Text
  pub chunker_id : Option Text
  pub chunk_size : Option ℕ
  pub custom_prompt_fingerprint : Option Text
  pub temporal_cognify : Bool
  pub runtime_config_fingerprint : Option Text
  pub extras : List (Text × Text)

-- The order of pairs of texts.
unfoldable pub pair_leb : Text × Text → Text × Text → Bool
unfolding text_leb
pair_leb (a, x) (b, y) = if a == b then text_leb x y else text_leb a b

-- `ProcessingConfig.__post_init__`; that the extras are pairs of texts is their type.
unfoldable pub check_processing : ProcessingConfig → Result ProcessingConfig
unfolding bad_chunk_size is_blank Sets.update pair_leb Sets.sorted
check_processing c = do
  refuse (bad_chunk_size c.chunk_size) value_error
  refuse (any (λ e. is_blank e.0 || contains 0 e.0) c.extras) value_error
  refuse (any (λ e. contains 0 e.1) c.extras) value_error
  let names = map (λ e. e.0) c.extras
  refuse (not (length (Sets.update names []) == length c.extras)) value_error
  ok (record c { extras = Sets.sorted pair_leb c.extras })

unfoldable pub text_or_null : Option Text → Json
text_or_null none = null
text_or_null (some t) = text t

unfoldable pub size_or_null : Option ℕ → Json
size_or_null none = null
size_or_null (some n) = num (decimal n)

unfoldable pub pair_items : List (Text × Text) → Items
pair_items [] = nil
pair_items ((k, v) ∷ rest) = cons (arr (cons (text k) (cons (text v) nil))) (pair_items rest)

abbrev pub entry : Text → Json → Fields → Fields
entry name value rest = field (text_key name) value rest

-- `dataclasses.asdict`
unfoldable pub processing_dict : ProcessingConfig → Json
unfolding text_or_null size_or_null pair_items
processing_dict c = obj (
    entry (codes "graph_model_id") (text_or_null c.graph_model_id) (
      entry (codes "graph_model_schema_fingerprint") (text_or_null c.graph_model_schema_fingerprint)
        (entry (codes "chunker_id") (text_or_null c.chunker_id) (
          entry (codes "chunk_size") (size_or_null c.chunk_size) (
            entry (codes "custom_prompt_fingerprint") (text_or_null c.custom_prompt_fingerprint) (
              entry (codes "temporal_cognify") (flag c.temporal_cognify) (
                entry (codes "runtime_config_fingerprint")
                  (text_or_null c.runtime_config_fingerprint)
                  (entry (codes "extras") (arr (pair_items c.extras)) end))))))))

unfoldable pub qualified_id : PyClass → Text
qualified_id c = c.module_name ++ (b'.' ∷ c.qualname)

-- What the installed Cognee would use for parameters that are left out.
pub record CompatDefaults : Type 0 where
  pub default_graph_model : Option PyClass
  pub default_chunker : Option PyClass
  pub default_chunk_size : Option ℕ

abbrev pub or_default : {A : Type 0} → Option A → Option A → Option A
or_default none d = d
or_default (some a) d = some a

module _ (P : Primitives) where
  unfoldable pub processing_fingerprint : ProcessingConfig → Result Text
  unfolding fingerprint_json processing_dict
  processing_fingerprint c = fingerprint_json P (processing_dict c)

  -- Every exception of the schema method or of its fingerprint becomes a ValueError.
  unfoldable pub model_schema_fingerprint : SchemaMethod → Result (Option Text)
  unfolding fingerprint_json
  model_schema_fingerprint absent = ok none
  model_schema_fingerprint raising = err value_error
  model_schema_fingerprint (returning schema) = elim (fingerprint_json P schema) [
    | ok fp ↦ ok (some fp)
    | err e ↦ err value_error
  ]

  -- The model cognify uses: none for the temporal pipeline.
  unfoldable pub effective_graph_model : CompatDefaults → CognifyProfile → Option PyClass
  effective_graph_model d p =
      if p.temporal_cognify then none else or_default p.graph_model d.default_graph_model

  unfoldable pub graph_model_part : Option PyClass → Result (Option Text × Option Text)
  unfolding model_schema_fingerprint qualified_id
  graph_model_part none = ok (none, none)
  graph_model_part (some c) = do
    fp ← model_schema_fingerprint c.schema
    ok (some (qualified_id c), fp)

  -- Cognee's own settings, which `_compat.configured_processing_inputs` reads.
  unfoldable pub runtime_config_part : Bool → Result Json → Result (Option Text)
  unfolding fingerprint_json
  runtime_config_part false inputs = ok none
  runtime_config_part true inputs = do object ← inputs; fp ← fingerprint_json P object; ok (some fp)

  unfoldable pub custom_prompt_part : Option Text → Option Text
  unfolding fingerprint_content
  custom_prompt_part none = none
  custom_prompt_part (some []) = none
  custom_prompt_part (some (c ∷ s)) = some (fingerprint_content P (text_content (c ∷ s)))

  unfoldable pub chunker_part : Option PyClass → Result Text
  unfolding qualified_id
  chunker_part none = err compatibility_error
  chunker_part (some c) = ok (qualified_id c)

  -- `inputs custom temporal` is `configured_processing_inputs`.
  unfoldable pub processing_config_from_profile :
      CompatDefaults → (Bool → Bool → Result Json) → Bool → CognifyProfile → Result ProcessingConfig
  unfolding effective_graph_model graph_model_part runtime_config_part custom_prompt_part
      chunker_part check_processing has_text
  processing_config_from_profile d inputs include_runtime_models p = do
    let model = effective_graph_model d p
    refuse (not p.temporal_cognify && not (is_some model)) compatibility_error
    chunker ← chunker_part (or_default p.chunker d.default_chunker)
    runtime ←
        runtime_config_part include_runtime_models
          (inputs (has_text p.custom_prompt) p.temporal_cognify)
    parts ← graph_model_part model
    check_processing (record {
      graph_model_id = parts.0;
      graph_model_schema_fingerprint = parts.1;
      chunker_id = some chunker;
      chunk_size = or_default p.chunk_size d.default_chunk_size;
      custom_prompt_fingerprint = custom_prompt_part p.custom_prompt;
      temporal_cognify = p.temporal_cognify;
      runtime_config_fingerprint = runtime;
      extras = [];
    })
