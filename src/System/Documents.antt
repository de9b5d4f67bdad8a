-- ===== src/System/Documents.antt =====
-- What the definition controller stores is what the specification controller loads.
use swagger_hub_controller.Base.{
  ℕ, String, [], ◌∷◌, Result, ok, err, panic, and_then, map_err, wrap, ◌≡◌, refl, ap, ◌∙◌, Run,
}
use swagger_hub_controller.Base.Dict.{lookup}
use swagger_hub_controller.Kube.Workload.{Bytes, ConfigMap}
use swagger_hub_controller.Kube.Client.{Client}
use swagger_hub_controller.Kube.Laws.{ConfigMapsLawful}
use swagger_hub_controller.Api.Definition.{SwaggerDefinition}
use swagger_hub_controller.Definition.Fetch.{HttpClient, fetch_definition}
use swagger_hub_controller.Definition.Reconcile.{definition_config_map, reconcile}
use swagger_hub_controller.Definition.Outcome.{reconcile_stores}
use swagger_hub_controller.Specification.OpenApi.{OpenApiLibrary, Loaded}
use swagger_hub_controller.Specification.References.{prefix_fields, rename_components}
use swagger_hub_controller.Specification.Generate.{
  FetchResult, loaded, failed, load_document, fetch_loaded, fetch_result,
}

module _ (K : Client) (H : HttpClient K.World) (L : OpenApiLibrary) where
  -- The bytes of a document, rewritten for its definition and loaded.
  abbrev pub read_document : String → Bytes → Result Loaded
  read_document name b =
      and_then (map_err (wrap "failed to unmarshal definition: ") (L.unmarshal b)) λ untyped_spec.
        and_then (prefix_fields name untyped_spec) λ prefixed.
          and_then (rename_components name prefixed) λ renamed.
            and_then (map_err (wrap "failed to marshal specification: ") (L.marshal renamed))
              λ b'. map_err (wrap "failed to load SwaggerDefinition url: ") (L.load_from_data b')

  -- The result for a definition whose document has been read.
  abbrev pub result_of : ℕ → SwaggerDefinition → Result Loaded → Result FetchResult
  result_of n d r = elim r [ ok s ↦ loaded n d s | err e ↦ ok (failed n d e) | panic m ↦ panic m ]

  fetch_loaded-read :
      (n : ℕ) (d : SwaggerDefinition) (cm : ConfigMap) (b : Bytes)
      → cm.binary_data ≡ ("definition.json", b) ∷ []
      → fetch_loaded K L n d cm ≡ result_of n d (read_document d.metadata.name b)
  unfolding fetch_loaded load_document lookup
  fetch_loaded-read n d cm b e = rw e refl

  fetch_result-found :
      (n : ℕ) (d : SwaggerDefinition) (w : K.World) (cm : ConfigMap)
      → (K.config_maps.get
          (record {
            namespace = d.metadata.namespace;
            name = definition_config_map d.metadata.name;
          })
          w).0
        ≡ ok cm
      → (fetch_result K L n d w).0 ≡ fetch_loaded K L n d cm
  unfolding fetch_result
  fetch_result-found n d w cm e = rw (fetch_result, e) refl

  -- Where a config map that was written can be read: after a definition was reconciled without an
  -- error, reading the document of a definition of its name and namespace, in the cluster that is
  -- left, gives the result of rewriting and loading the bytes that the fetch returned.
  pub reconcile-fetch_result :
      ConfigMapsLawful K
      → (d d' : SwaggerDefinition) (w : K.World) {s : Run K.World SwaggerDefinition}
      → reconcile K H (record { world = w; object = d }) ≡ (ok tt, s)
      → d'.metadata.name ≡ d.metadata.name
      → d'.metadata.namespace ≡ d.metadata.namespace
      → (n : ℕ)
      → (b : Bytes) × (v : K.World) × (fetch_definition K H d w ≡ (ok b, v))
        × ((fetch_result K L n d' s.world).0 ≡ result_of n d' (read_document d.metadata.name b))
  reconcile-fetch_result lawful d d' w {s} e same_name same_namespace n =
      let (b, v, fetched, (cm, at, bytes)) = reconcile_stores K H d lawful w {s = s} e in
      (
        b,
        v,
        fetched,
        fetch_result-found n d' s.world cm (rw (same_name, same_namespace) at)
            ∙ fetch_loaded-read n d' cm b bytes
            ∙ ap (λ name. result_of n d' (read_document name b)) same_name,
      )
