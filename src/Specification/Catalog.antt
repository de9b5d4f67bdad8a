-- ===== src/Specification/Catalog.antt =====
-- The catalog reports the errors of the definitions, each at its own entry.
use swagger_hub_controller.Base.{
  ℕ, suc, String, List, [], ◌∷◌, ◌++◌, Option, none, some, Error, Result, ok, err, panic, ◌≡◌, refl,
  ap, sym, ◌∙◌, subst, append_assoc, arith, ◌>>=◌, >>=-eq-ok, return-injective, pure, wrap, ◌<>◌,
}
use swagger_hub_controller.Base.Lists.{length, length-append}
use swagger_hub_controller.Kube.Workload.{ConfigMap}
use swagger_hub_controller.Kube.Client.{Client}
use swagger_hub_controller.Api.Definition.{SwaggerDefinition}
use swagger_hub_controller.Api.Specification.{ResourceLookupReference}
use swagger_hub_controller.Specification.OpenApi.{OpenApiLibrary, Loaded, Components}
use swagger_hub_controller.Specification.Generate.{
  FetchResult, Collected, set_error, collect_result, collect_results, fetch_loaded, fetch_result,
  fetch_results, load_document, loaded, add_components, tagged_paths, failed,
}

-- A result has a document or an error.
abbrev pub IsUsable : FetchResult → Type 0
IsUsable r = elim r.error [ none ↦ (s : Loaded) × (r.spec ≡ some s) | some e ↦ Unit ]

-- Results with the numbers n, n + 1, …
abbrev pub Numbered : ℕ → List FetchResult → Type 0
Numbered n [] = Unit
Numbered n (r ∷ rs) = (r.ref_id ≡ n) × IsUsable r × Numbered (suc n) rs

-- An entry of the catalog after its definition was read.
abbrev pub marked_one : ResourceLookupReference → FetchResult → ResourceLookupReference
marked_one ref r = elim r.error [ none ↦ ref | some e ↦ record ref { error = e.message } ]

abbrev pub marked : List ResourceLookupReference → List FetchResult → List ResourceLookupReference
marked refs [] = refs
marked [] (r ∷ rs) = []
marked (ref ∷ refs) (r ∷ rs) = marked_one ref r ∷ marked refs rs

set_error-append :
    (before : List ResourceLookupReference) (message : String) (ref : ResourceLookupReference)
    (refs : List ResourceLookupReference)
    → set_error (length before) message (before ++ ref ∷ refs)
      ≡ ok (before ++ record ref { error = message } ∷ refs)
unfolding set_error
set_error-append [] message ref refs = refl
set_error-append (b ∷ before) message ref refs = rw (set_error-append before message ref refs) refl

collected : Collected → FetchResult → Loaded → Collected
collected c r s =
    let added = add_components s.components c in
    record added {
      paths = added.paths ++ tagged_paths r.definition.metadata.name r.base_path s.paths;
    }

collect_result-loaded :
    (c : Collected) (r : FetchResult) (s : Loaded)
    → r.error ≡ none
    → r.spec ≡ some s
    → collect_result c r ≡ ok (collected c r s)
unfolding collect_result collected
collect_result-loaded c r s p q = rw (p, collect_result, q) refl

add_components-catalog :
    (cs : Option Components) (c : Collected) → (add_components cs c).catalog ≡ c.catalog
unfolding add_components
add_components-catalog none c = refl
add_components-catalog (some cs) c = refl

Marks : Collected → List ResourceLookupReference → Result Collected → Type 0
Marks c refs r = (c' : Collected) × (r ≡ ok c') × (c'.catalog ≡ refs)

collect_result-Marks :
    (c : Collected) (before refs : List ResourceLookupReference) (ref : ResourceLookupReference)
    (r : FetchResult)
    → c.catalog ≡ before ++ ref ∷ refs
    → r.ref_id ≡ length before
    → IsUsable r
    → Marks c (before ++ marked_one ref r ∷ refs) (collect_result c r)
unfolding Marks collect_result collected
collect_result-Marks c before refs ref r e n u = go r.error refl
  where
    Usable : Option Error → Type 0
    Usable x = elim x [ none ↦ (s : Loaded) × (r.spec ≡ some s) | some e ↦ Unit ]

    go :
        (x : Option Error)
        → r.error ≡ x
        → Marks c (before ++ marked_one ref r ∷ refs) (collect_result c r)
    go none p =
        let (s, q) = subst Usable p u in
        (
          collected c r s,
          collect_result-loaded c r s p q,
          add_components-catalog s.components c ∙ e ∙ ap (λ m. before ++ m ∷ refs) (rw p refl),
        )
    go (some x) p = (
      record c { catalog = before ++ record ref { error = x.message } ∷ refs },
      rw (p, collect_result, e, n, set_error-append before x.message ref refs) refl,
      ap (λ m. before ++ m ∷ refs) (rw p refl),
    )

collect_results-Marks :
    (c : Collected) (before refs : List ResourceLookupReference) (rs : List FetchResult)
    → c.catalog ≡ before ++ refs
    → length refs ≡ length rs
    → Numbered (length before) rs
    → Marks c (before ++ marked refs rs) (collect_results c rs)
unfolding Marks collect_results
collect_results-Marks c before [] [] e l h = (c, refl, e)
collect_results-Marks c before [] (r ∷ rs) e l h = let no : ⊥ = omega (arith, l) in elim no [ ]
collect_results-Marks c before (ref ∷ refs) [] e l h = (c, refl, e)
collect_results-Marks c before (ref ∷ refs) (r ∷ rs) e l h =
    let (c₁, e₁, k₁) = collect_result-Marks c before refs ref r e h.0 h.1 in
    let (c₂, e₂, k₂) =
      collect_results-Marks c₁ (before ++ marked_one ref r ∷ []) refs rs
        (k₁ ∙ sym (append_assoc before (marked_one ref r ∷ []) refs)) (omega (arith, l))
        (subst (λ n. Numbered n rs) (omega (arith, length-append before (marked_one ref r ∷ [])))
          h.2) in
    (
      c₂,
      rw (e₁, collect_results) e₂,
      k₂ ∙ append_assoc before (marked_one ref r ∷ []) (marked refs rs),
    )

module _ (K : Client) (L : OpenApiLibrary) where
  -- A result with the number, usable.
  Fetched : ℕ → Result FetchResult × K.World → Type 0
  Fetched n x = elim x.0 [ ok r ↦ (r.ref_id ≡ n) × IsUsable r | err e ↦ Unit | panic m ↦ Unit ]

  loaded-Fetched :
      (n : ℕ) (d : SwaggerDefinition) (s : Loaded) (w : K.World) → Fetched n (loaded n d s, w)
  unfolding loaded Fetched
  loaded-Fetched n d s w = go s.base_path
    where
      go :
          (x : Result String)
          → Fetched n (
            elim x [
              | ok base ↦ ok (record {
                definition = d;
                spec = some s;
                error = none;
                base_path = base;
                ref_id = n;
              })
              | err e ↦ ok (record {
                definition = d;
                spec = some s;
                error = some (wrap "failed to extract base path: " e);
                base_path = "";
                ref_id = n;
              })
              | panic m ↦ panic m
            ],
            w,
          )
      go (ok base) = (refl, (s, refl))
      go (err e) = (refl, tt)
      go (panic m) = tt

  fetch_loaded-Fetched :
      (n : ℕ) (d : SwaggerDefinition) (cm : ConfigMap) (w : K.World)
      → Fetched n (fetch_loaded K L n d cm, w)
  unfolding fetch_loaded Fetched
  fetch_loaded-Fetched n d cm w = go (load_document K L d.metadata.name cm)
    where
      go :
          (x : Result Loaded)
          → Fetched n
              (elim x [ ok s ↦ loaded n d s | err e ↦ ok (failed n d e) | panic m ↦ panic m ], w)
      go (ok s) = loaded-Fetched n d s w
      go (err e) = (refl, tt)
      go (panic m) = tt

  fetch_result-Fetched :
      (n : ℕ) (d : SwaggerDefinition) (w : K.World) → Fetched n (fetch_result K L n d w)
  unfolding fetch_result Fetched
  fetch_result-Fetched n d w = go (
      K.config_maps.get
        (record {
          namespace = d.metadata.namespace;
          name = "swagger-definition-" <> d.metadata.name;
        })
        w)
    where
      go :
          (x : Result ConfigMap × K.World)
          → Fetched n (elim x.0 [
            | ok cm ↦ (fetch_loaded K L n d cm, x.1)
            | err e ↦ (ok (failed n d (wrap "definition configmap does not exists: " e)), x.1)
            | panic m ↦ (panic m, x.1)
          ])
      go (ok cm, v) = fetch_loaded-Fetched n d cm v
      go (err e, v) = (refl, tt)
      go (panic m, v) = tt

  fetch_results-Numbered :
      (n : ℕ) (ds : List SwaggerDefinition) (w : K.World) {rs : List FetchResult} {w' : K.World}
      → fetch_results K L n ds w ≡ (ok rs, w')
      → Numbered n rs × (length rs ≡ length ds)
  unfolding fetch_results Fetched
  fetch_results-Numbered n [] w e =
      subst (λ rs. Numbered n rs × (length rs ≡ 0)) (return-injective e) (tt, refl)
  fetch_results-Numbered n (d ∷ ds) w e =
      let (r, w₁, e₁, f₁) =
        >>=-eq-ok (fetch_result K L n d) (λ r. fetch_results K L (suc n) ds >>= λ rs. pure (r ∷ rs))
          w e in
      let (rs, w₂, e₂, f₂) = >>=-eq-ok (fetch_results K L (suc n) ds) (λ rs. pure (r ∷ rs)) w₁ f₁ in
      let (id, usable) = subst (Fetched n) e₁ (fetch_result-Fetched n d w) in
      let (numbered, len) = fetch_results-Numbered (suc n) ds w₁ e₂ in
      subst (λ rs. Numbered n rs × (length rs ≡ length (d ∷ ds))) (return-injective f₂)
        ((id, usable, numbered), ap suc len)

  -- If reading the documents of the definitions returns, and the catalog has an entry for each
  -- definition, collecting them returns as well: it neither fails nor panics. Then the catalog has the
  -- error of each document at the entry of its definition, and the other entries are as before.
  pub collect_results-catalog :
      (ds : List SwaggerDefinition) (c : Collected) (w : K.World) {rs : List FetchResult}
      {w' : K.World}
      → fetch_results K L 0 ds w ≡ (ok rs, w')
      → length c.catalog ≡ length ds
      → (c' : Collected) × (collect_results c rs ≡ ok c') × (c'.catalog ≡ marked c.catalog rs)
  unfolding Marks
  collect_results-catalog ds c w {rs} e l =
      let (numbered, len) = fetch_results-Numbered 0 ds w e in
      collect_results-Marks c [] c.catalog rs refl (l ∙ sym len) numbered
