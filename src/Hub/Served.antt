-- ===== src/Hub/Served.antt =====
-- The urls of the UI and the files of the volume belong together; the names of local copies.
use text.Mathlib.TextLemmas.{append_assoc as <>_assoc}
use swagger_hub_controller.Base.{
  String, ◌<>◌, List, [], ◌∷◌, ◌++◌, map, map-append, Option, none, some, ok, ◌≡◌, refl, ap, ap₂,
  sym, ◌∙◌, >>=-eq-ok, ◌>>=◌, ◌>>◌, return-injective, Bool, true, false, pure, Action,
  if◌then◌else◌, ◌==◌,
}
use swagger_hub_controller.Kube.Meta.{key_of}
use swagger_hub_controller.Kube.Workload.{config_map_object, ConfigMap}
use swagger_hub_controller.Kube.Client.{Client}
use swagger_hub_controller.Shared.Lookup.{find}
use swagger_hub_controller.Hub.Mounts.{
  ApiUrl, MountRef, api_url, volume_projection, copy_name, refine_ref, refine_refs, write_copy,
  local_copy,
}

-- The urls under which the projected files are served.
abbrev pub served : String → List MountRef → List (List String)
served frontend_url refs =
    map (λ r. map (λ i. frontend_url <> ("/definitions/" <> i.path)) (volume_projection r).items)
      refs

abbrev pub offered : List ApiUrl → List (List String)
offered urls = map (λ u. u.url ∷ []) urls

-- The same file, whichever config map it is projected from.
SameFile : MountRef → MountRef → Type 0
SameFile r s = (r.namespace ≡ s.namespace) × (r.name ≡ s.name)

served_one :
    (frontend_url : String) (ref ref' : MountRef)
    → SameFile ref' ref
    → offered (api_url frontend_url ref ∷ []) ≡ served frontend_url (ref' ∷ [])
unfolding api_url volume_projection SameFile
served_one frontend_url ref ref' s = rw (s.0, s.1) refl

grow :
    (frontend_url : String) (urls u : List ApiUrl) (refined r : List MountRef)
    → offered urls ≡ served frontend_url refined
    → offered u ≡ served frontend_url r
    → offered (urls ++ u) ≡ served frontend_url (refined ++ r)
grow frontend_url urls u refined r h k =
    map-append _ urls u ∙ ap₂ (λ x y. x ++ y) h k ∙ sym (map-append _ refined r)

module _ (K : Client) where
  refine_ref-SameFile :
      (hub_namespace : String) (ref : MountRef) (existing : ConfigMap) (w : K.World)
      {ref' : MountRef} {w' : K.World}
      → refine_ref K hub_namespace ref existing w ≡ (ok ref', w')
      → SameFile ref' ref
  unfolding refine_ref SameFile
  refine_ref-SameFile hub_namespace ref existing w {ref'} {w'} e =
      go (ref.namespace == hub_namespace) e
    where
      go :
          (b : Bool)
          → (if b
                then pure ref
                else write_copy K (local_copy hub_namespace existing)
                  >> pure (record ref {
                    config_map = copy_name existing.metadata.name existing.metadata.namespace;
                  }))
              w
            ≡ (ok ref', w')
          → SameFile ref' ref
      go true e =
          let p = return-injective e in (ap (λ r. r.namespace) (sym p), ap (λ r. r.name) (sym p))
      go false e =
          let (u, v, e₁, e₂) =
            >>=-eq-ok (write_copy K (local_copy hub_namespace existing))
              (λ _. pure (record ref {
                config_map = copy_name existing.metadata.name existing.metadata.namespace;
              }))
              w e in
          let p = return-injective e₂ in (ap (λ r. r.namespace) (sym p), ap (λ r. r.name) (sym p))

  refine_refs-served_from :
      (hub_namespace frontend_url : String) (urls : List ApiUrl) (refined refs : List MountRef)
      (w : K.World) {urls' : List ApiUrl} {refined' : List MountRef} {w' : K.World}
      → offered urls ≡ served frontend_url refined
      → refine_refs K hub_namespace frontend_url urls refined refs w ≡ (ok (urls', refined'), w')
      → offered urls' ≡ served frontend_url refined'
  unfolding refine_refs
  refine_refs-served_from hub_namespace frontend_url urls refined [] w h e =
      let p = return-injective e in
      ap offered (sym (ap (λ x. x.0) p)) ∙ h ∙ ap (served frontend_url) (ap (λ x. x.1) p)
  refine_refs-served_from hub_namespace frontend_url urls refined (ref ∷ refs) w {urls'} {refined'}
        {w'} h e =
      let (found, v, e₁, e₂) =
        >>=-eq-ok (find K.config_maps (record { namespace = ref.namespace; name = ref.config_map }))
          next w e in
      go
        (λ urls refined v h e.
          refine_refs-served_from hub_namespace frontend_url urls refined refs v h e)
        found v e₂
    where
      next : Option ConfigMap → Action K.World (List ApiUrl × List MountRef)
      next none = refine_refs K hub_namespace frontend_url urls refined refs
      next (some existing) = refine_ref K hub_namespace ref existing >>= λ ref'.
          refine_refs K hub_namespace frontend_url (urls ++ api_url frontend_url ref ∷ [])
            (refined ++ ref' ∷ []) refs

      go :
          ((urls : List ApiUrl) (refined : List MountRef) (v : K.World)
            → offered urls ≡ served frontend_url refined
            → refine_refs K hub_namespace frontend_url urls refined refs v
              ≡ (ok (urls', refined'), w')
            → offered urls' ≡ served frontend_url refined')
          → (found : Option ConfigMap) (v : K.World) → next found v ≡ (ok (urls', refined'), w')
          → offered urls' ≡ served frontend_url refined'
      go rest none v e = rest urls refined v h e
      go rest (some existing) v e =
          let (ref', v', e₁, e₂) =
            >>=-eq-ok (refine_ref K hub_namespace ref existing)
              (λ ref'.
                refine_refs K hub_namespace frontend_url (urls ++ api_url frontend_url ref ∷ [])
                  (refined ++ ref' ∷ []) refs)
              v e in
          rest (urls ++ api_url frontend_url ref ∷ []) (refined ++ ref' ∷ []) v'
            (grow frontend_url urls (api_url frontend_url ref ∷ []) refined (ref' ∷ []) h (
              served_one frontend_url ref ref'
                (refine_ref-SameFile hub_namespace ref existing v e₁)))
            e₂

  -- Whenever the loop over the references returns, the urls of the UI are those of the files that
  -- are projected into the volume, one by one and in the same order: every url has its file, and
  -- every file its url.
  pub refine_refs-served :
      (hub_namespace frontend_url : String) (refs : List MountRef) (w : K.World)
      {urls : List ApiUrl} {refined : List MountRef} {w' : K.World}
      → refine_refs K hub_namespace frontend_url [] [] refs w ≡ (ok (urls, refined), w')
      → offered urls ≡ served frontend_url refined
  refine_refs-served hub_namespace frontend_url refs w e =
      refine_refs-served_from hub_namespace frontend_url [] [] refs w refl e

copy_name_assoc :
    (name dashed namespace : String)
    → copy_name (name <> ("-" <> dashed)) namespace ≡ copy_name name (dashed <> ("-" <> namespace))
unfolding copy_name
copy_name_assoc name dashed namespace =
    <>_assoc name ("-" <> dashed) ("-" <> namespace)
    ∙ ap (λ t. name <> t) (<>_assoc "-" dashed ("-" <> namespace))

-- Two config maps are copied to one key where the name of the first is that of the second with a
-- dash and a text behind it, and the namespace of the second is that of the first with this text
-- and a dash before it.
pub key_of-local_copy_collision :
    (hub_namespace dashed : String) (a b : ConfigMap)
    → a.metadata.name ≡ b.metadata.name <> ("-" <> dashed)
    → b.metadata.namespace ≡ dashed <> ("-" <> a.metadata.namespace)
    → key_of (local_copy hub_namespace a) ≡ key_of (local_copy hub_namespace b)
unfolding local_copy
key_of-local_copy_collision hub_namespace dashed a b p q =
    ap (λ n. record { namespace = hub_namespace; name = n })
      (ap (λ n. copy_name n a.metadata.namespace) p
        ∙ copy_name_assoc b.metadata.name dashed a.metadata.namespace
        ∙ ap (copy_name b.metadata.name) (sym q))
