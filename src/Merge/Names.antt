-- ===== src/Merge/Names.antt =====
-- Which containers a merge returns, also where names repeat.
use swagger_hub_controller.Base.{
  ok-injective, String, ◌≡◌, refl, ◌∙◌, ap, sym, Bool, true, false, not, none, some, List, [], ◌∷◌,
  ◌++◌, append-nil, Result, ok, err, panic, and_then, arith, eq_iff, if◌then◌else◌, inl, inr,
  Option-cases, is_some,
}
use swagger_hub_controller.Base.Dict.{Dict, lookup, insert, erase, lookup-insert, lookup-erase}
use swagger_hub_controller.Base.Lists.{contains, filter_by}
use swagger_hub_controller.Kube.Workload.{Container}
use swagger_hub_controller.Merge.{
  StrategicPatch, index_by_name, patch_container, patch_base, append_left, merge_patch_containers,
}
use swagger_hub_controller.Merge.Laws.{names}

-- Every entry stands under its container's name.
Keyed : Dict Container → Type 0
Keyed d = (k : String) (c : Container) → lookup k d ≡ some c → c.name ≡ k

insert-Keyed : (c : Container) (d : Dict Container) → Keyed d → Keyed (insert c.name c d)
unfolding Keyed
insert-Keyed c d h k x e = ground (arith, lookup-insert c.name k c d, eq_iff c.name k, h k x)

erase-Keyed : (n : String) (d : Dict Container) → Keyed d → Keyed (erase n d)
unfolding Keyed
erase-Keyed n d h k x e = ground (arith, lookup-erase n k d, h k x)

index-Keyed : (ps : List Container) (d : Dict Container) → Keyed d → Keyed (index_by_name ps d)
unfolding index_by_name
index-Keyed [] d h = h
index-Keyed (p ∷ ps) d h = index-Keyed ps (insert p.name p d) (insert-Keyed p d h)

-- The names that a map holds.
holds : Dict Container → String → Bool
holds d k = is_some (lookup k d)

holds-none : (k : String) (d : Dict Container) → lookup k d ≡ none → holds d k ≡ false
unfolding holds
holds-none k d e = rw e

holds-some :
    (k : String) (d : Dict Container) (c : Container) → lookup k d ≡ some c → holds d k ≡ true
unfolding holds
holds-some k d c e = rw e

holds-index :
    (k : String) (ps : List Container) (d : Dict Container)
    → holds (index_by_name ps d) k ≡ (if contains k (names ps) then true else holds d k)
unfolding index_by_name holds
holds-index k [] d = refl
holds-index k (p ∷ ps) d =
    ground (arith, holds-index k ps (insert p.name p d), lookup-insert p.name k p d)

names-snoc :
    (out : List Container) (c : Container) (ns : List String)
    → names (out ++ c ∷ []) ++ ns ≡ names out ++ c.name ∷ ns
names-snoc [] c ns = refl
names-snoc (x ∷ out) c ns = ap (◌∷◌ x.name) (names-snoc out c ns)

names-append_left :
    (out : List Container) (d : Dict Container) (ps : List Container)
    → Keyed d
    → names (append_left out d ps) ≡ names out ++ filter_by (holds d) (names ps)
unfolding append_left Keyed
names-append_left out d [] h = sym (append-nil _)
names-append_left out d (p ∷ ps) h = elim (Option-cases (lookup p.name d)) [
  | inl e ↦ rw (e, append_left) (rw (holds-none p.name d e) (names-append_left out d ps h))
  | inr (c, e) ↦
      rw (e, append_left)
        (rw (holds-some p.name d c e) (
          names-append_left (out ++ c ∷ []) d ps h
          ∙ names-snoc out c _
          ∙ ap (λ n. names out ++ n ∷ filter_by (holds d) (names ps)) (h p.name c e)))
]

filter_by-eq :
    (f g : String → Bool) (ns : List String)
    → ((n : String) → contains n ns ≡ true → f n ≡ g n)
    → filter_by f ns ≡ filter_by g ns
filter_by-eq f g [] h = refl
filter_by-eq f g (n ∷ ns) h =
    rw (h n (ground (arith, eq_iff n n)), filter_by-eq f g ns (λ m e. h m (ground arith))) refl

module _ (P : StrategicPatch Container) where
  -- A merge keeps the name that container and patch share.
  abbrev pub KeepsName : Type 0
  KeepsName = (c p r : Container) → p.name ≡ c.name → patch_container P c p ≡ ok r → r.name ≡ c.name

  -- What a successful second loop has appended, and what it has left in the map.
  abbrev Patched :
      List Container
      → Dict Container
      → List Container
      → Result (List Container × Dict Container)
      → Type 0
  Patched out d base (ok (out', d')) =
      (names out' ≡ names out ++ names base)
      × Keyed d'
      × ((k : String) → holds d' k ≡ (if contains k (names base) then false else holds d k))
  Patched out d base (err e) = Unit
  Patched out d base (panic m) = Unit

  patch_base-Patched :
      (keeps : KeepsName) (out : List Container) (d : Dict Container) (base : List Container)
      → Keyed d
      → Patched out d base (patch_base P out d base)
  unfolding patch_base Keyed holds
  patch_base-Patched keeps out d [] h = (sym (append-nil _), h, λ k. refl)
  patch_base-Patched keeps out d (c ∷ base) h = elim (Option-cases (lookup c.name d)) [
    | inl e ↦ rw (e, patch_base) (skip _ (patch_base-Patched keeps (out ++ c ∷ []) d base h) e)
    | inr (p, e) ↦
        rw (e, patch_base)
          (step (patch_container P c p) refl e (λ r.
            patch_base-Patched keeps (out ++ r ∷ []) (erase c.name d) base
              (erase-Keyed c.name d h)))
  ]
    where
      skip :
          (r : Result (List Container × Dict Container))
          → Patched (out ++ c ∷ []) d base r
          → lookup c.name d ≡ none
          → Patched out d (c ∷ base) r
      skip (ok (out', d')) (ns, keyed, left) e =
          (ns ∙ names-snoc out c _, keyed, λ k. ground (arith, left k, eq_iff c.name k))
      skip (err m) h e = tt
      skip (panic m) h e = tt

      take :
          (x : Container) (r : Result (List Container × Dict Container))
          → x.name ≡ c.name
          → Patched (out ++ x ∷ []) (erase c.name d) base r
          → Patched out d (c ∷ base) r
      take x (ok (out', d')) n (ns, keyed, left) = (
        ns ∙ names-snoc out x _ ∙ ap (λ n. names out ++ n ∷ names base) n,
        keyed,
        λ k. ground (arith, left k, lookup-erase c.name k d),
      )
      take x (err m) n h = tt
      take x (panic m) n h = tt

      step :
          {p : Container} (r : Result Container)
          → patch_container P c p ≡ r
          → lookup c.name d ≡ some p
          → ((x : Container)
              → Patched
                  (out ++ x ∷ [])
                  (erase c.name d)
                  base
                  (patch_base P (out ++ x ∷ []) (erase c.name d) base))
          → Patched out d
              (c ∷ base)
              (and_then r λ x. patch_base P (out ++ x ∷ []) (erase c.name d) base)
      step {p} (ok x) e l ih = take x _ (keeps c p x (h c.name p l) e) (ih x)
      step (err m) e l ih = tt
      step (panic m) e l ih = tt

  -- Where merging two containers of one name keeps the name, the names after a merge that returns
  -- are those of the base, in order, and then those of the patches that the base lacks, in order.
  pub names-merge_patch_containers :
      KeepsName
      → (base patches : List Container) {out : List Container}
      → merge_patch_containers P base patches ≡ ok out
      → names out ≡ names base ++ filter_by (λ n. not (contains n (names base))) (names patches)
  unfolding merge_patch_containers Keyed
  names-merge_patch_containers keeps base patches {out} e =
      finish (patch_base P [] (index_by_name patches []) base)
        (patch_base-Patched keeps [] (index_by_name patches []) base
          (index-Keyed patches [] (λ k c e. cc)))
        e
    where
      kept :
          (d : Dict Container)
          → ((k : String)
              → holds d k
                ≡ (if contains k (names base) then false else holds (index_by_name patches []) k))
          → (n : String) → contains n (names patches) ≡ true
          → holds d n ≡ not (contains n (names base))
      kept d h n m = ground (arith, h n, holds-index n patches [])

      finish :
          (r : Result (List Container × Dict Container))
          → Patched [] (index_by_name patches []) base r
          → and_then r (λ x. ok (append_left x.0 x.1 patches)) ≡ ok out
          → names out ≡ names base ++ filter_by (λ n. not (contains n (names base))) (names patches)
      finish (ok (out', d)) (ns, keyed, left) e = rw (← ok-injective e) (
          names-append_left out' d patches keyed
          ∙ rw ns (ap (◌++◌ (names base)) (filter_by-eq _ _ (names patches) (kept d left))))
      finish (err m) h e = cc
      finish (panic m) h e = cc
