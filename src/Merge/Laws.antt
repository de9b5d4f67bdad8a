-- ===== src/Merge/Laws.antt =====
-- The merge against a specification without a map: each container of the base with the patch of its
-- name, then the patches of new names.
use swagger_hub_controller.Base.{
  String, ◌≡◌, refl, ◌∙◌, ap, sym, false, not, Option, none, some, List, [], ◌∷◌, ◌++◌, map,
  append-nil, append_assoc, Result, ok, err, panic, and_then, arith, ◌==◌, eq_iff, if◌then◌else◌,
  inl, inr, Option-cases, Bool-cases, fun_ext,
}
use swagger_hub_controller.Base.Dict.{Dict, lookup, insert, erase, lookup-insert, lookup-erase}
use swagger_hub_controller.Base.Lists.{contains, NodupNames, filter_by, All}
use swagger_hub_controller.Kube.Workload.{Container}
use swagger_hub_controller.Merge.{
  StrategicPatch, index_by_name, patch_container, patch_base, append_left, merge_patch_containers,
}

abbrev pub names : List Container → List String
names = map (λ c. c.name)

-- The patch of a name.
abbrev pub find_patch : String → List Container → Option Container
find_patch n [] = none
find_patch n (p ∷ patches) = if p.name == n then some p else find_patch n patches

-- All results, or the first error.
abbrev pub traverse : (Container → Result Container) → List Container → Result (List Container)
traverse f [] = ok []
traverse f (c ∷ cs) = and_then (f c) λ r. and_then (traverse f cs) λ rs. ok (r ∷ rs)

-- The patches of names that the base lacks.
abbrev pub fresh : List Container → List Container → List Container
fresh base = filter_by (λ p. not (contains p.name (names base)))

abbrev erase_all : List String → Dict Container → Dict Container
erase_all [] d = d
erase_all (n ∷ ns) d = erase_all ns (erase n d)

lookup-erase_all :
    (k : String) (ns : List String) (d : Dict Container)
    → lookup k (erase_all ns d) ≡ (if contains k ns then none else lookup k d)
lookup-erase_all k [] d = refl
lookup-erase_all k (n ∷ ns) d =
    ground (arith, lookup-erase_all k ns (erase n d), lookup-erase n k d)

erase_absent : (k : String) (d : Dict Container) → lookup k d ≡ none → erase k d ≡ d
unfolding lookup erase
erase_absent k [] h = refl
erase_absent k ((j, c) ∷ d) h = ground (arith, erase_absent k d)

find_patch_absent :
    (k : String) (patches : List Container)
    → contains k (names patches) ≡ false
    → find_patch k patches ≡ none
find_patch_absent k [] h = refl
find_patch_absent k (p ∷ patches) h = ground (arith, find_patch_absent k patches)

lookup-index_onto :
    (k : String) (patches : List Container) (d : Dict Container)
    → NodupNames (names patches)
    → lookup k (index_by_name patches d)
      ≡ elim (find_patch k patches) [ none ↦ lookup k d | some p ↦ some p ]
unfolding index_by_name
lookup-index_onto k [] d h = refl
lookup-index_onto k (p ∷ patches) d h = ground (
  arith,
  lookup-index_onto k patches (insert p.name p d),
  lookup-insert p.name k p d,
  find_patch_absent k patches,
  eq_iff p.name k,
)

lookup-index :
    (k : String) (patches : List Container)
    → NodupNames (names patches)
    → lookup k (index_by_name patches []) ≡ find_patch k patches
unfolding lookup
lookup-index k patches h = ground (arith, lookup-index_onto k patches [])

All-found-cons :
    (q : Container) (ps xs : List Container)
    → contains q.name (names xs) ≡ false
    → All (λ p. find_patch p.name ps ≡ some p) xs
    → All (λ p. find_patch p.name (q ∷ ps) ≡ some p) xs
All-found-cons q ps [] h a = tt
All-found-cons q ps (x ∷ xs) h a = (
  ground (arith, eq_iff x.name q.name, eq_iff q.name x.name),
  All-found-cons q ps xs (ground arith) a.1,
)

-- Each patch is the patch of its own name.
All-found :
    (ps : List Container) → NodupNames (names ps) → All (λ p. find_patch p.name ps ≡ some p) ps
All-found [] h = tt
All-found (q ∷ ps) h =
    (ground (arith, eq_iff q.name q.name), All-found-cons q ps ps h.0 (All-found ps h.1))

append_left-eq :
    (out : List Container) (d : Dict Container) (ns : List String) (ps : List Container)
    → All (λ p. lookup p.name d ≡ (if contains p.name ns then none else some p)) ps
    → append_left out d ps ≡ out ++ filter_by (λ p. not (contains p.name ns)) ps
unfolding append_left
append_left-eq out d ns [] h = sym (append-nil out)
append_left-eq out d ns (p ∷ ps) h = elim (Bool-cases (contains p.name ns)) [
  | inl e ↦ rw (h.0, append_left, e) (append_left-eq out d ns ps h.1)
  | inr e ↦
      rw (h.0, append_left, e)
        (append_left-eq (out ++ p ∷ []) d ns ps h.1 ∙ append_assoc out (p ∷ []) _)
]

All-left :
    (ns : List String) (all ps : List Container)
    → NodupNames (names all)
    → All (λ p. find_patch p.name all ≡ some p) ps
    → All
        (λ p.
          lookup p.name (erase_all ns (index_by_name all []))
          ≡ (if contains p.name ns then none else some p))
        ps
All-left ns all [] h a = tt
All-left ns all (p ∷ ps) h a =
    (rw (lookup-erase_all, lookup-index p.name all h, a.0) refl, All-left ns all ps h a.1)

module _ (P : StrategicPatch Container) where
  abbrev pub patched : Option Container → Container → Result Container
  patched none c = ok c
  patched (some p) c = patch_container P c p

  abbrev pub merge_spec : List Container → List Container → Result (List Container)
  merge_spec base patches =
      and_then (traverse (λ c. patched (find_patch c.name patches) c) base)
        λ out. ok (out ++ fresh base patches)

  traverse-erase :
      (n : String) (d : Dict Container) (cs : List Container)
      → contains n (names cs) ≡ false
      → traverse (λ c. patched (lookup c.name (erase n d)) c) cs
        ≡ traverse (λ c. patched (lookup c.name d) c) cs
  traverse-erase n d [] h = refl
  traverse-erase n d (c ∷ cs) h =
      ground
        (arith, traverse-erase n d cs, lookup-erase n c.name d, eq_iff c.name n, eq_iff n c.name)

  regroup :
      (t : Result (List Container)) (out : List Container) (c : Container) (d : Dict Container)
      → and_then {B = List Container × Dict Container} t (λ l. ok ((out ++ c ∷ []) ++ l, d))
        ≡ and_then (and_then {B = List Container} t λ rs. ok (c ∷ rs)) (λ l. ok (out ++ l, d))
  regroup (ok l) out c d = rw append_assoc
  regroup (err e) out c d = refl
  regroup (panic m) out c d = refl

  patch_step :
      (out : List Container) (d : Dict Container) (c : Container) (base : List Container)
      → NodupNames (names (c ∷ base))
      → (r : Result Container)
      → ((x : Container)
          → patch_base P (out ++ x ∷ []) (erase c.name d) base
            ≡ and_then
                (traverse (λ c'. patched (lookup c'.name (erase c.name d)) c') base)
                λ l. ok ((out ++ x ∷ []) ++ l, erase_all (names base) (erase c.name d)))
      → and_then r (λ x. patch_base P (out ++ x ∷ []) (erase c.name d) base)
        ≡ and_then
            (and_then r
              λ x. and_then (traverse (λ c. patched (lookup c.name d) c) base) λ rs. ok (x ∷ rs))
            λ l. ok (out ++ l, erase_all (names (c ∷ base)) d)
  patch_step out d c base h (ok x) ih =
      ih x ∙ rw (traverse-erase c.name d base h.0) (regroup _ out x _)
  patch_step out d c base h (err e) ih = refl
  patch_step out d c base h (panic m) ih = refl

  patch_base-eq :
      (out : List Container) (d : Dict Container) (base : List Container)
      → NodupNames (names base)
      → patch_base P out d base
        ≡ and_then
            (traverse (λ c. patched (lookup c.name d) c) base)
            λ l. ok (out ++ l, erase_all (names base) d)
  unfolding patch_base
  patch_base-eq out d [] h = rw append-nil
  patch_base-eq out d (c ∷ base) h = elim (Option-cases (lookup c.name d)) [
    | inl e ↦
        rw (e, patch_base, patch_base-eq (out ++ c ∷ []) d base h.1)
          (regroup _ out c _
            ∙ ap
                (λ z.
                  and_then
                    (and_then {B = List Container}
                      (traverse (λ c. patched (lookup c.name d) c) base) λ rs. ok (c ∷ rs))
                    λ l. ok (out ++ l, erase_all (names base) z))
                (sym (erase_absent c.name d e)))
    | inr (p, e) ↦
        rw (e, patch_base)
          (patch_step out d c base h (patch_container P c p)
            (λ r. patch_base-eq (out ++ r ∷ []) (erase c.name d) base h.1))
  ]

  -- Where no name stands twice in the base or in the patches, the loops over the map of patches
  -- are a merge by names: each container of the base is merged with the patch of its name, if
  -- there is one, in the order of the base and up to the first error or panic, and the patches of
  -- other names follow in their order.
  pub merge_patch_containers-eq_spec :
      (base patches : List Container)
      → NodupNames (names base)
      → NodupNames (names patches)
      → merge_patch_containers P base patches ≡ merge_spec base patches
  unfolding merge_patch_containers
  merge_patch_containers-eq_spec base patches hb hp =
      rw (patch_base-eq [] (index_by_name patches []) base hb, same_patches)
        (finish (traverse (λ c. patched (find_patch c.name patches) c) base))
    where
      same_patches :
          ◌≡◌ {A = Container → Result Container}
            (λ c. patched (lookup c.name (index_by_name patches [])) c)
            (λ c. patched (find_patch c.name patches) c)
      same_patches = fun_ext λ c. ap (λ o. patched o c) (lookup-index c.name patches hp)

      finish :
          (t : Result (List Container))
          → and_then
              (and_then {B = List Container × Dict Container} t
                λ l. ok (l, erase_all (names base) (index_by_name patches [])))
              (λ x. ok (append_left x.0 x.1 patches))
            ≡ and_then t (λ out. ok (out ++ fresh base patches))
      finish (ok l) = ap ok (
          append_left-eq l _ (names base) patches
            (All-left (names base) patches patches hp (All-found patches hp)))
      finish (err e) = refl
      finish (panic m) = refl
