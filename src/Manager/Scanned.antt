-- ===== src/Manager/Scanned.antt =====
-- What one directory adds to the lists of GetModelStateUpdate
-- (src/core/model_manager/model_manager.cc).
use model_inference_server.Common.{
  ◌≡◌, sym, subst, ◌≢◌, ◌↔◌, ◌⊎◌, inl, inr, true, Bool-cases, Option, none, some, String, List, [],
  ◌∷◌, contains, ℤ, negsuc, eqb_ℤ, int_key, arith, str_eq, str_eq_iff, string_key, eqb_ℤ_iff,
}
use model_inference_server.Common.Dict
use model_inference_server.Common.Dict.{Dict}
use model_inference_server.Outcome.{returns}
use model_inference_server.Manager.{
  World, ModelRunContext, ModelLoadInfo, StateUpdate, read_config, get_highest_version, classify,
}

-- A model with a version in a list.
abbrev pub Listed : String → ℤ → List ModelLoadInfo → Type 0
Listed name version [] = ⊥
Listed name version (i ∷ is) =
    ((i.model_name ≡ name) × (i.model_version ≡ version)) ⊎ Listed name version is

-- A configuration that is parsed, and a greatest version, which is not -1.
abbrev pub Offers : World → String → String → ℤ → Type 0
Offers w repo name version =
    (read_config w repo name ≢ none)
    × (get_highest_version w repo name ≡ returns version)
    × (version ≢ negsuc 0)

pub only_one :
    (w : World) (repo d : String) (v version : ℤ)
    → Offers w repo d v
    → Offers w repo d version
    → version ≡ v
only_one w repo d v version a b = ground (arith, a, b)

module _ {P : Type 0} where
  -- No entry, or one with another version.
  abbrev pub Outdated : Option (ModelRunContext P) → ℤ → Type 0
  Outdated none version = ⊥
  Outdated (some ctx) version = ctx.backend_info.model_version ≢ version

  -- What the lists hold of a name and a version, after the directories in `dirs`.
  abbrev pub Scanned :
      World
      → String
      → Dict String (ModelRunContext P)
      → List String
      → String
      → ℤ
      → StateUpdate
      → Type 0
  Scanned w repo m dirs name version u =
      (Listed name version u.added
        ↔ ((contains dirs name ≡ true) × Offers w repo name version × (Dict.find name m ≡ none)))
      × (Listed name version u.updated ↔ (
          (contains dirs name ≡ true)
          × Offers w repo name version
          × Outdated (Dict.find name m) version))

  classified_here :
      (w : World) (repo : String) (m : Dict String (ModelRunContext P)) (dirs : List String)
      (d : String) (v : ℤ) (u : StateUpdate) (version : ℤ) (o : Option (ModelRunContext P))
      → Dict.find d m ≡ o
      → Offers w repo d v
      → Scanned w repo m dirs d version u
      → Scanned w repo m (d ∷ dirs) d version (classify d v o u)
  classified_here w repo m dirs d v u version none e offers s =
      elim (Bool-cases (eqb_ℤ version v)) [
        | inl now ↦
            let mine = subst (Offers w repo d) (sym ((eqb_ℤ_iff version v).0 now)) offers in
            ground (arith, s, mine, e, str_eq_iff d d, eqb_ℤ_iff version v)
        | inr never ↦
            let barred : ¬ Offers w repo d version =
              λ q. cc (never, (eqb_ℤ_iff version v).1 (only_one w repo d v version offers q)) in
            ground (arith, s, barred, e, str_eq_iff d d, eqb_ℤ_iff version v)
      ]
  classified_here w repo m dirs d v u version (some ctx) e offers s =
      elim (Bool-cases (eqb_ℤ version v)) [
        | inl now ↦
            let mine = subst (Offers w repo d) (sym ((eqb_ℤ_iff version v).0 now)) offers in
            elim (Bool-cases (eqb_ℤ ctx.backend_info.model_version v)) [
              | inl current ↦ ground (
                arith,
                s,
                mine,
                e,
                str_eq_iff d d,
                eqb_ℤ_iff version v,
                eqb_ℤ_iff ctx.backend_info.model_version v,
              )
              | inr old ↦ ground (
                arith,
                s,
                mine,
                e,
                str_eq_iff d d,
                eqb_ℤ_iff version v,
                eqb_ℤ_iff ctx.backend_info.model_version v,
              )
            ]
        | inr never ↦
            let barred : ¬ Offers w repo d version =
              λ q. cc (never, (eqb_ℤ_iff version v).1 (only_one w repo d v version offers q)) in
            elim (Bool-cases (eqb_ℤ ctx.backend_info.model_version v)) [
              | inl current ↦ ground (arith, s, barred, e, str_eq_iff d d)
              | inr old ↦ ground (arith, s, barred, e, str_eq_iff d d, eqb_ℤ_iff version v)
            ]
      ]

  pub classified :
      (w : World) (repo : String) (m : Dict String (ModelRunContext P)) (dirs : List String)
      (d : String) (v : ℤ) (u : StateUpdate) (name : String) (version : ℤ)
      (o : Option (ModelRunContext P))
      → Dict.find d m ≡ o
      → Offers w repo d v
      → Scanned w repo m dirs name version u
      → Scanned w repo m (d ∷ dirs) name version (classify d v o u)
  classified w repo m dirs d v u name version none e offers s = elim (Bool-cases (str_eq d name)) [
    | inr other ↦ ground (arith, s, str_eq_iff d name)
    | inl same ↦
        let here = (str_eq_iff d name).0 same in
        subst (λ n. Scanned w repo m (d ∷ dirs) n version (classify {P = P} d v none u)) here
          (classified_here w repo m dirs d v u version none e offers
            (subst (λ n. Scanned w repo m dirs n version u) (sym here) s))
  ]
  classified w repo m dirs d v u name version (some ctx) e offers s =
      elim (Bool-cases (str_eq d name)) [
        | inr other ↦ elim (Bool-cases (eqb_ℤ ctx.backend_info.model_version v)) [
          | inl current ↦ ground (arith, s, str_eq_iff d name)
          | inr old ↦ ground (arith, s, str_eq_iff d name)
        ]
        | inl same ↦
            let here = (str_eq_iff d name).0 same in
            subst (λ n. Scanned w repo m (d ∷ dirs) n version (classify {P = P} d v (some ctx) u))
              here
              (classified_here w repo m dirs d v u version (some ctx) e offers
                (subst (λ n. Scanned w repo m dirs n version u) (sym here) s))
      ]

  -- A directory whose configuration is not parsed, or that has no version, adds nothing.
  pub passed_over :
      (w : World) (repo : String) (m : Dict String (ModelRunContext P)) (dirs : List String)
      (d : String) (u : StateUpdate) (name : String) (version : ℤ)
      → ((v : ℤ) → ¬ Offers w repo d v)
      → Scanned w repo m dirs name version u
      → Scanned w repo m (d ∷ dirs) name version u
  passed_over w repo m dirs d u name version refuses s = elim (Bool-cases (str_eq d name)) [
    | inr other ↦ ground (arith, s)
    | inl same ↦
        let none_here : ¬ Offers w repo name version =
          subst (λ n. ¬ Offers w repo n version) ((str_eq_iff d name).0 same) (refuses version) in
        ground (arith, s, none_here)
  ]
