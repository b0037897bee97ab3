-- ===== src/Manager/Ownership.antt =====
-- Every entry of ModelManager's map (src/core/model_manager/model_manager.cc) owns a live backend of its
-- own, and its scheduler calls that one.
use model_inference_server.Common.{
  ℕ, ◌≤◌, ◌<◌, ◌≡◌, sym, ap, ◌∙◌, subst, ◌≢◌, ◌⊎◌, inl, inr, Bool-cases, none, some, String, arith,
  ltb, string_key, nat_key, str_eq, str_eq_iff, nat_eq_iff, if◌then◌else◌,
}
use model_inference_server.Common.Dict
use model_inference_server.Common.Dict.{
  Dict, IsDict, find-put, find-insert, find-erase, put-IsDict, insert-IsDict, erase-IsDict,
}
use model_inference_server.Backend.{ModelBackend}
use model_inference_server.Manager.{ModelRunContext, ModelManager, allocate, release_backend}

module _ {P : Type 0} where
  -- An entry: its function is bound to its backend, which is live and made for its name and version.
  pub record Owns (heap : Dict ℕ ModelBackend) (name : String) (ctx : ModelRunContext P)
      : Type 0 where
    pub bound : ctx.scheduler.infer_func ≡ ctx.backend_info.backend
    pub live : ModelBackend
    pub at : Dict.find ctx.backend_info.backend heap ≡ some live
    pub named : live.model_name ≡ name
    pub versioned : live.model_version ≡ ctx.backend_info.model_version

  pub record Sound (m : ModelManager P) : Type 0 where
    pub map_ok : IsDict m.model_map
    pub heap_ok : IsDict m.heap
    pub fresh : (a : ℕ) → m.next_address ≤ a → Dict.find a m.heap ≡ none
    pub owned :
        (n : String) (ctx : ModelRunContext P)
        → Dict.find n m.model_map ≡ some ctx
        → Owns m.heap n ctx
    pub apart :
        (n k : String) (c d : ModelRunContext P)
        → Dict.find n m.model_map ≡ some c
        → Dict.find k m.model_map ≡ some d
        → c.backend_info.backend ≡ d.backend_info.backend
        → n ≡ k

  -- Every backend that an entry points to is below the next address.
  pub below :
      {m : ModelManager P} (v : Sound m) (n : String) (ctx : ModelRunContext P)
      → Dict.find n m.model_map ≡ some ctx
      → ctx.backend_info.backend < m.next_address
  below {m} v n ctx h = elim (Bool-cases (ltb ctx.backend_info.backend m.next_address)) [
    | inl lt ↦ ground arith
    | inr ge ↦ absurd (cc (v.fresh ctx.backend_info.backend (ground arith), (v.owned n ctx h).at))
  ]

  allocate-Owns :
      {m : ModelManager P} (v : Sound m) (b : ModelBackend) (n : String) (ctx : ModelRunContext P)
      → Dict.find n m.model_map ≡ some ctx
      → Owns (allocate m b).heap n ctx
  allocate-Owns {m} v b n ctx h =
      let o = v.owned n ctx h in
      let lt = below v n ctx h in
      record {
        bound = o.bound;
        live = o.live;
        at = ground (arith, o.at);
        named = o.named;
        versioned = o.versioned;
      }

  pub allocate-Sound : {m : ModelManager P} (v : Sound m) (b : ModelBackend) → Sound (allocate m b)
  allocate-Sound {m} v b = record {
    map_ok = v.map_ok;
    heap_ok = (v.fresh m.next_address (omega arith), v.heap_ok);
    fresh = λ a h. ground (arith, v.fresh a);
    owned = allocate-Owns v b;
    apart = v.apart;
  }

  -- A backend that no entry points to may be released.
  pub release-Sound :
      {m : ModelManager P} (v : Sound m) (a : ℕ)
      → ((n : String) (ctx : ModelRunContext P)
          → Dict.find n m.model_map ≡ some ctx
          → ctx.backend_info.backend ≢ a)
      → Sound (release_backend m a)
  release-Sound {m} v a unused = record {
    map_ok = v.map_ok;
    heap_ok = erase-IsDict a m.heap v.heap_ok;
    fresh = λ c h. find-erase a c m.heap v.heap_ok ∙ ground (arith, v.fresh c);
    owned = λ n ctx h.
        let o = v.owned n ctx h in
        record {
          bound = o.bound;
          live = o.live;
          at =
              find-erase a ctx.backend_info.backend m.heap v.heap_ok
              ∙ ground (arith, o.at, unused n ctx h, nat_eq_iff a ctx.backend_info.backend);
          named = o.named;
          versioned = o.versioned;
        };
    apart = v.apart;
  }

  -- A map in which one entry is set.
  pub record IsSetAt (m : ModelManager P) (name : String) (ctx : ModelRunContext P)
      (after : Dict String (ModelRunContext P)) : Type 0 where
    pub ok : IsDict after
    pub law :
        (j : String)
        → Dict.find j after ≡ (if str_eq name j then some ctx else Dict.find j m.model_map)

  pub set-cases :
      {m : ModelManager P} {name : String} {ctx : ModelRunContext P}
      {after : Dict String (ModelRunContext P)} (s : IsSetAt m name ctx after) (n : String)
      (c : ModelRunContext P)
      → Dict.find n after ≡ some c
      → ((name ≡ n) × (c ≡ ctx)) ⊎ ((name ≢ n) × (Dict.find n m.model_map ≡ some c))
  set-cases {m} {name} {ctx} s n c h = elim (Bool-cases (str_eq name n)) [
    | inl same ↦ inl ((str_eq_iff name n).0 same, ground (arith, s.law n))
    | inr other ↦ inr (ground (arith, str_eq_iff name n), ground (arith, s.law n))
  ]

  pub set-Sound :
      {m : ModelManager P} (v : Sound m) (name : String) (ctx : ModelRunContext P)
      (after : Dict String (ModelRunContext P))
      → IsSetAt m name ctx after
      → Owns m.heap name ctx
      → ((n : String) (c : ModelRunContext P)
          → name ≢ n
          → Dict.find n m.model_map ≡ some c
          → c.backend_info.backend ≢ ctx.backend_info.backend)
      → Sound (record m { model_map = after })
  set-Sound {m} v name ctx after s o own = record {
    map_ok = s.ok;
    heap_ok = v.heap_ok;
    fresh = v.fresh;
    owned = λ n c h. elim (set-cases s n c h) [
      | inl (same, e) ↦ subst (λ k. Owns m.heap k c) same (subst (Owns m.heap name) (sym e) o)
      | inr (other, old) ↦ v.owned n c old
    ];
    apart = λ n k c d hc hd e. elim (set-cases s n c hc) [
      | inl (sn, en) ↦ elim (set-cases s k d hd) [
        | inl (sk, ek) ↦ sym sn ∙ sk
        | inr (ok, dk) ↦ absurd (own k d ok dk (sym e ∙ ap (λ x. x.backend_info.backend) en))
      ]
      | inr (on, dn) ↦ elim (set-cases s k d hd) [
        | inl (sk, ek) ↦ absurd (own n c on dn (e ∙ ap (λ x. x.backend_info.backend) ek))
        | inr (ok, dk) ↦ v.apart n k c d dn dk e
      ]
    ];
  }
