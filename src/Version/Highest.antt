-- ===== src/Version/Highest.antt =====
-- The version that GetHighestVersion (src/core/model_manager/model_manager.cc) chooses.
use model_inference_server.Common.{
  ℕ, ◌≡◌, refl, ◌∙◌, sym, ap, leb, ltb, nat_eq, ◌^◌, if◌then◌else◌, ◌⊎◌, inl, inr, List, [], ◌∷◌,
  String, All, contains, arith, ℤ, ◌≤ℤ◌, ltb_ℤ, Bool, true, false, Bool-cases, str_eq_iff,
  string_key,
}
use model_inference_server.Outcome.{Outcome, returns, throws, invalid_argument, out_of_range}
use model_inference_server.Version.{
  stoll, codes, skip_spaces, highest_of, signed, in_range, digits_value,
}

-- std::stoll yields a number or one of the two exceptions that the loop catches.
abbrev Caught : Outcome ℤ → Type 0
Caught r = ((v : ℤ) × (r ≡ returns v)) ⊎ (r ≡ throws invalid_argument) ⊎ (r ≡ throws out_of_range)

Caught-if : (b : Bool) {x y : Outcome ℤ} → Caught x → Caught y → Caught (if b then x else y)
Caught-if true hx hy = hx
Caught-if false hx hy = hy

in_range-Caught : (negative : Bool) (d : ℕ × ℕ) → Caught (in_range negative d)
unfolding in_range
in_range-Caught negative (seen, n) = Caught-if (nat_eq seen 0) (inr (inl refl)) (
    Caught-if negative (Caught-if (leb n (2 ^ 63)) (inl (_, refl)) (inr (inr refl)))
      (Caught-if (ltb n (2 ^ 63)) (inl (_, refl)) (inr (inr refl))))

signed-Caught : (cs : List ℕ) → Caught (signed cs)
unfolding signed
signed-Caught [] = inr (inl refl)
signed-Caught (c ∷ cs) = Caught-if (nat_eq c b'-') (in_range-Caught true (digits_value 0 0 cs)) (
    Caught-if (nat_eq c b'+') (in_range-Caught false (digits_value 0 0 cs))
      (in_range-Caught false (digits_value 0 0 (c ∷ cs))))

stoll-Caught : (dir : String) → Caught (stoll dir)
unfolding stoll
stoll-Caught dir = signed-Caught (skip_spaces (codes dir))

-- A name that stands for a version stands for one that is not above a limit.
abbrev pub NotAbove : ℤ → Outcome ℤ → Type 0
NotAbove r (returns v) = v ≤ℤ r
NotAbove r (throws e) = Unit

-- The greatest of a start value and of the versions that the names stand for.
pub record IsHighest (start : ℤ) (dirs : List String) (r : ℤ) : Type 0 where
  pub above_start : start ≤ℤ r
  pub above_all : All (λ d. NotAbove r (stoll d)) dirs
  pub reached : (r ≡ start) ⊎ ((d : String) × (contains dirs d ≡ true) × (stoll d ≡ returns r))

skipped :
    (start r : ℤ) (d : String) (dirs : List String)
    → NotAbove r (stoll d)
    → IsHighest start dirs r
    → IsHighest start (d ∷ dirs) r
skipped start r d dirs low h = record {
  above_start = h.above_start;
  above_all = (low, h.above_all);
  reached = elim h.reached [ inl e ↦ inl e | inr (d', m, e) ↦ inr (d', ground arith, e) ];
}

raised :
    (start v r : ℤ) (d : String) (dirs : List String)
    → stoll d ≡ returns v
    → start ≤ℤ v
    → IsHighest v dirs r
    → IsHighest start (d ∷ dirs) r
raised start v r d dirs e up h = record {
  above_start = omega (arith, h.above_start);
  above_all = (rw e h.above_start, h.above_all);
  reached = elim h.reached [
    | inl q ↦ inr (d, ground (arith, str_eq_iff d d), e ∙ ap returns (sym q))
    | inr (d', m, q) ↦ inr (d', ground arith, q)
  ];
}

-- From any start value, the loop ends with the greatest of it and of the versions; a name that is no
-- number, or a number out of range, is passed over.
pub highest_of_lem :
    (dirs : List String) (start : ℤ)
    → (r : ℤ) × (highest_of dirs start ≡ returns r) × IsHighest start dirs r
unfolding highest_of
highest_of_lem [] start =
    (start, refl, record { above_start = omega arith; above_all = tt; reached = inl refl })
highest_of_lem (d ∷ dirs) start = elim (stoll-Caught d) [
  | inl (v, e) ↦ elim (Bool-cases (ltb_ℤ start v)) [
    | inl up ↦
        let (r, er, h) = highest_of_lem dirs v in
        (r, rw e (rw up er), raised start v r d dirs e (ground arith) h)
    | inr down ↦
        let (r, er, h) = highest_of_lem dirs start in
        (r, rw e (rw down er), skipped start r d dirs (rw e (ground (arith, h.above_start))) h)
  ]
  | inr (inl e) ↦
      let (r, er, h) = highest_of_lem dirs start in (r, rw e er, skipped start r d dirs (rw e tt) h)
  | inr (inr e) ↦
      let (r, er, h) = highest_of_lem dirs start in (r, rw e er, skipped start r d dirs (rw e tt) h)
]
