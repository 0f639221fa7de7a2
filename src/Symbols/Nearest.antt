-- ===== src/Symbols/Nearest.antt =====
-- arch/X86_64/stack.c: the function whose name stands for an address.
use synos.Prelude.{
  ℕ, ◌≤◌, ◌<◌, ◌≡◌, refl, ap, sym, subst, not, ltb→lt, ltb→le, Bool, true, ◌||◌, ◌⊎◌, inl, inr,
  List, [], ◌∷◌, ltb, ◌==◌, sub64, Bool-cases, arith, some, ==→eq,
}
use synos.Symbols.{Symbol, nearest, other_type, trace_name}

-- How far an address lies behind a symbol.
abbrev pub distance : ℕ → Symbol → ℕ
distance address s = sub64 address s.st_value

-- A function, or a symbol without a type, that does not lie behind the address.
abbrev pub is_candidate : ℕ → Symbol → Bool
is_candidate address s = not (ltb address s.st_value || other_type s)

-- No candidate lies closer than a bound.
abbrev pub AllFar : ℕ → ℕ → List Symbol → Type 0
AllFar address bound [] = Unit
AllFar address bound (s ∷ ss) =
    (is_candidate address s ≡ true → bound ≤ distance address s) × AllFar address bound ss

-- `r` is a candidate of the list.
pub data Among (address : ℕ) (r : Symbol) : List Symbol → Type 0 where
  first_one : {ss : List Symbol} → is_candidate address r ≡ true → Among address r (r ∷ ss)
  later : {s : Symbol} {ss : List Symbol} → Among address r ss → Among address r (s ∷ ss)

-- `r` is `current` or a candidate of the list, and no candidate lies closer to the address.
pub record IsNearest (address : ℕ) (current : Symbol) (ss : List Symbol) (r : Symbol) : Type 0 where
  pub from : (r ≡ current) ⊎ Among address r ss
  pub no_farther : distance address r ≤ distance address current
  pub far : AllFar address (distance address r) ss

AllFar-zero : (address : ℕ) (ss : List Symbol) → AllFar address 0 ss
AllFar-zero address [] = tt
AllFar-zero address (s ∷ ss) = ((λ c. omega arith), AllFar-zero address ss)

-- A candidate that is not farther comes before.
closer-IsNearest :
    (address : ℕ) (current s r : Symbol) (ss : List Symbol)
    → is_candidate address s ≡ true
    → distance address s < distance address current
    → IsNearest address s ss r
    → IsNearest address current (s ∷ ss) r
closer-IsNearest address current s r ss c lt n = record {
  from = elim n.from [
    | inl e ↦ inr (subst (λ a. Among address a (s ∷ ss)) (sym e) (first_one c))
    | inr m ↦ inr (later m)
  ];
  no_farther = omega (arith, n.no_farther, lt);
  far = ((λ c. n.no_farther), n.far);
}

passed-IsNearest :
    (address : ℕ) (current s r : Symbol) (ss : List Symbol)
    → (is_candidate address s ≡ true → distance address current ≤ distance address s)
    → IsNearest address current ss r
    → IsNearest address current (s ∷ ss) r
passed-IsNearest address current s r ss farther n = record {
  from = elim n.from [ inl e ↦ inl e | inr m ↦ inr (later m) ];
  no_farther = n.no_farther;
  far = ((λ c. omega (arith, n.no_farther, farther c)), n.far);
}

nearest-IsNearest :
    (address : ℕ) (current : Symbol) (ss : List Symbol)
    → IsNearest address current ss (nearest address current (distance address current) ss)
unfolding nearest
nearest-IsNearest address current [] = record {
  from = inl refl;
  no_farther = omega arith;
  far = tt;
}
nearest-IsNearest address current (s ∷ ss) =
    elim (Bool-cases (ltb address s.st_value || other_type s)) [
      | inl no_candidate ↦ rw no_candidate (
          passed-IsNearest address current s _ ss (λ c. absurd (cc (no_candidate, c)))
            (nearest-IsNearest address current ss))
      | inr candidate ↦ elim (Bool-cases (ltb (distance address s) (distance address current))) [
        | inr farther ↦
            rw (candidate, farther)
              (passed-IsNearest address current s _ ss (λ c. ltb→le _ _ farther)
                (nearest-IsNearest address current ss))
        | inl closer ↦ elim (Bool-cases (distance address s == 0)) [
          | inl exact ↦
              rw (candidate, closer, exact)
                (closer-IsNearest address current s s ss (ap not candidate) (ltb→lt _ _ closer)
                  (record {
                    from = inl refl;
                    no_farther = omega arith;
                    far =
                        subst (λ d. AllFar address d ss) (sym (==→eq (distance address s) 0 exact))
                          (AllFar-zero address ss);
                  }))
          | inr behind ↦
              rw (candidate, closer, behind)
                (closer-IsNearest address current s _ ss (ap not candidate) (ltb→lt _ _ closer)
                  (nearest-IsNearest address s ss))
        ]
      ]
    ]

-- `TraceName` of a table that is not empty names its first symbol or a candidate behind it, and no
-- candidate lies closer before the address: one that is a function or has no type, and does not lie
-- behind the address.
pub trace_name-IsNearest :
    (address : ℕ) (s : Symbol) (ss : List Symbol)
    → (r : Symbol) × (trace_name address (s ∷ ss) ≡ some r.st_name) × IsNearest address s ss r
unfolding trace_name
trace_name-IsNearest address s ss =
    (nearest address s (distance address s) ss, refl, nearest-IsNearest address s ss)
