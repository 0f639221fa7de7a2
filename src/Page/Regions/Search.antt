-- ===== src/Page/Regions/Search.antt =====
-- kernel/page.c: what the searches over the list of regions find.
use synos.Prelude.{
  ℕ, zero, suc, ◌+◌, ◌≤◌, ◌<◌, ◌≡◌, refl, sym, ap, ◌∙◌, subst, ◌==◌, ==→eq, Bool, true, false, ◌&&◌,
  Option, none, some, List, [], ◌∷◌, arith, leb, Bool-cases, inl, inr, some-injective,
}
use synos.Page.State.{Region}
use synos.Page.Regions.{
  region_at, count, is_usable, find_from, find_next_region, find_free_rounds, find_free_region,
}

-- `o` is the first position from `start` on whose region passes the test, if there is one; the list
-- starts at position `i`.
abbrev pub FirstFrom : (Region → Bool) → List Region → ℕ → ℕ → Option ℕ → Type 0
FirstFrom test rs start i (some k) =
    (d : ℕ) × (r : Region) × (k ≡ i + d)
    × (start ≤ k)
    × (region_at rs d ≡ some r)
    × (test r ≡ true)
    × ((e : ℕ) (q : Region) → e < d → start ≤ i + e → region_at rs e ≡ some q → test q ≡ false)
FirstFrom test rs start i none =
    (e : ℕ) (q : Region) → start ≤ i + e → region_at rs e ≡ some q → test q ≡ false

module _ (test : Region → Bool) (start : ℕ) where
  later_miss :
      (r : Region) (rs : List Region) (i : ℕ)
      → (leb start i && test r) ≡ false
      → FirstFrom test rs start (i + 1) none
      → (e : ℕ) (q : Region) → start ≤ i + e
      → region_at (r ∷ rs) e ≡ some q
      → test q ≡ false
  unfolding region_at
  later_miss r rs i fails f zero q le here =
      let h : (leb start i && test q) ≡ false =
        subst (λ x. (leb start i && test x) ≡ false) (some-injective _ _ here) fails in
      ground (arith, h)
  later_miss r rs i fails f (suc e) q le here = f e q (omega arith) here

  later_hit :
      (r : Region) (rs : List Region) (i d : ℕ)
      → (leb start i && test r) ≡ false
      → ((e : ℕ) (q : Region)
          → e < d
          → start ≤ i + 1 + e
          → region_at rs e ≡ some q
          → test q ≡ false)
      → (e : ℕ) (q : Region) → e < suc d
      → start ≤ i + e
      → region_at (r ∷ rs) e ≡ some q
      → test q ≡ false
  unfolding region_at
  later_hit r rs i d fails f zero q lt le here =
      let h : (leb start i && test q) ≡ false =
        subst (λ x. (leb start i && test x) ≡ false) (some-injective _ _ here) fails in
      ground (arith, h)
  later_hit r rs i d fails f (suc e) q lt le here = f e q (omega arith) (omega arith) here

  later :
      (r : Region) (rs : List Region) (i : ℕ) (o : Option ℕ)
      → (leb start i && test r) ≡ false
      → FirstFrom test rs start (i + 1) o
      → FirstFrom test (r ∷ rs) start i o
  unfolding region_at
  later r rs i none fails f = later_miss r rs i fails f
  later r rs i (some k) fails (d, q, e, le, here, good, first) =
      (suc d, q, omega arith, le, here, good, later_hit r rs i d fails first)

  nothing : (i e : ℕ) (q : Region) → start ≤ i + e → region_at [] e ≡ some q → test q ≡ false
  unfolding region_at
  nothing i e q le here = ground (arith, here)

  pub find_from-FirstFrom :
      (rs : List Region) (i : ℕ) → FirstFrom test rs start i (find_from test rs start i)
  unfolding find_from region_at
  find_from-FirstFrom [] i = nothing i
  find_from-FirstFrom (r ∷ rs) i = elim (Bool-cases (leb start i && test r)) [
    | inl e ↦
        rw e (0, r, omega arith, ground arith, refl, ground arith, λ e q h. absurd (omega arith))
    | inr e ↦
        rw e (later r rs i (find_from test rs start (i + 1)) e (find_from-FirstFrom rs (i + 1)))
  ]

-- What `findFreeRegion` promises: the first usable region from `start` on that is not full, or null
-- with `outOfMem` set when there is none.
abbrev pub FreeFrom : List Region → ℕ → Option ℕ × Bool → Type 0
FreeFrom rs start (some k, full) =
    (full ≡ false)
    × (start ≤ k)
    × ((r : Region) × (region_at rs k ≡ some r) × (is_usable r ≡ true) × (r.mem_full ≡ false))
    × ((e : ℕ) (q : Region)
        → e < k
        → start ≤ e
        → region_at rs e ≡ some q
        → is_usable q ≡ true
        → q.mem_full ≡ true)
FreeFrom rs start (none, full) =
    (full ≡ true)
    × ((e : ℕ) (q : Region)
        → start ≤ e
        → region_at rs e ≡ some q
        → is_usable q ≡ true
        → q.mem_full ≡ true)

pub region_at-lt : (rs : List Region) (e : ℕ) (q : Region) → region_at rs e ≡ some q → e < count rs
unfolding region_at count
region_at-lt [] e q here = ground (arith, here)
region_at-lt (r ∷ rs) zero q here = omega arith
region_at-lt (r ∷ rs) (suc e) q here = omega (arith, region_at-lt rs e q here)

-- A full region at `k` is the first usable one from `start` on: what holds from the next position on
-- holds from `start` on.
module _ (rs : List Region) (start k : ℕ) (r : Region) (here : region_at rs k ≡ some r)
    (full : r.mem_full ≡ true)
    (first : (e : ℕ) (q : Region)
      → e < k
      → start ≤ e
      → region_at rs e ≡ some q
      → is_usable q ≡ false)
    (le : start ≤ k) where
  at_start : (q : Region) → region_at rs start ≡ some q → is_usable q ≡ true → q.mem_full ≡ true
  at_start q there good = elim (Bool-cases (start == k)) [
    | inl e ↦
        let same : r ≡ q =
          some-injective _ _ (sym here ∙ ap (region_at rs) (sym (==→eq _ _ e)) ∙ there) in
        subst (λ x. x.mem_full ≡ true) same full
    | inr e ↦ absurd (ground (arith, good, first start q (ground arith) (omega arith) there))
  ]

  from_start :
      (e : ℕ) (q : Region)
      → start ≤ e
      → region_at rs e ≡ some q
      → is_usable q ≡ true
      → (start + 1 ≤ e → q.mem_full ≡ true)
      → q.mem_full ≡ true
  from_start e q le' there good f = elim (Bool-cases (e == start)) [
    | inl own ↦ at_start q (subst (λ z. region_at rs z ≡ some q) (==→eq _ _ own) there) good
    | inr behind ↦ f (ground arith)
  ]

  skip : (o : Option ℕ × Bool) → FreeFrom rs (start + 1) o → FreeFrom rs start o
  skip (none, set) (e, f) =
      (e, λ x q le' there good. from_start x q le' there good (λ h. f x q h there good))
  skip (some j, set) (e, le'', good, f) = (
    e,
    omega arith,
    good,
    λ x q lt le' there good'. from_start x q le' there good' (λ h. f x q lt h there good'),
  )

-- `findNextRegion` as the search over the whole list.
find_next_region-FirstFrom :
    (rs : List Region) (start : ℕ) → FirstFrom is_usable rs start 0 (find_next_region rs start)
unfolding find_next_region
find_next_region-FirstFrom rs start = find_from-FirstFrom is_usable start rs 0

free_step :
    (rounds : ℕ) (rs : List Region) (start : ℕ) (o : Option ℕ)
    → find_next_region rs start ≡ o
    → FirstFrom is_usable rs start 0 o
    → FreeFrom rs (start + 1) (find_free_rounds rounds rs (start + 1))
    → FreeFrom rs start (find_free_rounds (suc rounds) rs start)
unfolding find_free_rounds
free_step rounds rs start none e f again =
    let step : find_free_rounds (suc rounds) rs start ≡ (none, true) =
      rw (find_free_rounds, e) refl in
    subst (FreeFrom rs start) (sym step)
      (refl, λ x q le there good. absurd (ground (arith, good, f x q (omega (arith, le)) there)))
free_step rounds rs start (some k) e (d, r, own, le, here, good, first) again =
    let same : k ≡ d = omega (arith, own) in
    let there : region_at rs k ≡ some r = rw same here in
    let first' = λ (x : ℕ) (q : Region) (lt : x < k) (le' : start ≤ x).
      first x q (omega (arith, own)) (omega arith) in
    elim (Bool-cases r.mem_full) [
      | inl full ↦
          let step : find_free_rounds (suc rounds) rs start
              ≡ find_free_rounds rounds rs (start + 1) =
            rw (find_free_rounds, e, there, full) refl in
          subst (FreeFrom rs start) (sym step) (skip rs start k r there full first' le _ again)
      | inr free ↦
          let step : find_free_rounds (suc rounds) rs start ≡ (some k, false) =
            rw (find_free_rounds, e, there, free) refl in
          subst (FreeFrom rs start) (sym step) (
            refl,
            le,
            (r, there, good, free),
            λ x q lt le' there' good'. absurd (ground (arith, good', first' x q lt le' there')),
          )
    ]

find_free_rounds-FreeFrom :
    (rounds : ℕ) (rs : List Region) (start : ℕ)
    → count rs < rounds + start
    → FreeFrom rs start (find_free_rounds rounds rs start)
unfolding find_free_rounds
find_free_rounds-FreeFrom zero rs start h =
    (refl, λ e q le there good. absurd (omega (arith, region_at-lt rs e q there)))
find_free_rounds-FreeFrom (suc rounds) rs start h =
    free_step rounds rs start (find_next_region rs start) refl (find_next_region-FirstFrom rs start)
      (find_free_rounds-FreeFrom rounds rs (start + 1) (omega arith))

-- `findFreeRegion` ends, for every list of regions and every place to start from: it finds the first
-- usable region from there on that is not marked full, or, when every usable region from there on is
-- full, it returns null and sets `outOfMem`.
pub find_free_region-FreeFrom :
    (rs : List Region) (start : ℕ) → FreeFrom rs start (find_free_region rs start)
unfolding find_free_region
find_free_region-FreeFrom rs start =
    find_free_rounds-FreeFrom (suc (count rs)) rs start (omega arith)
