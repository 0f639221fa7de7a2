-- ===== src/Page/Regions/Places.antt =====
-- kernel/page.c: the list of regions when one of them is exchanged.
use synos.Prelude.{
  sym, some-injective, ℕ, zero, suc, ◌<◌, ◌≡◌, refl, ap, some, List, [], ◌∷◌, arith,
}
use synos.Page.State.{Region}
use synos.Page.Regions.{region_at, put_region, count}

pub region_at-put_region :
    (rs : List Region) (j : ℕ) (r c : Region)
    → region_at rs j ≡ some r
    → region_at (put_region rs j c) j ≡ some c
unfolding region_at put_region
region_at-put_region [] j r c here = cc
region_at-put_region (q ∷ rs) zero r c here = refl
region_at-put_region (q ∷ rs) (suc j) r c here = region_at-put_region rs j r c here

pub put_region-put_region :
    (rs : List Region) (j : ℕ) (c d : Region)
    → put_region (put_region rs j c) j d ≡ put_region rs j d
unfolding put_region
put_region-put_region [] j c d = refl
put_region-put_region (q ∷ rs) zero c d = refl
put_region-put_region (q ∷ rs) (suc j) c d = ap (λ x. q ∷ x) (put_region-put_region rs j c d)

pub count-put_region :
    (rs : List Region) (i : ℕ) (c : Region) → count (put_region rs i c) ≡ count rs
unfolding count put_region
count-put_region [] i c = refl
count-put_region (r ∷ rs) zero c = refl
count-put_region (r ∷ rs) (suc i) c = ap suc (count-put_region rs i c)

pub region_at-other :
    (rs : List Region) (i j : ℕ) (c : Region)
    → i < j
    → region_at (put_region rs i c) j ≡ region_at rs j
unfolding region_at put_region
region_at-other [] i j c lt = refl
region_at-other (r ∷ rs) zero zero c lt = absurd (omega arith)
region_at-other (r ∷ rs) zero (suc j) c lt = refl
region_at-other (r ∷ rs) (suc i) zero c lt = absurd (omega arith)
region_at-other (r ∷ rs) (suc i) (suc j) c lt = region_at-other rs i j c (omega arith)

pub put_region-same :
    (rs : List Region) (j : ℕ) (r : Region) → region_at rs j ≡ some r → put_region rs j r ≡ rs
unfolding region_at put_region
put_region-same [] j r here = refl
put_region-same (q ∷ rs) zero r here = ap (λ x. x ∷ rs) (sym (some-injective _ _ here))
put_region-same (q ∷ rs) (suc j) r here = ap (λ x. q ∷ x) (put_region-same rs j r here)
