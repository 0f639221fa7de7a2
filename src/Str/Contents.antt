-- ===== src/Str/Contents.antt =====
-- mutils/impl/string.c: the bytes of a string, as a list.
use synos.Prelude.{ℕ, zero, suc, ◌+◌, ◌^◌, ◌<◌, ◌≡◌, refl, ap, ◌∙◌, List, [], ◌∷◌, ◌++◌, arith}
use synos.Str.{Str, string_append}
use synos.Str.Append.{string_append-Joined}

-- The first bytes of a memory.
unfoldable pub first : ℕ → (ℕ → ℕ) → List ℕ
first zero f = []
first (suc n) f = f 0 ∷ first n (λ k. f (suc k))

-- The bytes of a string.
abbrev pub contents : Str → List ℕ
contents s = first s.length s.str

pub first-ext : (n : ℕ) (f g : ℕ → ℕ) → ((k : ℕ) → k < n → f k ≡ g k) → first n f ≡ first n g
unfolding first
first-ext zero f g h = refl
first-ext (suc n) f g h = rw (h 0 (omega arith)) (
    ap (λ l. g 0 ∷ l)
      (first-ext n (λ k. f (suc k)) (λ k. g (suc k)) (λ k lt. h (suc k) (omega arith))))

pub first-add : (a b : ℕ) (f : ℕ → ℕ) → first (a + b) f ≡ first a f ++ first b (λ k. f (a + k))
unfolding first
first-add zero b f =
    let same : 0 + b ≡ b = omega arith in
    rw same (first-ext b f (λ k. f (0 + k)) (λ k lt. ap f (omega arith)))
first-add (suc a) b f =
    let same : suc a + b ≡ suc (a + b) = omega arith in
    let behind : first b (λ k. f (suc (a + k))) ≡ first b (λ k. f (suc a + k)) =
      first-ext b _ _ (λ k lt. ap f (omega arith)) in
    rw same (ap (λ l. f 0 ∷ l) (first-add a b (λ k. f (suc k)) ∙ rw behind refl))

pub contents-string_append :
    (fresh : ℕ → ℕ) (s : Str) (f : ℕ → ℕ) (n : ℕ)
    → s.length + n < 2 ^ 63
    → contents (string_append fresh s f n) ≡ contents s ++ first n f
contents-string_append fresh s f n small =
    let j = string_append-Joined fresh s f n small in
    let after = string_append fresh s f n in
    rw j.longer (
      first-add s.length n after.str
      ∙ rw (first-ext s.length after.str s.str j.kept)
          (rw (first-ext n (λ k. after.str (s.length + k)) f j.appended) refl))
