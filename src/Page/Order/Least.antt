-- ===== src/Page/Order/Least.antt =====
-- kernel/page.c: `log_order` against the least order whose blocks hold a number of pages.
use synos.Prelude.{
  ℕ, ◌+◌, ◌-◌, ◌^◌, ◌≤◌, ◌<◌, ◌≡◌, refl, Bool, true, ◌&&◌, ◌||◌, arith, ltb, leb, ◌==◌, passes,
  passes-at, ltb→lt,
}
use synos.Page.Order.{log_order}

-- A block of the order holds the pages, and one of the order below does not.
pub record IsLeast (pages order : ℕ) : Type 0 where
  pub enough : pages ≤ 2 ^ order
  pub less : 0 < order → 2 ^ (order - 1) < pages

least_test : ℕ → Bool
least_test pages =
    let order = log_order pages in
    pages == 0 || (leb pages (2 ^ order) && (order == 0 || ltb (2 ^ (order - 1)) pages))

least_table : passes least_test 1025 ≡ true
unfolding passes least_test log_order
least_table = refl

-- Up to 1024 pages `log_order` is the least order whose blocks hold them.
pub log_order-IsLeast : (pages : ℕ) → 0 < pages → pages ≤ 1024 → IsLeast pages (log_order pages)
unfolding least_test
log_order-IsLeast pages pos lt =
    let h : least_test pages ≡ true = passes-at least_test 1025 pages (omega arith) least_table in
    record { enough = ground (arith, h); less = λ more. ground (arith, h) }

small_test : ℕ → Bool
small_test k = ltb (2 ^ log_order (1025 + k)) (1025 + k)

small_table : passes small_test 3071 ≡ true
unfolding passes small_test log_order
small_table = refl

-- From 1025 to 4095 pages a block of the order that `log_order` returns does not hold the pages.
pub log_order-small : (pages : ℕ) → 1024 < pages → pages < 4096 → 2 ^ log_order pages < pages
unfolding small_test
log_order-small pages le lt =
    let same : 1025 + (pages - 1025) ≡ pages = omega arith in
    let h : small_test (pages - 1025) ≡ true =
      passes-at small_test 3071 (pages - 1025) (omega arith) small_table in
    ltb→lt _ _ (rw same at h)
