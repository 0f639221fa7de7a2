-- ===== src/Page/Order.antt =====
-- kernel/page.c: the arithmetic of block orders (`log_order`, `free_area_length`, `order_max`), and
-- the constants of kernel/include/synos/mm.h.
mod Tests
pub mod Least
use synos.Prelude.{ℕ, zero, suc, ◌+◌, ◌-◌, ◌*◌, ◌/◌, ◌%◌, ◌^◌, Bool, ◌&&◌, not, ◌==◌, if◌then◌else◌}

-- MAX_ORDER
abbrev pub max_order : ℕ
max_order = 10

-- `page_size` of arch/X86_64/memory.c
abbrev pub page_size : ℕ
page_size = 4096

-- BLOCK_ORDER_SIZE(order)
abbrev pub block_order_size : ℕ → ℕ
block_order_size order = page_size * 2 ^ order

-- `(pages >> i) & 1U`
abbrev pub bit_of : ℕ → ℕ → Bool
bit_of pages i = pages / 2 ^ i % 2 == 1

-- The value of `order` when the loop that counts `i` down ends; MAX_ORDER + 1 marks "no bit seen".
unfoldable pub log_order_loop : ℕ → ℕ → ℕ → ℕ
log_order_loop zero pages order =
    if bit_of pages 0 && not (order == max_order + 1)
    then order + 1
    else if bit_of pages 0
    then 0
    else order
log_order_loop (suc i) pages order =
    let rest = log_order_loop i pages (if bit_of pages (suc i) then suc i else order) in
    if bit_of pages (suc i) && not (order == max_order + 1) then order + 1 else rest

-- `i` starts at sizeof(size_t) * 8 - 1.
unfoldable pub log_order : ℕ → ℕ
unfolding log_order_loop
log_order pages =
    let order = log_order_loop 63 pages (max_order + 1) in
    if order == max_order + 1 then 0 else order

-- The loop that halves `pages` once for each order.
unfoldable pub free_area_length : ℕ → ℕ → ℕ
free_area_length pages zero = pages
free_area_length pages (suc order) = free_area_length pages order / 2

-- `rounds` is MAX_ORDER - order.
unfoldable pub order_max_loop : ℕ → ℕ → ℕ → ℕ
order_max_loop zero order pages = max_order - 1
order_max_loop (suc rounds) order pages =
    let rest = order_max_loop rounds (order + 1) (pages / 2) in
    if pages % 2 == 0 then rest else order

unfoldable pub order_max : ℕ → ℕ
unfolding order_max_loop
order_max pages = order_max_loop max_order 0 pages
