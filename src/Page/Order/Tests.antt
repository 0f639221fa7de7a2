-- ===== src/Page/Order/Tests.antt =====
-- Numbers of pages for `log_order` of kernel/page.c.
use synos.Prelude.{arith}
use synos.Page.Order.{log_order}
use synos.Page.Order.Least.{IsLeast, log_order-IsLeast}

log_order-IsLeast_example : IsLeast 600 (log_order 600)
log_order-IsLeast_example = log_order-IsLeast 600 (omega arith) (omega arith)
