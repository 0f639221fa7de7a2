-- ===== src/Clock.antt =====
-- arch/X86_64/cmos.c, with `time_t` of kernel/include/synos/time.h: the clock, less the ports.
pub mod Ports
use synos.Prelude.{ℕ, ◌+◌, ◌-◌, ◌*◌, ◌%◌, ◌^◌, leb, if◌then◌else◌, add64, sub64}

pub record Time : Type 0 where
  pub microseconds : ℕ
  pub milliseconds : ℕ
  pub unix_t : ℕ
  pub seconds : ℕ
  pub minutes : ℕ
  pub hours : ℕ
  pub day : ℕ
  pub month : ℕ
  pub year : ℕ

-- `arch_time_init` from the bytes that the registers hold, for years before 2040, when the terms of
-- `unix_t` fit an `int`.
unfoldable pub arch_time_init : ℕ → ℕ → ℕ → ℕ → ℕ → ℕ → Time
arch_time_init seconds minutes hours day month year =
    let hours' = if leb 128 hours then hours - 128 + 12 else hours in
    record {
      microseconds = 0;
      milliseconds = 0;
      unix_t =
          seconds
          + minutes * 60
          + hours' * 3600
          + day * 86400
          + month * 2629800
          + (year + 2000 - 1971) * 31557600;
      seconds = seconds;
      minutes = minutes;
      hours = hours';
      day = day;
      month = month;
      year = year + 2000;
    }

-- The first statements of `ms_update`, with `irqCount`.
unfoldable pub tick : ℕ → Time → ℕ × Time
tick irq_count t =
    let more = if leb 1024 irq_count then add64 t.microseconds 72 else t.microseconds in
    (if leb 1024 irq_count then 0 else irq_count, record t { microseconds = add64 more 122 })

unfoldable pub ms_update : ℕ → Time → ℕ × Time
unfolding tick
ms_update irq_count t =
    let (irq_count', t1) = tick irq_count t in
    let ms = t1.milliseconds in
    let ms' = if leb 1000 (sub64 t1.microseconds (ms * 1000 % 2 ^ 64)) then add64 ms 1 else ms in
    let t2 = record t1 { milliseconds = ms' } in
    (
      irq_count',
      if leb 1000 ms'
          then record t2 {
            microseconds = sub64 t2.microseconds 1000000;
            milliseconds = ms' - 1000;
            unix_t = add64 t2.unix_t 1;
          }
          else t2,
    )
