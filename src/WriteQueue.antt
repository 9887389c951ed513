-- ===== src/WriteQueue.antt =====
-- Common/WriteBuffQueue.h: where a write goes in the static buffer, `size` bytes that are used as a
-- FIFO. Positions are offsets from `WriteBuff`.
pub mod Laws
pub mod Queue
mod Tests
use mini_web_srv.Base.{
  ℕ, ◌+◌, ◌-◌, Bool, true, false, Option, none, some, ltb, leb, ◌==◌, if◌then◌else◌,
}

-- `FIFOFreeBegin` and `FIFOUsedBegin`.
pub record Fifo : Type 0 where
  pub free_begin : ℕ
  pub used_begin : ℕ

module _ (size : ℕ) where
  -- `OutFromBegin` and `OutFromFIFOBegin` of `GetContinousFreeFIFOLength`.
  unfoldable pub from_begin : Fifo → ℕ
  from_begin f =
      if leb f.used_begin f.free_begin
      then (if f.used_begin == 0 then size - f.free_begin - 1 else size - f.free_begin)
      else f.used_begin - f.free_begin - 1

  unfoldable pub from_fifo_begin : Fifo → ℕ
  from_fifo_begin f =
      if leb f.used_begin f.free_begin
      then (if f.used_begin == 0 then 0 else f.used_begin - 1)
      else 0

  -- `Allocate`, the part on the static buffer: the offset of the space and the new positions; `none`
  -- if the space has to come from elsewhere.
  unfoldable pub allocate_fifo : Fifo → ℕ → Option (ℕ × Fifo)
  unfolding from_begin from_fifo_begin
  allocate_fifo f len =
      if ltb len size
      then (if leb len (from_begin f)
          then some (
            f.free_begin,
            record f {
              free_begin = if leb size (f.free_begin + len) then 0 else f.free_begin + len;
            },
          )
          else if leb len (from_fifo_begin f)
          then some (0, record f { free_begin = len })
          else none)
      else none

  -- `Release` of a buffer at an offset and of a length.
  unfoldable pub release_fifo : Fifo → ℕ → ℕ → Fifo
  release_fifo f offset len =
      let used = if leb size (offset + len) then offset + len - size else offset + len in
      if used == f.free_begin
      then record { free_begin = 0; used_begin = 0 }
      else record f { used_begin = used }
