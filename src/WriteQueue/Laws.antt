-- ===== src/WriteQueue/Laws.antt =====
-- What is allocated is free.
use mini_web_srv.Base.{
  ◌⊎◌, ℕ, ◌+◌, ◌≤◌, ◌<◌, ◌≡◌, Bool, true, ◌&&◌, ◌||◌, some, ltb, leb, if◌then◌else◌, arith,
}
use mini_web_srv.WriteQueue.{Fifo, from_begin, from_fifo_begin, allocate_fifo}

module _ (size : ℕ) where
  abbrev pub IsValid : Fifo → Type 0
  IsValid f = (f.free_begin < size) × (f.used_begin < size)

  -- A byte of the buffer that holds data: from the used begin to the free begin, around the end.
  abbrev pub is_used : Fifo → ℕ → Bool
  is_used f i =
      if leb f.used_begin f.free_begin
      then leb f.used_begin i && ltb i f.free_begin
      else leb f.used_begin i || ltb i f.free_begin

  -- An allocation of at least one byte from valid positions lies in the buffer, and leaves valid
  -- positions.
  allocate_fifo-bounds :
      (f g : Fifo) (len o : ℕ)
      → IsValid f
      → 0 < len
      → allocate_fifo size f len ≡ some (o, g)
      → (o + len ≤ size) × IsValid g
  unfolding allocate_fifo from_begin from_fifo_begin
  allocate_fifo-bounds f g len o v h e = ground arith

  -- From valid positions, no byte that holds data lies in the space that is allocated.
  allocate_fifo-used :
      (f g : Fifo) (len o i : ℕ)
      → IsValid f
      → allocate_fifo size f len ≡ some (o, g)
      → is_used f i ≡ true
      → i < size
      → (i < o) ⊎ (o + len ≤ i)
  unfolding allocate_fifo from_begin from_fifo_begin
  allocate_fifo-used f g len o i v e u l = ground arith
