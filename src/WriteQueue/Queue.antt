-- ===== src/WriteQueue/Queue.antt =====
-- Common/WriteBuffQueue.h: the queue of buffers. A buffer lies in the static buffer or in a heap block,
-- which is the value of its bytes; what a new block has is the parameter `garbage`, and `size` is
-- `StaticWriteBuffSize`. The back of `OutBuffA` is the end of the list.
pub mod Memory
pub mod Ring
pub mod Placed
pub mod Released
pub mod Back
pub mod Inv
pub mod Grown
pub mod Joined
pub mod Put
pub mod Heap
pub mod Push
pub mod Pop
pub mod Release
pub mod Order
mod Tests
use mini_web_srv.Base.{
  ℕ, zero, suc, ◌+◌, ◌-◌, ◌*◌, ◌/◌, ◌%◌, ◌^◌, Bool, true, false, ◌&&◌, Option, none, some, List, [],
  ◌∷◌, ◌++◌, Bytes, ltb, leb, ◌==◌, if◌then◌else◌, length, get_elem?, take, drop, tabulate,
}
use mini_web_srv.WriteQueue.{Fifo, allocate_fifo, release_fifo}

-- `BUFFERSTATE`, without the value that nothing has.
pub data BufferState : Type 0 where
  bs_allocated : BufferState
  bs_pending : BufferState
  bs_writing : BufferState

-- Where `Buff` points: the offset from `WriteBuff`, or a heap block.
pub data Place : Type 0 where
  in_static : ℕ → Place
  on_heap : Bytes → Place

pub record Buffer : Type 0 where
  pub place : Place
  pub len : ℕ
  pub alloc_length : ℕ
  pub state : BufferState

pub record DynBuffer : Type 0 where
  pub block : Bytes
  pub len : ℕ

pub record Queue : Type 0 where
  pub write_buff : Bytes
  pub fifo : Fifo
  pub last_alloc_length : ℕ
  pub out : List Buffer
  pub first_pending : ℕ
  pub free : List DynBuffer

abbrev pub is_pending : BufferState → Bool
is_pending bs_pending = true
is_pending bs_allocated = false
is_pending bs_writing = false

abbrev pub is_allocated : BufferState → Bool
is_allocated bs_allocated = true
is_allocated bs_pending = false
is_allocated bs_writing = false

abbrev pub is_writing : BufferState → Bool
is_writing bs_writing = true
is_writing bs_pending = false
is_writing bs_allocated = false

abbrev pub place_end : Place → ℕ → Option ℕ
place_end (in_static o) n = some (o + n)
place_end (on_heap block) n = none

-- The test of `Allocate` whether the last buffer can be extended up to an offset.
unfoldable pub joins : Buffer → ℕ → Bool
joins b ret = elim (place_end b.place b.len) [
  | none ↦ false
  | some e ↦ is_pending b.state && e == ret
]

-- The last element, replaced by what a function makes of it, or taken off.
unfoldable pub change_back : (Buffer → Option Buffer) → List Buffer → List Buffer
change_back f [] = []
change_back f (b ∷ []) = elim (f b) [ none ↦ [] | some b' ↦ b' ∷ [] ]
change_back f (b ∷ c ∷ cs) = b ∷ change_back f (c ∷ cs)

unfoldable pub back : List Buffer → Option Buffer
back [] = none
back (b ∷ []) = some b
back (b ∷ c ∷ cs) = back (c ∷ cs)

abbrev pub joins_back : Option Buffer → ℕ → Bool
joins_back none ret = false
joins_back (some b) ret = joins b ret

-- `ROUNDUP_POWEROFTWO(Length, 8)`, on `unsigned int`.
unfoldable pub roundup_256 : ℕ → ℕ
roundup_256 v = (v + 255) % 2 ^ 32 / 2 ^ 8 * 2 ^ 8

-- The search of `FreeBuffList`: the shortest buffer of those that are long enough and shorter than
-- the limit, the first of them, and the list without it.
unfoldable pub find_close : ℕ → ℕ → List DynBuffer → Option (DynBuffer × List DynBuffer)
find_close n limit [] = none
find_close n limit (d ∷ ds) =
    let closer = find_close n d.len ds in
    let other = find_close n limit ds in
    if leb n d.len && ltb d.len limit
    then elim closer [ none ↦ some (d, ds) | some (e, rest) ↦ some (e, d ∷ rest) ]
    else elim other [ none ↦ none | some (e, rest) ↦ some (e, d ∷ rest) ]

abbrev pub extend : ℕ → Buffer → Option Buffer
extend n b = some (record b { len = b.len + n; state = bs_allocated })

-- The end of `Allocate`.
abbrev pub push_allocated : Queue → Place → ℕ → ℕ → Queue
push_allocated q place n alloc = record q {
  out = q.out ++ record { place = place; len = n; alloc_length = alloc; state = bs_allocated } ∷ [];
}

-- `Allocate`, the part on dynamic buffers.
unfoldable pub allocate_heap : (ℕ → ℕ) → Queue → ℕ → Queue
unfolding find_close roundup_256
allocate_heap garbage q n = elim (find_close n (2 ^ 32 - 1) q.free) [
  | some (d, rest) ↦ push_allocated (record q { free = rest }) (on_heap d.block) n d.len
  | none ↦ push_allocated q (on_heap (tabulate (roundup_256 n) garbage)) n (roundup_256 n)
]

-- What `Allocate` returns: nothing, an offset in the static buffer, or the block of the last buffer.
pub data Target : Type 0 where
  no_target : Target
  static_target : ℕ → Target
  heap_target : Target

-- `memcpy` to an offset of some memory.
unfoldable pub overwrite : ℕ → Bytes → Bytes → Bytes
overwrite zero src mem = src ++ drop (length src) mem
overwrite (suc o) src [] = []
overwrite (suc o) src (m ∷ ms) = m ∷ overwrite o src ms

abbrev pub fill_block : Bytes → Buffer → Option Buffer
fill_block src b = elim b.place [
  | in_static o ↦ some b
  | on_heap block ↦ some (record b { place = on_heap (overwrite 0 src block) })
]

-- The caller's copy into what `Allocate` returned.
unfoldable pub fill : Queue → Target → Bytes → Queue
fill q no_target src = q
fill q (static_target o) src = record q { write_buff = overwrite o src q.write_buff }
fill q heap_target src = record q { out = change_back (fill_block src) q.out }

abbrev pub set_pending : Buffer → Option Buffer
set_pending b = some (record b { state = bs_pending })

abbrev pub drop_back : Buffer → Option Buffer
drop_back b = none

-- The text of a buffer.
unfoldable pub text : Bytes → Buffer → Bytes
text mem b = elim b.place [
  | in_static o ↦ take b.len (drop o mem)
  | on_heap block ↦ take b.len block
]

abbrev pub set_writing : ℕ → List Buffer → List Buffer
set_writing i [] = []
set_writing zero (b ∷ bs) = record b { state = bs_writing } ∷ bs
set_writing (suc i) (b ∷ bs) = b ∷ set_writing i bs

-- `Pop`: what the returned pointer and length stand for.
unfoldable pub pop : Queue → Queue × Option Bytes
pop q = elim (get_elem? q.out q.first_pending) [
  | none ↦ (q, none)
  | some b ↦ (
    record q {
      out = set_writing q.first_pending q.out;
      first_pending = (q.first_pending + 1) % 2 ^ 32;
    },
    some (text q.write_buff b),
  )
]

module _ (size : ℕ) where
  unfoldable pub allocate : (ℕ → ℕ) → Queue → ℕ → Queue × Target
  unfolding allocate_heap
  allocate garbage q zero = (q, no_target)
  allocate garbage q (suc m) =
      let n = suc m in
      let q' = record q { last_alloc_length = n } in
      elim (allocate_fifo size q.fifo n) [
        | some (o, fifo) ↦
            let q'' = record q' { fifo = fifo } in
            (
              (if joins_back (back q.out) o
                  then record q'' { out = change_back (extend n) q.out }
                  else push_allocated q'' (in_static o) n n),
              static_target o,
            )
        | none ↦ (allocate_heap garbage q' n, heap_target)
      ]

  -- `Commit`, the part that shrinks the allocated buffer.
  unfoldable pub shrink : Queue → Buffer → ℕ → Queue
  shrink q b n = elim b.place [
    | in_static o ↦
        let shrink_len = q.last_alloc_length - n in
        let left = b.len - shrink_len in
        let free = q.fifo.free_begin in
        let q' = record q {
          fifo = record {
            free_begin = if free == 0 then size - shrink_len else free - shrink_len;
            used_begin = q.fifo.used_begin;
          };
        } in
        record q' {
          out =
              if left == 0
              then change_back drop_back q.out
              else change_back (λ b. some (record b { len = left; state = bs_pending })) q.out;
        }
    | on_heap block ↦
        if n == 0
        then record q {
          out = change_back drop_back q.out;
          free = q.free ++ record { block = block; len = b.alloc_length } ∷ [];
        }
        else record q {
          out = change_back (λ b. some (record b { len = n; state = bs_pending })) q.out;
        }
  ]

  unfoldable pub commit : Queue → ℕ → Queue
  unfolding shrink
  commit q n = elim (back q.out) [
    | none ↦ q
    | some b ↦
        if is_allocated b.state
        then (if ltb n q.last_alloc_length
            then shrink q b n
            else record q { out = change_back set_pending q.out })
        else q
  ]

  -- An allocation, the caller's copy, and the commit of what was copied. `Push` is this with the
  -- length of the source.
  unfoldable pub put : (ℕ → ℕ) → Queue → ℕ → Bytes → Queue
  unfolding allocate commit
  put garbage q n src =
      let (q', target) = allocate garbage q n in commit (fill q' target src) (length src)

  unfoldable pub push : (ℕ → ℕ) → Queue → Bytes → Queue
  unfolding allocate commit
  push garbage q src =
      let (q', target) = allocate garbage q (length src) in commit (fill q' target src) (2 ^ 32 - 1)

  unfoldable pub release : Queue → Queue
  release q = elim q.out [
    | [] ↦ q
    | b ∷ bs ↦
        if is_writing b.state
        then (let q' = record q {
          out = bs;
          first_pending = (q.first_pending + 2 ^ 32 - 1) % 2 ^ 32;
        } in
            elim b.place [
              | in_static o ↦ record q' { fifo = release_fifo size q.fifo o b.len }
              | on_heap block ↦ record q' {
                free = q.free ++ record { block = block; len = b.alloc_length } ∷ [];
              }
            ])
        else q
  ]

abbrev pub retained : List Buffer → List DynBuffer
retained [] = []
retained (b ∷ bs) = elim b.place [
  | in_static o ↦ retained bs
  | on_heap block ↦ record { block = block; len = b.alloc_length } ∷ retained bs
]

unfoldable pub reset : Queue → Bool → Queue
reset q release_dynamic_buffers = record q {
  fifo = record { free_begin = 0; used_begin = 0 };
  last_alloc_length = 0;
  out = [];
  first_pending = 0;
  free = if release_dynamic_buffers then [] else q.free ++ retained q.out;
}
