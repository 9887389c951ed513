-- ===== src/ReadBuff.antt =====
-- MiniWebSrv/HTTP/Common/StreamReadBuff.h: the read buffer of the connections' readers.
-- The bytes from `ReadBuff` up to `ReadBuffEnd` are the list `mem`, and pointers are offsets in it.
-- What `new unsigned char[]` leaves in a fresh block is the parameter `garbage`.
pub mod Slices
pub mod Inv
pub mod View
pub mod Steps
mod Tests
use mini_web_srv.Base.{
  ℕ, ◌+◌, ◌-◌, ◌*◌, ◌/◌, ◌%◌, ◌^◌, Bool, true, false, ◌++◌, Bytes, ltb, leb, ◌==◌, not, ◌&&◌,
  if◌then◌else◌, length, take, drop, tabulate,
}

-- `unsigned int` arithmetic.
abbrev pub add32 : ℕ → ℕ → ℕ
add32 a b = (a + b) % 2 ^ 32

abbrev pub sub32 : ℕ → ℕ → ℕ
sub32 a b = (a + 2 ^ 32 - b) % 2 ^ 32

-- `ROUNDUP_POWEROFTWO(Val, Pow)` at `Pow` = 10, on `unsigned int`.
unfoldable pub roundup_1024 : ℕ → ℕ
roundup_1024 v = add32 v 1023 / 2 ^ 10 * 2 ^ 10

pub record Buff : Type 0 where
  pub mem : Bytes
  pub read_pos : ℕ
  pub relevant : ℕ
  pub data_end : ℕ
  pub req_end : ℕ

abbrev pub size : Buff → ℕ
size b = length b.mem

-- The constructor, over the static buffer.
unfoldable pub create : Bytes → Buff
create static_buff = record {
  mem = static_buff;
  read_pos = 0;
  relevant = 0;
  data_end = 0;
  req_end = 0;
}

unfoldable pub reset : Buff → Buff
reset b = record b { read_pos = 0; relevant = 0; data_end = 0; req_end = 0 }

abbrev pub available_length : Buff → ℕ
available_length b = sub32 b.data_end b.read_pos

-- The bytes that `GetRelevantData` and `GetAvailableData` point at.
abbrev pub relevant_data : Buff → Bytes
relevant_data b = take b.relevant (drop (b.read_pos - b.relevant) b.mem)

abbrev pub available_data : Buff → Bytes
available_data b = take (available_length b) (drop b.read_pos b.mem)

unfoldable pub consume : Buff → ℕ → Bool → Buff × Bool
consume b len is_relevant =
    let avail = sub32 b.data_end b.read_pos in
    if ltb len avail
    then (
      record b {
        relevant = if is_relevant then add32 b.relevant len else b.relevant;
        read_pos = add32 b.read_pos len;
      },
      true,
    )
    else (
      record b {
        relevant = if is_relevant then add32 b.relevant avail else b.relevant;
        read_pos = b.data_end;
      },
      false,
    )

unfoldable pub reset_relevant : Buff → Buff
reset_relevant b =
    if not (b.relevant == 0) && not (b.read_pos == 0)
    then (if b.read_pos == b.data_end
        then record b { relevant = 0; read_pos = 0; data_end = 0 }
        else record b { relevant = 0 })
    else b

-- The new contents of the storage: moved to the front, or copied to a larger block.
unfoldable pub make_room : (ℕ → ℕ) → Buff → ℕ → Bytes
unfolding roundup_1024
make_room garbage b req_end =
    let front = sub32 b.read_pos b.relevant in
    let end_space = sub32 (size b) b.data_end in
    let req_new = sub32 req_end b.data_end in
    let kept = take (b.data_end - front) (drop front b.mem) in
    if leb req_new (add32 front end_space)
    then kept ++ drop (b.data_end - front) b.mem
    else (let new_size = roundup_1024 (add32 (sub32 (sub32 (size b) front) end_space) req_new) in
        kept ++ drop (b.data_end - front) (tabulate new_size garbage))

unfoldable pub request_data : (ℕ → ℕ) → Buff → ℕ → Buff × Bool
unfolding make_room
request_data garbage b req_length =
    let avail = available_length b in
    if leb req_length avail
    then (b, true)
    else (let req_end = add32 b.req_end (sub32 req_length avail) in
        let front = sub32 b.read_pos b.relevant in
        if ltb (size b) req_end
        then (
          record {
            mem = make_room garbage b req_end;
            read_pos = sub32 b.read_pos front;
            relevant = b.relevant;
            data_end = sub32 b.data_end front;
            req_end = sub32 req_end front;
          },
          false,
        )
        else (record b { req_end = req_end }, false))

-- The lengths that `GetReadInfo` returns: what must be read, and what can be.
unfoldable pub read_info : Buff → ℕ × ℕ
read_info b = (
  (if ltb b.data_end b.req_end then sub32 b.req_end b.data_end else 0),
  sub32 (size b) b.data_end,
)

unfoldable pub on_new_data : Buff → ℕ → Buff × Bool
on_new_data b new_length =
    let len = if ltb (sub32 (size b) b.data_end) new_length then size b else new_length in
    let data_end = add32 b.data_end len in
    if leb b.req_end data_end
    then (record b { data_end = data_end; req_end = data_end }, true)
    else (record b { data_end = data_end }, false)

-- The socket writes into the free space that `GetReadInfo` returned, and the reader reports it:
-- `ReadBuff` in `Connection::ContinueRead`.
unfoldable pub receive : Buff → Bytes → Buff
unfolding on_new_data
receive b bytes =
    (on_new_data
      (record b {
        mem = take b.data_end b.mem ++ (bytes ++ drop (b.data_end + length bytes) b.mem);
      })
      (length bytes)).0
