-- ===== src/IoBuf.antt =====
-- projects/nanosrv/iobuf.cpp: a growable byte buffer. `buf` is the whole allocation, [] where the
-- pointer is NULL; the allocator is an argument, `alloc n` telling whether it has n bytes.
pub mod Refines
pub mod Edits
mod Examples
use nanosrv.Common.{
  ℕ, suc, ◌+◌, ◌-◌, ◌*◌, ◌/◌, ◌%◌, ◌^◌, Bool, true, false, Option, none, some, [], ◌++◌, ◌≡◌, refl,
  Bytes, codes, ltb, ◌==◌, if◌then◌else◌, length, take, drop, replicate,
}

-- struct IOBuffer
pub record IoBuffer : Type 0 where
  pub buf : Bytes
  pub size : ℕ
  pub len : ℕ
  pub align : ℕ

-- size_t wraps around at this number.
abbrev pub size_mod : ℕ
size_mod = 2 ^ 64

unfoldable pub roundup : ℕ → ℕ → ℕ
roundup size align =
    if align == 0
    then size
    else ((size + align + size_mod - 1) % size_mod / align * align) % size_mod

-- memmove inside a buffer: `n` bytes from `src` to `dst`.
unfoldable pub memmove : Bytes → ℕ → ℕ → ℕ → Bytes
memmove buf dst src n = take dst buf ++ (take n (drop src buf) ++ drop (dst + n) buf)

-- memmove of other bytes into a buffer.
unfoldable pub store : Bytes → ℕ → Bytes → Bytes
store buf ofs bytes = take ofs buf ++ (bytes ++ drop (ofs + length bytes) buf)

module _ (alloc : ℕ → Bool) where
  unfoldable pub iobuf_resize : IoBuffer → ℕ → IoBuffer × Bool
  iobuf_resize io size =
      let new_size = roundup size io.align in
      let len = if ltb new_size io.len then new_size else io.len in
      if new_size == 0
      then (record io { buf = []; size = 0; len = 0 }, true)
      else if new_size == io.size
      then (io, true)
      else if alloc new_size
      then (
        record io {
          buf = take len io.buf ++ replicate (new_size - len) 0;
          size = new_size;
          len = len;
        },
        true,
      )
      else (io, false)

  unfoldable pub iobuf_init : ℕ → ℕ → IoBuffer × Bool
  iobuf_init size align = iobuf_resize (record { buf = []; size = 0; len = 0; align = align }) size

  -- The bytes to add; `none` is a NULL pointer, which leaves a gap of `len` bytes.
  unfoldable pub iobuf_add : IoBuffer → ℕ → Option Bytes → ℕ → IoBuffer × ℕ
  iobuf_add io₀ ofs bytes len₀ =
      let new_size = roundup ((io₀.len + len₀) % size_mod) io₀.align in
      let io = (iobuf_resize io₀ new_size).0 in
      let len = if new_size == io.size then len₀ else 0 in
      let moved =
        if ltb ofs io.len then memmove io.buf (ofs + len) ofs (io.len - ofs) else io.buf in
      let filled = elim bytes as (λ _. Bytes) [
        | none ↦ moved
        | some b ↦ store moved ofs (take len b)
      ] in
      let base = if ltb io.len ofs then ofs else io.len in
      (record io { buf = filled; len = (base + len) % size_mod }, len)

unfoldable pub iobuf_del : IoBuffer → ℕ → ℕ → IoBuffer × ℕ
iobuf_del io ofs₀ len₀ =
    let ofs = if ltb io.len ofs₀ then io.len else ofs₀ in
    let len = if ltb io.len ((ofs + len₀) % size_mod) then io.len - ofs else len₀ in
    let moved = memmove io.buf ofs (ofs + len) (io.len - ofs - len) in
    let wiped = store moved (io.len - len) (replicate len 0) in
    (record io { buf = wiped; len = io.len - len }, len)

unfoldable pub iobuf_free : (ℕ → Bool) → IoBuffer → IoBuffer
iobuf_free alloc io = (iobuf_resize alloc io 0).0

-- IOBuffer(IOBuffer&&): the new object, and the one that was moved from.
unfoldable pub iobuf_move : IoBuffer → IoBuffer × IoBuffer
iobuf_move other = (other, record other { buf = []; size = 0; len = 0 })

-- IOBuffer::operator=(IOBuffer&&) between two objects.
unfoldable pub iobuf_move_assign : IoBuffer → IoBuffer → IoBuffer × IoBuffer
iobuf_move_assign io other = iobuf_move other

filled : IoBuffer
filled = (iobuf_add (λ _. true) (iobuf_init (λ _. true) 0 4).0 0 (some (codes "hello")) 5).0

adding : filled ≡ record { buf = codes "hello" ++ replicate 3 0; size = 8; len = 5; align = 4 }
unfolding filled iobuf_add iobuf_init iobuf_resize roundup store memmove
adding = refl

deleting :
    (iobuf_del filled 1 3).0
    ≡ record { buf = codes "ho" ++ replicate 6 0; size = 8; len = 2; align = 4 }
unfolding filled iobuf_del iobuf_add iobuf_init iobuf_resize roundup store memmove
deleting = refl
