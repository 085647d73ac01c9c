-- ===== src/Hypervisor/Fdt.antt =====
-- include/hypervisor/dtb/FDT_Builder.hpp: a device tree grows from the front of a buffer, and the names of
-- its properties from the back. `none` is a failed `assert`. A buffer ends below 2 ^ 63, so the sums of a
-- position and a length do not wrap. Text is a list of bytes without its zero at the end.
pub mod Stores
pub mod Property
use depos.Base.{
  ℕ, zero, suc, ◌+◌, ◌-◌, ◌*◌, ◌/◌, ◌%◌, ◌^◌, ◌==◌, ltb, leb, if◌then◌else◌, ◌&&◌, Bool, true,
  false, not, Option, none, some, List, [], ◌∷◌, ◌++◌, ◌>>=◌, ◌>>◌, assert, length, update, map,
}
use depos.Hypervisor.Devices.{store, bytes}

pub record Builder : Type 0 where
  pub buffer : ℕ → ℕ
  pub capacity : ℕ
  pub cursor : ℕ
  pub strings_cursor : ℕ

-- the bytes of `CPU::htobe32(v)` and `CPU::htobe64(v)` in memory
abbrev pub big_endian32 : ℕ → List ℕ
big_endian32 v = (v / 16777216 % 256) ∷ (v / 65536 % 256) ∷ (v / 256 % 256) ∷ (v % 256) ∷ []

abbrev pub big_endian64 : ℕ → List ℕ
big_endian64 v = big_endian32 (v / 4294967296) ++ big_endian32 v

-- bytes at the cursor
unfoldable pub append : List ℕ → Builder → Builder
append xs b = record b { buffer = store xs b.cursor b.buffer; cursor = b.cursor + length xs }

unfoldable pub write32 : ℕ → Builder → Option Builder
write32 v b = assert (leb (b.cursor + 4) b.strings_cursor) >> some (append (big_endian32 v) b)

unfoldable pub write64 : ℕ → Builder → Option Builder
write64 v b = assert (leb (b.cursor + 8) b.strings_cursor) >> some (append (big_endian64 v) b)

-- `align`, with one round of its loop more than it can take
unfoldable pub align_from : ℕ → ℕ → Builder → Builder
align_from zero n b = b
align_from (suc k) n b =
    let rest = align_from k n (append (0 ∷ []) b) in
    if not (b.cursor % n == 0) && ltb b.cursor b.strings_cursor then rest else b

unfoldable pub align : ℕ → Builder → Builder
align n b = align_from n n b

-- the constructor, at a buffer: a header of 40 bytes, and one empty reserved entry
abbrev pub header_size : ℕ
header_size = 40

pub builder : (ℕ → ℕ) → ℕ → Option Builder
builder buffer capacity =
    let b : Builder = record {
      buffer = buffer;
      capacity = capacity;
      cursor = header_size;
      strings_cursor = capacity;
    } in
    write64 0 b >>= λ b'. write64 0 b'

-- the loop of `begin`
pub put_name : List ℕ → Builder → Option Builder
put_name [] b = some b
put_name (x ∷ xs) b = assert (ltb b.cursor b.strings_cursor) >> put_name xs (append (x ∷ []) b)

pub begin : List ℕ → Builder → Option Builder
begin name b = write32 1 b >>= λ b1. put_name name b1 >>= λ b2.
    assert (ltb b2.cursor b2.strings_cursor) >> some (align 4 (append (0 ∷ []) b2))

pub end_node : Builder → Option Builder
end_node b = write32 2 b

-- `add_string`: where the name starts, from the end of the buffer
unfoldable pub add_string : List ℕ → Builder → Option (ℕ × Builder)
add_string string b =
    let size = length string + 1 in
    let at = b.strings_cursor - size in
    assert (leb (b.cursor + size) b.strings_cursor)
    >> some (
      (b.capacity - at) % 4294967296,
      record b { strings_cursor = at; buffer = store (string ++ (0 ∷ [])) at b.buffer },
    )

-- `add_property`
unfoldable pub add_property : List ℕ → List ℕ → Builder → Option Builder
add_property name value b = write32 3 b >>= λ b1. write32 (length value) b1 >>= λ b2.
    add_string name b2 >>= λ (offset, b3). write32 offset b3 >>= λ b4.
    assert (leb (b4.cursor + length value) b4.strings_cursor) >> some (align 4 (append value b4))

-- `add` of a flag, of a text, of a word and of words
pub add_flag : List ℕ → Builder → Option Builder
add_flag name b = add_property name [] b

pub add_text : List ℕ → List ℕ → Builder → Option Builder
add_text name value b = add_property name (value ++ (0 ∷ [])) b

pub add_word : List ℕ → ℕ → Builder → Option Builder
add_word name value b = add_property name (big_endian32 value) b

words : List ℕ → List ℕ
words [] = []
words (v ∷ vs) = big_endian32 v ++ words vs

pub add_words : List ℕ → List ℕ → Builder → Option Builder
add_words name values b = add_property name (words values) b

-- `CPU::be32toh` of the word at a position
abbrev pub word_at : ℕ → (ℕ → ℕ) → ℕ
word_at p m = m p * 16777216 + m (p + 1) * 65536 + m (p + 2) * 256 + m (p + 3)

-- `(p + 3) & ~3`
abbrev pub round_up : ℕ → ℕ
round_up p = (p + 3) / 4 * 4

-- `while (p < end && buffer_[p] != 0) p++`, with the distance to `end` as fuel
pub skip_name : ℕ → ℕ → ℕ → (ℕ → ℕ) → ℕ
skip_name zero end p m = p
skip_name (suc k) end p m =
    let rest = skip_name k end (p + 1) m in if ltb p end && not (m p == 0) then rest else p

-- One round of the loop of `finish` from `p` on: the next position, if there is one, and the buffer.
pub resolve_one : ℕ → ℕ → ℕ → (ℕ → ℕ) → Option (Option ℕ × (ℕ → ℕ))
resolve_one end strings_size p m =
    let tag = word_at p m in
    let length = word_at (p + 4) m in
    let offset = (strings_size + (4294967296 - word_at (p + 8) m)) % 4294967296 in
    if tag == 1
    then some (some (round_up (skip_name end end (p + 4) m + 1)), m)
    else (if tag == 2
        then some (some (p + 4), m)
        else (if tag == 3
            then assert (leb (p + 12) end)
              >> some (some (round_up (p + 12 + length)), store (big_endian32 offset) (p + 8) m)
            else some (none, m)))

pub resolve_from : ℕ → ℕ → ℕ → ℕ → (ℕ → ℕ) → Option (ℕ → ℕ)
resolve_from zero end strings_size p m = none
resolve_from (suc k) end strings_size p m =
    if ltb (p + 4) end
    then (resolve_one end strings_size p m >>= λ (next, m'). elim next [
      | none ↦ some m'
      | some p' ↦ resolve_from k end strings_size p' m'
    ])
    else some m

-- the fields of the header, in their order
pub header : ℕ → ℕ → List ℕ
header end strings_size =
    big_endian32 3490578157
    ++ (big_endian32 (end + strings_size)
        ++ (big_endian32 56
            ++ (big_endian32 end
                ++ (big_endian32 40
                    ++ (big_endian32 17
                        ++ (big_endian32 16
                            ++ (big_endian32 0
                                ++ (big_endian32 strings_size
                                    ++ big_endian32 (end - 40 + 16)))))))))

-- `finish`: the size of the tree and the buffer
pub finish : Builder → Option (ℕ × (ℕ → ℕ))
finish b = write32 9 b >>= λ b1.
    let b2 = align 4 b1 in
    let end = b2.cursor in
    let strings_size = b2.capacity - b2.strings_cursor in
    resolve_from (suc end) end strings_size 56 b2.buffer >>= λ m. some (
      end + strings_size,
      store (header end strings_size) 0 (store (bytes m b2.strings_cursor strings_size) end m),
    )
