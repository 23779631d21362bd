-- ===== src/Buffers.antt =====
-- Utils/Arrays/CircularStringBuffer.cpp: a buffer that is emptied when it would overflow.
-- A write outside the buffer is a fault, `none`.
pub mod Contents
use matte_os.Base.{
  ℕ, zero, suc, ◌+◌, ◌%◌, Bool, true, false, Option, none, some, List, [], ◌∷◌, ltb, leb, ◌==◌,
  if◌then◌else◌, length, set, take, replicate,
}
use matte_os.Pages.{u64_mod}

-- `m_buffer` is `bytes`.
pub record CircularStringBuffer : Type 0 where
  pub bytes : List ℕ
  pub size : ℕ
  pub head : ℕ

-- The assertion asks for a positive capacity.
unfoldable pub create : ℕ → Option CircularStringBuffer
create capacity =
    if ltb 0 capacity
    then some (record { bytes = replicate capacity 0; size = capacity; head = 0 })
    else none

unfoldable pub clear : CircularStringBuffer → CircularStringBuffer
clear b = record b { bytes = replicate b.size 0; head = 0 }

-- `b.bytes[i] = c`
unfoldable pub store : List ℕ → ℕ → ℕ → Option (List ℕ)
store bytes i c = if ltb i (length bytes) then some (set bytes i c) else none

unfoldable pub flush : CircularStringBuffer → Option CircularStringBuffer
unfolding clear store
flush b = if b.head == 0 then some b else elim (store b.bytes b.head 0) [
  | none ↦ none
  | some bytes ↦ some (clear (record b { bytes = bytes }))
]

-- `memcpy(m_buffer + i, data, len)`
unfoldable pub copy_in : List ℕ → ℕ → List ℕ → Option (List ℕ)
unfolding store
copy_in bytes i [] = some bytes
copy_in bytes i (c ∷ chars) = elim (store bytes i c) [
  | none ↦ none
  | some bytes' ↦ copy_in bytes' (i + 1) chars
]

-- The copy behind the test of `write`.
unfoldable pub put : List ℕ → CircularStringBuffer → Option CircularStringBuffer
unfolding copy_in
put chars b = elim (copy_in b.bytes b.head chars) [
  | none ↦ none
  | some bytes ↦ some (record b { bytes = bytes; head = b.head + length chars })
]

unfoldable pub write : List ℕ → CircularStringBuffer → Option CircularStringBuffer
unfolding flush put
write chars b = elim (leb b.size ((b.head + length chars) % u64_mod)) [
  | false ↦ put chars b
  | true ↦ elim (flush b) [ none ↦ none | some b' ↦ put chars b' ]
]

unfoldable pub to_string : CircularStringBuffer → List ℕ
to_string b = take b.head b.bytes
