-- ===== src/Fmt.antt =====
-- src/libipc/imp/fmt.cpp: the text that `fmt` builds. `fmt_context` keeps a text of less than 2048
-- bytes in its own buffer and a longer one in a string. Bytes are numbers.
pub mod Text
pub mod Append
pub mod Print
pub mod Format
pub mod Joined
mod Tests
use cpp_ipc.Prelude.{
  ℕ, zero, suc, ◌+◌, ◌-◌, ◌^◌, bit_and, Bool, true, false, Option, none, some, List, [], ◌∷◌, ◌++◌,
  ◌==◌, ltb, leb, if◌then◌else◌, length, take, drop, replicate, get_or, min,
}
use cpp_ipc.Prelude.Bits.{bit_not}
use cpp_ipc.Prelude.Int.{ℤ, pos, negsuc}
use cpp_ipc.Ipc.Chunks.{u64}

-- `sbuf_.size()`.
abbrev pub sbuf_size : ℕ
sbuf_size = 2048

-- `joined` is the string that `joined_` refers to.
pub record Context : Type 0 where
  pub sbuf : List ℕ
  pub joined : List ℕ
  pub offset : ℕ

-- What a call writes to: nothing, or what lies from the offset on in the buffer or the string.
pub data Span : Type 0 where
  nowhere : Span
  in_sbuf : Span
  in_joined : Span

pub size : Context → Span → ℕ
size c nowhere = 0
size c in_sbuf = length c.sbuf - c.offset
size c in_joined = length c.joined - c.offset

-- A copy to the front of a span: the bytes from `at` on are replaced.
pub overwrite : (at : ℕ) → List ℕ → List ℕ → List ℕ
overwrite at data' xs = take at xs ++ (data' ++ drop (at + length data') xs)

pub copy_to : Context → Span → List ℕ → Context
copy_to c nowhere xs = c
copy_to c in_sbuf xs = record c { sbuf = overwrite c.offset xs c.sbuf }
copy_to c in_joined xs = record c { joined = overwrite c.offset xs c.joined }

-- `std::string::resize`.
pub resize : ℕ → List ℕ → List ℕ
resize n xs = take n xs ++ replicate (n - length xs) 0

pub roundup : ℕ → ℕ
roundup sz = u64 (bit_and sz (bit_not 64 (512 - 1)) + 512)

pub capacity : Context → ℕ
capacity c = if ltb c.offset sbuf_size then sbuf_size else length c.joined

pub reset : Context → Context
reset c = record c { offset = 0 }

-- `std::size_t(sz + 1)` for an `std::int32_t`; the sum is taken to wrap where it overflows.
pub next_room : (sz : ℕ) → ℕ
next_room sz = if ltb sz (2 ^ 31 - 1) then sz + 1 else 2 ^ 64 - 2 ^ 31

-- `fits n` tells whether the string may have n bytes; otherwise `assign` and `resize` throw.
module _ (fits : ℕ → Bool) where
  -- `joined_.resize(roundup(offset_ + sz))` and the span behind it.
  pub grow : ℕ → Context → Context × Span
  grow sz c =
      let n = roundup (u64 (c.offset + sz)) in
      if fits n then (record c { joined = resize n c.joined }, in_joined) else (c, nowhere)

  pub buffer : ℕ → Context → Context × Span
  buffer sz c =
      if ltb c.offset sbuf_size
      then (if ltb (u64 (c.offset + sz)) sbuf_size
          then (c, in_sbuf)
          else if fits c.offset
          then grow sz (record c { joined = take c.offset c.sbuf })
          else (c, nowhere))
      else if leb (length c.joined) (u64 (c.offset + sz))
      then grow sz c
      else (c, in_joined)

  pub finish : Context → Context × Bool
  finish c =
      if ltb c.offset sbuf_size
      then (if fits c.offset
          then (record c { joined = take c.offset c.sbuf }, true)
          else (c, false))
      else if fits c.offset
      then (record c { joined = resize c.offset c.joined }, true)
      else (c, false)

abbrev pub expend : ℕ → Context → Context
expend sz c = record c { offset = u64 (c.offset + sz) }

-- The span without a `'\0'` at its end.
pub normalize : List ℕ → List ℕ
normalize [] = []
normalize (a ∷ []) = if a == 0 then [] else a ∷ []
normalize (a ∷ b ∷ xs) = a ∷ normalize (b ∷ xs)

module _ (fits : ℕ → Bool) where
  pub append : List ℕ → Context → Context × Bool
  append [] c = (c, true)
  append (x ∷ xs) c =
      let str = normalize (x ∷ xs) in
      let sz = length str in
      let (c', s) = buffer fits sz c in
      if ltb (size c' s) sz then (c', false) else (expend sz (copy_to c' s str), true)

  -- `std::snprintf` with the format and the value given: what it returns for a span, which is an `int`,
  -- and what the span then begins with.
  module _ (snprintf : ℕ → ℤ × List ℕ) where
    -- A turn of the loop with `sz + 1`; `none` is no turn left.
    pub sprintf_loop : (fuel : ℕ) → (room : ℕ) → Context → Option (ℤ × Context)
    sprintf_loop zero room c = none
    sprintf_loop (suc fuel) room c =
        let (c', s) = buffer fits room c in
        let n = size c' s in
        let (sz, out) = snprintf n in
        let c'' = copy_to c' s out in
        elim (ltb n room) [
          | true ↦ some (negsuc 0, c')
          | false ↦ elim sz [
            | negsuc e ↦ some (negsuc e, c'')
            | pos z ↦ elim (leb z 0) [
              | true ↦ some (pos z, c'')
              | false ↦ elim (ltb z n) [
                | true ↦ some (pos z, expend z c'')
                | false ↦ sprintf_loop fuel (next_room z) c''
              ]
            ]
          ]
        ]

    abbrev pub sprintf : (fuel : ℕ) → Context → Option (ℤ × Context)
    sprintf fuel c = sprintf_loop fuel 0 c

-- `fmt_to` with one argument or more, each a call that adds its text: the first that fails ends it.
pub fmt_to : (Context → Context × Bool) → List (Context → Context × Bool) → Context → Context × Bool
fmt_to f [] c = f c
fmt_to f (g ∷ args) c =
    let (c', ok) = f c in let rest = fmt_to g args c' in if ok then rest else (c', ok)

-- `fmt`, where `sbuf` is what its context happens to hold.
pub fmt :
    (ℕ → Bool)
    → (sbuf : List ℕ) → (Context → Context × Bool)
    → List (Context → Context × Bool)
    → List ℕ
fmt fits sbuf f args =
    let (c, ok) = fmt_to f args (record { sbuf = sbuf; joined = []; offset = 0 }) in
    let (c', done) = finish fits c in if ok then (if done then c'.joined else []) else []
