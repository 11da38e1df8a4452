-- ===== src/Agent/Utf8.antt =====
-- The standard library's UTF-8 as crates/jux-core/src/main_loop/mod.rs uses it on a tool's output:
-- `as_bytes`, `chunks` and `String::from_utf8_lossy`.
use jux.Base.{
  ℕ, zero, suc, ◌+◌, ◌-◌, ◌*◌, ◌/◌, ◌%◌, ◌&&◌, Text, List, [], ◌∷◌, ◌++◌, ltb, leb, if◌then◌else◌,
}

abbrev pub encode_char : ℕ → List ℕ
encode_char c =
    if ltb c 128
    then c ∷ []
    else if ltb c 2048
    then (192 + c / 64) ∷ (128 + c % 64) ∷ []
    else if ltb c 65536
    then (224 + c / 4096) ∷ (128 + c / 64 % 64) ∷ (128 + c % 64) ∷ []
    else (240 + c / 262144) ∷ (128 + c / 4096 % 64) ∷ (128 + c / 64 % 64) ∷ (128 + c % 64) ∷ []

unfoldable pub as_bytes : Text → List ℕ
as_bytes [] = []
as_bytes (c ∷ text) = encode_char c ++ as_bytes text

abbrev pub last_chunk : List ℕ → List (List ℕ)
last_chunk [] = []
last_chunk (b ∷ bytes) = (b ∷ bytes) ∷ []

-- The chunks of bytes, behind one that has room for so many more.
unfoldable pub chunks_from : ℕ → ℕ → List ℕ → List ℕ → List (List ℕ)
chunks_from size room chunk [] = last_chunk chunk
chunks_from size (suc room) chunk (b ∷ bytes) = chunks_from size room (chunk ++ b ∷ []) bytes
chunks_from size zero chunk (b ∷ bytes) = chunk ∷ chunks_from size (size - 1) (b ∷ []) bytes

-- `slice::chunks`, of a size that is not 0
unfoldable pub chunks : ℕ → List ℕ → List (List ℕ)
unfolding chunks_from
chunks size bytes = chunks_from size size [] bytes

-- Where a decoder stands: before a character, or in one that lacks some bytes, the next of them in
-- a range.
pub data Decoding : Type 0 where
  ready : Decoding
  within : ℕ → ℕ → ℕ → ℕ → Decoding

abbrev pub replacement : ℕ
replacement = 65533

-- The characters that a first byte gives, and where the decoder is then.
abbrev pub first_byte : ℕ → Text × Decoding
first_byte b =
    if ltb b 128
    then (b ∷ [], ready)
    else if leb 194 b && leb b 223
    then ([], within 0 128 191 (b - 192))
    else if leb 224 b && leb b 239
    then (
      [],
      within 1 (if leb b 224 then 160 else 128) (if leb 237 b && leb b 237 then 159 else 191)
          (b - 224),
    )
    else if leb 240 b && leb b 244
    then ([], within 2 (if leb b 240 then 144 else 128) (if leb 244 b then 143 else 191) (b - 240))
    else (replacement ∷ [], ready)

abbrev behind : Text → Text × Decoding → Text × Decoding
behind text (rest, decoding) = (text ++ rest, decoding)

abbrev continued : ℕ → ℕ → Text × Decoding
continued zero c = (c ∷ [], ready)
continued (suc lacking) c = ([], within lacking 128 191 c)

abbrev pub next_byte : Decoding → ℕ → Text × Decoding
next_byte ready b = first_byte b
next_byte (within lacking low high c) b =
    if leb low b && leb b high
    then continued lacking (c * 64 + (b - 128))
    else behind (replacement ∷ []) (first_byte b)

abbrev pub at_end : Decoding → Text
at_end ready = []
at_end (within lacking low high c) = replacement ∷ []

unfoldable pub decode_from : Decoding → List ℕ → Text
decode_from decoding [] = at_end decoding
decode_from decoding (b ∷ bytes) =
    let step = next_byte decoding b in step.0 ++ decode_from step.1 bytes

unfoldable pub from_utf8_lossy : List ℕ → Text
unfolding decode_from
from_utf8_lossy bytes = decode_from ready bytes
