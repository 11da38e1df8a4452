-- ===== src/Agent/Chunks.antt =====
-- crates/jux-core/src/main_loop/mod.rs: the chunks that a tool's output is sent in.
use jux.Base.{
  ℕ, zero, suc, ◌+◌, ◌-◌, ◌/◌, ◌%◌, ◌≤◌, ◌<◌, Text, List, [], ◌∷◌, ◌++◌, map, length, All,
  append-nil, append_assoc, some, ◌≡◌, refl, sym, ap, ap₂, ◌∙◌, arith,
}
use jux.Agent.Values.{Values}
use jux.Agent.Monad.{RunLoopContext}
use jux.Agent.Utf8.{
  encode_char, as_bytes, last_chunk, chunks_from, chunks, ready, within, first_byte, decode_from,
  from_utf8_lossy, replacement,
}
use jux.Agent.Tools.{chunk_texts}

abbrev pub IsAscii : Text → Type 0
IsAscii text = All (λ c. c < 128) text

-- The parts of a text, one behind the other.
abbrev pub joined : List Text → Text
joined [] = []
joined (part ∷ parts) = part ++ joined parts

as_bytes-ascii : (t : Text) → IsAscii t → as_bytes t ≡ t
unfolding as_bytes
as_bytes-ascii [] h = refl
as_bytes-ascii (c ∷ t) h = rw (as_bytes-ascii t h.1) (ground arith)

decode-ascii :
    (t rest : Text) → IsAscii t → decode_from ready (t ++ rest) ≡ t ++ decode_from ready rest
unfolding decode_from
decode-ascii [] rest h = refl
decode-ascii (c ∷ t) rest h =
    let one : first_byte c ≡ (c ∷ [], ready) = ground arith in
    rw one (ap (λ l. c ∷ l) (decode-ascii t rest h.1))

from_utf8_lossy-ascii : (t : Text) → IsAscii t → from_utf8_lossy t ≡ t
unfolding from_utf8_lossy decode_from
from_utf8_lossy-ascii t h =
    ap (decode_from ready) (sym (append-nil t)) ∙ (decode-ascii t [] h ∙ append-nil t)

joined-last_chunk : (chunk : List ℕ) → joined (last_chunk chunk) ≡ chunk
joined-last_chunk [] = refl
joined-last_chunk (b ∷ bytes) = append-nil (b ∷ bytes)

joined-chunks_from :
    (size room : ℕ) (chunk bytes : List ℕ)
    → joined (chunks_from size room chunk bytes) ≡ chunk ++ bytes
unfolding chunks_from
joined-chunks_from size room chunk [] = joined-last_chunk chunk ∙ sym (append-nil chunk)
joined-chunks_from size (suc room) chunk (b ∷ bytes) =
    joined-chunks_from size room (chunk ++ b ∷ []) bytes ∙ append_assoc chunk (b ∷ []) bytes
joined-chunks_from size zero chunk (b ∷ bytes) =
    ap (λ l. chunk ++ l) (joined-chunks_from size (size - 1) (b ∷ []) bytes)

All-appended : (xs ys : Text) → IsAscii (xs ++ ys) → IsAscii xs × IsAscii ys
All-appended [] ys h = (tt, h)
All-appended (x ∷ xs) ys h = let (a, b) = All-appended xs ys h.1 in ((h.0, a), b)

joined-decoded :
    (parts : List (List ℕ))
    → IsAscii (joined parts)
    → joined (map from_utf8_lossy parts) ≡ joined parts
joined-decoded [] h = refl
joined-decoded (part ∷ parts) h =
    let (first, rest) = All-appended part (joined parts) h in
    rw (from_utf8_lossy-ascii part first) (ap (λ l. part ++ l) (joined-decoded parts rest))

-- The chunks that a tool's output of ASCII characters is sent in give the output back when they
-- are joined.
pub chunk_texts-ascii :
    (values : Values) (context : RunLoopContext values.Json) (content : Text)
    → IsAscii content
    → joined (chunk_texts values context (some content)) ≡ content
unfolding chunks
chunk_texts-ascii values context content h =
    let bytes = as_bytes-ascii content h in
    let whole : joined (chunks_from 4096 4096 [] content) ≡ content =
      joined-chunks_from 4096 4096 [] content in
    rw bytes (joined-decoded (chunks_from 4096 4096 [] content) (rw whole h) ∙ whole)

chunks_from-prefix :
    (size n room : ℕ) (chunk xs ys : List ℕ)
    → n ≡ length xs + room
    → chunks_from size n chunk (xs ++ ys) ≡ chunks_from size room (chunk ++ xs) ys
unfolding chunks_from
chunks_from-prefix size n room chunk [] ys h =
    let same : n ≡ room = omega arith in rw (append-nil chunk, same)
chunks_from-prefix size zero room chunk (x ∷ xs) ys h = absurd (omega arith)
chunks_from-prefix size (suc n) room chunk (x ∷ xs) ys h =
    chunks_from-prefix size n room (chunk ++ x ∷ []) xs ys (omega arith)
    ∙ ap (λ c. chunks_from size room c ys) (append_assoc chunk (x ∷ []) xs)

as_bytes-append : (s t : Text) → as_bytes (s ++ t) ≡ as_bytes s ++ as_bytes t
unfolding as_bytes
as_bytes-append [] t = refl
as_bytes-append (c ∷ s) t =
    rw (as_bytes-append s t) (sym (append_assoc (encode_char c) (as_bytes s) (as_bytes t)))

encode_char-two :
    (c : ℕ) → 128 ≤ c → c < 2048 → encode_char c ≡ (192 + c / 64) ∷ (128 + c % 64) ∷ []
encode_char-two c h k = ground arith

cut_behind : (b : ℕ) → 194 ≤ b → b ≤ 223 → decode_from ready (b ∷ []) ≡ replacement ∷ []
unfolding decode_from
cut_behind b h k =
    let first : first_byte b ≡ ([], within 0 128 191 (b - 192)) = ground arith in rw first

cut_before : (b : ℕ) → 128 ≤ b → b < 192 → decode_from ready (b ∷ []) ≡ replacement ∷ []
unfolding decode_from
cut_before b h k = let first : first_byte b ≡ (replacement ∷ [], ready) = ground arith in rw first

chunks-cut :
    (text : Text) (a b : ℕ)
    → length text ≡ 4095
    → chunks 4096 (text ++ a ∷ b ∷ []) ≡ (text ++ a ∷ []) ∷ (b ∷ []) ∷ []
unfolding chunks chunks_from
chunks-cut text a b h = chunks_from-prefix 4096 4096 1 [] text (a ∷ b ∷ []) (omega arith)

-- An output of 4095 ASCII characters and one more that takes two bytes is sent as two chunks in
-- which a replacement character stands for each of the two bytes.
pub chunk_texts-cut :
    (values : Values) (context : RunLoopContext values.Json) (text : Text) (c : ℕ)
    → IsAscii text
    → length text ≡ 4095
    → 128 ≤ c
    → c < 2048
    → chunk_texts values context (some (text ++ c ∷ []))
      ≡ (text ++ replacement ∷ []) ∷ (replacement ∷ []) ∷ []
unfolding from_utf8_lossy as_bytes
chunk_texts-cut values context text c ascii long h k =
    let bytes : as_bytes (text ++ c ∷ []) ≡ text ++ (192 + c / 64) ∷ (128 + c % 64) ∷ [] =
      as_bytes-append text (c ∷ [])
      ∙ ap₂ (λ l m. l ++ m) (as_bytes-ascii text ascii)
          (append-nil (encode_char c) ∙ encode_char-two c h k) in
    let first =
      decode-ascii text ((192 + c / 64) ∷ []) ascii
      ∙ ap (λ l. text ++ l) (cut_behind (192 + c / 64) (omega arith) (omega arith)) in
    let second = cut_before (128 + c % 64) (omega arith) (omega arith) in
    ap (λ l. map from_utf8_lossy (chunks 4096 l)) bytes
    ∙ (ap (map from_utf8_lossy) (chunks-cut text (192 + c / 64) (128 + c % 64) long)
        ∙ ap₂ (λ l m. l ∷ m ∷ []) first second)
