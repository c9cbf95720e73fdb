-- ===== src/BodyLimit.antt =====
-- src/utils/http-body-limit.ts: the body of a request, read up to a cap. The stream is the list of
-- what its reads give, a byte a number; `Number(raw)` of a content-length header is a number or not
-- finite.
mod Capped
mod Tests
use b2_mcp.Base.{
  Bool, List, Option, [], false, if◌then◌else◌, length, ltb, none, some, suc, true, zero, ℕ, ◌*◌,
  ◌++◌, ◌+◌, ◌∷◌,
}

abbrev pub max_mcp_body_bytes : ℕ
max_mcp_body_bytes = 1 * 1024 * 1024

-- What `Number` makes of a header that is there and not empty.
pub data HeaderNumber : Type 0 where
  not_finite negative : HeaderNumber
  natural : ℕ → HeaderNumber

abbrev pub Chunk : Type 0
Chunk = List ℕ

-- A read gives a chunk or rejects; past the last one the stream is done.
pub data Read : Type 0 where
  gives : Chunk → Read
  fails : Read

pub record Request : Type 0 where
  pub content_length : Option HeaderNumber
  pub body : Option (List Read)

-- `null`, the bytes, or the error of a read.
pub data Body : Type 0 where
  refused : Body
  bytes_of : List ℕ → Body
  stream_error : Body

-- The outcome, with the reader's fate: whether it was cancelled, and whether its lock was released.
pub record Outcome : Type 0 where
  pub body : Body
  pub cancelled : Bool
  pub released : Bool

unfoldable pub content_length_exceeds_limit : Option HeaderNumber → Bool
content_length_exceeds_limit none = false
content_length_exceeds_limit (some not_finite) = false
content_length_exceeds_limit (some negative) = false
content_length_exceeds_limit (some (natural n)) = ltb max_mcp_body_bytes n

-- `new Uint8Array(totalBytes)`
abbrev pub zeros : ℕ → List ℕ
zeros zero = []
zeros (suc n) = 0 ∷ zeros n

-- `body.set(chunk, offset)`
abbrev pub set_bytes : List ℕ → Chunk → ℕ → List ℕ
set_bytes (b ∷ body) chunk (suc offset) = b ∷ set_bytes body chunk offset
set_bytes (b ∷ body) (c ∷ chunk) zero = c ∷ set_bytes body chunk zero
set_bytes body _ _ = body

-- The loop over the chunks, from an offset.
unfoldable pub concat_from : List ℕ → ℕ → List Chunk → List ℕ
concat_from body offset [] = body
concat_from body offset (c ∷ chunks) =
    concat_from (set_bytes body c offset) (offset + length c) chunks

unfoldable pub concat_chunks : List Chunk → ℕ → List ℕ
concat_chunks chunks total_bytes = concat_from (zeros total_bytes) 0 chunks

-- The loop of reads, with the chunks and the count so far.
unfoldable pub read_loop : List Chunk → ℕ → List Read → Outcome
read_loop chunks bytes [] = record {
  body = bytes_of (concat_chunks chunks bytes);
  cancelled = false;
  released = true;
}
read_loop chunks bytes (fails ∷ reads) = record {
  body = stream_error;
  cancelled = false;
  released = true;
}
read_loop chunks bytes (gives value ∷ reads) =
    let rest = read_loop (chunks ++ value ∷ []) (bytes + length value) reads in
    if ltb max_mcp_body_bytes (bytes + length value)
    then record { body = refused; cancelled = true; released = true }
    else rest

-- Without a reader there is nothing to release.
unfoldable pub read_capped_body_bytes : Request → Outcome
read_capped_body_bytes request =
    if content_length_exceeds_limit request.content_length
    then record { body = refused; cancelled = false; released = true }
    else elim request.body [
      | none ↦ record { body = bytes_of []; cancelled = false; released = true }
      | some reads ↦ read_loop [] 0 reads
    ]
