-- ===== src/BodyLimit/Capped.antt =====
-- readCappedBodyBytes of src/utils/http-body-limit.ts against what it is for.
use b2_mcp.Base.{
  Bool-cases, List, Option, [], ap, append-nil, append_assoc, arith, false, if◌then◌else◌, inl, inr,
  leb, length, length-append, ltb, ltb_iff, refl, some, subst, suc, sym, true, ℕ, ◌++◌, ◌+◌, ◌<◌,
  ◌∙◌, ◌∷◌, ◌≡◌, ◌≤◌,
}
use b2_mcp.BodyLimit.{
  Chunk, HeaderNumber, Outcome, Read, bytes_of, concat_chunks, concat_from,
  content_length_exceeds_limit, fails, gives, max_mcp_body_bytes, read_capped_body_bytes, read_loop,
  refused, set_bytes, stream_error, zeros,
}

pub flatten : List Chunk → List ℕ
flatten [] = []
flatten (c ∷ cs) = c ++ flatten cs

pub total : List Chunk → ℕ
total [] = 0
total (c ∷ cs) = length c + total cs

set_bytes-append :
    (front body : List ℕ) (c : Chunk)
    → set_bytes (front ++ body) c (length front) ≡ front ++ set_bytes body c 0
set_bytes-append [] body c = refl
set_bytes-append (b ∷ front) body c = rw (set_bytes-append front body c) refl

suc-plus : (a b : ℕ) → suc (a + b) ≡ suc a + b
suc-plus a b = omega arith

plus_assoc : (a b c : ℕ) → a + (b + c) ≡ (a + b) + c
plus_assoc a b c = omega arith

set_bytes-none : (body : List ℕ) → set_bytes body [] 0 ≡ body
set_bytes-none [] = refl
set_bytes-none (b ∷ body) = refl

set_bytes-zeros : (c : Chunk) (n : ℕ) → set_bytes (zeros (length c + n)) c 0 ≡ c ++ zeros n
set_bytes-zeros [] n =
    subst (λ m. set_bytes (zeros m) [] 0 ≡ zeros n) (omega arith) (set_bytes-none (zeros n))
set_bytes-zeros (b ∷ c) n =
    subst (λ m. set_bytes (zeros m) (b ∷ c) 0 ≡ b ∷ c ++ zeros n) (suc-plus (length c) n)
      (ap (λ x. b ∷ x) (set_bytes-zeros c n))

-- The array that is filled chunk by chunk is their concatenation.
concat_from_lem :
    (front : List ℕ) (cs : List Chunk)
    → concat_from (front ++ zeros (total cs)) (length front) cs ≡ front ++ flatten cs
unfolding concat_from total flatten
concat_from_lem front [] = refl
concat_from_lem front (c ∷ cs) =
    rw (set_bytes-append front (zeros (length c + total cs)) c, set_bytes-zeros c (total cs))
      (subst (λ n. concat_from (front ++ (c ++ zeros (total cs))) n cs ≡ front ++ (c ++ flatten cs))
        (length-append front c)
        (rw (sym (append_assoc front c (zeros (total cs))), sym (append_assoc front c (flatten cs)))
          (concat_from_lem (front ++ c) cs)))

-- How a stream ends: in due course, or with an error before some further reads.
pub data End : Type 0 where
  done : End
  failing : List Read → End

abbrev pub reads_of : List Chunk → End → List Read
reads_of [] done = []
reads_of [] (failing more) = fails ∷ more
reads_of (c ∷ cs) e = gives c ∷ reads_of cs e

abbrev pub too_long : Outcome
too_long = record { body = refused; cancelled = true; released = true }

abbrev pub read_to_end : List Chunk → End → Outcome
read_to_end cs done = record { body = bytes_of (flatten cs); cancelled = false; released = true }
read_to_end cs (failing more) = record { body = stream_error; cancelled = false; released = true }

total-snoc : (cs : List Chunk) (c : Chunk) → total (cs ++ c ∷ []) ≡ total cs + length c
unfolding total
total-snoc [] c = omega arith
total-snoc (d ∷ cs) c = omega (arith, total-snoc cs c)

concat_chunks_lem : (cs : List Chunk) → concat_chunks cs (total cs) ≡ flatten cs
unfolding concat_chunks
concat_chunks_lem cs = concat_from_lem [] cs

over : (n : ℕ) → max_mcp_body_bytes < n → leb n max_mcp_body_bytes ≡ false
over n h = ground arith

within : (n : ℕ) → n ≤ max_mcp_body_bytes → leb n max_mcp_body_bytes ≡ true
within n h = ground arith

zero_total : total [] ≡ 0
unfolding total
zero_total = refl

loop-reads :
    (cs ds : List Chunk) (e : End) (n : ℕ)
    → total cs ≡ n
    → n ≤ max_mcp_body_bytes
    → read_loop cs n (reads_of ds e)
      ≡ (if leb (n + total ds) max_mcp_body_bytes then read_to_end (cs ++ ds) e else too_long)
unfolding read_loop total
loop-reads cs [] done n c h =
    rw (within (n + 0) (omega (arith, h)), append-nil cs, sym c, concat_chunks_lem cs) refl
loop-reads cs [] (failing more) n c h = rw (within (n + 0) (omega (arith, h))) refl
loop-reads cs (d ∷ ds) e n c h = elim (Bool-cases (ltb max_mcp_body_bytes (n + length d))) [
  | inl long ↦
      let more = (ltb_iff max_mcp_body_bytes (n + length d)).0 long in
      rw (long, over (n + (length d + total ds)) (omega (arith, more))) refl
  | inr short ↦
      rw (short, plus_assoc n (length d) (total ds), sym (append_assoc cs (d ∷ []) ds))
        (loop-reads (cs ++ d ∷ []) ds e (n + length d) (total-snoc cs d ∙ ap (λ x. x + length d) c)
          (ground (arith, short)))
]

-- A body whose declared length is within the cap and whose stream gives these chunks: the bytes of
-- all of them in order, where they are within the cap, or else nothing, with the stream cancelled
-- before anything behind is read. An error of the stream is passed on only if the cap was not passed
-- first. The lock is released in each case.
pub read_capped_body_bytes_lem :
    (declared : Option HeaderNumber) (cs : List Chunk) (e : End)
    → content_length_exceeds_limit declared ≡ false
    → read_capped_body_bytes (record { content_length = declared; body = some (reads_of cs e) })
      ≡ (if leb (total cs) max_mcp_body_bytes then read_to_end cs e else too_long)
unfolding read_capped_body_bytes
read_capped_body_bytes_lem declared cs e small = rw small (
    subst
      (λ n.
        read_loop [] 0 (reads_of cs e)
        ≡ (if leb n max_mcp_body_bytes then read_to_end cs e else too_long))
      (omega arith) (loop-reads [] cs e 0 zero_total (omega arith)))
