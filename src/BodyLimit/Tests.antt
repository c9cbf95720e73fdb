-- ===== src/BodyLimit/Tests.antt =====
-- A run of readCappedBodyBytes of src/utils/http-body-limit.ts, and the theorem at it.
use b2_mcp.Base.{[], false, if◌then◌else◌, leb, refl, some, true, ◌∷◌, ◌≡◌}
use b2_mcp.BodyLimit.{
  bytes_of, concat_chunks, concat_from, content_length_exceeds_limit, max_mcp_body_bytes, natural,
  read_capped_body_bytes, read_loop,
}
use b2_mcp.BodyLimit.Capped.{
  done, failing, read_capped_body_bytes_lem, read_to_end, reads_of, too_long, total,
}

two_chunks :
    read_capped_body_bytes (record {
      content_length = some (natural 3);
      body = some (reads_of ((1 ∷ 2 ∷ []) ∷ (3 ∷ []) ∷ []) done);
    })
    ≡ record { body = bytes_of (1 ∷ 2 ∷ 3 ∷ []); cancelled = false; released = true }
unfolding read_capped_body_bytes read_loop content_length_exceeds_limit concat_chunks concat_from
two_chunks = refl

small_header : content_length_exceeds_limit (some (natural 3)) ≡ false
unfolding content_length_exceeds_limit
small_header = refl

read_capped_body_bytes_lem_example :
    read_capped_body_bytes (record {
      content_length = some (natural 3);
      body = some (reads_of ((1 ∷ 2 ∷ []) ∷ (3 ∷ []) ∷ []) (failing []));
    })
    ≡ (if leb (total ((1 ∷ 2 ∷ []) ∷ (3 ∷ []) ∷ [])) max_mcp_body_bytes
        then read_to_end ((1 ∷ 2 ∷ []) ∷ (3 ∷ []) ∷ []) (failing [])
        else too_long)
read_capped_body_bytes_lem_example =
    read_capped_body_bytes_lem (some (natural 3)) ((1 ∷ 2 ∷ []) ∷ (3 ∷ []) ∷ []) (failing [])
      small_header
