-- ===== src/Elicitation/Targets.antt =====
-- What the whole prompt of src/utils/destructive-elicitation.ts shows, target by target.
use b2_mcp.Json.{Json}
