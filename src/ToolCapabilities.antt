-- ===== src/ToolCapabilities.antt =====
-- src/utils/tool-capabilities.ts: which tools a B2 key and a set of OAuth scopes may use, and the
-- MCP annotations of a tool. A set of texts is the list of its elements, and a null set is `none`.
pub mod Tables
pub mod Access
pub mod Annotations
mod Tests
