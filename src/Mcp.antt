-- ===== src/Mcp.antt =====
-- internal/mcp: the background jobs of the MCP server.
pub mod Jobs
