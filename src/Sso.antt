-- ===== src/Sso.antt =====
-- The condition language of single sign-on mappings, app/services/access/sso: a tokenizer, a parser
-- that evaluates while it reads, and the comparisons of claims.
pub mod Tokens
pub mod Value
pub mod Parser
pub mod Grammar
mod Tests
