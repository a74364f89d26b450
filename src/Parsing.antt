-- ===== src/Parsing.antt =====
-- What the crawler takes from the text of a page.
pub mod Emails
pub mod Parse
