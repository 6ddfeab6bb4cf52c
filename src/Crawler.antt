-- ===== src/Crawler.antt =====
-- domains/crawler_service: what a crawl finds on its way.
pub mod Navigation
