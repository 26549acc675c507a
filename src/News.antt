-- ===== src/News.antt =====
-- bot/src/bot/news: articles, their sentiment, and the sentiment of a symbol.
pub mod State
pub mod Aggregator
pub mod Sentiment
pub mod Service
