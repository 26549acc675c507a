-- ===== src/Learning.antt =====
-- bot/src/bot/learning: how many trades a day takes to its goal, the conviction threshold that this
-- recommends, labels of trades, and profits per symbol.
pub mod Efficiency
pub mod Profits
pub mod Features
