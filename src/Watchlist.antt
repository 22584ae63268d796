-- ===== src/Watchlist.antt =====
-- apps/web/src/operator/watchlistModel.ts: the list of watched instruments.
pub mod Symbols
pub mod Lists
pub mod Naming
pub mod Keeping
pub mod Saving
mod Examples
