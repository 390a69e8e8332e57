-- ===== src/MarketData.antt =====
-- Market data: marketdata_store/store.py, marketdata/provider.py and marketdata/store_provider.py.
pub mod Store
pub mod Provider
pub mod Bars
pub mod Batch
