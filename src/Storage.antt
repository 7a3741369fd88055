-- ===== src/Storage.antt =====
-- src/swimzh/storage: the documents of the gold store.
pub mod Codec
pub mod CalendarCodec
pub mod CatalogJson
