-- ===== src/Translator.antt =====
-- internal/translator: recognising Georgian in Latin letters, and the calls of Yandex Translate.
pub mod Dictionary
pub mod Georgian
pub mod Verdict
pub mod Yandex
