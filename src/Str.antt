-- ===== src/Str.antt =====
-- util/str/str.go: slices and maps of strings.
pub mod Defs
