-- ===== src/Text.antt =====
-- What the program uses of Go's `strings`, `strconv` and `encoding/base64`, over bytes. These are
-- the standard library's functions at the arguments that oiajudge/pkg/oiajudge/store.go gives them.
pub mod Bytes
pub mod Decimal
pub mod Base64
mod Tests
