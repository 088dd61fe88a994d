-- ===== src/Crypt.antt =====
-- skynet/lualib-src/lua-crypt.c: the codecs for text and the key exchange. A string is its bytes; what fails
-- by `luaL_error` is none.
pub mod Hex
pub mod Xor
pub mod Base64
pub mod Dh
mod Tests
pub use skynet_notes.Prelude.Bytes.{AllBytes}
use skynet_notes.Prelude.{Option, none, some}

infixl 5 ◌>>=◌
abbrev pub ◌>>=◌ : {A B : Type 0} → Option A → (A → Option B) → Option B
none >>= f = none
some a >>= f = f a
