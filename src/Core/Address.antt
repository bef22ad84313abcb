-- ===== src/Core/Address.antt =====
-- crates/bcc-core/src/types/address.rs. A text is the list of its UTF-8 bytes; a character that is
-- not ASCII is a run of bytes from 128 up, so the test on characters is the same test on bytes.
pub mod Laws
use better_call_chain.Prelude.{
  ℕ, ◌+◌, Bool, true, false, ◌&&◌, ◌||◌, not, List, [], ◌∷◌, ◌++◌, Result, ok, err, guard, ◌>>=◌,
  ◌>>◌, leb, ◌==◌, length, take, drop,
}
use better_call_chain.Core.Types.{Bytes, Address}
use better_call_chain.Core.Crypto.{Crypto, sha256}

pub data AddressError : Type 0 where
  invalid_prefix invalid_length invalid_character : AddressError

-- "bcs1"
abbrev pub prefix : Bytes
prefix = b'b' ∷ b'c' ∷ b's' ∷ b'1' ∷ []

-- `str::starts_with`
unfoldable pub starts_with : Bytes → Bytes → Bool
starts_with s [] = true
starts_with [] (p ∷ ps) = false
starts_with (x ∷ s) (p ∷ ps) = x == p && starts_with s ps

-- `char::is_ascii_hexdigit`
unfoldable pub is_hexdigit : ℕ → Bool
is_hexdigit c =
    (leb b'0' c && leb c b'9') || (leb b'a' c && leb c b'f') || (leb b'A' c && leb c b'F')

unfoldable pub all_hexdigits : Bytes → Bool
all_hexdigits [] = true
all_hexdigits (x ∷ s) = is_hexdigit x && all_hexdigits s

unfoldable pub validate : Bytes → Result AddressError Address
validate s = do
  guard (starts_with s prefix) invalid_prefix
  guard (length (drop (length prefix) s) == 40) invalid_length
  guard (all_hexdigits (drop (length prefix) s)) invalid_character
  ok (record { text = s })

unfoldable pub from_pubkey_bytes : Crypto → Bytes → Address
from_pubkey_bytes c pubkey = record { text = prefix ++ c.hex_encode (take 20 (sha256 c pubkey)) }
