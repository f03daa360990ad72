-- ===== src/Protocol/Redirect.antt =====
-- api_protocol.cpp: `redirect_target_allowed`.
pub mod Hosts
use beer_tab.Common.{
  ℕ, zero, suc, ◌-◌, List, [], ◌∷◌, Bool, true, false, not, ◌&&◌, ◌||◌, Text, ascii, text_eq,
  is_empty, length, take, drop, ltb, ◌==◌, if◌then◌else◌,
}

-- The bytes up to the first `c`, or all of them: `strchr` or `memchr` and the length that follows.
unfoldable pub until : ℕ → Text → Text
until c [] = []
until c (x ∷ s) = let rest = until c s in if x == c then [] else x ∷ rest

-- `memchr(s, c, n) != nullptr`.
unfoldable pub has_byte : ℕ → Text → Bool
has_byte c [] = false
has_byte c (x ∷ s) = x == c || has_byte c s

-- Longer than the suffix, and ending in it.
unfoldable pub ends_behind : Text → Text → Bool
unfolding text_eq
ends_behind suffix host =
    ltb (length suffix) (length host) && text_eq (drop (length host - length suffix) host) suffix

abbrev pub https : Text
https = ascii "https://"

-- What stands between the scheme and the first slash, and that without the port.
abbrev pub authority : Text → Text
authority url = until b'/' (drop 8 url)

abbrev pub host_of : Text → Text
host_of url = until b':' (authority url)

unfoldable pub redirect_target_allowed : Text → Bool
unfolding until has_byte ends_behind text_eq
redirect_target_allowed url =
    if not (text_eq (take 8 url) https)
    then false
    else if has_byte b'@' (authority url)
    then false
    else if is_empty (host_of url) || ltb 253 (length (host_of url))
    then false
    else ends_behind (ascii ".google.com") (host_of url)
      || ends_behind (ascii ".googleusercontent.com") (host_of url)
