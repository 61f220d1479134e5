-- ===== src/Lazycat/Cookies.antt =====
-- src/lazycat.rs, `CookieJar`.
pub mod View
pub mod Examples
use catnap.Common.{
  ℕ, ◌+◌, String, String-append, Bool, true, false, ◌&&◌, ◌||◌, List, [], ◌∷◌, Option, none, some,
  ◌==◌, eq_nat, eq_string, if◌then◌else◌, insert, remove, map, map_some, trim, is_empty, codes,
  ascii_lowercase, contains_text,
}
use Prim.Native.Char.{Char, code}

-- `char` in front of the first part of a text that was split.
abbrev longer_first : Char → Option (String × String) → Option (String × String)
longer_first c none = none
longer_first c (some parts) = some (String.◌∷◌ c parts.0, parts.1)

-- `str::split_once` at a character.
unfoldable pub split_once : ℕ → String → Option (String × String)
split_once at String.[] = none
split_once at (String.◌∷◌ c s) =
    let rest = split_once at s in if code c == at then some (String.[], s) else longer_first c rest

-- `pairs`
abbrev pub CookieJar : Type 0
CookieJar = List (String × String)

abbrev joined_pairs : String × String → CookieJar → String
joined_pairs (name, value) [] = String-append name (String-append "=" value)
joined_pairs (name, value) (pair ∷ pairs) =
    let rest = joined_pairs pair pairs in
    String-append name (String-append "=" (String-append value (String-append "; " rest)))

abbrev pub header_value : CookieJar → Option String
header_value [] = none
header_value (pair ∷ pairs) = some (joined_pairs pair pairs)

-- `set` and `remove` are those of a map as a list of pairs.
abbrev pub set_cookie : String → String → CookieJar → CookieJar
set_cookie name value jar = insert name value jar

abbrev pub remove_cookie : String → CookieJar → CookieJar
remove_cookie name jar = remove name jar

unfoldable pub is_expired : String → Bool
unfolding contains_text
is_expired raw =
    let lowered = map ascii_lowercase (codes raw) in
    contains_text (codes "max-age=0") lowered
    || contains_text (codes "expires=thu, 01-jan-1970") lowered

-- What a header asks for: a name with its value, or a name to remove.
abbrev named_cookie : String → String × String → Option (String × Option String)
named_cookie raw (name, value) =
    if is_empty (trim name)
    then none
    else some (trim name, if is_expired raw then none else some (trim value))

abbrev and_split : ℕ → Option (String × String) → Option (String × String)
and_split at none = none
and_split at (some parts) = split_once at parts.0

-- `;` is 59 and `=` is 61. A value that is no text is `none`.
abbrev asked_cookie : String → Option (String × String) → Option (String × Option String)
asked_cookie raw none = none
asked_cookie raw (some parts) = named_cookie raw parts

unfoldable pub set_cookie_header : Option String → Option (String × Option String)
unfolding split_once is_expired trim
set_cookie_header none = none
set_cookie_header (some raw) = asked_cookie raw (and_split 61 (split_once 59 raw))

abbrev pub header_applied : Option (String × Option String) → CookieJar → CookieJar
header_applied none jar = jar
header_applied (some (name, none)) jar = remove_cookie name jar
header_applied (some (name, some value)) jar = set_cookie name value jar

-- The values of the headers `Set-Cookie`, in their order.
unfoldable pub update_from_headers : List (Option String) → CookieJar → CookieJar
unfolding set_cookie_header
update_from_headers [] jar = jar
update_from_headers (raw ∷ headers) jar =
    update_from_headers headers (header_applied (set_cookie_header raw) jar)
