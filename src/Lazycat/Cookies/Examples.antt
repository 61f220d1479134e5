-- ===== src/Lazycat/Cookies/Examples.antt =====
-- A jar with one cookie, and a response that sets one, removes it, and names one without attributes.
use catnap.Common.{
  String, ◌≡◌, refl, List, [], ◌∷◌, Option, some, none, eq_string, insert, remove, starts_with,
  contains_text, trim, trim_start, trim_end, is_whitespace,
}
use catnap.Lazycat.Cookies.{
  CookieJar, split_once, is_expired, set_cookie_header, update_from_headers,
}

abbrev jar : CookieJar
jar = ("b", "9") ∷ []

abbrev headers : List (Option String)
headers = some "a= 1; Path=/" ∷ some "b=2; Max-Age=0" ∷ some "c=3" ∷ none ∷ []

bare_ignored : update_from_headers headers jar ≡ ("a", "1") ∷ []
unfolding update_from_headers set_cookie_header split_once is_expired contains_text starts_with trim
    trim_start trim_end is_whitespace insert remove
bare_ignored = refl
