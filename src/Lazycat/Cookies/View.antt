-- ===== src/Lazycat/Cookies/View.antt =====
-- The cookies as a function of their names.
use catnap.Common.{
  String, ◌≡◌, refl, ◌∙◌, ap, List, [], ◌∷◌, Option, none, some, ◌==◌, eq_string, if◌then◌else◌,
  get, Distinct, get-insert, get-remove, insert-Distinct, remove-Distinct,
}
use mathlib.Core.Path.{fun_ext}
use catnap.Lazycat.Cookies.{CookieJar, set_cookie_header, header_applied, update_from_headers}

abbrev pub Cookies : Type 0
Cookies = String → Option String

-- What a header does to the value of a name.
abbrev cookie_of : Option (String × Option String) → Cookies → Cookies
cookie_of none cookies name = cookies name
cookie_of (some (changed, value)) cookies name = if changed == name then value else cookies name

-- The headers one after the other.
abbrev pub cookies_after : List (Option String) → Cookies → Cookies
cookies_after [] cookies = cookies
cookies_after (raw ∷ headers) cookies =
    cookies_after headers (cookie_of (set_cookie_header raw) cookies)

abbrev pub view : CookieJar → Cookies
view jar name = get name jar

view-header :
    (asked : Option (String × Option String)) (jar : CookieJar)
    → view (header_applied asked jar) ≡ cookie_of asked (view jar)
view-header none jar = refl
view-header (some (changed, none)) jar = fun_ext (λ name. get-remove changed name jar)
view-header (some (changed, some value)) jar = fun_ext (λ name. get-insert changed name value jar)

header_applied-Distinct :
    (asked : Option (String × Option String)) (jar : CookieJar)
    → Distinct jar
    → Distinct (header_applied asked jar)
header_applied-Distinct none jar d = d
header_applied-Distinct (some (changed, none)) jar d = remove-Distinct changed jar d
header_applied-Distinct (some (changed, some value)) jar d = insert-Distinct changed value jar d

-- The pairs of a jar with one pair for each name implement a function from names to values: a
-- response's headers, one after the other, each set or remove the value of the one name that they ask
-- for. The jar keeps one pair for each name.
update_refines :
    (headers : List (Option String)) (jar : CookieJar)
    → Distinct jar
    → (view (update_from_headers headers jar) ≡ cookies_after headers (view jar))
      × Distinct (update_from_headers headers jar)
unfolding update_from_headers
update_refines [] jar d = (refl, d)
update_refines (raw ∷ headers) jar d =
    let asked = set_cookie_header raw in
    let rest =
      update_refines headers (header_applied asked jar) (header_applied-Distinct asked jar d) in
    (rest.0 ∙ ap (cookies_after headers) (view-header asked jar), rest.1)
