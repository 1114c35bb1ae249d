-- ===== src/Rest/Query.antt =====
-- internal/rest/endpoints.go, pageOf: the window that a query asks for.
use cj_beer_company.Prelude.{String, Option, none, some}
use cj_beer_company.Prelude.Number.{atoi, number_of}
use cj_beer_company.CustomTypes.{Page, new_page}

-- c.DefaultQuery
abbrev default_query : Option String → String → String
default_query none fallback = fallback
default_query (some value) fallback = value

-- The errors of Atoi are ignored, so a number out of range counts as the nearest int.
unfoldable pub page_of : Option String → Option String → Page
unfolding atoi new_page
page_of limit offset =
    new_page (number_of (atoi (default_query limit "0")))
      (number_of (atoi (default_query offset "0")))
