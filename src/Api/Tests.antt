-- ===== src/Api/Tests.antt =====
-- The addresses of concrete calls.
use dmtool.Base.{◌≡◌, refl, List, [], ◌∷◌, ◌++◌, some, Text, codes, arith}
use dmtool.Api.{dashboard_request, get_keywords, get_public_profile, show}
use dmtool.Api.Others.{
  seo_request, seo_as_dashboard, find_keywords, seo_request-dashboard, social_request,
  social_as_dashboard, get_profile, social_request-dashboard,
}
use dmtool.Api.Query.{
  parse_query, query, parse_query-query, get_keywords-query, get_public_profile-query,
}
use dmtool.Uri.{is_unreserved}

show_example : show 1207 ≡ codes "1207"
unfolding show
show_example = refl

abbrev odd : List (Text × Text)
odd = (codes "a&b", codes "c=d é") ∷ []

parse_query-query_example : parse_query (query odd) ≡ some odd
parse_query-query_example = parse_query-query (codes "a&b") (codes "c=d é") [] (omega arith)

get_keywords-query_example :
    (q : Text) × ((dashboard_request (get_keywords 12 (some (codes "x&y")))).url
      ≡ codes "/seo/keywords?" ++ q)
    × (parse_query q ≡ some ((codes "project_id", show 12) ∷ (codes "seed", codes "x&y") ∷ []))
get_keywords-query_example = get_keywords-query 12 b'x' (codes "&y") (omega arith)

get_public_profile-query_example :
    (q : Text) × ((dashboard_request (get_public_profile (codes "a&b") (codes "x") (some 3))).url
      ≡ codes "/social/profile?" ++ q)
    × (parse_query q
        ≡ some (
            (codes "handle", codes "a&b")
            ∷ (codes "platform", codes "x")
            ∷ (codes "project_id", show 3)
            ∷ []))
unfolding is_unreserved
get_public_profile-query_example =
    get_public_profile-query (codes "a&b") (codes "x") 2 (omega arith) (ground arith)

seo_request_example :
    seo_request (find_keywords 12 (some (codes "x&y")))
    ≡ dashboard_request (seo_as_dashboard (find_keywords 12 (some (codes "x&y"))))
seo_request_example = seo_request-dashboard (find_keywords 12 (some (codes "x&y")))

social_request_example :
    social_request (get_profile (codes "ann") (codes "x"))
    ≡ dashboard_request (social_as_dashboard (get_profile (codes "ann") (codes "x")))
social_request_example = social_request-dashboard (get_profile (codes "ann") (codes "x"))
