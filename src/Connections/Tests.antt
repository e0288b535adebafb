-- ===== src/Connections/Tests.antt =====
-- Concrete inputs for the connections.
use dmtool.Base.{◌≡◌, refl, true, [], ◌∷◌, none, some, codes, returned, map, text_eq}
use dmtool.Api.Query.{parse_query}
use dmtool.Uri.{is_unreserved}
use dmtool.Connections.{
  google, backend_query, get, fetch_integrations, connected, available, complete, success,
}
use dmtool.Connections.Forwarding.{IsPlain, with_state, backend_query-read}

abbrev plain_code : IsPlain (codes "ab")
plain_code = unfold is_unreserved in (refl, (refl, tt))

backend_query_example :
    (parse_query (backend_query (codes "ab") (codes "ab"))
      ≡ some ((codes "code", codes "ab") ∷ (codes "state", codes "ab") ∷ []))
    × (parse_query (backend_query (with_state (codes "ab") (codes "ab")) (codes "ab"))
        ≡ some (
            (codes "code", codes "ab")
            ∷ (codes "state", codes "ab")
            ∷ (codes "state", codes "ab")
            ∷ []))
backend_query_example =
    backend_query-read (codes "ab") (codes "ab") (codes "ab") plain_code plain_code plain_code

get_run :
    (get (λ u. returned true) google (some (codes "ab")) none).1
    ≡ codes "/integrations?error=missing_params"
unfolding get
get_run = refl

complete_run :
    complete (λ u. returned tt) (some (codes "ab")) (some (codes "meta:7"))
    ≡ (some (codes "/integrations/meta/callback?code=ab"), success)
unfolding complete
complete_run = refl

statuses_run :
    map
      (λ a. a.status)
      (fetch_integrations
        (returned (some (codes "meta" ∷ [])))
        (record { integrations = []; loading = true })).integrations
    ≡ available ∷ connected ∷ available ∷ []
unfolding fetch_integrations text_eq
statuses_run = refl
