-- ===== src/Connections.antt =====
-- The connections to other services: the routes frontend/app/api/auth/callback/google/route.ts and
-- facebook/route.ts, frontend/app/(dashboard)/integrations/page.tsx, and its call back page
-- frontend/app/(dashboard)/integrations/callback/page.tsx. What the servers answer is a parameter.
pub mod Forwarding
mod Tests
use dmtool.Base.{
  ℕ, Bool, true, false, not, ◌&&◌, ◌||◌, List, [], ◌∷◌, ◌++◌, map, any, Option, none, some, Text,
  codes, text_eq, is_empty, split, if◌then◌else◌, Outcome, threw, returned,
}
use dmtool.Calendar.{is_filled}
use dmtool.Projects.{or_none}

-- The two routes. `fetch` answers whether the status of the answer is a success.
pub data Route : Type 0 where
  google facebook : Route

abbrev pub name_of : Route → Text
name_of google = codes "google"
name_of facebook = codes "facebook"

unfoldable pub backend_query : Text → Text → Text
backend_query code state = codes "code=" ++ (code ++ (codes "&state=" ++ state))

unfoldable pub backend_url : Route → Text → Text → Text
unfolding backend_query
backend_url r code state =
    codes "http://localhost:8080/api/oauth/"
    ++ (name_of r ++ (codes "/callback?" ++ backend_query code state))

abbrev pub redirect : Route → Outcome Bool → Text
redirect r threw = codes "/integrations?error=server_error"
redirect r (returned false) = codes "/integrations?error=backend_failed"
redirect google (returned true) = codes "/integrations?success=google_connected"
redirect facebook (returned true) = codes "/integrations?success=facebook_connected"

abbrev pub text_of : Option Text → Text
text_of none = []
text_of (some t) = t

-- The address asked of the backend, if any, and the address that the browser is sent to.
unfoldable pub get : (Text → Outcome Bool) → Route → Option Text → Option Text → Option Text × Text
unfolding backend_url
get fetch r code state =
    if not (is_filled code) || not (is_filled state)
    then (none, codes "/integrations?error=missing_params")
    else (
      some (backend_url r (text_of code) (text_of state)),
      redirect r (fetch (backend_url r (text_of code) (text_of state))),
    )

-- The page of the connections.
pub data Connected : Type 0 where
  connected available : Connected

pub record App : Type 0 where
  pub id : ℕ
  pub name : Text
  pub provider : Text
  pub status : Connected

pub record IntegrationsPage : Type 0 where
  pub integrations : List App
  pub loading : Bool

abbrev pub supported_apps : List App
supported_apps =
    record {
      id = 1;
      name = codes "Google Search Console";
      provider = codes "google";
      status = available;
    }
    ∷ record {
      id = 2;
      name = codes "Meta (Instagram/FB)";
      provider = codes "meta";
      status = available;
    }
    ∷ record { id = 3; name = codes "LinkedIn"; provider = codes "linkedin"; status = available }
    ∷ []

-- The credentials, each by its provider.
abbrev pub with_status : List Text → App → App
with_status creds a = record a {
  status = if any (λ c. text_eq c a.provider) creds then connected else available;
}

abbrev pub mapped : Outcome (Option (List Text)) → IntegrationsPage → IntegrationsPage
mapped threw s = s
mapped (returned creds) s = record s {
  integrations = map (with_status (or_none creds)) supported_apps;
}

unfoldable pub fetch_integrations :
    Outcome (Option (List Text)) → IntegrationsPage → IntegrationsPage
fetch_integrations reply s = record (mapped reply s) { loading = false }

abbrev pub disconnected :
    Outcome (Unit {0}) → Outcome (Option (List Text)) → IntegrationsPage → IntegrationsPage
disconnected threw again s = s
disconnected (returned _) again s = fetch_integrations again s

-- What a click does: a connected app is disconnected; else the browser goes to the address that the
-- API gives, if it gives one.
pub data Click : Type 0 where
  disconnect : Text → Click
  go : Text → Click
  not_available failed : Click

abbrev pub auth_url : (Text → Outcome (Option Text)) → Text → Outcome (Option Text)
auth_url api p =
    if text_eq p (codes "google") || text_eq p (codes "meta") || text_eq p (codes "linkedin")
    then api p
    else returned none

abbrev pub follow : Outcome (Option Text) → Click
follow threw = failed
follow (returned none) = not_available
follow (returned (some url)) = if is_empty url then not_available else go url

abbrev pub by_status : Connected → (Text → Outcome (Option Text)) → App → Click
by_status connected api a = disconnect a.provider
by_status available api a = follow (auth_url api a.provider)

unfoldable pub handle_connection : (Text → Outcome (Option Text)) → App → Click
handle_connection api a = by_status a.status api a

-- The call back page: the provider is what the state holds before a colon.
pub data Status : Type 0 where
  loading success error : Status

abbrev pub first_part : List Text → Text
first_part [] = []
first_part (w ∷ ws) = w

unfoldable pub provider_of : Option Text → Option Text
unfolding split
provider_of none = none
provider_of (some state) = some (first_part (split 58 state))

abbrev pub finished : Outcome (Unit {0}) → Status
finished threw = error
finished (returned _) = success

-- The address that is asked, if any, and the status that the page ends with.
unfoldable pub complete :
    (Text → Outcome (Unit {0})) → Option Text → Option Text → Option Text × Status
unfolding provider_of
complete api code state =
    if not (is_filled code) || not (is_filled (provider_of state))
    then (none, error)
    else (let address =
          codes "/integrations/"
          ++ (text_of (provider_of state) ++ (codes "/callback?code=" ++ text_of code)) in
        (some address, finished (api address)))
