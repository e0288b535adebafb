-- ===== src/Nav/Visible.antt =====
-- Which links a mode shows, and which groups are open after some clicks.
use dmtool.Base.{
  ◌≢◌, ◌≡◌, refl, ap, ◌∙◌, Bool, false, not, ◌&&◌, ◌||◌, List, [], ◌∷◌, map, some, Text, text_eq,
  any, filter, if◌then◌else◌, arith, returned, ℕ, ◌<◌,
}
use dmtool.Cookie.{
  Mode, search, social, combined, Page, cookie_user, set_user, cookie_options, days,
}
use dmtool.Cookie.Store.{CookieStore, JsonCodec, Json, IsStorable}
use dmtool.Cookie.Writing.{read_cookie-set_self, IsName}
use dmtool.Uri.{is_unreserved}
use dmtool.Nav.{
  NavItem, NavGroup, lists_mode, admits, has_items, visible_groups, toggle_group, toggle_groups,
  nav_groups, same_mode, dashboard_group, seo_group, social_group, ai_group, account_group,
  get_user_role, role_from, role_of,
}

any-filter {ℓ} :
    {A : Type ℓ} (p q : A → Bool) (xs : List A) → any p (filter q xs) ≡ any (λ x. q x && p x) xs
any-filter p q [] = refl
any-filter p q (x ∷ xs) = ground (arith, any-filter p q xs)

any-map {ℓ κ} :
    {A : Type ℓ} {B : Type κ} (p : B → Bool) (f : A → B) (xs : List A)
    → any p (map f xs) ≡ any (λ x. p (f x)) xs
any-map p f [] = refl
any-map p f (x ∷ xs) = ap (λ b. p (f x) || b) (any-map p f xs)

any-ext {ℓ} :
    {A : Type ℓ} (p q : A → Bool) (xs : List A) → ((x : A) → p x ≡ q x) → any p xs ≡ any q xs
any-ext p q [] h = refl
any-ext p q (x ∷ xs) h = ground (arith, h x, any-ext p q xs h)

any-items {ℓ} : {A : Type ℓ} (p : A → Bool) (is : List A) → (has_items is && any p is) ≡ any p is
any-items p [] = refl
any-items p (i ∷ is) = refl

-- A link is shown exactly when some group lists the mode and has the link among the items that
-- admit the mode: whatever is asked of the title of the group and of the link.
pub visible_groups_lem :
    {M : Type 0} (same : M → M → Bool) (mode : M) (q : Text → Bool) (p : NavItem M → Bool)
    (gs : List (NavGroup M))
    → any (λ g. q g.title && any p g.items) (visible_groups same mode gs)
      ≡ any
          (λ g.
            lists_mode same mode g.modes
            && (q g.title && any (λ i. admits same mode i.mode_extras && p i) g.items))
          gs
unfolding visible_groups
visible_groups_lem {M} same mode q p [] = refl
visible_groups_lem {M} same mode q p (g ∷ gs) =
    let admitted : NavItem M → Bool = λ i. admits same mode i.mode_extras in
    ground (
      arith,
      visible_groups_lem same mode q p gs,
      any-items p (filter admitted g.items),
      any-filter p admitted g.items,
    )

or_cover :
    (a b c d e : Bool)
    → (a || (b || (c || (d || (e || false)))))
      ≡ ((a || (b || (d || (e || false)))) || (a || (c || (d || (e || false)))))
or_cover a b c d e = ground arith

-- In the combined mode the sidebar shows exactly the links that it shows in the search mode or in
-- the social mode, whatever is asked of a link.
pub combined_shows_all :
    (p : NavItem Mode → Bool)
    → let shown : Mode → Bool =
        λ m. any (λ g. any p g.items) (visible_groups same_mode m nav_groups) in
      shown combined ≡ (shown search || shown social)
unfolding nav_groups visible_groups
combined_shows_all p =
    let shown : NavGroup Mode → Bool = λ g. any p g.items in
    or_cover (shown dashboard_group) (shown seo_group) (shown social_group) (shown ai_group)
      (shown account_group)

-- How often a title was clicked, as its parity.
unfoldable pub clicked_odd : Text → List Text → Bool
clicked_odd t [] = false
clicked_odd t (c ∷ cs) = let rest = clicked_odd t cs in if text_eq t c then not rest else rest

-- After any clicks on the titles, a group is open as it was at first when its title was clicked
-- an even number of times, and the other way round when the number is odd.
pub toggle_groups_lem :
    (clicks : List Text) (open_groups : Text → Bool) (t : Text)
    → toggle_groups clicks open_groups t
      ≡ (if clicked_odd t clicks then not (open_groups t) else open_groups t)
unfolding toggle_groups clicked_odd toggle_group
toggle_groups_lem [] o t = refl
toggle_groups_lem (c ∷ cs) o t = ground (arith, toggle_groups_lem cs (toggle_group c o) t)

user-IsName : IsName cookie_user
unfolding is_unreserved
user-IsName = ground arith

filled_role :
    (b : CookieStore) (json : JsonCodec) (user : Json) (raw : Text)
    → raw ≢ []
    → json.parse raw ≡ some user
    → role_from b json (returned (some raw)) ≡ returned (role_of (some user))
filled_role b json user [] h e = ground (arith, h refl)
filled_role b json user (c ∷ raw) h e = rw e refl

-- In the browser, the role that decides on the link to the administration is the role of the user
-- whom the login stored, for a user that the codec gives back.
pub get_user_role-set_user :
    (b : CookieStore) (json : JsonCodec) (now : ℕ) (user : Json) (p : Page b) {j : b.Jar}
    → p.jar ≡ some j
    → IsStorable json user
    → now < cookie_options now (days 30)
    → get_user_role b json (set_user b json now user p) ≡ returned (role_of (some user))
unfolding get_user_role set_user
get_user_role-set_user b json now user p e s late =
    ap (role_from b json) (
      read_cookie-set_self b now cookie_user user-IsName p (json.stringify user) (days 30) e
        s.scalars late)
    ∙ filled_role b json user (json.stringify user) s.filled s.parses
