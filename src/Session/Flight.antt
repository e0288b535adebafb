-- ===== src/Session/Flight.antt =====
-- `runRefresh` of frontend/lib/api-client.ts: callers that come while a refresh is under way share
-- it. A promise is named by the number of the POST that it waits for.
use dmtool.Base.{
  ℕ, zero, suc, ◌+◌, ◌≤◌, ◌<◌, ◌≡◌, refl, List, [], ◌∷◌, Option, none, some, All, arith, ap, ◌∙◌,
  ◌++◌, replicate, replicate-snoc,
}

pub record Flight : Type 0 where
  pub refresh_in_flight : Option ℕ
  pub posts : ℕ
  pub handed_out : List ℕ

pub data Event : Type 0 where
  call settle : Event

abbrev pub idle : Flight
idle = record { refresh_in_flight = none; posts = 0; handed_out = [] }

-- A caller joins the refresh that is under way, or starts one.
abbrev pub join_or_start : Option ℕ → Flight → Flight
join_or_start (some p) f = record f { handed_out = p ∷ f.handed_out }
join_or_start none f = record f {
  refresh_in_flight = some f.posts;
  posts = suc f.posts;
  handed_out = f.posts ∷ f.handed_out;
}

unfoldable pub run_refresh : Flight → Flight
run_refresh f = join_or_start f.refresh_in_flight f

-- `.finally(() => { refreshInFlight = null; })`.
unfoldable pub finally : Flight → Flight
finally f = record f { refresh_in_flight = none }

abbrev pub step : Flight → Event → Flight
step f call = run_refresh f
step f settle = finally f

unfoldable pub run : Flight → List Event → Flight
run f [] = f
run f (e ∷ es) = run (step f e) es

abbrev pub settles : List Event → ℕ
settles [] = 0
settles (call ∷ es) = settles es
settles (settle ∷ es) = suc (settles es)

-- One refresh at a time: the one under way is the last that was sent, and every caller has the
-- promise of a refresh that was sent.
pub record IsSound (f : Flight) : Type 0 where
  pub latest : (p : ℕ) → f.refresh_in_flight ≡ some p → suc p ≡ f.posts
  pub sent : All (λ p. p < f.posts) f.handed_out

grow : (n : ℕ) (ps : List ℕ) → All (λ p. p < n) ps → All (λ p. p < suc n) ps
grow n [] h = tt
grow n (p ∷ ps) (q, h) = (omega arith, grow n ps h)

join-IsSound :
    (o : Option ℕ) (f : Flight) → f.refresh_in_flight ≡ o → IsSound f → IsSound (join_or_start o f)
join-IsSound (some p) f e i = record {
  latest = i.latest;
  sent = (omega (arith, i.latest p e), i.sent);
}
join-IsSound none f e i = record {
  latest = λ p h. ground arith;
  sent = (omega arith, grow f.posts f.handed_out i.sent);
}

step-IsSound : (f : Flight) (e : Event) → IsSound f → IsSound (step f e)
unfolding run_refresh finally
step-IsSound f call i = join-IsSound f.refresh_in_flight f refl i
step-IsSound f settle i = record { latest = λ p h. cc; sent = i.sent }

-- A refresh is sent only when none is under way.
busy : Option ℕ → ℕ
busy none = 0
busy (some p) = 1

join-posts : (o : Option ℕ) (f : Flight) → (join_or_start o f).posts + busy o ≤ f.posts + 1
unfolding busy
join-posts (some p) f = omega arith
join-posts none f = omega arith

join-busy :
    (o : Option ℕ) (f : Flight)
    → f.refresh_in_flight ≡ o
    → busy (join_or_start o f).refresh_in_flight ≡ 1
unfolding busy
join-busy (some p) f e = rw e
join-busy none f e = refl

busy-le : (o : Option ℕ) → busy o ≤ 1
unfolding busy
busy-le none = omega arith
busy-le (some p) = omega arith

run_refresh-posts : (f : Flight) → (run_refresh f).posts + busy f.refresh_in_flight ≤ f.posts + 1
unfolding run_refresh
run_refresh-posts f = join-posts f.refresh_in_flight f

run_refresh-busy : (f : Flight) → busy (run_refresh f).refresh_in_flight ≡ 1
unfolding run_refresh
run_refresh-busy f = join-busy f.refresh_in_flight f refl

finally-posts : (f : Flight) → (finally f).posts ≡ f.posts
unfolding finally
finally-posts f = refl

finally-busy : (f : Flight) → busy (finally f).refresh_in_flight ≡ 0
unfolding finally busy
finally-busy f = refl

posts-run :
    (es : List Event) (f : Flight)
    → (run f es).posts + busy f.refresh_in_flight
      ≤ f.posts + settles es + busy (run f es).refresh_in_flight
unfolding run
posts-run [] f = omega arith
posts-run (call ∷ es) f =
    omega (arith, posts-run es (run_refresh f), run_refresh-posts f, run_refresh-busy f)
posts-run (settle ∷ es) f =
    omega (
      arith,
      posts-run es (finally f),
      finally-posts f,
      finally-busy f,
      busy-le f.refresh_in_flight,
    )

idle-IsSound : IsSound idle
idle-IsSound = record { latest = λ p h. cc; sent = tt }

pub run-IsSound : (es : List Event) (f : Flight) → IsSound f → IsSound (run f es)
unfolding run
run-IsSound [] f i = i
run-IsSound (e ∷ es) f i = run-IsSound es (step f e) (step-IsSound f e i)

-- The state while the refresh `p` is under way.
abbrev under_way : ℕ → ℕ → List ℕ → Flight
under_way p m ps = record { refresh_in_flight = some p; posts = m; handed_out = ps }

-- Every caller that comes while the refresh `p` is under way has the promise `p`.
run-join :
    (n p m : ℕ) (ps : List ℕ)
    → run (under_way p m ps) (replicate n call) ≡ under_way p m (replicate n p ++ ps)
unfolding run run_refresh
run-join zero p m ps = refl
run-join (suc n) p m ps = run-join n p m (p ∷ ps) ∙ ap (under_way p m) (replicate-snoc n p ps)

-- After an answer, the next caller and all that come before the next answer share one new refresh.
run-settle :
    (n : ℕ) (f : Flight)
    → run f (settle ∷ call ∷ replicate n call)
      ≡ under_way f.posts (suc f.posts) (replicate (suc n) f.posts ++ f.handed_out)
unfolding run run_refresh finally
run-settle n f =
    run-join n f.posts (suc f.posts) (f.posts ∷ f.handed_out)
    ∙ ap (under_way f.posts (suc f.posts)) (replicate-snoc n f.posts f.handed_out)

-- Whatever the order of the calls and of the answers: at most one refresh more is sent than was
-- answered, the one under way is the last that was sent, and every caller waits for a refresh that
-- was sent. Of the callers that come between an answer and the next one, the first sends one new
-- refresh, and all of them wait for it.
pub run_refresh_shared :
    (es : List Event) (n : ℕ)
    → ((run idle es).posts ≤ settles es + 1)
      × IsSound (run idle es)
      × (run (run idle es) (settle ∷ call ∷ replicate n call) ≡ record {
        refresh_in_flight = some (run idle es).posts;
        posts = suc (run idle es).posts;
        handed_out = replicate (suc n) (run idle es).posts ++ (run idle es).handed_out;
      })
run_refresh_shared es n = (
  omega (arith, posts-run es idle, busy-le (run idle es).refresh_in_flight),
  run-IsSound es idle idle-IsSound,
  run-settle n (run idle es),
)
