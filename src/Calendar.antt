-- ===== src/Calendar.antt =====
-- frontend/app/(dashboard)/system/calendar/page.tsx: the drafts of the content calendar, and
-- `saveScheduledContent`, which checks and uploads them. Dates, the clock and the answers of the
-- API are parameters; the title of an upload, a cut of the caption, is left out.
pub mod Numbers
pub mod Clock
pub mod TwelveHours
pub mod Drafts
pub mod Saving
mod Tests
use dmtool.Base.{
  ℕ, zero, suc, ◌+◌, Bool, true, false, not, ◌&&◌, ◌||◌, List, [], ◌∷◌, ◌++◌, map, Option, none,
  some, Text, codes, text_eq, is_empty, trim, strip_prefix, split, any, filter, length, leb,
  if◌then◌else◌,
}
use dmtool.Cookie.Store.{is_some}
use dmtool.Calendar.Numbers.{Parsed, nan, plus, parse_int}

-- The file of an input element: its name and its MIME type.
pub record File : Type 0 where
  pub name : Text
  pub mime : Text

pub record ScheduledDraft : Type 0 where
  pub title : Text
  pub platform : Text
  pub content_type : Text
  pub time : Text
  pub caption : Text
  pub location : Text
  pub music : Text
  pub music_preview_url : Text
  pub tags : Text
  pub asset_name : Text
  pub file : Option File
  pub thumbnail : Option File
  pub thumbnail_name : Text
  pub thumbnail_url : Option Text
  pub asset_url : Option Text
  pub preview_url : Option Text

-- The handles of a project; the first two networks have several spellings.
pub record Project : Type 0 where
  pub id : ℕ
  pub ig_handles : List (Option Text)
  pub fb_handles : List (Option Text)
  pub twitter_handle : Option Text
  pub linkedin_handle : Option Text

-- A text that is there and not empty.
abbrev pub is_filled : Option Text → Bool
is_filled none = false
is_filled (some t) = not (is_empty t)

unfoldable pub get_project_platform : Option Project → Text
get_project_platform none = codes "instagram"
get_project_platform (some p) =
    if any is_filled p.ig_handles
    then codes "instagram"
    else if any is_filled p.fb_handles
    then codes "facebook"
    else if is_filled p.twitter_handle
    then codes "twitter"
    else if is_filled p.linkedin_handle
    then codes "linkedin"
    else codes "instagram"

unfoldable pub blank_draft : Text → ScheduledDraft
blank_draft platform = record {
  title = [];
  platform = platform;
  content_type = codes "post";
  time = codes "10:00";
  caption = [];
  location = [];
  music = [];
  music_preview_url = [];
  tags = [];
  asset_name = [];
  file = none;
  thumbnail = none;
  thumbnail_name = [];
  thumbnail_url = none;
  asset_url = none;
  preview_url = none;
}

-- The fields that `updateDraft` may set to a text.
pub data Field : Type 0 where
  title platform content_type time caption location music music_preview_url tags asset_name : Field
  thumbnail_name thumbnail_url asset_url preview_url : Field

abbrev pub set_field : Field → Text → ScheduledDraft → ScheduledDraft
set_field title v d = record d { title = v }
set_field platform v d = record d { platform = v }
set_field content_type v d = record d { content_type = v }
set_field time v d = record d { time = v }
set_field caption v d = record d { caption = v }
set_field location v d = record d { location = v }
set_field music v d = record d { music = v }
set_field music_preview_url v d = record d { music_preview_url = v }
set_field tags v d = record d { tags = v }
set_field asset_name v d = record d { asset_name = v }
set_field thumbnail_name v d = record d { thumbnail_name = v }
set_field thumbnail_url v d = record d { thumbnail_url = some v }
set_field asset_url v d = record d { asset_url = some v }
set_field preview_url v d = record d { preview_url = some v }

-- The `map` and the `filter` on the index of a draft.
unfoldable pub map_at {ℓ} : {A : Type ℓ} → ℕ → (A → A) → List A → List A
map_at i f [] = []
map_at zero f (x ∷ xs) = f x ∷ xs
map_at (suc i) f (x ∷ xs) = x ∷ map_at i f xs

unfoldable pub remove_at {ℓ} : {A : Type ℓ} → ℕ → List A → List A
remove_at i [] = []
remove_at zero (x ∷ xs) = xs
remove_at (suc i) (x ∷ xs) = x ∷ remove_at i xs

unfoldable pub update_draft : ℕ → Field → Text → List ScheduledDraft → List ScheduledDraft
unfolding map_at
update_draft i f v ds = map_at i (set_field f v) ds

unfoldable pub add_draft_row : Option Project → List ScheduledDraft → List ScheduledDraft
add_draft_row p ds = ds ++ blank_draft (get_project_platform p) ∷ []

abbrev pub remove_one : ℕ → List ScheduledDraft → List ScheduledDraft
remove_one i (d ∷ []) = d ∷ []
remove_one i ds = remove_at i ds

unfoldable pub remove_draft_row : ℕ → List ScheduledDraft → List ScheduledDraft
remove_draft_row i ds = remove_one i ds

abbrev pub name_or : Option File → Text → Text
name_or none old = old
name_or (some f) old = f.name

abbrev pub map_file : (File → Text) → Option File → Option Text
map_file f none = none
map_file f (some x) = some (f x)

abbrev pub set_file : (File → Text) → Option File → ScheduledDraft → ScheduledDraft
set_file create_object_url file d = record d {
  file = file;
  asset_name = name_or file d.asset_name;
  preview_url = map_file create_object_url file;
}

abbrev pub set_thumbnail : Option File → ScheduledDraft → ScheduledDraft
set_thumbnail file d = record d { thumbnail = file; thumbnail_name = name_or file d.thumbnail_name }

-- `URL.createObjectURL` is the browser's.
unfoldable pub handle_file_change :
    (File → Text) → ℕ → Bool → Option File → List ScheduledDraft → List ScheduledDraft
unfolding map_at
handle_file_change create_object_url i is_file file ds =
    map_at i (if is_file then set_file create_object_url file else set_thumbnail file) ds

-- The drafts that a save considers, and its two checks of them.
abbrev pub is_story : ScheduledDraft → Bool
is_story d = text_eq d.content_type (codes "story")

abbrev pub is_valid : ScheduledDraft → Bool
is_valid d =
    is_story d || (not (is_empty (trim d.caption)) || (is_some d.file || is_filled d.asset_url))

-- `/\.(mp4|webm|mov)$/i`.
abbrev pub lower : ℕ → ℕ
lower c = if leb 65 c && leb c 90 then c + 32 else c

unfoldable pub has_suffix : Text → Text → Bool
has_suffix suffix [] = is_empty suffix
has_suffix suffix (c ∷ s) = text_eq (map lower (c ∷ s)) suffix || has_suffix suffix s

abbrev pub is_video_url : Text → Bool
is_video_url u =
    has_suffix (codes ".mp4") u || (has_suffix (codes ".webm") u || has_suffix (codes ".mov") u)

abbrev pub is_photo : Option File → Option Text → Bool
is_photo (some f) u = is_some (strip_prefix (codes "image/") f.mime)
is_photo none none = false
is_photo none (some u) = not (is_empty u) && not (is_video_url u)

abbrev pub is_facebook_photo_story : ScheduledDraft → Bool
is_facebook_photo_story d =
    text_eq d.platform (codes "facebook") && (is_story d && is_photo d.file d.asset_url)

-- `(draft.time || "10:00").split(":")` and the two numbers, `10` and `0` where there is none.
abbrev pub or_default : Text → Text → Text
or_default [] d = d
or_default (c ∷ s) d = c ∷ s

abbrev pub or_number : Parsed → ℕ → Parsed
or_number nan n = plus n
or_number p n = p

abbrev pub hours_of : List Text → Parsed
hours_of [] = plus 10
hours_of (h ∷ ws) = or_number (parse_int (or_default h (codes "0"))) 10

abbrev pub minutes_of : List Text → Parsed
minutes_of (h ∷ m ∷ ws) = or_number (parse_int (or_default m (codes "0"))) 0
minutes_of ws = plus 0

pub record Form : Type 0 where
  pub project_id : ℕ
  pub platform : Text
  pub content_type : Text
  pub caption : Text
  pub tags : Text
  pub due_date : ℕ
  pub file : Option File

pub data Upload : Type 0 where
  update_calendar_event : ℕ → Form → Upload
  create_calendar_event : Form → Upload

abbrev pub form_of : Upload → Form
form_of (update_calendar_event id form) = form
form_of (create_calendar_event form) = form

-- What a save comes to: one of its refusals, or how the uploads ended.
pub data Saved : Type 0 where
  no_project no_date no_content missing_file photo_story past failed saved : Saved

module _ (Date : Type 0) where
  -- `setHours` of a copy of the date, in milliseconds; the clock and the success of the upload
  -- when so many were sent.
  pub record Env : Type 0 where
    pub set_hours : Date → Parsed → Parsed → ℕ
    pub now : ℕ → ℕ
    pub succeeds : ℕ → Upload → Bool

  pub record Calendar : Type 0 where
    pub project : Option Project
    pub selected_date : Option Date
    pub selected_day : Date
    pub editing_task : Option ℕ
    pub drafts : List ScheduledDraft
    pub uploads : List Upload

  unfoldable pub open_scheduler : Date → Calendar → Calendar
  open_scheduler date s = record s {
    selected_date = some date;
    selected_day = date;
    drafts = blank_draft (get_project_platform s.project) ∷ [];
    editing_task = none;
  }

  abbrev pub due : Env → Date → ScheduledDraft → ℕ
  due env date d =
      let parts = split 58 (or_default d.time (codes "10:00")) in
      env.set_hours date (hours_of parts) (minutes_of parts)

  abbrev pub form : Env → Project → Date → ScheduledDraft → Form
  form env p date d = record {
    project_id = p.id;
    platform = get_project_platform (some p);
    content_type = d.content_type;
    caption = d.caption;
    tags = d.tags;
    due_date = due env date d;
    file = d.file;
  }

  abbrev pub upload : Option ℕ → Form → Upload
  upload none f = create_calendar_event f
  upload (some id) f = update_calendar_event id f

  -- The loop over the drafts; `sent` has the latest upload first.
  unfoldable pub send_all :
      Env → Project → Date → Option ℕ → List ScheduledDraft → List Upload → List Upload × Saved
  send_all env p date task [] sent = (sent, saved)
  send_all env p date task (d ∷ ds) sent =
      let u = upload task (form env p date d) in
      let rest = send_all env p date task ds (u ∷ sent) in
      if leb (due env date d) (env.now (length sent))
      then (sent, past)
      else if env.succeeds (length sent) u
      then rest
      else (u ∷ sent, failed)

  -- After the loop: the form is reset when all was sent.
  abbrev pub after_sending : Calendar → List Upload × Saved → Calendar × Saved
  after_sending s (sent, saved) = (
    record s {
      selected_date = none;
      editing_task = none;
      drafts = blank_draft (codes "instagram") ∷ [];
      uploads = sent;
    },
    saved,
  )
  after_sending s (sent, r) = (record s { uploads = sent }, r)

  abbrev pub check_and_send :
      Env → Project → Date → List ScheduledDraft → Calendar → Calendar × Saved
  check_and_send env p date [] s = (s, no_content)
  check_and_send env p date (d ∷ ds) s =
      if any (λ x. not (is_some x.file) && not (is_some s.editing_task)) (d ∷ ds)
      then (s, missing_file)
      else if any is_facebook_photo_story (d ∷ ds)
      then (s, photo_story)
      else after_sending s (send_all env p date s.editing_task (d ∷ ds) s.uploads)

  abbrev pub save_with : Env → Option Project → Option Date → Calendar → Calendar × Saved
  save_with env none date s = (s, no_project)
  save_with env (some p) none s = (s, no_date)
  save_with env (some p) (some date) s = check_and_send env p date (filter is_valid s.drafts) s

  unfoldable pub save_scheduled_content : Env → Calendar → Calendar × Saved
  save_scheduled_content env s = save_with env s.project s.selected_date s
