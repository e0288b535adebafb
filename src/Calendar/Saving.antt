-- ===== src/Calendar/Saving.antt =====
-- What `saveScheduledContent` uploads, and what it keeps.
use dmtool.Base.{
  ℕ, ◌<◌, ◌≡◌, ◌≢◌, refl, sym, ap, ◌∙◌, true, false, not, ◌&&◌, List, [], ◌∷◌, Option, none, some,
  any, filter, length, codes, leb, arith, Bool-cases, inl, inr,
}
use mathlib.Core.Path.{subst}
use dmtool.Cookie.Store.{is_some}
use dmtool.Calendar.{
  ScheduledDraft, Project, Upload, Saved, no_project, no_date, no_content, missing_file,
  photo_story, past, failed, saved, Env, Calendar, due, form, upload, send_all, after_sending,
  check_and_send, save_with, save_scheduled_content, is_valid, is_facebook_photo_story, blank_draft,
}

-- The uploads of some drafts, the latest first, on top of those already sent.
unfoldable pub onto_uploads :
    {Date : Type 0}
    → Env Date
    → Project
    → Date
    → Option ℕ
    → List ScheduledDraft
    → List Upload
    → List Upload
onto_uploads env p date task [] sent = sent
onto_uploads {Date = Date} env p date task (d ∷ ds) sent =
    onto_uploads env p date task ds (upload Date task (form Date env p date d) ∷ sent)

module _ {Date : Type 0} (env : Env Date) (p : Project) (date : Date) where
  -- Each of the drafts is due after the time at which it is sent, and its upload succeeds.
  unfoldable pub IsInTime : Option ℕ → List ScheduledDraft → List Upload → Type 0
  IsInTime task [] sent = Unit {0}
  IsInTime task (d ∷ ds) sent =
      let u = upload Date task (form Date env p date d) in
      (env.now (length sent) < due Date env date d)
      × (env.succeeds (length sent) u ≡ true)
      × IsInTime task ds (u ∷ sent)

  send_all_saved :
      (task : Option ℕ) (ds : List ScheduledDraft) (sent : List Upload)
      → (send_all Date env p date task ds sent).1 ≡ saved
      → ((send_all Date env p date task ds sent).0 ≡ onto_uploads env p date task ds sent)
        × IsInTime task ds sent
  unfolding send_all onto_uploads IsInTime
  send_all_saved task [] sent = λ h. (refl, tt)
  send_all_saved task (d ∷ ds) sent =
      elim (Bool-cases (leb (due Date env date d) (env.now (length sent)))) [
        | inl late ↦ rw late (λ h. cc)
        | inr early ↦
            rw early
              (elim (Bool-cases
                (env.succeeds (length sent) (upload Date task (form Date env p date d)))) [
                  | inl ok ↦ rw ok (λ h.
                      let (a, b) =
                        send_all_saved task ds (upload Date task (form Date env p date d) ∷ sent)
                          h in
                      (a, (ground (arith, early), refl, b)))
                  | inr bad ↦ rw bad (λ h. cc)
                ])
      ]

  after_sending_saved :
      (s : Calendar Date) (task : Option ℕ) (x : List Upload × Saved)
      → (after_sending Date s x).1 ≡ saved
      → x.1 ≡ saved
  after_sending_saved s task (u, saved) h = refl
  after_sending_saved s task (u, no_project) h = h
  after_sending_saved s task (u, no_date) h = h
  after_sending_saved s task (u, no_content) h = h
  after_sending_saved s task (u, missing_file) h = h
  after_sending_saved s task (u, photo_story) h = h
  after_sending_saved s task (u, past) h = h
  after_sending_saved s task (u, failed) h = h

  saved_stays :
      (s : Calendar Date) (x : List Upload × Saved)
      → x.1 ≡ saved
      → (after_sending Date s x).1 ≡ saved
  saved_stays s (u, saved) h = refl
  saved_stays s (u, no_project) h = h
  saved_stays s (u, no_date) h = h
  saved_stays s (u, no_content) h = h
  saved_stays s (u, missing_file) h = h
  saved_stays s (u, photo_story) h = h
  saved_stays s (u, past) h = h
  saved_stays s (u, failed) h = h

  -- What a refused or broken off save keeps.
  abbrev pub IsKept : Calendar Date → Calendar Date → Type 0
  IsKept s t =
      (t.drafts ≡ s.drafts)
      × (t.selected_date ≡ s.selected_date)
      × (t.editing_task ≡ s.editing_task)

  kept_after :
      (s : Calendar Date) (x : List Upload × Saved)
      → x.1 ≢ saved
      → IsKept s (after_sending Date s x).0
  kept_after s (u, saved) h = ground (arith, h refl)
  kept_after s (u, no_project) h = (refl, refl, refl)
  kept_after s (u, no_date) h = (refl, refl, refl)
  kept_after s (u, no_content) h = (refl, refl, refl)
  kept_after s (u, missing_file) h = (refl, refl, refl)
  kept_after s (u, photo_story) h = (refl, refl, refl)
  kept_after s (u, past) h = (refl, refl, refl)
  kept_after s (u, failed) h = (refl, refl, refl)

  -- The calendar after a save that went through.
  abbrev pub reset : Calendar Date → List ScheduledDraft → Calendar Date
  reset s v = record s {
    selected_date = none;
    editing_task = none;
    drafts = blank_draft (codes "instagram") ∷ [];
    uploads = onto_uploads env p date s.editing_task v s.uploads;
  }

  -- What a save of the valid drafts `v` may come to.
  pub record IsSaved (s : Calendar Date) (v : List ScheduledDraft) (r : Calendar Date × Saved)
      : Type 0 where
    pub uploaded :
        r.1 ≡ saved
        → (r.0 ≡ reset s v)
          × (v ≢ [])
          × IsInTime s.editing_task v s.uploads
          × (any is_facebook_photo_story v ≡ false)
          × (any (λ x. not (is_some x.file) && not (is_some s.editing_task)) v ≡ false)
    pub kept : r.1 ≢ saved → IsKept s r.0

  sent_all :
      (s : Calendar Date) (v : List ScheduledDraft) (x : List Upload × Saved)
      → x.1 ≡ saved
      → x.0 ≡ onto_uploads env p date s.editing_task v s.uploads
      → (after_sending Date s x).0 ≡ reset s v
  sent_all s v (u, saved) h e = rw e refl
  sent_all s v (u, no_project) h e = cc
  sent_all s v (u, no_date) h e = cc
  sent_all s v (u, no_content) h e = cc
  sent_all s v (u, missing_file) h e = cc
  sent_all s v (u, photo_story) h e = cc
  sent_all s v (u, past) h e = cc
  sent_all s v (u, failed) h e = cc

  sending :
      (s : Calendar Date) (v : List ScheduledDraft)
      → v ≢ []
      → any is_facebook_photo_story v ≡ false
      → any (λ x. not (is_some x.file) && not (is_some s.editing_task)) v ≡ false
      → IsSaved s v (after_sending Date s (send_all Date env p date s.editing_task v s.uploads))
  sending s v n g f =
      let x = send_all Date env p date s.editing_task v s.uploads in
      record {
        uploaded = λ h.
            let k = after_sending_saved s s.editing_task x h in
            let (a, b) = send_all_saved s.editing_task v s.uploads k in
            (sent_all s v x k a, n, b, g, f);
        kept = λ h. kept_after s x (λ k. h (saved_stays s x k));
      }

  check_and_send-IsSaved :
      (s : Calendar Date) (v : List ScheduledDraft)
      → IsSaved s v (check_and_send Date env p date v s)
  check_and_send-IsSaved s [] = record { uploaded = λ h. cc; kept = λ h. (refl, refl, refl) }
  check_and_send-IsSaved s (d ∷ ds) =
      elim (Bool-cases (any (λ x. not (is_some x.file) && not (is_some s.editing_task)) (d ∷ ds))) [
        | inl y ↦ rw y (record { uploaded = λ h. cc; kept = λ h. (refl, refl, refl) })
        | inr f ↦ rw f (elim (Bool-cases (any is_facebook_photo_story (d ∷ ds))) [
          | inl y ↦ rw y (record { uploaded = λ h. cc; kept = λ h. (refl, refl, refl) })
          | inr g ↦ rw g (sending s (d ∷ ds) (λ e. cc) g f)
        ])
      ]

  -- A save with a project and a date: when it ends well, each valid draft, in order, was due in the
  -- future when it was uploaded and its upload succeeded, there was one, none was a photo story for
  -- Facebook, each had a file unless a task was edited, and the form is blank again; otherwise the
  -- drafts, the date and the edited task are as they were.
  pub save_scheduled_content_lem :
      (s : Calendar Date)
      → s.project ≡ some p
      → s.selected_date ≡ some date
      → IsSaved s (filter is_valid s.drafts) (save_scheduled_content Date env s)
  unfolding save_scheduled_content
  save_scheduled_content_lem s e k =
      subst (λ r. IsSaved s (filter is_valid s.drafts) r)
        (sym (
          ap (λ o. save_with Date env o s.selected_date s) e
          ∙ ap (λ o. save_with Date env (some p) o s) k))
        (check_and_send-IsSaved s (filter is_valid s.drafts))
