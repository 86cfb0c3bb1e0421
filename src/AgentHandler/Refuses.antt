-- ===== src/AgentHandler/Refuses.antt =====
-- What becomes of a confirmation that may not run its command, when nothing disturbs the request.
use personal_deadline_manage.Common.{
  ◌≡◌, refl, ◌≤◌, true, false, inl, inr, Option, none, some, [], arith, Bool-cases, Option-cases,
  if◌then◌else◌, ltb,
}
use personal_deadline_manage.Model.{
  Uuid, Moment, PendingConfirmation, PendingConfirmationStatus, same_user,
}
use personal_deadline_manage.Store.{Db, Session, ok, open_session}
use personal_deadline_manage.Store.Keeps.{Keeps}
use personal_deadline_manage.Store.Rows.{row, HasKeys}
use personal_deadline_manage.Store.ConfirmationRepository.{confirmation_id, win, save_expired}
use personal_deadline_manage.PendingConfirmationModule.{confirm}
use personal_deadline_manage.PendingConfirmationModule.Verdict
use personal_deadline_manage.PendingConfirmationModule.Verdict.{confirm_answers, verdict}
use personal_deadline_manage.PendingConfirmationModule.Invariant.{confirm-Keeps}
use personal_deadline_manage.AgentHandler.Answers.{
  AgentChatStatus, AgentChatRequest, AgentChatResponse, answer, Settings, Outside, Reads,
}
use personal_deadline_manage.AgentHandler.Pipeline.{
  by_verdict, confirm_pending, handle_confirmation, answer_to,
}

-- The tasks and the reminders are those of `db`.
abbrev pub SameItems : Db → Db → Type 0
SameItems db db' = (db'.tasks ≡ db.tasks) × (db'.reminders ≡ db.reminders)

module _ (db : Db) where
  win-SameItems :
      (k : Uuid) (user : Option Uuid) (now : Moment) (db' : Db)
      → SameItems db db'
      → SameItems db (win k user now db').1
  unfolding win
  win-SameItems k user now db' h = h

  save_expired-SameItems :
      (k : Uuid) (db' : Db) → SameItems db db' → SameItems db (save_expired k db').1
  unfolding save_expired
  save_expired-SameItems k db' h = elim (Option-cases (row confirmation_id k db'.confirmations)) [
    | inl missing ↦ rw (missing, save_expired) h
    | inr (c, found) ↦ rw (found, save_expired) h
  ]

  confirm-SameItems :
      (held : Option PendingConfirmation) (now : Moment) (k : Uuid) (user : Option Uuid)
      → Keeps (SameItems db) (confirm held now k user)
  confirm-SameItems held now k user =
      confirm-Keeps (SameItems db) held now k user (win-SameItems k user now)
        (λ h at_hand still. save_expired-SameItems h.id)
        (λ before c p here still. save_expired-SameItems c.id)

-- The row, if there is one, may not run: it is another user's, or not PENDING, or too late.
abbrev pub MayNotRun : Moment → Option Uuid → Option PendingConfirmation → Type 0
MayNotRun now user none = Unit
MayNotRun now user (some c) =
    c.status ≡ PendingConfirmationStatus.pending
    → same_user c.user_id user ≡ true
    → c.expires_at ≤ now

module _ (x : Outside) (settings : Settings) (reads : Reads) (request : AgentChatRequest)
    (k : Uuid) where
  abbrev answered : AgentChatStatus → AgentChatResponse
  answered status = answer_to x settings reads request k status

  abbrev pub refusal_by : PendingConfirmationStatus → AgentChatResponse
  refusal_by PendingConfirmationStatus.pending = answered AgentChatStatus.expired
  refusal_by PendingConfirmationStatus.expired = answered AgentChatStatus.expired
  refusal_by PendingConfirmationStatus.confirmed = answered AgentChatStatus.clarification_required
  refusal_by PendingConfirmationStatus.cancelled = answered AgentChatStatus.clarification_required

  abbrev pub refusal : Option PendingConfirmation → AgentChatResponse
  refusal none = answer AgentChatStatus.clarification_required
  refusal (some c) =
      if same_user c.user_id request.user_id
      then refusal_by c.status
      else answer AgentChatStatus.clarification_required

  verdict_refuses :
      (c : PendingConfirmation) (status : PendingConfirmationStatus) (s : Session)
      → (status ≡ PendingConfirmationStatus.pending → c.expires_at ≤ reads.confirm_at)
      → let v = verdict reads.confirm_at c status in
        by_verdict x settings reads request k v.outcome v.confirmation s
        ≡ (ok (refusal_by status), s)
  unfolding by_verdict
  verdict_refuses c PendingConfirmationStatus.pending s late =
      let over : ltb reads.confirm_at c.expires_at ≡ false = ground (arith, late refl) in
      rw over refl
  verdict_refuses c PendingConfirmationStatus.expired s late = refl
  verdict_refuses c PendingConfirmationStatus.confirmed s late = refl
  verdict_refuses c PendingConfirmationStatus.cancelled s late = refl

  answer_refuses :
      (found : Option PendingConfirmation) (s : Session)
      → MayNotRun reads.confirm_at request.user_id found
      → let v = Verdict.answer reads.confirm_at request.user_id found in
        by_verdict x settings reads request k v.outcome v.confirmation s ≡ (ok (refusal found), s)
  unfolding by_verdict
  answer_refuses none s h = refl
  answer_refuses (some c) s h = elim (Bool-cases (same_user c.user_id request.user_id)) [
    | inl own ↦ rw own (verdict_refuses c c.status s (λ still. h still own))
    | inr other ↦ rw other refl
  ]

  -- On confirmations with unique ids, let the row `k` be missing, another user's, not PENDING, or
  -- past its expiry. Then an undisturbed confirmation of `k` commits the tasks and the reminders
  -- as they were, and answers EXPIRED if the row is the user's and EXPIRED or PENDING, and
  -- CLARIFICATION_REQUIRED otherwise.
  pub handle_confirmation-refusal :
      (db : Db)
      → HasKeys confirmation_id db.confirmations
      → let found = row confirmation_id k db.confirmations in
        MayNotRun reads.confirm_at request.user_id found
        → let (r, s) = handle_confirmation x settings reads request (some k) (open_session db []) in
          (r ≡ ok (refusal found)) × SameItems db s.committed
  unfolding handle_confirmation confirm_pending
  handle_confirmation-refusal db keys refused =
      let found = row confirmation_id k db.confirmations in
      let out = confirm none reads.confirm_at k request.user_id (open_session db []) in
      let answers = confirm_answers k request.user_id reads.confirm_at db keys in
      let kept =
        ((confirm-SameItems db none reads.confirm_at k request.user_id).at (open_session db [])
          (record { committed = (refl, refl); working = (refl, refl); world = tt })).committed in
      rw answers.0 (rw (answer_refuses found out.1 refused) ((refl, kept)))
