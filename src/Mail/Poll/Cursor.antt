-- ===== src/Mail/Poll/Cursor.antt =====
-- Where the cursor of a mailbox goes: src/workers/jobs/gmail_poll.py.
use inbox_pilot.Prelude.{
  ℕ, leb, ◌≡◌, refl, sym, ap, subst, ◌≢◌, ◌⊎◌, ◌||◌, ◌&&◌, ◌∙◌, str_eq, not, String, Bool, true,
  false, Option, none, some, List, [], ◌∷◌, ◌++◌, map, nonempty, take, text_eq→eq, All, Result, err,
  ok, if◌then◌else◌, Bool-cases, inl, inr, arith,
}
use inbox_pilot.Google.Crypto.{Cipher}
use inbox_pilot.Google.Connection.{
  GoogleConnection, RefreshedToken, of_user, is_older, rotated_row, persist_refreshed, mark_revoked,
  same_cursor, moves, advance_history_id,
}
use inbox_pilot.Google.Snapshots.{ConnectionState, load}
use inbox_pilot.Guards.{Redis}
use inbox_pilot.Mail.Mime.{Text}
use inbox_pilot.Mail.Dispatch.{GmailError, Readers, Pass}
use inbox_pilot.Mail.Gmail.{History, history_since}
use inbox_pilot.Mail.Poll.{
  max_pages, max_messages_per_poll, dispatched, int_of, later_number, Rows, advance, Mailbox, World,
  CredentialWrite, written, Outcome, advanced_to, walked, polled_from, polled_state, poll,
}

abbrev at_least : ℕ → Option ℕ → Bool
at_least n none = false
at_least n (some m) = leb n m

abbrev cursor_number : Option Text → Option ℕ
cursor_number none = none
cursor_number (some t) = int_of t

-- The column that a cursor stands in, beside the user.
abbrev pub Cursor : Type 0
Cursor = String × Option Text

abbrev cursor_of : GoogleConnection → Cursor
cursor_of r = (r.user_id, r.history_id)

abbrev pub cursors : Rows → List Cursor
cursors rows = map cursor_of rows

-- If the cursor is the user's, it is a number that is not below n.
abbrev pub IsAhead : String → ℕ → Cursor → Type 0
IsAhead user n (whose, at) = (not (str_eq whose user) || at_least n (cursor_number at)) ≡ true

-- Every cursor of the user that was where the poll began goes to the new place, if that is later.
abbrev pub moved_on : String → Text → Text → List Cursor → List Cursor
moved_on user previous new [] = []
moved_on user previous new ((whose, at) ∷ cs) =
    let rest = moved_on user previous new cs in
    (
      whose,
      if str_eq whose user
            && (same_cursor (some previous) at && later_number (int_of new) (int_of previous))
          then some new
          else at,
    )
    ∷ rest

same_cursor_lem : (t : Text) (o : Option Text) → same_cursor (some t) o ≡ true → o ≡ some t
same_cursor_lem t none h = absurd (ground arith)
same_cursor_lem t (some u) h = ap (λ (x : Text). some x) (sym (text_eq→eq t u h))

further :
    (n : ℕ) (new previous : Option ℕ)
    → later_number new previous ≡ true
    → at_least n previous ≡ true
    → at_least n new ≡ true
further n none previous h k = absurd (ground arith)
further n (some new) none h k = absurd (ground arith)
further n (some new) (some previous) h k = ground arith

or_cases : (a b : Bool) → (a || b) ≡ true → (a ≡ true) ⊎ ((a ≡ false) × (b ≡ true))
or_cases true b h = inl refl
or_cases false b h = inr (refl, h)

moved_on-IsAhead :
    (user whose : String) (n : ℕ) (previous new : Text) (cs : List Cursor)
    → All (IsAhead user n) cs
    → All (IsAhead user n) (moved_on whose previous new cs)
moved_on-IsAhead user whose n previous new [] h = tt
moved_on-IsAhead user whose n previous new ((mine, at) ∷ cs) (a, h) = (
  one
      (str_eq mine whose
        && (same_cursor (some previous) at && later_number (int_of new) (int_of previous)))
      refl (or_cases (not (str_eq mine user)) _ a),
  moved_on-IsAhead user whose n previous new cs h,
)
  where
    later_of : (a b c : Bool) → (a && (b && c)) ≡ true → (b ≡ true) × (c ≡ true)
    later_of a b c h = (ground arith, ground arith)

    one :
        (b : Bool)
        → (str_eq mine whose
            && (same_cursor (some previous) at && later_number (int_of new) (int_of previous)))
          ≡ b
        → ((not (str_eq mine user)) ≡ true)
          ⊎ (((not (str_eq mine user)) ≡ false) × (at_least n (cursor_number at) ≡ true))
        → IsAhead user n (mine, if b then some new else at)
    one false e (inl other) = ground arith
    one false e (inr (own, reached)) = ground arith
    one true e (inl other) = ground arith
    one true e (inr (own, reached)) =
        let (here, later) =
          later_of (str_eq mine whose) (same_cursor (some previous) at)
            (later_number (int_of new) (int_of previous)) e in
        let before : at_least n (int_of previous) ≡ true =
          subst (λ o. at_least n (cursor_number o) ≡ true) (same_cursor_lem previous at here)
            reached in
        let after : at_least n (int_of new) ≡ true =
          further n (int_of new) (int_of previous) later before in
        ground arith

cursor_if :
    (b : Bool) (x r : GoogleConnection)
    → cursor_of x ≡ cursor_of r
    → cursor_of (if b then x else r) ≡ cursor_of r
cursor_if true x r h = h
cursor_if false x r h = refl

map-cursors :
    (f : GoogleConnection → GoogleConnection) (rows : Rows)
    → ((r : GoogleConnection) → cursor_of (f r) ≡ cursor_of r)
    → cursors (map f rows) ≡ cursors rows
map-cursors f [] keeps = refl
map-cursors f (r ∷ rows) keeps =
    ap (λ c. c ∷ cursors (map f rows)) (keeps r)
    ∙ ap (λ cs. cursor_of r ∷ cs) (map-cursors f rows keeps)

rotated-cursor :
    (cipher : Cipher) (token : Option (List ℕ)) (r : GoogleConnection)
    → cursor_of (rotated_row cipher token r) ≡ cursor_of r
rotated-cursor cipher none r = refl
rotated-cursor cipher (some token) r = cursor_if (nonempty token) _ r refl

persist-cursors :
    (cipher : Cipher) (user : String) (token : RefreshedToken) (expiry : ℕ)
    (scopes : Option (List (List ℕ))) (rows : Rows)
    → cursors (persist_refreshed cipher user token expiry scopes rows) ≡ cursors rows
unfolding persist_refreshed
persist-cursors cipher user token expiry scopes rows =
    map-cursors _ _
      (λ r. cursor_if (of_user user r) _ r (rotated-cursor cipher token.refresh_token r))
    ∙ map-cursors _ rows
        (λ r. cursor_if (of_user user r) _ r (cursor_if (is_older expiry r.token_expiry) _ r refl))

-- The credentials leave every cursor where it is.
written-cursors :
    (cipher : Cipher) (user : String) (ws : List CredentialWrite) (rows : Rows)
    → cursors (written cipher user ws rows) ≡ cursors rows
unfolding mark_revoked
written-cursors cipher user [] rows = refl
written-cursors cipher user (CredentialWrite.token_refreshed token expiry scopes ∷ ws) rows =
    written-cursors cipher user ws _ ∙ persist-cursors cipher user token expiry scopes rows
written-cursors cipher user (CredentialWrite.grant_rejected reason now ∷ ws) rows =
    written-cursors cipher user ws _ ∙ map-cursors _ rows (λ r. cursor_if (of_user user r) _ r refl)

module _ (user : String) (previous new : Text) (now : ℕ) where
  stepped :
      (a b later : Bool) (r : GoogleConnection)
      → later ≡ true
      → cursor_of
          (if a && b then record r { history_id = some new; last_polled_at = some now } else r)
        ≡ (r.user_id, if a && (b && later) then some new else r.history_id)
  stepped true true true r e = refl
  stepped true true false r e = absurd (ground arith)
  stepped true false later r e = refl
  stepped false b later r e = refl

  unstepped :
      (a b later : Bool) (r : GoogleConnection)
      → later ≡ false
      → cursor_of r ≡ (r.user_id, if a && (b && later) then some new else r.history_id)
  unstepped true true true r e = absurd (ground arith)
  unstepped true true false r e = refl
  unstepped true false later r e = refl
  unstepped false b later r e = refl

  all_stepped :
      (rows : Rows)
      → later_number (int_of new) (int_of previous) ≡ true
      → cursors (
          map
            (λ r.
              if moves user (some previous) r
              then record r { history_id = some new; last_polled_at = some now }
              else r)
            rows)
        ≡ moved_on user previous new (cursors rows)
  all_stepped [] e = refl
  all_stepped (r ∷ rows) e =
      rw
        (
          stepped (of_user user r) (same_cursor (some previous) r.history_id) _ r e,
          all_stepped rows e,
        )
        refl

  all_unstepped :
      (rows : Rows)
      → later_number (int_of new) (int_of previous) ≡ false
      → cursors rows ≡ moved_on user previous new (cursors rows)
  all_unstepped [] e = refl
  all_unstepped (r ∷ rows) e =
      let gone =
        of_user user r
        && (same_cursor (some previous) r.history_id
            && later_number (int_of new) (int_of previous)) in
      ap (λ c. c ∷ cursors rows)
        (unstepped (of_user user r) (same_cursor (some previous) r.history_id) _ r e)
      ∙ ap (λ cs. (r.user_id, if gone then some new else r.history_id) ∷ cs) (all_unstepped rows e)

  advance-cursors :
      (rows : Rows)
      → cursors (advance user previous new now rows) ≡ moved_on user previous new (cursors rows)
  unfolding advance advance_history_id
  advance-cursors rows = elim (Bool-cases (later_number (int_of new) (int_of previous))) [
    | inl later ↦ rw later (all_stepped rows later)
    | inr stale ↦ rw stale (all_unstepped rows stale)
  ]

module _ {S : Type 0} (redis : Redis S) (readers : Readers) (user : String) (mailbox : Mailbox)
    (now : ℕ) (cipher : Cipher) where
  -- The cursors are as before, or the pass ran to its end and moved the user's on to where the
  -- history that Gmail gave ends.
  abbrev pub CursorsAfter : World S → Outcome × World S → Type 0
  CursorsAfter w (o, w') =
      (cursors w'.rows ≡ cursors w.rows)
      ⊎ ((seen queued : ℕ) × (cursor new : Text) × (history : History) × (history_since
              (mailbox.history_page cursor) max_pages
            ≡ ok history)
          × (history.history_id ≡ some new)
          × (o ≡ Outcome.polled seen queued)
          × (cursors w'.rows ≡ moved_on user cursor new (cursors w.rows)))

  after_if :
      (w : World S) (b : Bool) (x y : Outcome × World S)
      → CursorsAfter w x
      → (b ≡ false → CursorsAfter w y)
      → CursorsAfter w (if b then x else y)
  after_if w true x y h k = h
  after_if w false x y h k = k refl

  advanced_to-cursors :
      (w : World S) (rows : Rows) (history : History) (o : Option Text) (p : Pass S) (cursor : Text)
      (seen queued : ℕ)
      → history_since (mailbox.history_page cursor) max_pages ≡ ok history
      → history.history_id ≡ o
      → cursors rows ≡ cursors w.rows
      → CursorsAfter w (
        Outcome.polled seen queued,
        record {
          rows = advanced_to user cursor o now rows;
          store = p.store;
          queue = w.queue ++ p.queue;
        },
      )
  advanced_to-cursors w rows history none p cursor seen queued e at kept = inl kept
  advanced_to-cursors w rows history (some new) p cursor seen queued e at kept =
      elim (Bool-cases (nonempty new)) [
        | inr empty ↦ inl (rw empty kept)
        | inl full ↦ inr (
          seen,
          queued,
          cursor,
          new,
          history,
          e,
          at,
          refl,
          rw full (advance-cursors user cursor new now rows ∙ ap (moved_on user cursor new) kept),
        )
      ]

  walked-cursors :
      (email : List ℕ) (cursor : Text) (answer : Result GmailError History) (w w' : World S)
      → history_since (mailbox.history_page cursor) max_pages ≡ answer
      → answer ≢ err GmailError.not_found
      → cursors w'.rows ≡ cursors w.rows
      → CursorsAfter w (walked redis readers user mailbox now cipher email cursor answer w')
  walked-cursors email cursor (err GmailError.not_found) w w' e here kept = absurd (here refl)
  walked-cursors email cursor (err GmailError.api_error) w w' e here kept = inl kept
  walked-cursors email cursor (err GmailError.grant_revoked) w w' e here kept = inl kept
  walked-cursors email cursor (err GmailError.not_connected) w w' e here kept = inl kept
  walked-cursors email cursor (ok history) w w' e here kept =
      let kept' = written-cursors cipher user mailbox.during_messages w'.rows ∙ kept in
      after_if w _ _ _ (inl kept') (λ done.
        advanced_to-cursors (record w' { rows = w.rows }) _ history history.history_id
          (dispatched redis readers user mailbox now cipher (some email) true
            (take max_messages_per_poll history.messages) w')
          cursor _ _ e refl kept')

  -- The mailbox's history is there for every cursor.
  abbrev pub IsKnown : Type 0
  IsKnown =
      (cursor : Text)
      → history_since (mailbox.history_page cursor) max_pages ≢ err GmailError.not_found

  polled_from-cursors :
      (email : List ℕ) (o : Option Text) (w : World S)
      → IsKnown
      → CursorsAfter w (polled_from redis readers user mailbox now cipher email o w)
  polled_from-cursors email none w known = inl refl
  polled_from-cursors email (some cursor) w known = elim (Bool-cases (nonempty cursor)) [
    | inr empty ↦ rw empty (inl refl)
    | inl full ↦ rw full (
        walked-cursors email cursor (history_since (mailbox.history_page cursor) max_pages) w _ refl
          (known cursor) (written-cursors cipher user mailbox.during_history w.rows))
  ]

  polled_state-cursors :
      (o : Option ConnectionState) (w : World S)
      → IsKnown
      → CursorsAfter w (polled_state redis readers user mailbox now cipher o w)
  polled_state-cursors none w known = inl refl
  polled_state-cursors (some state) w known =
      after_if w state.revoked _ _ (inl refl)
        (λ alive. polled_from-cursors state.email state.history_id w known)

  poll-cursors :
      (w : World S) → IsKnown → CursorsAfter w (poll redis readers user mailbox now cipher w)
  unfolding poll
  poll-cursors w known = polled_state-cursors (load cipher w.rows user) w known

  -- Unless Gmail no longer knows the cursor, and whatever the credentials write to the user's row
  -- meanwhile, a poll leaves every user's cursor as it was, or it has run to its end without an
  -- exception and has moved the user's own to where the history that Gmail gave ends, if that is
  -- later. And whoever's mailbox is polled, no user's cursor goes back: if it is a number that is
  -- not below n, it is one after the poll.
  pub poll-Cursor :
      (w : World S) (anyone : String) (n : ℕ)
      → IsKnown
      → All (IsAhead anyone n) (cursors w.rows)
      → CursorsAfter w (poll redis readers user mailbox now cipher w)
        × All (IsAhead anyone n) (cursors (poll redis readers user mailbox now cipher w).1.rows)
  poll-Cursor w anyone n known h = (
    poll-cursors w known,
    ahead (poll redis readers user mailbox now cipher w) (poll-cursors w known),
  )
    where
      ahead : (x : Outcome × World S) → CursorsAfter w x → All (IsAhead anyone n) (cursors x.1.rows)
      ahead (o, w') (inl same) = subst (All (IsAhead anyone n)) (sym same) h
      ahead (o, w') (inr (seen, queued, cursor, new, history, e, at, done, moved)) =
          subst (All (IsAhead anyone n)) (sym moved)
            (moved_on-IsAhead anyone user n cursor new (cursors w.rows) h)
