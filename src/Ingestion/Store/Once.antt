-- ===== src/Ingestion/Store/Once.antt =====
-- A message has one row, and is not processed again once it was settled.
use ticketmirror.Base.{
  ◌≡◌, refl, sym, ap, ◌∙◌, ◌⊎◌, inl, inr, true, false, Option, none, some, List, [], ◌∷◌, ◌++◌,
  ◌==◌, ==_iff, In, eq_iff, find?, find?-some, find?-none, map, if◌then◌else◌, Bool-cases,
}
use ticketmirror.Base.Result.{ok}
use ticketmirror.Data.{Db, RawEmail, ParseStatus, pending}
use ticketmirror.Ingestion.Environment.{Environment}
use ticketmirror.Ingestion.Identity.Promotion.{In-map}
use ticketmirror.Ingestion.Process.{Reading}
use ticketmirror.Ingestion.Store.{
  Payload, with_payload, new_raw_email, is_message, Stored, store_found, store_raw_email, awaits,
  to_process, process_gmail_message,
}

-- Every message has one row.
pub record HasMessages (rows : List RawEmail) : Type 0 where
  pub one_row :
      (x y : RawEmail) → In x rows → In y rows → x.gmail_message_id ≡ y.gmail_message_id → x ≡ y

-- The status of a message: that of its row, or pending for a new one.
abbrev pub status_of : Option RawEmail → ParseStatus
status_of none = pending
status_of (some r) = r.parse_status

-- What storing a message gives.
pub record IsStoredOnce (db : Db) (p : Payload) (s : Stored) : Type 0 where
  pub named : s.row.gmail_message_id ≡ p.gmail_message_id
  pub stored : In s.row s.db.raw_emails
  pub status : s.row.parse_status ≡ status_of (find? (is_message p.gmail_message_id) db.raw_emails)
  pub messages : HasMessages s.db.raw_emails
  pub rest : (s.db.bookings ≡ db.bookings) × (s.db.events ≡ db.events) × (s.db.reviews ≡ db.reviews)

-- A row afterwards is the message's, or one of another message.
module _ (rows' : List RawEmail) (r : RawEmail) (rows : List RawEmail) (messages : HasMessages rows)
    (cases : (x : RawEmail)
      → In x rows'
      → (x ≡ r) ⊎ In x rows × (x.gmail_message_id ≡ r.gmail_message_id → ⊥)) where
  one_each :
      (x y : RawEmail)
      → (x ≡ r) ⊎ In x rows × (x.gmail_message_id ≡ r.gmail_message_id → ⊥)
      → (y ≡ r) ⊎ In y rows × (y.gmail_message_id ≡ r.gmail_message_id → ⊥)
      → x.gmail_message_id ≡ y.gmail_message_id
      → x ≡ y
  one_each x y (inl e) (inl f) q = e ∙ sym f
  one_each x y (inl e) (inr (j, ne)) q = absurd (ne (sym q ∙ ap (λ z. z.gmail_message_id) e))
  one_each x y (inr (i, ne)) (inl f) q = absurd (ne (q ∙ ap (λ z. z.gmail_message_id) f))
  one_each x y (inr (i, _)) (inr (j, _)) q = messages.one_row x y i j q

  rows-HasMessages : HasMessages rows'
  rows-HasMessages = record { one_row = λ x y i j q. one_each x y (cases x i) (cases y j) q }

pub In-last : (x : RawEmail) (xs : List RawEmail) → In x (xs ++ x ∷ [])
In-last x [] = inl refl
In-last x (y ∷ ys) = inr (In-last x ys)

In-append : (x y : RawEmail) (xs : List RawEmail) → In x (xs ++ y ∷ []) → In x xs ⊎ (x ≡ y)
In-append x y [] (inl e) = inr e
In-append x y [] (inr i) = absurd i
In-append x y (z ∷ zs) (inl e) = inl (inl e)
In-append x y (z ∷ zs) (inr i) = elim (In-append x y zs i) [ inl j ↦ inl (inr j) | inr e ↦ inr e ]

pub In-replaced :
    (old r : RawEmail) (xs : List RawEmail)
    → In old xs
    → In r (map (λ x. if x.id == old.id then r else x) xs)
In-replaced old r [] i = absurd i
In-replaced old r (x ∷ xs) (inl e) = inl (rw ((==_iff x.id old.id).1 (sym (ap (λ z. z.id) e))) refl)
In-replaced old r (x ∷ xs) (inr i) = inr (In-replaced old r xs i)

module _ (db : Db) (p : Payload) (messages : HasMessages db.raw_emails) where
  other_message :
      (x : RawEmail)
      → is_message p.gmail_message_id x ≡ false
      → x.gmail_message_id ≡ p.gmail_message_id
      → ⊥
  other_message x h e =
      let q : true ≡ false = sym ((eq_iff x.gmail_message_id p.gmail_message_id).1 e) ∙ h in cc

  store_found-IsStoredOnce :
      (o : Option RawEmail)
      → find? (is_message p.gmail_message_id) db.raw_emails ≡ o
      → IsStoredOnce db p (store_found db p o)
  unfolding store_found new_raw_email with_payload
  store_found-IsStoredOnce none e =
      let r = new_raw_email db.next_id p in
      record {
        named = refl;
        stored = In-last r db.raw_emails;
        status = rw e refl;
        messages = rows-HasMessages (db.raw_emails ++ r ∷ []) r db.raw_emails messages (λ x i.
            elim (In-append x r db.raw_emails i) [
              | inr f ↦ inl f
              | inl j ↦ inr (
                j,
                other_message x (find?-none (is_message p.gmail_message_id) x db.raw_emails e j),
              )
            ]);
        rest = (refl, refl, refl);
      }
  store_found-IsStoredOnce (some old) e =
      let r = with_payload p old in
      let (i, t) = find?-some (is_message p.gmail_message_id) old db.raw_emails e in
      let n : old.gmail_message_id ≡ p.gmail_message_id =
        (eq_iff old.gmail_message_id p.gmail_message_id).0 t in
      record {
        named = n;
        stored = In-replaced old r db.raw_emails i;
        status = rw e refl;
        messages =
            rows-HasMessages (map (λ x. if x.id == old.id then r else x) db.raw_emails) r
              db.raw_emails messages
              (λ x j.
                let (y, k, f) = In-map (λ z. if z.id == old.id then r else z) x db.raw_emails j in
                rw f (replaced y old r k i refl));
        rest = (refl, refl, refl);
      }
    where
      replaced :
          (y old r : RawEmail)
          → In y db.raw_emails
          → In old db.raw_emails
          → r.gmail_message_id ≡ old.gmail_message_id
          → ((if y.id == old.id then r else y) ≡ r)
            ⊎ In (if y.id == old.id then r else y) db.raw_emails
              × ((if y.id == old.id then r else y).gmail_message_id ≡ r.gmail_message_id → ⊥)
      replaced y old r k i s = elim (Bool-cases (y.id == old.id)) [
        | inl t ↦ rw t (inl refl)
        | inr f ↦ rw f (
            inr (
              k,
              λ q.
                  let same : y ≡ old = messages.one_row y old k i (q ∙ s) in
                  let u : true ≡ false = sym ((==_iff y.id old.id).1 (ap (λ z. z.id) same)) ∙ f in
                  cc,
            ))
      ]

  -- Where every message has one row, storing a message leaves it so. The message has a row, with the
  -- status that it had or, if it is new, pending; no booking, event or review changes.
  pub store_raw_email-IsStoredOnce : IsStoredOnce db p (store_raw_email db p)
  unfolding store_raw_email
  store_raw_email-IsStoredOnce =
      store_found-IsStoredOnce (find? (is_message p.gmail_message_id) db.raw_emails) refl

settled_found :
    (db : Db) (p : Payload) (old : RawEmail)
    → find? (is_message p.gmail_message_id) db.raw_emails ≡ some old
    → awaits old.parse_status ≡ false
    → to_process (store_raw_email db p).created (store_raw_email db p).row.parse_status ≡ false
unfolding store_raw_email store_found with_payload
settled_found db p old e h = rw e h

-- A message that was stored before and is not pending is not processed when it comes again: its row is
-- refreshed under the same status, and no booking, event or review changes.
pub process_gmail_message-settled :
    (env : Environment) (reading : Reading) (db : Db) (p : Payload) (old : RawEmail)
    → HasMessages db.raw_emails
    → find? (is_message p.gmail_message_id) db.raw_emails ≡ some old
    → awaits old.parse_status ≡ false
    → (s : Stored) × (process_gmail_message env reading db p ≡ ok (some s.row, s.db))
      × (s.row.parse_status ≡ old.parse_status)
      × IsStoredOnce db p s
unfolding process_gmail_message
process_gmail_message-settled env reading db p old messages e h =
    let once = store_raw_email-IsStoredOnce db p messages in
    (store_raw_email db p, rw (settled_found db p old e h) refl, once.status ∙ ap status_of e, once)
