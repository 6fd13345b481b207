-- ===== src/Billing/Reminders.antt =====
-- backend/src/billing/billing.service.ts: the reminders of an overdue invoice.
use pfe.Base.{
  ℕ, ◌+◌, ◌-◌, ◌/◌, ◌≤◌, ◌<◌, ◌≡◌, ◌⊎◌, inl, inr, refl, none, some, List, [], ◌∷◌, arith, ◌*◌, ◌≢◌,
  Bool, true, false, ◌&&◌, Bool-cases, All, All-map, All-select, Pairwise, Pairwise-select, subst,
  ap, Pointwise-Pairwise, modify-Pointwise_all, select, find, select-append, String, if◌then◌else◌,
  ltb, length, length-append, Option-cases, ◌==◌, ==_iff, sym, ◌∙◌,
}
use pfe.Prisma.{Prisma}
use pfe.Schema.{Db, Invoice, Mail, MailKind, find_invoice, invoice_overdue, overdue_sequence}
use pfe.Service.{Call}
use pfe.Tables.{find_first-update, find_first-update_ne}
use pfe.Billing.FromBooking.{send, contact_of}
use pfe.Billing.Invoices

-- The three tiers of a reminder.
abbrev pub IsTier : ℕ → Type 0
IsTier t = (t ≡ 1) ⊎ (t ≡ 7) ⊎ (t ≡ 14)

-- The tier chosen is the first of 1, 7 and 14 that is due and later than the last one sent, and none
-- is chosen only where there is no such tier.
pub choose_tier_first :
    (days sent : ℕ)
    → ((t : ℕ)
        → Invoices.choose_tier Invoices.tiers days sent ≡ some t
        → IsTier t × (t ≤ days) × (sent < t) × ((u : ℕ) → IsTier u → u ≤ days → sent < u → t ≤ u))
      × (Invoices.choose_tier Invoices.tiers days sent ≡ none
          → (u : ℕ) → IsTier u
          → u ≤ days
          → u ≤ sent)
unfolding Invoices.choose_tier
choose_tier_first days sent = (
  λ t chosen. (ground arith, ground arith, ground arith, λ u tier due unsent. ground arith),
  λ nothing u tier due. ground arith,
)

-- The tiers that are still to come.
abbrev pub tiers_after : ℕ → ℕ
tiers_after sent =
    (if ltb sent 1 then 1 else 0) + (if ltb sent 7 then 1 else 0) + (if ltb sent 14 then 1 else 0)

choose_tier-tiers_after :
    (days sent t : ℕ)
    → Invoices.choose_tier Invoices.tiers days sent ≡ some t
    → tiers_after t < tiers_after sent
unfolding Invoices.choose_tier
choose_tier-tiers_after days sent t chosen = ground arith

-- Mails that `sendOverdueReminders` sends.
abbrev is_reminder : MailKind → Bool
is_reminder invoice_overdue = true
is_reminder overdue_sequence = true
is_reminder _ = false

-- The reminders of an invoice among some mails.
abbrev pub reminders_in : ℕ → List Mail → ℕ
reminders_in id mails = length (select (λ m. is_reminder m.kind && m.about == id) mails)

abbrev noted : ℕ → Invoice → Invoice
noted tier r = record r { overdue_reminder_max_day = tier }

abbrev HasOtherId : Invoice → Invoice → Type 0
HasOtherId a c = a.id ≢ c.id

-- The only row with the key of the one found is that one.
only_found :
    (id : ℕ) (rs : List Invoice) (i : Invoice)
    → Pairwise HasOtherId rs
    → find (λ (r : Invoice). r.id == id) rs ≡ some i
    → All (λ (r : Invoice). (r.id ≢ id) ⊎ (r ≡ i)) rs
only_found id [] i distinct found = tt
only_found id (x ∷ xs) i (apart, distinct) found = elim (Bool-cases (x.id == id)) [
  | inl here ↦
      let same : x.id ≡ id = (==_iff x.id id).0 here in
      let first : x ≡ i = ground arith in
      (inr first, All-map (λ r ne. inl (λ e. ne (same ∙ sym e))) xs apart)
  | inr there ↦ (inl (ground arith), only_found id xs i distinct (ground arith))
]

module _ ⦃P : Prisma⦄ where
  open P use {rows}

  -- `sendOverdueReminders`, at some moments.
  abbrev pub remind_at : List Call → Db → Db
  remind_at [] s = s
  remind_at (call ∷ later) s = remind_at later (Invoices.send_overdue_reminders call s)

  -- The two mails of a reminder, and the tier that is noted after them.
  abbrev reminded : String → ℕ → Invoice → Db → Db
  reminded address tier i s =
      Invoices.update_invoice_row i.id (noted tier)
        (send (some address) overdue_sequence i.id (send (some address) invoice_overdue i.id s))

  send_overdue_reminder-cases :
      (now : ℕ) (i : Invoice) (s : Db)
      → (Invoices.send_overdue_reminder now i s ≡ s)
        ⊎ ((address : String) × (tier : ℕ) × (Invoices.send_overdue_reminder now i s
              ≡ reminded address tier i s)
            × (tiers_after tier < tiers_after i.overdue_reminder_max_day))
  unfolding Invoices.send_overdue_reminder
  send_overdue_reminder-cases now i s = elim (Option-cases (contact_of i.tenant_id s)) [
    | inl silent ↦ inl (ground arith)
    | inr (address, known) ↦ elim (Option-cases i.due_date) [
      | inl undated ↦ inl (ground arith)
      | inr (due, dated) ↦
          let days = (now - due) / 86400000 in
          elim (Option-cases
            (Invoices.choose_tier Invoices.tiers days i.overdue_reminder_max_day)) [
              | inl nothing ↦ inl (ground arith)
              | inr (tier, chosen) ↦ inr (
                address,
                tier,
                ground arith,
                choose_tier-tiers_after days i.overdue_reminder_max_day tier chosen,
              )
            ]
    ]
  ]

  reminded-mails :
      (id : ℕ) (address : String) (tier : ℕ) (i : Invoice) (s : Db)
      → reminders_in id (reminded address tier i s).mails
        ≡ reminders_in id s.mails + (if i.id == id then 2 else 0)
  reminded-mails id address tier i s =
      rw (select-append, select-append, length-append, length-append) (ground arith)

  -- A reminder of another invoice.
  other_kept :
      (now id : ℕ) (i : Invoice) (s : Db)
      → i.id ≢ id
      → (find_invoice id (Invoices.send_overdue_reminder now i s) ≡ find_invoice id s)
        × (reminders_in id (Invoices.send_overdue_reminder now i s).mails ≡ reminders_in id s.mails)
  other_kept now id i s other = elim (send_overdue_reminder-cases now i s) [
    | inl idle ↦ rw idle (refl, refl)
    | inr (address, tier, sent, _) ↦ rw sent (
      find_first-update_ne (λ (r : Invoice). r.id) i.id id (noted tier) s.invoices (λ r. refl)
          other,
      ground (arith, reminded-mails id address tier i s),
    )
  ]

  others_kept :
      (now id : ℕ) (is : List Invoice) (s : Db)
      → All (λ (r : Invoice). r.id ≢ id) is
      → (find_invoice id (Invoices.send_reminders now is s) ≡ find_invoice id s)
        × (reminders_in id (Invoices.send_reminders now is s).mails ≡ reminders_in id s.mails)
  unfolding Invoices.send_reminders
  others_kept now id [] s others = (refl, refl)
  others_kept now id (i ∷ is) s (other, others) =
      let (stored, count) = other_kept now id i s other in
      let (stored', count') =
        others_kept now id is (Invoices.send_overdue_reminder now i s) others in
      (stored' ∙ stored, count' ∙ count)

  -- The invoice afterwards, and what its reminders and the tiers left come to.
  Reminds : ℕ → Invoice → Db → Db → Type 0
  Reminds id i s s' =
      (after : Invoice) × (find_invoice id s' ≡ some after)
      × (reminders_in id s'.mails + 2 * tiers_after after.overdue_reminder_max_day
          ≤ reminders_in id s.mails + 2 * tiers_after i.overdue_reminder_max_day)

  own_reminded :
      (now id : ℕ) (i : Invoice) (s : Db)
      → i.id ≡ id
      → find_invoice id s ≡ some i
      → Reminds id i s (Invoices.send_overdue_reminder now i s)
  unfolding Reminds
  own_reminded now id i s same found = elim (send_overdue_reminder-cases now i s) [
    | inl idle ↦ rw idle (i, found, omega arith)
    | inr (address, tier, sent, fewer) ↦ rw sent (
      noted tier i,
      subst
          (λ j.
            P.find_first (λ (r : Invoice). r.id == id)
              (P.update (λ (r : Invoice). r.id == j) (noted tier) s.invoices)
            ≡ some (noted tier i))
          (sym same)
          (find_first-update (λ (r : Invoice). r.id) id (noted tier) s.invoices i (λ r. refl)
            found),
      ground (arith, reminded-mails id address tier i s),
    )
  ]

  each_reminded :
      (now id : ℕ) (is : List Invoice) (i : Invoice) (s : Db)
      → Pairwise HasOtherId is
      → All (λ (r : Invoice). (r.id ≢ id) ⊎ (r ≡ i)) is
      → find_invoice id s ≡ some i
      → Reminds id i s (Invoices.send_reminders now is s)
  unfolding Invoices.send_reminders Reminds
  each_reminded now id [] i s distinct known found = (i, found, omega arith)
  each_reminded now id (x ∷ is) i s (apart, distinct) (this, known) found =
      elim (Bool-cases (x.id == id)) [
        | inl here ↦
            let same : x.id ≡ id = (==_iff x.id id).0 here in
            let is_it : x ≡ i = elim this [ inl other ↦ absurd (other same) | inr e ↦ e ] in
            let found' : find_invoice id s ≡ some x = found ∙ ap some (sym is_it) in
            let others = All-map (λ (r : Invoice) ne. λ e. ne (same ∙ sym e)) is apart in
            let s₁ = Invoices.send_overdue_reminder now x s in
            let (after, stored, count) = own_reminded now id x s same found' in
            let (kept, kept_count) = others_kept now id is s₁ others in
            (after, kept ∙ stored, rw (kept_count, sym is_it) count)
        | inr there ↦
            let other : x.id ≢ id = ground arith in
            let s₁ = Invoices.send_overdue_reminder now x s in
            let (kept, kept_count) = other_kept now id x s other in
            let (after, stored, count) =
              each_reminded now id is i s₁ distinct known (kept ∙ found) in
            (after, stored, rw kept_count at count)
      ]

  -- The invoices have distinct ids.
  abbrev pub HasDistinctInvoices : Db → Type 0
  HasDistinctInvoices s = Pairwise HasOtherId (rows s.invoices)

  reminder-HasDistinctInvoices :
      (now : ℕ) (i : Invoice) (s : Db)
      → HasDistinctInvoices s
      → HasDistinctInvoices (Invoices.send_overdue_reminder now i s)
  reminder-HasDistinctInvoices now i s distinct = elim (send_overdue_reminder-cases now i s) [
    | inl idle ↦ rw idle distinct
    | inr (address, tier, sent, _) ↦
        rw (sent, P.rows-update)
          (Pointwise-Pairwise (λ (a c : Invoice). a.id ≡ c.id) HasOtherId
            (λ a b c d e f ne same. ne (e ∙ same ∙ sym f))
            (modify-Pointwise_all (λ (r : Invoice). r.id) (λ (a c : Invoice). a.id ≡ c.id)
              (λ a. refl) (λ (r : Invoice). r.id == i.id) (noted tier) (λ a. refl)
              (rows s.invoices))
            distinct)
  ]

  reminders-HasDistinctInvoices :
      (now : ℕ) (is : List Invoice) (s : Db)
      → HasDistinctInvoices s
      → HasDistinctInvoices (Invoices.send_reminders now is s)
  unfolding Invoices.send_reminders
  reminders-HasDistinctInvoices now [] s distinct = distinct
  reminders-HasDistinctInvoices now (i ∷ is) s distinct =
      reminders-HasDistinctInvoices now is (Invoices.send_overdue_reminder now i s)
        (reminder-HasDistinctInvoices now i s distinct)

  find_rows :
      (id : ℕ) (s : Db) (i : Invoice)
      → find_invoice id s ≡ some i
      → find (λ (r : Invoice). r.id == id) (rows s.invoices) ≡ some i
  find_rows id s i found = sym (P.find_first-rows _ _) ∙ found

  all_reminded :
      (call : Call) (id : ℕ) (i : Invoice) (s : Db)
      → HasDistinctInvoices s
      → find_invoice id s ≡ some i
      → Reminds id i s (Invoices.send_overdue_reminders call s)
        × HasDistinctInvoices (Invoices.send_overdue_reminders call s)
  unfolding Invoices.send_overdue_reminders
  all_reminded call id i s distinct found = (
    each_reminded call.now id _ i s
        (rw P.find_many-rows (Pairwise-select HasOtherId _ (rows s.invoices) distinct))
        (rw P.find_many-rows (
          All-select (λ (r : Invoice). (r.id ≢ id) ⊎ (r ≡ i)) _ (rows s.invoices)
            (only_found id (rows s.invoices) i distinct (find_rows id s i found))))
        found,
    reminders-HasDistinctInvoices call.now _ s distinct,
  )

  -- Whenever the reminders run, and however often, an invoice is sent at most two mails for each of
  -- the tiers of 1, 7 and 14 days that it has left, the one of MailService and the one of
  -- EmailSequenceService. The stored invoices have distinct ids; no mail fails, and a run ends before
  -- the next one begins.
  pub remind_at-mails :
      (id : ℕ) (calls : List Call) (s : Db) (i : Invoice)
      → HasDistinctInvoices s
      → find_invoice id s ≡ some i
      → reminders_in id (remind_at calls s).mails
        ≤ reminders_in id s.mails + 2 * tiers_after i.overdue_reminder_max_day
  unfolding Reminds
  remind_at-mails id [] s i distinct found = omega arith
  remind_at-mails id (call ∷ later) s i distinct found =
      let s' = Invoices.send_overdue_reminders call s in
      let ((after, stored, count), distinct') = all_reminded call id i s distinct found in
      omega (arith, remind_at-mails id later s' after distinct' stored, count)
