-- ===== src/JobAlert/Digest/Counts.antt =====
-- What the digest sends and reports.
use Prim.Native.String.{String}
use mathlib.Core.List.{append_assoc, append-nil}
use recruitment_platform_be.Prelude.{
  ℕ, ◌+◌, ◌≡◌, inl, inr, Bool, true, false, not, Option, none, some, List, [], ◌∷◌, ◌++◌, ◌==◌,
  ◌||◌, ◌&&◌, count, is_some, length, arith, ◌∙◌, sym, Option-cases, if◌then◌else◌,
}
use recruitment_platform_be.Prelude.Action.{Result, ok, err, Result-cases}
use recruitment_platform_be.JobAlert.SavedSearches.{SavedSearch}
use recruitment_platform_be.JobAlert.Digest.{Ports, Tally, Mail, send_digest_for, tally_one, tally}

abbrev pub none_yet : Tally
none_yet = record { emails_sent = 0; failures = 0; mails = [] }

-- The number that a lookup gives, or nothing.
abbrev found : {A : Type 0} → Result (Unit {0}) A → Option A
found (ok a) = some a
found (err _) = none

module _ (ports : Ports) (since : ℕ) where
  abbrev total : SavedSearch → Option ℕ
  total search = found (ports.find_recent_matching_jobs search.input since)

  abbrev address : SavedSearch → Option (Option String)
  address search = found (ports.find_user_email search.user_id)

  -- The mail that a search calls for: new jobs match, and its user has an address.
  abbrev pub due : SavedSearch → Option Mail
  due search = elim (total search) [
    | none ↦ none
    | some n ↦ elim (address search) [
      | some (some email) ↦ if n == 0 then none else some (record { to = email; total = n })
      | some none ↦ none
      | none ↦ none
    ]
  ]

  -- The mails that go out, of those that are due.
  abbrev pub delivered : List SavedSearch → List Mail
  delivered [] = []
  delivered (search ∷ rest) =
      let later = delivered rest in
      elim (due search) [
        | none ↦ later
        | some mail ↦ if ports.send_email mail then mail ∷ later else later
      ]

  -- Nothing matches, or jobs match but the user is gone: no lookup failed, and no mail is due.
  abbrev pub is_silent : SavedSearch → Bool
  is_silent search = elim (total search) [
    | none ↦ false
    | some n ↦
        n == 0
        || elim (address search) [ some none ↦ true | some (some email) ↦ false | none ↦ false ]
  ]

  -- The jobs could not be looked up, or some match and the user could not be looked up, or the mail
  -- that is due does not go out.
  abbrev pub is_failing : SavedSearch → Bool
  is_failing search =
      not (is_some (total search))
      || (not (is_silent search) && not (is_some (address search)))
      || elim (due search) [ none ↦ false | some mail ↦ not (ports.send_email mail) ]

  -- The three lookups of a search, one by one, and then the sending.
  tally_one_lem :
      (search : SavedSearch) (rest : List SavedSearch) (t : Tally)
      → let t' = tally_one (send_digest_for ports since search) t in
        (t'.mails ++ delivered rest ≡ t.mails ++ delivered (search ∷ rest))
        × (t'.failures + count is_failing rest ≡ t.failures + count is_failing (search ∷ rest))
        × (t'.emails_sent + length (delivered rest) + count is_silent rest
            ≡ t.emails_sent + length (delivered (search ∷ rest)) + count is_silent (search ∷ rest))
        × (t'.emails_sent + t'.failures ≡ t.emails_sent + t.failures + 1)
  unfolding send_digest_for
  tally_one_lem search rest t =
      elim (Result-cases (ports.find_recent_matching_jobs search.input since)) [
        | inr (_, threw) ↦ (ground arith, ground arith, ground arith, ground arith)
        | inl (n, jobs) ↦ elim (Result-cases (ports.find_user_email search.user_id)) [
          | inr (_, threw) ↦ (ground arith, ground arith, ground arith, ground arith)
          | inl (user, looked) ↦ elim (Option-cases user) [
            | inl missing ↦ (ground arith, ground arith, ground arith, ground arith)
            | inr (email, there) ↦
                let mail : Mail = record { to = email; total = n } in
                (
                  ground (arith, append_assoc t.mails (mail ∷ []) (delivered rest)),
                  ground arith,
                  ground arith,
                  ground arith,
                )
          ]
        ]
      ]

  tally_counts_from :
      (searches : List SavedSearch) (t : Tally)
      → let t' = tally ports since searches t in
        (t'.mails ≡ t.mails ++ delivered searches)
        × (t'.failures ≡ t.failures + count is_failing searches)
        × (t'.emails_sent ≡ t.emails_sent + length (delivered searches) + count is_silent searches)
        × (t'.emails_sent + t'.failures ≡ t.emails_sent + t.failures + length searches)
  unfolding tally
  tally_counts_from [] t = (sym (append-nil t.mails), omega arith, omega arith, omega arith)
  tally_counts_from (search ∷ rest) t =
      let t₁ = tally_one (send_digest_for ports since search) t in
      let (mails, failed, counted, all) = tally_one_lem search rest t in
      let (mails', failed', counted', all') = tally_counts_from rest t₁ in
      (mails' ∙ mails, ground arith, ground arith, ground arith)

  -- A run sends the mails that are due, in the order in which their searches are done, but for those
  -- that fail to go out. The failures that it reports are the searches with a lookup that throws or
  -- a mail that fails. The number of emails that it reports as sent counts the mails that went out,
  -- and also every search that had nothing to send; with the failures it makes up all searches.
  pub tally_counts :
      (searches : List SavedSearch)
      → let t' = tally ports since searches none_yet in
        (t'.mails ≡ delivered searches)
        × (t'.failures ≡ count is_failing searches)
        × (t'.emails_sent ≡ length t'.mails + count is_silent searches)
        × (t'.emails_sent + t'.failures ≡ length searches)
  tally_counts searches =
      let (mails, failed, counted, all) = tally_counts_from searches none_yet in
      (mails, omega arith, rw mails (omega arith), omega arith)
