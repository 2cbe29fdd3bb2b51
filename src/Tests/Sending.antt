-- ===== src/Tests/Sending.antt =====
-- The theorems on sending links, at a link with a test that is running.
use tmx_assessment.Prelude.{ℕ, suc, ◌≡◌, refl, String, true, none, [], ◌∷◌}
use tmx_assessment.Float.Fraction.{Fraction, fractions}
use tmx_assessment.Http.{not_found, ok, err}
use tmx_assessment.Take.Store.{Invitation}
use tmx_assessment.Take.Attempts.{finalize_overdue}
use tmx_assessment.Take.Status.{is_finished}
use tmx_assessment.Take.Guard.{is_token, can_activate, invalid_take_link}
use tmx_assessment.Take.Office.{LinkPlatform, Office, SentLink}
use tmx_assessment.Take.Sending.{resend_link}
use tmx_assessment.Take.Sending.Resent.{resend_link_replaces}
use tmx_assessment.Tests.Fixtures.{link, running_store}
use tmx_assessment.Tests.Library.{library}

abbrev fresh : String
fresh = "aaaaaaaaaaaaaaaaaaaaaaaaaaaaaaaaaaaaaaaaaaa"

abbrev platform : LinkPlatform
platform = record {
  Source = ℕ;
  token = λ n. (fresh, suc n);
  row_id = λ n. ("row", suc n);
  hash_token = λ token. token;
  link = λ token. token;
  accepts_mail = λ mail. true;
}

abbrev office : Office Fraction ℕ ℕ
office = record {
  store = running_store;
  library = library;
  candidates = record { id = "c1"; name = "Ada"; email = "ada@example.org" } ∷ [];
  mails = [];
  source = 0;
}

resend_link_replaces_example :
    (r : SentLink Fraction) × (p : Office Fraction ℕ ℕ) × (resend_link fractions platform "i1" none
        3000 office
      ≡ (ok r, p))
    × ((old : String) (later : ℕ)
        → platform.hash_token old ≡ link.token_hash
        → can_activate platform.hash_token later p.store old ≡ err (not_found invalid_take_link))
    × ((j : Invitation) × (j.id ≡ "i1")
        × (can_activate platform.hash_token 3000 p.store (platform.token 0).0 ≡ ok j))
unfolding is_token finalize_overdue is_finished
resend_link_replaces_example =
    resend_link_replaces fractions platform "i1" none 3000 office link refl refl refl refl refl refl
      refl
