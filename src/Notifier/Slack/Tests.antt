-- ===== src/Notifier/Slack/Tests.antt =====
-- The notification of a test that passed and of one with two errors.
use aragorn.Prelude.{
  Str, codes, ℕ, pos, ◌≡◌, refl, false, not, ◌||◌, some, List, [], ◌∷◌, map, keep,
}
use aragorn.Prelude.Decimal.{itoa}
use aragorn.Notifier.{Report, TestReport}
use aragorn.Notifier.Slack.{
  Config, Notification, Print, is_clean, count_errors, attachment_of, attachments_of, notify,
}
use aragorn.Notifier.Slack.Shown.{notify-attachments}

abbrev print : Print
print = record { quote = λ s. s; duration = λ d. []; unix = λ t. t }

abbrev quiet : Config
quiet = record { username = codes "u"; channel = codes "c"; verbose = false }

abbrev report_of : Str → List Str → TestReport ℕ
report_of name errs = record {
  test = record { name = name; description = []; run = λ limit w. ([], w) };
  start = pos 1;
  duration = pos 2;
  errs = errs;
}

abbrev report : Report ℕ
report = record {
  suite = record { name = codes "s"; typ = codes "HTTP"; failfast = false; tests = [] };
  start = pos 0;
  duration = pos 9;
  test_reports = report_of (codes "a") [] ∷ report_of (codes "b") (codes "x" ∷ codes "y" ∷ []) ∷ [];
  nb_failed = 1;
}

abbrev sent : Notification
sent = record {
  username = codes "u";
  channel = codes "c";
  text = codes "*s* - HTTP - 2 tests failed";
  attachments = attachment_of print quiet (report_of (codes "b") (codes "x" ∷ codes "y" ∷ [])) ∷ [];
}

-- One test failed, and the text counts its two errors.
report_sends : notify print quiet report ≡ some sent
unfolding notify count_errors attachments_of itoa
report_sends = refl

notify-attachments_example :
    sent.attachments
    ≡ map
        (attachment_of print quiet)
        (keep (λ (tr : TestReport ℕ). not (is_clean tr) || quiet.verbose) report.test_reports)
notify-attachments_example = notify-attachments print quiet report sent report_sends
