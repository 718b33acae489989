-- ===== src/Notifier/Slack.antt =====
-- notifier/slack/slack.go: what a report becomes for Slack.
pub mod Shown
pub mod Send
mod Tests
use aragorn.Prelude.{
  Str, codes, ℕ, ℤ, ◌+◌, Bool, true, false, not, ◌&&◌, ◌==◌, Option, none, some, List, [], ◌∷◌,
  ◌++◌, map, if◌then◌else◌, length,
}
use aragorn.Prelude.Decimal.{itoa}
use aragorn.Testsuite.{Test}
use aragorn.Notifier.{Report, TestReport}

pub record Config : Type 0 where
  pub username : Str
  pub channel : Str
  pub verbose : Bool

-- `attachmentField`
pub record Field : Type 0 where
  pub title : Str
  pub value : Str
  pub short : Bool

pub record Attachment : Type 0 where
  pub mrkdwn_in : List Str
  pub fallback : Str
  pub color : Str
  pub title : Str
  pub fields : List Field
  pub timestamp : ℤ

pub record Notification : Type 0 where
  pub username : Str
  pub channel : Str
  pub text : Str
  pub attachments : List Attachment

-- What the standard library prints: strconv.Quote, Duration.String and Time.Unix.
pub record Print : Type 0 where
  pub quote : Str → Str
  pub duration : ℤ → Str
  pub unix : ℤ → ℤ

abbrev pub is_clean : {W : Type 0} → TestReport W → Bool
is_clean tr = length tr.errs == 0

-- The first loop of `Notifier.Notify`.
unfoldable pub count_errors : {W : Type 0} → List (TestReport W) → ℕ
count_errors [] = 0
count_errors (tr ∷ trs) = length tr.errs + count_errors trs

extra_of : ℕ → Str
extra_of errors =
    if errors == 0
    then codes "ok"
    else if errors == 1
    then codes "1 test failed"
    else itoa errors ++ codes " tests failed"

error_field : Str → Field
error_field e = record { title = []; value = codes "```" ++ (e ++ codes "```"); short = false }

module _ (p : Print) (cfg : Config) {W : Type 0} where
  -- The attachment of a test.
  unfoldable pub attachment_of : TestReport W → Attachment
  unfolding error_field
  attachment_of tr =
      let title =
        codes "Test " ++ (p.quote tr.test.name ++ (if is_clean tr then [] else codes " failed")) in
      record {
        mrkdwn_in = codes "fields" ∷ [];
        fallback = title;
        color = if is_clean tr then codes "good" else codes "danger";
        title = title;
        fields =
            record { title = codes "Description"; value = tr.test.description; short = false }
            ∷ record { title = codes "Duration"; value = p.duration tr.duration; short = true }
            ∷ map error_field tr.errs;
        timestamp = p.unix tr.start;
      }

  -- The second loop of `Notifier.Notify`.
  unfoldable pub attachments_of : List (TestReport W) → List Attachment
  unfolding attachment_of
  attachments_of [] = []
  attachments_of (tr ∷ trs) =
      let rest = attachments_of trs in
      if is_clean tr && not cfg.verbose then rest else attachment_of tr ∷ rest

  -- `Notifier.Notify`: the notification that it sends, if any.
  unfoldable pub notify : Report W → Option Notification
  unfolding count_errors extra_of attachments_of
  notify r =
      let errors = count_errors r.test_reports in
      let extra = extra_of errors ++ (if r.suite.failfast then codes " (failfast)" else []) in
      if errors == 0 && not cfg.verbose
      then none
      else some (record {
        username = cfg.username;
        channel = cfg.channel;
        text =
            codes "*"
            ++ (r.suite.name ++ (codes "* - " ++ (r.suite.typ ++ (codes " - " ++ extra))));
        attachments = attachments_of r.test_reports;
      })
