-- ===== src/Notifier/Slack/Shown.antt =====
-- When Slack is notified of a report, and of which of its tests.
use aragorn.Prelude.{
  Bool, true, false, not, ◌&&◌, ◌==◌, ==_iff, ◌≡◌, refl, ap, ◌∙◌, sym, ◌||◌, keep_nil, keep_hit,
  keep_miss, ◌↔◌, Option, none, some, List, [], ◌∷◌, map, if_intro, length, keep, All, arith,
}
use aragorn.Notifier.{Report, TestReport}
use aragorn.Notifier.Slack.{
  Config, Attachment, Notification, Print, is_clean, count_errors, attachment_of, attachments_of,
  notify,
}

length-zero : {A : Type 0} → (xs : List A) → length xs ≡ 0 → xs ≡ []
length-zero [] h = refl
length-zero (x ∷ xs) h = absurd (omega (arith, h))

both_true : (a b : Bool) → (a && not b) ≡ true → (a ≡ true) × (b ≡ false)
both_true true true h = cc
both_true true false h = (refl, refl)
both_true false b h = cc

module _ (p : Print) (cfg : Config) {W : Type 0} where
  -- Every test of the reports passed.
  abbrev pub AllClean : List (TestReport W) → Type 0
  AllClean trs = All (λ (tr : TestReport W). tr.errs ≡ []) trs

  no_errors_iff : (trs : List (TestReport W)) → (count_errors trs ≡ 0) ↔ AllClean trs
  unfolding count_errors
  no_errors_iff [] = ((λ h. tt), λ h. refl)
  no_errors_iff (tr ∷ trs) =
      let rest = no_errors_iff trs in
      (
        (λ h.
            let none_left : count_errors trs ≡ 0 = omega (arith, h) in
            let none_here : length tr.errs ≡ 0 = omega (arith, h) in
            (length-zero tr.errs none_here, rest.0 none_left)),
        λ h. let none_left = rest.1 h.1 in rw (h.0, none_left) refl,
      )

  -- Slack hears nothing of a report exactly when all of its tests passed and the notifier is not
  -- verbose.
  notify-none_iff :
      (r : Report W) → (notify p cfg r ≡ none) ↔ (AllClean r.test_reports × (cfg.verbose ≡ false))
  unfolding notify
  notify-none_iff r =
      let errors = no_errors_iff r.test_reports in
      if_intro
        (λ (o : Option Notification).
          (o ≡ none) ↔ (AllClean r.test_reports × (cfg.verbose ≡ false)))
        (count_errors r.test_reports == 0 && not cfg.verbose) _ _
        (λ h.
          let (zero_errors, quiet) = both_true (count_errors r.test_reports == 0) cfg.verbose h in
          ((λ e. (errors.0 ((==_iff _ 0).0 zero_errors), quiet)), λ q. refl))
        (λ h. ((λ e. cc), λ q. let z = (==_iff _ 0).1 (errors.1 q.0) in ground (arith, z, q.1, h)))

  -- The tests that a notification shows.
  abbrev pub is_shown : TestReport W → Bool
  is_shown tr = not (is_clean tr) || cfg.verbose

  attachments_of-keep :
      (trs : List (TestReport W))
      → attachments_of p cfg trs ≡ map (attachment_of p cfg) (keep is_shown trs)
  unfolding attachments_of
  attachments_of-keep [] = ap (map (attachment_of p cfg)) (sym (keep_nil is_shown))
  attachments_of-keep (tr ∷ trs) =
      let rest = attachments_of-keep trs in
      if_intro (λ (zs : List Attachment). zs ≡ map (attachment_of p cfg) (keep is_shown (tr ∷ trs)))
        (is_clean tr && not cfg.verbose) _ _
        (λ h.
          let hidden : is_shown tr ≡ false = ground (arith, h) in
          rest ∙ ap (map (attachment_of p cfg)) (sym (keep_miss is_shown tr trs hidden)))
        (λ h.
          let seen : is_shown tr ≡ true = ground (arith, h) in
          ap (λ zs. attachment_of p cfg tr ∷ zs) rest
          ∙ ap (map (attachment_of p cfg)) (sym (keep_hit is_shown tr trs seen)))

  -- The attachments of a notification are those of the tests that failed, or of all tests where the
  -- notifier is verbose, in the order of the report.
  pub notify-attachments :
      (r : Report W) (n : Notification)
      → notify p cfg r ≡ some n
      → n.attachments
        ≡ map
            (attachment_of p cfg)
            (keep (λ (tr : TestReport W). not (is_clean tr) || cfg.verbose) r.test_reports)
  unfolding notify
  notify-attachments r n h =
      let same : n.attachments ≡ attachments_of p cfg r.test_reports = ground (arith, h) in
      same ∙ attachments_of-keep r.test_reports
