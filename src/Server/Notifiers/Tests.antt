-- ===== src/Server/Notifiers/Tests.antt =====
-- A configuration with three notifiers, one of which is not there.
use aragorn.Prelude.{
  Str, codes, str_eq, ℕ, ◌+◌, pos, ◌≡◌, refl, false, Option, none, some, ok, ◌>>=◌, [], ◌∷◌,
  if◌then◌else◌,
}
use aragorn.Prelude.Assoc.{Assoc}
use aragorn.Notifier.{Report, Notifier, multi}
use aragorn.Server.Notifiers.{
  NotifierPlugin, gen_notifier_plugin, gen_notifiers, combine, gen_notifier,
}
use aragorn.Server.Notifiers.Multi.{notify_each, notify_some, gen_notifier-notify_each}

-- The notifiers "a" and "b" add one and ten; any other is not there.
abbrev find : Str → Option (NotifierPlugin Str ℕ)
find id =
    if str_eq id (codes "a")
    then some (record { zero_config = []; decode = λ b c. ok b; init = λ c. ok (λ r w. w + 1) })
    else if str_eq id (codes "b")
    then some (record { zero_config = []; decode = λ b c. ok b; init = λ c. ok (λ r w. w + 10) })
    else none

abbrev notifiers : Assoc Str
notifiers = (codes "a", []) ∷ (codes "c", []) ∷ (codes "b", []) ∷ []

abbrev both_notifiers : Notifier ℕ
both_notifiers = multi ((λ r w. w + 1) ∷ (λ r w. w + 10) ∷ [])

notifiers_set_up : gen_notifier find notifiers ≡ ok (some both_notifiers)
unfolding gen_notifier gen_notifiers gen_notifier_plugin combine str_eq ◌>>=◌
notifiers_set_up = refl

abbrev report : Report ℕ
report = record {
  suite = record { name = []; typ = []; failfast = false; tests = [] };
  start = pos 0;
  duration = pos 0;
  test_reports = [];
  nb_failed = 0;
}

gen_notifier-notify_each_example :
    notify_some find (some both_notifiers) report 5 ≡ notify_each find notifiers report 5
gen_notifier-notify_each_example =
    gen_notifier-notify_each find notifiers (some both_notifiers) notifiers_set_up report 5
