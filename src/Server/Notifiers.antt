-- ===== src/Server/Notifiers.antt =====
-- The notifiers of a configuration: `GenNotifier` of server/config.go.
pub mod Multi
mod Tests
use aragorn.Prelude.{
  Str, codes, Option, none, some, Outcome, ok, err, panic, wrap_err, ◌>>=◌, List, [], ◌∷◌, ◌++◌,
}
use aragorn.Prelude.Assoc.{Assoc}
use aragorn.Notifier.{Notifier, multi}

-- A registered notifier plugin, with a configuration of type `C`: its zero value, the decoding of JSON
-- over a value, and the initialisation.
pub record NotifierPlugin (C W : Type 0) : Type 0 where
  pub zero_config : C
  pub decode : Str → C → Outcome Str C
  pub init : C → Outcome Str (Notifier W)

module _ {C W : Type 0} (find : Str → Option (NotifierPlugin C W)) where
  set_up : Str → Option (NotifierPlugin C W) → Outcome Str (Notifier W)
  set_up b none = err (codes "plugin not found")
  set_up b (some reg) = do
    cfg ←
        wrap_err (λ e. codes "could not decode notifier config: " ++ e)
          (reg.decode b reg.zero_config)
    reg.init cfg

  -- `Config.genNotifierPlugin`; `find` is the lookup of a notifier in the registry.
  unfoldable pub gen_notifier_plugin : Str → Str → Outcome Str (Notifier W)
  unfolding set_up
  gen_notifier_plugin id b = set_up b (find id)

  and_then :
      Outcome Str (Notifier W) → Outcome Str (List (Notifier W)) → Outcome Str (List (Notifier W))
  and_then (ok n) rest = do ns ← rest; ok (n ∷ ns)
  and_then (err e) rest = rest
  and_then panic rest = panic

  -- The loop of `Config.GenNotifier`: a notifier that cannot be set up is left out.
  unfoldable pub gen_notifiers : Assoc Str → Outcome Str (List (Notifier W))
  unfolding gen_notifier_plugin and_then
  gen_notifiers [] = ok []
  gen_notifiers ((id, b) ∷ m) = and_then (gen_notifier_plugin id b) (gen_notifiers m)

  -- The last part of `Config.GenNotifier`.
  unfoldable pub combine : List (Notifier W) → Option (Notifier W)
  combine [] = none
  combine (n ∷ []) = some n
  combine (n ∷ m ∷ ns) = some (multi (n ∷ m ∷ ns))

  -- `Config.GenNotifier`
  unfoldable pub gen_notifier : Assoc Str → Outcome Str (Option (Notifier W))
  unfolding gen_notifiers combine
  gen_notifier m = do ns ← gen_notifiers m; ok (combine ns)
