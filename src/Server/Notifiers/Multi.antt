-- ===== src/Server/Notifiers/Multi.antt =====
-- What the notifier of a configuration does.
use aragorn.Prelude.{
  Str, ◌≡◌, refl, ◌∙◌, Option, none, some, Outcome, ok, err, panic, >>=-eq-ok, List, [], ◌∷◌, subst,
}
use aragorn.Prelude.Assoc.{Assoc}
use aragorn.Notifier.{Report, Notifier, multi}
use aragorn.Server.Notifiers.{
  NotifierPlugin, gen_notifier_plugin, and_then, gen_notifiers, combine, gen_notifier,
}

module _ {C W : Type 0} (find : Str → Option (NotifierPlugin C W)) where
  -- A report to a notifier that was set up.
  abbrev pub deliver : Outcome Str (Notifier W) → Report W → W → W
  deliver (ok n) r w = n r w
  deliver (err e) r w = w
  deliver panic r w = w

  -- A report to each notifier of a configuration that can be set up, one after another.
  abbrev pub notify_each : Assoc Str → Report W → W → W
  notify_each [] r w = w
  notify_each ((id, b) ∷ m) r w = notify_each m r (deliver (gen_notifier_plugin find id b) r w)

  -- A report to a notifier, where there is one.
  abbrev pub notify_some : Option (Notifier W) → Report W → W → W
  notify_some none r w = w
  notify_some (some n) r w = n r w

  combine-multi :
      (ns : List (Notifier W)) (r : Report W) (w : W)
      → notify_some (combine find ns) r w ≡ multi ns r w
  unfolding combine multi
  combine-multi [] r w = refl
  combine-multi (n ∷ []) r w = refl
  combine-multi (n ∷ m ∷ ns) r w = refl

  gen_notifiers-each :
      (m : Assoc Str) (ns : List (Notifier W))
      → gen_notifiers find m ≡ ok ns
      → (r : Report W) (w : W) → multi ns r w ≡ notify_each m r w
  unfolding gen_notifiers multi and_then
  gen_notifiers-each [] ns h r w =
      let same : [] ≡ ns = cc h in subst (λ xs. multi xs r w ≡ w) same refl
  gen_notifiers-each ((id, b) ∷ m) ns h r w =
      each_more (gen_notifier_plugin find id b) (gen_notifiers find m) (gen_notifiers-each m) ns h
    where
      each_more :
          (o : Outcome Str (Notifier W)) (rest : Outcome Str (List (Notifier W)))
          → ((ms : List (Notifier W))
              → rest ≡ ok ms
              → (r : Report W) (w : W) → multi ms r w ≡ notify_each m r w)
          → (ns : List (Notifier W)) → and_then find o rest ≡ ok ns
          → multi ns r w ≡ notify_each m r (deliver o r w)
      each_more (ok n) rest k ns e =
          let (ms, found, same) = >>=-eq-ok rest _ e in
          let list : n ∷ ms ≡ ns = cc same in
          subst (λ xs. multi xs r w ≡ notify_each m r (n r w)) list (k ms found r (n r w))
      each_more (err e') rest k ns e = k ns e r w
      each_more panic rest k ns e = cc

  -- The notifier of a configuration passes a report on to each notifier of the configuration that can
  -- be set up, one after another, whether there is none, one or several; those that cannot be set up
  -- are left out.
  pub gen_notifier-notify_each :
      (m : Assoc Str) (o : Option (Notifier W))
      → gen_notifier find m ≡ ok o
      → (r : Report W) (w : W) → notify_some o r w ≡ notify_each m r w
  unfolding gen_notifier
  gen_notifier-notify_each m o h r w =
      let (ns, found, same) = >>=-eq-ok (gen_notifiers find m) _ h in
      let combined : combine find ns ≡ o = cc same in
      subst (λ x. notify_some x r w ≡ notify_each m r w) combined
        (combine-multi ns r w ∙ gen_notifiers-each m ns found r w)
