-- ===== src/Server/Load/Order.antt =====
-- `GenSuites` of server/config.go loads every suite of the configuration or none.
use aragorn.Prelude.{
  Str, codes, ◌≡◌, refl, subst, ◌↔◌, Option, none, some, ok, err, ◌>>=◌, >>=-eq-ok, wrap_err-eq-ok,
  List, [], ◌∷◌, ◌++◌,
}
use aragorn.Files.{get_file_path}
use aragorn.Server.Suite.{Suite}
use aragorn.Server.Options.{SuiteConfig, SuiteOption}
use aragorn.Server.Load.{Loader, gen_suite, gen_suites}

module _ {C W : Type 0} (l : Loader C W) (dir : Str) (options : List SuiteOption) where
  abbrev pub path_of : SuiteConfig → Str
  path_of scfg = get_file_path l.files dir scfg.path

  -- Entry by entry, the suites are those that the entries load.
  abbrev pub AllLoaded : List (Option SuiteConfig) → List (Suite W) → Type 0
  AllLoaded [] [] = Unit
  AllLoaded [] (_ ∷ _) = ⊥
  AllLoaded (_ ∷ _) [] = ⊥
  AllLoaded (none ∷ _) (_ ∷ _) = ⊥
  AllLoaded (some scfg ∷ scfgs) (s ∷ ss) =
      (gen_suite l (path_of scfg) scfg options ≡ ok s) × AllLoaded scfgs ss

  loaded_of :
      (scfgs : List (Option SuiteConfig)) (ss : List (Suite W))
      → gen_suites l dir scfgs options ≡ ok ss
      → AllLoaded scfgs ss
  unfolding gen_suites
  loaded_of [] [] h = tt
  loaded_of [] (_ ∷ _) h = cc
  loaded_of (none ∷ scfgs) ss h = cc
  loaded_of (some scfg ∷ scfgs) ss h =
      let (s, one, h1) = >>=-eq-ok _ _ h in
      let (rest, more, same) = >>=-eq-ok _ _ h1 in
      let list : s ∷ rest ≡ ss = cc same in
      subst (AllLoaded (some scfg ∷ scfgs)) list (wrap_err-eq-ok _ _ one, loaded_of scfgs rest more)

  of_loaded :
      (scfgs : List (Option SuiteConfig)) (ss : List (Suite W))
      → AllLoaded scfgs ss
      → gen_suites l dir scfgs options ≡ ok ss
  unfolding gen_suites ◌>>=◌
  of_loaded [] [] h = refl
  of_loaded [] (_ ∷ _) h = absurd h
  of_loaded (_ ∷ _) [] h = absurd h
  of_loaded (none ∷ _) (_ ∷ _) h = absurd h
  of_loaded (some scfg ∷ scfgs) (s ∷ ss) (one, more) = rw (one, of_loaded scfgs ss more)

  -- The suites of a configuration are loaded exactly when every entry is there and
  -- loads, and then they are those
  -- suites in the order of the entries.
  pub gen_suites-AllLoaded :
      (scfgs : List (Option SuiteConfig)) (ss : List (Suite W))
      → (gen_suites l dir scfgs options ≡ ok ss) ↔ AllLoaded scfgs ss
  gen_suites-AllLoaded scfgs ss = (loaded_of scfgs ss, of_loaded scfgs ss)

  -- The first entry that fails to load ends the loading with its error, behind the path of its file;
  -- the entries after it have no say.
  gen_suites_fails :
      (before after : List (Option SuiteConfig)) (scfg : SuiteConfig) (ss : List (Suite W))
      (e : Str)
      → AllLoaded before ss
      → gen_suite l (path_of scfg) scfg options ≡ err e
      → gen_suites l dir (before ++ some scfg ∷ after) options
        ≡ err (path_of scfg ++ (codes ": " ++ e))
  unfolding gen_suites ◌>>=◌
  gen_suites_fails [] after scfg ss e h bad = rw bad
  gen_suites_fails (_ ∷ _) after scfg [] e h bad = absurd h
  gen_suites_fails (none ∷ _) after scfg (_ ∷ _) e h bad = absurd h
  gen_suites_fails (some b ∷ before) after scfg (s ∷ ss) e (one, more) bad =
      rw (one, gen_suites_fails before after scfg ss e more bad)
